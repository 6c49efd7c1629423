-- ===== src/Service/Weave.antt =====
-- runtime/service.py: the round robin over buckets of rows, up to a number of rows, as
-- `_rank_oriented_relation_rows` and `take_round_robin` of `_transitive_frontier_rows` have it.
pub mod Laws
pub mod Counts
pub mod Buckets
use lexicon_mcp.Prelude.{
  ℕ, zero, suc, ◌-◌, Bool, true, false, List, [], ◌∷◌, ◌++◌, Option, none, some, ◌==◌, Eq, nat_eq,
  ltb, length, get_elem?, if◌then◌else◌,
}

module _ {ℓ} {A : Type ℓ} where
  -- The `for` loop at a position: the rows that were taken, and `added`.
  unfoldable pub weave_sweep : ℕ → ℕ → List A → List (List A) → List A × Bool
  weave_sweep limit position out [] = (out, false)
  weave_sweep limit position out (b ∷ bs) =
      let passed_over = weave_sweep limit position out bs in
      elim (get_elem? b position) [
        | none ↦ passed_over
        | some r ↦
            let after = weave_sweep limit position (out ++ r ∷ []) bs in
            if length (out ++ r ∷ []) == limit then (out ++ r ∷ [], true) else (after.0, true)
      ]

  -- The `while` loop on fuel; `none` means that the fuel ran out.
  unfoldable pub weave_sweeps : ℕ → ℕ → ℕ → List A → List (List A) → Option (List A)
  unfolding weave_sweep
  weave_sweeps zero limit position out buckets = none
  weave_sweeps (suc fuel) limit position out buckets = elim (ltb (length out) limit) [
    | false ↦ some out
    | true ↦
        let (out', added) = weave_sweep limit position out buckets in
        elim added [
          | true ↦ weave_sweeps fuel limit (suc position) out' buckets
          | false ↦ some out'
        ]
  ]

  unfoldable pub weave : ℕ → List A → List (List A) → Option (List A)
  unfolding weave_sweeps
  weave limit out buckets = weave_sweeps (suc limit) limit 0 out buckets

module _ {K : Type 0} ⦃e : Eq K⦄ {A : Type 0} where
  -- `buckets.setdefault(key, []).append(row)`
  unfoldable pub add_to_bucket : K → A → List (K × List A) → List (K × List A)
  add_to_bucket k r [] = (k, r ∷ []) ∷ []
  add_to_bucket k r ((j, b) ∷ bs) =
      if j == k then (j, b ++ r ∷ []) ∷ bs else (j, b) ∷ add_to_bucket k r bs

  -- The buckets of the rows, in the order of their keys' first rows.
  unfoldable pub fill_buckets : (A → K) → List (K × List A) → List A → List (K × List A)
  unfolding add_to_bucket
  fill_buckets key bs [] = bs
  fill_buckets key bs (r ∷ rs) = fill_buckets key (add_to_bucket (key r) r bs) rs
