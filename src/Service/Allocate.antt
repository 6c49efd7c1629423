-- ===== src/Service/Allocate.antt =====
-- runtime/service.py: `_round_robin_allocate`. A group is kept beside what was selected from it.
pub mod Fair
use lexicon_mcp.Prelude.{
  ℕ, zero, suc, ◌-◌, Bool, true, false, List, [], ◌∷◌, ◌++◌, map, Option, none, some, ◌==◌, nat_eq,
  get_elem?, if◌then◌else◌,
}

abbrev pub Groups {ℓ} : Type ℓ → Type ℓ
Groups A = List (List A × List A)

module _ {ℓ} {A : Type ℓ} where
  -- The `for` loop at a position: the groups, what remains of the budget, and `added`.
  unfoldable pub sweep : ℕ → ℕ → Groups A → Groups A × ℕ × Bool
  sweep position remaining [] = ([], remaining, false)
  sweep position remaining ((candidates, selected) ∷ gs) =
      let passed_over = sweep position remaining gs in
      let after = sweep position (remaining - 1) gs in
      elim (get_elem? candidates position) [
        | none ↦ ((candidates, selected) ∷ passed_over.0, passed_over.1, passed_over.2)
        | some c ↦
            if remaining - 1 == 0
            then ((candidates, selected ++ c ∷ []) ∷ gs, 0, true)
            else ((candidates, selected ++ c ∷ []) ∷ after.0, after.1, true)
      ]

  -- The `while` loop on fuel; `none` means that the fuel ran out.
  unfoldable pub sweeps : ℕ → ℕ → ℕ → Groups A → Option (Groups A)
  unfolding sweep
  sweeps zero position remaining gs = none
  sweeps (suc fuel) position remaining gs = elim (remaining == 0) [
    | true ↦ some gs
    | false ↦
        let (gs', remaining', added) = sweep position remaining gs in
        elim added [ true ↦ sweeps fuel (suc position) remaining' gs' | false ↦ some gs' ]
  ]

  abbrev pub unselected : List (List A) → Groups A
  unselected = map (λ candidates. (candidates, []))

  abbrev pub selections : Groups A → List (List A)
  selections = map (λ g. g.1)

  unfoldable pub round_robin_allocate : List (List A) → ℕ → Option (List (List A))
  unfolding sweeps
  round_robin_allocate candidate_lists budget =
      elim (sweeps (suc budget) 0 budget (unselected candidate_lists)) [
        | none ↦ none
        | some gs ↦ some (selections gs)
      ]
