-- ===== src/Store/Prune.antt =====
-- What `ComponentStore.prune` removes, and what it keeps also when it fails.
use lexicon_mcp.Prelude.{
  String, true, not, List, [], ◌∷◌, ◌++◌, none, ◌≡◌, refl, string_eq, contains, filter, all, lookup,
  erase, lookup-erase, ok, if◌then◌else◌, eq_iff, arith, Bool-cases, inl, inr, ◌∙◌, ap, sym,
}
use mathlib.Core.List.{append_assoc, append-nil}
use lexicon_mcp.Text.{sha256_re}
use lexicon_mcp.Store.{Store, iter_digests, can_delete, prune_each, prune}

abbrev pub unreferenced : List String → List String → List String
unreferenced keep = filter (λ d. not (contains keep d))

module _ {B : Type 0} where
  prune_each_kept :
      (keep ds removed : List String) (s : Store B) (j : String)
      → contains keep j ≡ true
      → lookup j (prune_each keep ds removed s).1.objects ≡ lookup j s.objects
  unfolding prune_each
  prune_each_kept keep [] removed s j h = refl
  prune_each_kept keep (d ∷ ds) removed s j h = ground (
    arith,
    prune_each_kept keep ds removed s j,
    prune_each_kept keep ds (removed ++ d ∷ []) (record s { objects = erase d s.objects }) j,
    lookup-erase d j s.objects,
    eq_iff d j,
  )

  -- Whether it succeeds or fails, pruning leaves every kept digest as it was.
  pub prune_kept :
      (keep : List String) (s : Store B) (j : String)
      → contains keep j ≡ true
      → lookup j (prune keep s).1.objects ≡ lookup j s.objects
  unfolding prune
  prune_kept keep s j h = ground (arith, prune_each_kept keep (iter_digests s) [] s j)

  prune_each_ok :
      (keep ds removed out : List String) (s : Store B)
      → (prune_each keep ds removed s).0 ≡ ok out
      → (out ≡ removed ++ unreferenced keep ds)
        × ((j : String)
            → lookup j (prune_each keep ds removed s).1.objects
              ≡ (if contains (unreferenced keep ds) j then none else lookup j s.objects))
  unfolding prune_each
  prune_each_ok keep [] removed out s h = (ground (arith, append-nil removed), λ j. refl)
  prune_each_ok keep (d ∷ ds) removed out s h = elim (Bool-cases (contains keep d)) [
    | inl kept ↦
        rw (kept, prune_each) (prune_each_ok keep ds removed out s (rw (kept, prune_each) at h))
    | inr new ↦ elim (Bool-cases (can_delete (lookup d s.objects))) [
      | inr stuck ↦ absurd (ground arith)
      | inl free ↦
          let t = record s { objects = erase d s.objects } in
          let (e, f) =
            prune_each_ok keep ds (removed ++ d ∷ []) out t (rw (new, free, prune_each) at h) in
          rw (new, free, prune_each)
            (
              e ∙ append_assoc removed (d ∷ []) (unreferenced keep ds),
              λ j. f j ∙ ground (arith, lookup-erase d j s.objects),
            )
    ]
  ]

  -- A successful pruning removes the stored digests that are not to be kept, in their order, and
  -- reports exactly those; every other entry stays.
  pub prune_removed :
      (keep out : List String) (s : Store B)
      → (prune keep s).0 ≡ ok out
      → (out ≡ unreferenced keep (iter_digests s))
        × ((j : String)
            → lookup j (prune keep s).1.objects
              ≡ (if contains out j then none else lookup j s.objects))
  unfolding prune
  prune_removed keep out s h = elim (Bool-cases (all sha256_re keep)) [
    | inr bad ↦ absurd (ground arith)
    | inl good ↦
        let (e, f) = prune_each_ok keep (iter_digests s) [] out s (rw (good, prune) at h) in
        rw (good, prune)
          (e, λ j. f j ∙ ap (λ l. if contains l j then none else lookup j s.objects) (sym e))
  ]
