-- ===== src/Pipeline/Plan/Bounds.antt =====
-- `plan_lexical_packs`: how large the packs are.
use lexicon_mcp.Prelude.{
  All, All-snoc, ℕ, ◌+◌, ◌<◌, ◌≤◌, true, false, List, [], ◌∷◌, ◌++◌, leb, length, is_nonempty,
  is_nonempty-snoc, sum_by, sum_by-append, sum_by-sorted, sorted, ok, ◌≡◌, refl, ap, sym, ◌∙◌,
  subst, arith, Bool-cases, ◌⊎◌, inl, inr, if◌then◌else◌,
}
use mathlib.Core.List.{append-nil}
use lexicon_mcp.Pipeline.Plan.{
  LanguageSize, PlannedPack, Planning, bundle_pack, size_ord, flush, estimate, add_individual,
  add_to_bundle, place, place_all, nothing_planned, plan_lexical_packs,
}
use lexicon_mcp.Pipeline.Plan.Covers.{place_heavy, place_light, plan-checked}

module _ (threshold target bytes : ℕ) where
  -- A pack of one language that is worth it, or one that has just reached the target.
  abbrev pub IsFilled : PlannedPack → Type 0
  IsFilled p =
      ((length p.languages ≡ 1) × (threshold ≤ p.estimated_compressed))
      ⊎ ((target ≤ p.estimated_compressed) × (p.estimated_compressed < target + threshold))

  -- The packs that are done, and the bundle that has room.
  record IsFair (s : Planning) : Type 0 where
    filled : All IsFilled s.packs
    room : s.bundle_bytes < target
    weightless : is_nonempty s.bundle ≡ false → s.bundle_bytes ≡ 0

  -- What the packs and the bundle weigh.
  abbrev weight : Planning → ℕ
  weight s = sum_by (λ p. p.estimated_compressed) s.packs + s.bundle_bytes

  abbrev emptied : Planning → Planning
  emptied s = record { packs = s.packs ++ bundle_pack s ∷ []; bundle = []; bundle_bytes = 0 }

  flush-full : (s : Planning) → is_nonempty s.bundle ≡ true → flush s ≡ emptied s
  unfolding flush
  flush-full s h = rw h

  -- A size becomes a pack of its own, or it closes the bundle, or the bundle has room for more.
  place-cases :
      (x : LanguageSize) (s : Planning)
      → let t = add_to_bundle threshold target bytes x s in
        ((place threshold target bytes x s ≡ add_individual threshold target bytes x s)
          × (threshold ≤ estimate threshold target bytes x))
        ⊎ (((place threshold target bytes x s ≡ emptied t)
              × (target ≤ t.bundle_bytes)
              × (estimate threshold target bytes x < threshold))
            ⊎ ((place threshold target bytes x s ≡ t) × (t.bundle_bytes < target)))
  place-cases x s =
      let t = add_to_bundle threshold target bytes x s in
      elim (Bool-cases (leb threshold (estimate threshold target bytes x))) [
        | inl heavy ↦ inl (place_heavy threshold target bytes x s heavy, ground arith)
        | inr light ↦ elim (Bool-cases (leb target t.bundle_bytes)) [
          | inl full ↦
              let closed : flush t ≡ emptied t = flush-full t (is_nonempty-snoc s.bundle x) in
              inr (
                inl (
                  place_light threshold target bytes x s light ∙ rw full closed,
                  ground arith,
                  ground arith,
                ))
          | inr open_still ↦
              let same : (if leb target t.bundle_bytes then flush t else t) ≡ t =
                rw open_still refl in
              inr (inr (place_light threshold target bytes x s light ∙ same, ground arith))
        ]
      ]

  place-IsFair :
      (x : LanguageSize) (s : Planning)
      → 1 ≤ target
      → IsFair s
      → IsFair (place threshold target bytes x s)
  place-IsFair x s positive v = elim (place-cases x s) [
    | inl (e, heavy) ↦ subst IsFair (sym e) (record {
      filled = All-snoc IsFilled s.packs _ v.filled (inl (refl, heavy));
      room = v.room;
      weightless = v.weightless;
    })
    | inr (inl (e, full, light)) ↦ subst IsFair (sym e) (record {
      filled =
          All-snoc IsFilled s.packs (bundle_pack (add_to_bundle threshold target bytes x s))
            v.filled (inr (full, omega (arith, v.room)));
      room = positive;
      weightless = λ _. refl;
    })
    | inr (inr (e, room)) ↦ subst IsFair (sym e) (record {
      filled = v.filled;
      room = room;
      weightless = λ none_left. absurd (ground (arith, is_nonempty-snoc s.bundle x, none_left));
    })
  ]

  place-weight :
      (x : LanguageSize) (s : Planning)
      → weight (place threshold target bytes x s) ≡ weight s + estimate threshold target bytes x
  place-weight x s = elim (place-cases x s) [
    | inl (e, heavy) ↦
        ap weight e ∙ omega (arith, sum_by-append {0} (λ p. p.estimated_compressed) s.packs)
    | inr (inl (e, full, light)) ↦
        ap weight e ∙ omega (arith, sum_by-append {0} (λ p. p.estimated_compressed) s.packs)
    | inr (inr (e, room)) ↦ ap weight e ∙ omega arith
  ]

  place_all-IsFair :
      (xs : List LanguageSize) (s : Planning)
      → 1 ≤ target
      → IsFair s
      → IsFair (place_all threshold target bytes xs s)
  unfolding place_all
  place_all-IsFair [] s positive v = v
  place_all-IsFair (x ∷ xs) s positive v =
      place_all-IsFair xs (place threshold target bytes x s) positive (place-IsFair x s positive v)

  place_all-weight :
      (xs : List LanguageSize) (s : Planning)
      → weight (place_all threshold target bytes xs s)
        ≡ weight s + sum_by (estimate threshold target bytes) xs
  unfolding place_all
  place_all-weight [] s = omega arith
  place_all-weight (x ∷ xs) s =
      omega (arith, place_all-weight xs (place threshold target bytes x s), place-weight x s)

  -- What the last `flush` adds: nothing, or the bundle that is left.
  flush_rest :
      (s : Planning)
      → IsFair s
      → (rest : List PlannedPack) × ((flush s).packs ≡ s.packs ++ rest)
        × (length rest ≤ 1)
        × All (λ p. p.estimated_compressed < target) rest
        × (sum_by (λ p. p.estimated_compressed) (flush s).packs ≡ weight s)
  unfolding flush
  flush_rest s v = elim (Bool-cases (is_nonempty s.bundle)) [
    | inl some_left ↦ (
      bundle_pack s ∷ [],
      rw some_left refl,
      omega arith,
      (v.room, tt),
      rw some_left (omega (arith, sum_by-append {0} (λ p. p.estimated_compressed) s.packs)),
    )
    | inr none_left ↦ (
      [],
      rw none_left (sym (append-nil s.packs)),
      omega arith,
      tt,
      rw none_left (omega (arith, v.weightless none_left)),
    )
  ]

-- In a plan that is made each pack holds one language that is worth it, or has reached the target
-- and is less than one such language above it; at most one more pack, the last, stays below the
-- target. The packs together weigh what the languages weigh.
pub plan_bounds :
    (sizes : List LanguageSize) (threshold target bytes : ℕ) (ps : List PlannedPack)
    → plan_lexical_packs sizes threshold target bytes ≡ ok ps
    → (filled rest : List PlannedPack) × (ps ≡ filled ++ rest)
      × All (IsFilled threshold target bytes) filled
      × (length rest ≤ 1)
      × All (λ p. p.estimated_compressed < target) rest
      × (sum_by (λ p. p.estimated_compressed) ps ≡ sum_by (estimate threshold target bytes) sizes)
plan_bounds sizes threshold target bytes ps h =
    let (usable, _, at) = plan-checked sizes threshold target bytes ps h in
    let s = place_all threshold target bytes (sorted sizes) nothing_planned in
    let fair =
      place_all-IsFair threshold target bytes (sorted sizes) nothing_planned
        (ground (arith, usable))
        (record { filled = tt; room = ground (arith, usable); weightless = λ _. refl }) in
    let (rest, parts, few, light, sum) = flush_rest threshold target bytes s fair in
    (
      s.packs,
      rest,
      sym at ∙ parts,
      fair.filled,
      few,
      light,
      ap (sum_by (λ p. p.estimated_compressed)) (sym at)
          ∙ sum
          ∙ omega (
            arith,
            place_all-weight threshold target bytes (sorted sizes) nothing_planned,
            sum_by-sorted (estimate threshold target bytes) sizes,
          ),
    )
