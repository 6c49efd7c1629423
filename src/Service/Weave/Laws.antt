-- ===== src/Service/Weave/Laws.antt =====
-- The round robin takes the rows column by column, and as many as the limit allows.
use mathlib.Core.List.{append-nil, append_assoc}
use lexicon_mcp.Prelude.{
  ℕ, zero, suc, ◌+◌, ◌-◌, ◌≤◌, ◌<◌, true, false, List, [], ◌∷◌, ◌++◌, none, some, ◌==◌, nat_eq, ltb,
  length, take, get_elem?, length-append, take_all, take-suc-none, length-take, length-take-le,
  get_elem?-lt, is_nonempty, ◌≡◌, refl, ap, sym, ◌∙◌, arith, Bool-cases, Option-cases, inl, inr,
  All,
}
use lexicon_mcp.Service.Weave.{weave_sweep, weave_sweeps, weave}

module _ {ℓ} {A : Type ℓ} where
  -- The rows that stand at a position of their buckets.
  abbrev pub column : ℕ → List (List A) → List A
  column p [] = []
  column p (b ∷ bs) = elim (get_elem? b p) [ none ↦ column p bs | some r ↦ r ∷ column p bs ]

  -- `n` columns from a position on.
  abbrev pub columns : ℕ → ℕ → List (List A) → List A
  columns zero p bs = []
  columns (suc n) p bs = column p bs ++ columns n (suc p) bs

  take-take-append : (n : ℕ) (xs ys : List A) → take n (take n xs ++ ys) ≡ take n (xs ++ ys)
  take-take-append zero xs ys = refl
  take-take-append (suc n) [] ys = refl
  take-take-append (suc n) (x ∷ xs) ys = ap (◌∷◌ x) (take-take-append n xs ys)

  take_full : (n : ℕ) (xs ys : List A) → length xs ≡ n → take n (xs ++ ys) ≡ xs
  take_full zero [] ys h = refl
  take_full zero (x ∷ xs) ys h = absurd (omega arith)
  take_full (suc n) [] ys h = absurd (omega arith)
  take_full (suc n) (x ∷ xs) ys h = ap (◌∷◌ x) (take_full n xs ys (omega arith))

  weave_sweep_lem :
      (limit p : ℕ) (out : List A) (bs : List (List A))
      → length out < limit
      → ((weave_sweep limit p out bs).0 ≡ take limit (out ++ column p bs))
        × ((weave_sweep limit p out bs).1 ≡ is_nonempty (column p bs))
  unfolding weave_sweep
  weave_sweep_lem limit p out [] h =
      (sym (ap (take limit) (append-nil out) ∙ take_all out limit (omega arith)), refl)
  weave_sweep_lem limit p out (b ∷ bs) h = elim (Option-cases (get_elem? b p)) [
    | inl passed ↦ rw (passed, weave_sweep, column) (weave_sweep_lem limit p out bs h)
    | inr (r, next) ↦
        let longer : length (out ++ r ∷ []) ≡ length out + 1 = length-append out (r ∷ []) in
        let regroup : (out ++ r ∷ []) ++ column p bs ≡ out ++ r ∷ column p bs =
          append_assoc out (r ∷ []) (column p bs) in
        elim (Bool-cases (length (out ++ r ∷ []) == limit)) [
          | inl full ↦
              rw (next, weave_sweep, column, full)
                (
                  sym (
                      ap (take limit) (sym regroup)
                      ∙ take_full limit (out ++ r ∷ []) (column p bs) (ground (arith, full))),
                  refl,
                )
          | inr room ↦
              rw (next, weave_sweep, column, room)
                (
                  (weave_sweep_lem limit p (out ++ r ∷ []) bs (ground (arith, room, longer))).0
                      ∙ ap (take limit) regroup,
                  refl,
                )
        ]
  ]

  -- No bucket has a row at the position or behind it.
  abbrev pub AllWithin : ℕ → List (List A) → Type 0
  AllWithin p bs = All (λ b. length b ≤ p) bs

  AllWithin-of_column :
      (p : ℕ) (bs : List (List A)) → is_nonempty (column p bs) ≡ false → AllWithin p bs
  AllWithin-of_column p [] h = tt
  AllWithin-of_column p (b ∷ bs) h = elim (Option-cases (get_elem? b p)) [
    | inl passed ↦
        ((take-suc-none p b passed).1, AllWithin-of_column p bs (rw (passed, column) at h))
    | inr (r, next) ↦ absurd (ground (arith, h, next))
  ]

  column_of_AllWithin : (p q : ℕ) (bs : List (List A)) → AllWithin p bs → p ≤ q → column q bs ≡ []
  column_of_AllWithin p q [] h k = refl
  column_of_AllWithin p q (b ∷ bs) h k = elim (Option-cases (get_elem? b q)) [
    | inl passed ↦ rw (passed, column) (column_of_AllWithin p q bs h.1 k)
    | inr (r, next) ↦ absurd (omega (arith, get_elem?-lt q b r next, h.0))
  ]

  columns_of_AllWithin :
      (n p q : ℕ) (bs : List (List A)) → AllWithin p bs → p ≤ q → columns n q bs ≡ []
  columns_of_AllWithin zero p q bs h k = refl
  columns_of_AllWithin (suc n) p q bs h k =
      ap (λ l. l ++ columns n (suc q) bs) (column_of_AllWithin p q bs h k)
      ∙ columns_of_AllWithin n p (suc q) bs h (omega arith)

  pub AllWithin-le : (p q : ℕ) (bs : List (List A)) → AllWithin p bs → p ≤ q → AllWithin q bs
  AllWithin-le p q [] h k = tt
  AllWithin-le p q (b ∷ bs) h k = (omega (arith, h.0), AllWithin-le p q bs h.1 k)

  -- One round that took something has taken at least one row.
  grown :
      (limit : ℕ) (out col : List A)
      → length out < limit
      → is_nonempty col ≡ true
      → length out < length (take limit (out ++ col))
  grown limit out [] h k = absurd (ground (arith, k))
  grown limit out (r ∷ col) h k =
      omega (arith, length-take limit (out ++ r ∷ col), length-append out (r ∷ col))

  columns-step :
      (n p : ℕ) (bs : List (List A))
      → AllWithin (p + n) bs
      → is_nonempty (column p bs) ≡ true
      → (0 < n) × (columns n p bs ≡ column p bs ++ columns (n - 1) (suc p) bs)
  columns-step zero p bs w busy = absurd (
      ground (
        arith,
        busy,
        column_of_AllWithin p p bs (AllWithin-le (p + 0) p bs w (omega arith)) (omega arith),
      ))
  columns-step (suc n) p bs w busy =
      (omega arith, ap (λ m. column p bs ++ columns m (suc p) bs) (omega arith))

  weave_sweeps_lem :
      (fuel limit n p : ℕ) (out : List A) (bs : List (List A))
      → limit < fuel + length out
      → length out ≤ limit
      → AllWithin (p + n) bs
      → weave_sweeps fuel limit p out bs ≡ some (take limit (out ++ columns n p bs))
  unfolding weave_sweeps
  weave_sweeps_lem zero limit n p out bs f h w = absurd (omega arith)
  weave_sweeps_lem (suc fuel) limit n p out bs f h w = elim (Bool-cases (ltb (length out) limit)) [
    | inr full ↦
        rw (full, weave_sweeps)
          (ap some (sym (take_full limit out (columns n p bs) (ground (arith, full)))))
    | inl room ↦
        let (taken, some_added) = weave_sweep_lem limit p out bs (ground (arith, room)) in
        elim (Bool-cases (is_nonempty (column p bs))) [
          | inr idle ↦
              let none_left = AllWithin-of_column p bs idle in
              let nothing : columns n p bs ≡ [] =
                columns_of_AllWithin n p p bs none_left (omega arith) in
              let still : column p bs ≡ [] = column_of_AllWithin p p bs none_left (omega arith) in
              rw (room, weave_sweeps, some_added, idle)
                (ap some (taken ∙ ap (λ l. take limit (out ++ l)) (still ∙ sym nothing)))
          | inl busy ↦
              let (more, split) = columns-step n p bs w busy in
              let next = take limit (out ++ column p bs) in
              let longer = grown limit out (column p bs) (ground (arith, room)) busy in
              let bound = length-take-le limit (out ++ column p bs) in
              let rest =
                weave_sweeps_lem fuel limit (n - 1) (suc p) next bs (omega (arith, longer)) bound
                  (AllWithin-le (p + n) (suc p + (n - 1)) bs w (omega arith)) in
              rw (room, weave_sweeps, some_added, busy, taken)
                (rest
                  ∙ ap some (
                      take-take-append limit (out ++ column p bs) (columns (n - 1) (suc p) bs)
                      ∙ ap (take limit) (
                          append_assoc out (column p bs) (columns (n - 1) (suc p) bs)
                          ∙ ap (λ l. out ++ l) (sym split))))
        ]
  ]

  -- Behind the rows that were there already, the others column by column, as many as the limit
  -- allows.
  pub weave_lem :
      (limit n : ℕ) (out : List A) (bs : List (List A))
      → length out ≤ limit
      → AllWithin n bs
      → weave limit out bs ≡ some (take limit (out ++ columns n 0 bs))
  unfolding weave
  weave_lem limit n out bs h w =
      weave_sweeps_lem (suc limit) limit n 0 out bs (omega arith) h
        (AllWithin-le n (0 + n) bs w (omega arith))
