-- ===== src/Service/Weave/Counts.antt =====
-- How many rows the columns hold, and what they keep.
use lexicon_mcp.Prelude.{
  ℕ, zero, suc, ◌+◌, ◌-◌, min, List, [], ◌∷◌, some, length, get_elem?, length-append, take-suc-none,
  get_elem?-lt, sum_by, ◌≡◌, refl, ap, subst, ◌∙◌, arith, Option-cases, inl, inr, All, All-append,
}
use lexicon_mcp.Service.Weave.Laws.{column, columns, AllWithin, AllWithin-le}

module _ {ℓ} {A : Type ℓ} where
  length-column :
      (n p : ℕ) (bs : List (List A))
      → length (column p bs) + sum_by (λ b. min n (length b - suc p)) bs
        ≡ sum_by (λ b. min (suc n) (length b - p)) bs
  length-column n p [] = refl
  length-column n p (b ∷ bs) = elim (Option-cases (get_elem? b p)) [
    | inl passed ↦
        rw (passed, column) (omega (arith, length-column n p bs, (take-suc-none p b passed).1))
    | inr (r, next) ↦
        rw (next, column) (omega (arith, length-column n p bs, get_elem?-lt p b r next))
  ]

  length-columns :
      (n p : ℕ) (bs : List (List A))
      → length (columns n p bs) ≡ sum_by (λ b. min n (length b - p)) bs
  length-columns zero p [] = refl
  length-columns zero p (b ∷ bs) = omega (arith, length-columns zero p bs)
  length-columns (suc n) p bs =
      length-append (column p bs) (columns n (suc p) bs)
      ∙ ap (λ m. length (column p bs) + m) (length-columns n (suc p) bs)
      ∙ length-column n p bs

  sum_within :
      (n : ℕ) (bs : List (List A))
      → AllWithin n bs
      → sum_by (λ b. min n (length b - 0)) bs ≡ sum_by length bs
  sum_within n [] w = refl
  sum_within n (b ∷ bs) w = omega (arith, sum_within n bs w.1, w.0)

  -- No row of the buckets is lost.
  pub length-columns_all :
      (n : ℕ) (bs : List (List A)) → AllWithin n bs → length (columns n 0 bs) ≡ sum_by length bs
  length-columns_all n bs w = length-columns n 0 bs ∙ sum_within n bs w

  pub AllWithin-sum : (bs : List (List A)) → AllWithin (sum_by length bs) bs
  AllWithin-sum [] = tt
  AllWithin-sum (b ∷ bs) = (
    omega arith,
    AllWithin-le (sum_by length bs) (length b + sum_by length bs) bs (AllWithin-sum bs)
        (omega arith),
  )

  pub columns-All {κ} :
      (P : A → Type κ) (n p : ℕ) (bs : List (List A)) → All (All P) bs → All P (columns n p bs)
  columns-All P zero p bs h = tt
  columns-All P (suc n) p bs h =
      All-append P (column p bs) (columns n (suc p) bs) (column-All bs h)
        (columns-All P n (suc p) bs h)
    where
      get-All : (n : ℕ) (xs : List A) (x : A) → get_elem? xs n ≡ some x → All P xs → P x
      get-All n [] x e h = cc
      get-All zero (y ∷ ys) x e h = let same : y ≡ x = cc e in subst P same h.0
      get-All (suc n) (y ∷ ys) x e h = get-All n ys x e h.1

      column-All : (bs : List (List A)) → All (All P) bs → All P (column p bs)
      column-All [] h = tt
      column-All (b ∷ bs) h = elim (Option-cases (get_elem? b p)) [
        | inl passed ↦ rw (passed, column) (column-All bs h.1)
        | inr (r, next) ↦ rw (next, column) (get-All p b r next h.0, column-All bs h.1)
      ]
