-- ===== src/Keys/Sorted.antt =====
-- What the stable sort keeps and how it orders.
use mathlib.Core.List.{Perm}
use mathlib.Core.List.Perm
use lexicon_mcp.Prelude.{
  ℕ, suc, ◌+◌, All, List, [], ◌∷◌, map, length, sum_by, sorted, insert_sorted, sorted-IsSorted,
  IsSorted, ◌≡◌, refl, ap, sym, ◌∙◌, subst, arith, Bool-cases, inl, inr,
}
use lexicon_mcp.Keys.{Key, key_le, key_ord, insert_by, sorted_by}

module _ {ℓ} {A : Type ℓ} (key : A → Key) where
  map-insert_by :
      (a : A) (xs : List A) → map key (insert_by key a xs) ≡ insert_sorted (key a) (map key xs)
  unfolding insert_by insert_sorted
  map-insert_by a [] = refl
  map-insert_by a (x ∷ xs) = ground (arith, map-insert_by a xs)

  pub map-sorted_by : (xs : List A) → map key (sorted_by key xs) ≡ sorted (map key xs)
  unfolding sorted_by sorted
  map-sorted_by [] = refl
  map-sorted_by (x ∷ xs) =
      map-insert_by x (sorted_by key xs) ∙ ap (insert_sorted (key x)) (map-sorted_by xs)

  -- The keys of the sorted list ascend.
  pub sorted_by-IsSorted : (xs : List A) → IsSorted (map key (sorted_by key xs))
  sorted_by-IsSorted xs = subst IsSorted (sym (map-sorted_by xs)) (sorted-IsSorted (map key xs))

  insert_by-perm : (a : A) (xs : List A) → Perm (insert_by key a xs) (a ∷ xs)
  unfolding insert_by
  insert_by-perm a [] = Perm.rfl
  insert_by-perm a (x ∷ xs) = elim (Bool-cases (key_le (key a) (key x))) [
    | inl below ↦ rw below Perm.rfl
    | inr above ↦ rw above (Perm.trans (Perm.cons x (insert_by-perm a xs)) (Perm.swap a x xs))
  ]

  pub sorted_by-perm : (xs : List A) → Perm (sorted_by key xs) xs
  unfolding sorted_by
  sorted_by-perm [] = Perm.rfl
  sorted_by-perm (x ∷ xs) =
      Perm.trans (insert_by-perm x (sorted_by key xs)) (Perm.cons x (sorted_by-perm xs))

  pub sorted_by-All {κ} : (P : A → Type κ) (xs : List A) → All P xs → All P (sorted_by key xs)
  unfolding sorted_by insert_by
  sorted_by-All P [] h = tt
  sorted_by-All P (x ∷ xs) h = insert-All x (sorted_by key xs) h.0 (sorted_by-All P xs h.1)
    where
      insert-All : (a : A) (xs : List A) → P a → All P xs → All P (insert_by key a xs)
      insert-All a [] p h = (p, tt)
      insert-All a (x ∷ xs) p h = elim (Bool-cases (key_le (key a) (key x))) [
        | inl below ↦ rw (below, insert_by) (p, h)
        | inr above ↦ rw (above, insert_by) (h.0, insert-All a xs p h.1)
      ]

  sum_by-insert_by :
      (f : A → ℕ) (a : A) (xs : List A) → sum_by f (insert_by key a xs) ≡ f a + sum_by f xs
  unfolding insert_by
  sum_by-insert_by f a [] = refl
  sum_by-insert_by f a (x ∷ xs) = ground (arith, sum_by-insert_by f a xs)

  pub sum_by-sorted_by : (f : A → ℕ) (xs : List A) → sum_by f (sorted_by key xs) ≡ sum_by f xs
  unfolding sorted_by
  sum_by-sorted_by f [] = refl
  sum_by-sorted_by f (x ∷ xs) =
      omega (arith, sum_by-insert_by f x (sorted_by key xs), sum_by-sorted_by f xs)

  length-insert_by : (a : A) (xs : List A) → length (insert_by key a xs) ≡ suc (length xs)
  unfolding insert_by
  length-insert_by a [] = refl
  length-insert_by a (x ∷ xs) = ground (arith, length-insert_by a xs)

  pub length-sorted_by : (xs : List A) → length (sorted_by key xs) ≡ length xs
  unfolding sorted_by
  length-sorted_by [] = refl
  length-sorted_by (x ∷ xs) =
      omega (arith, length-insert_by x (sorted_by key xs), length-sorted_by xs)
