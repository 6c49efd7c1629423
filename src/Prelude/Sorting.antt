-- ===== src/Prelude/Sorting.antt =====
-- What `sorted` keeps, and that a sorted list without duplicates is fixed by its members.
use Prim.Native.Nat.{ℕ, ◌+◌}
use mathlib.Core.Path.{◌≡◌, refl, ap₂, ◌∙◌, sym}
use mathlib.Core.Logic.{inl, inr}
use mathlib.Core.Bool.{true, false, ◌||◌}
use mathlib.Core.List.{List, [], ◌∷◌}
use native.Mathlib.Omega.{arith}
use lexicon_mcp.Prelude.Tests.{Bool-cases}
use lexicon_mcp.Prelude.Lists.{sum_by}
use lexicon_mcp.Prelude.Equality.{
  Eq, ◌==◌, contains, beq_refl, contains_eq, IsDistinct, SameMembers, distinct,
  append_all_new-IsDistinct, contains-append_all_new,
}
use lexicon_mcp.Prelude.Order.{Ord, insert_sorted, sorted, Above, IsSorted}

module _ {ℓ} {A : Type ℓ} ⦃o : Ord A⦄ where
  Above-trans : (a b : A) (xs : List A) → o.le a b ≡ true → Above b xs → Above a xs
  Above-trans a b [] h k = tt
  Above-trans a b (x ∷ xs) h k = (o.le_trans a b x h k.0, Above-trans a b xs h k.1)

  Above-insert_sorted :
      (a b : A) (xs : List A) → o.le a b ≡ true → Above a xs → Above a (insert_sorted b xs)
  unfolding insert_sorted
  Above-insert_sorted a b [] h k = (h, tt)
  Above-insert_sorted a b (x ∷ xs) h k = elim (Bool-cases (o.le b x)) [
    | inl below ↦ rw below (h, (k.0, k.1))
    | inr above ↦ rw above (k.0, Above-insert_sorted a b xs h k.1)
  ]

  insert_sorted-IsSorted : (a : A) (xs : List A) → IsSorted xs → IsSorted (insert_sorted a xs)
  unfolding insert_sorted
  insert_sorted-IsSorted a [] s = (tt, tt)
  insert_sorted-IsSorted a (x ∷ xs) s = elim (Bool-cases (o.le a x)) [
    | inl below ↦ rw below ((below, Above-trans a x xs below s.0), (s.0, s.1))
    | inr above ↦ rw above (
      Above-insert_sorted x a xs (ground (arith, o.le_total a x)) s.0,
      insert_sorted-IsSorted a xs s.1,
    )
  ]

  pub sorted-IsSorted : (xs : List A) → IsSorted (sorted xs)
  unfolding sorted
  sorted-IsSorted [] = tt
  sorted-IsSorted (x ∷ xs) = insert_sorted-IsSorted x (sorted xs) (sorted-IsSorted xs)

  sum_by-insert_sorted :
      (f : A → ℕ) (a : A) (xs : List A) → sum_by f (insert_sorted a xs) ≡ f a + sum_by f xs
  unfolding insert_sorted
  sum_by-insert_sorted f a [] = refl
  sum_by-insert_sorted f a (x ∷ xs) = ground (arith, sum_by-insert_sorted f a xs)

  pub sum_by-sorted : (f : A → ℕ) (xs : List A) → sum_by f (sorted xs) ≡ sum_by f xs
  unfolding sorted
  sum_by-sorted f [] = refl
  sum_by-sorted f (x ∷ xs) = omega (arith, sum_by-insert_sorted f x (sorted xs), sum_by-sorted f xs)

module _ {ℓ} {A : Type ℓ} ⦃e : Eq A⦄ ⦃o : Ord A⦄ where
  contains-insert_sorted :
      (a b : A) (xs : List A) → contains (insert_sorted b xs) a ≡ (b == a || contains xs a)
  unfolding insert_sorted
  contains-insert_sorted a b [] = refl
  contains-insert_sorted a b (x ∷ xs) = ground (arith, contains-insert_sorted a b xs)

  pub contains-sorted : (a : A) (xs : List A) → contains (sorted xs) a ≡ contains xs a
  unfolding sorted
  contains-sorted a [] = refl
  contains-sorted a (x ∷ xs) = rw contains-insert_sorted (ground (arith, contains-sorted a xs))

  insert_sorted-IsDistinct :
      (a : A) (xs : List A)
      → contains xs a ≡ false
      → IsDistinct xs
      → IsDistinct (insert_sorted a xs)
  unfolding insert_sorted
  insert_sorted-IsDistinct a [] h d = (refl, tt)
  insert_sorted-IsDistinct a (x ∷ xs) h d = elim (Bool-cases (o.le a x)) [
    | inl below ↦ rw below (h, (d.0, d.1))
    | inr above ↦ rw above (
      contains-insert_sorted x a xs ∙ ground (arith, e.beq_iff a x, beq_refl a, e.beq_iff x a),
      insert_sorted-IsDistinct a xs (ground arith) d.1,
    )
  ]

  pub sorted-IsDistinct : (xs : List A) → IsDistinct xs → IsDistinct (sorted xs)
  unfolding sorted
  sorted-IsDistinct [] d = tt
  sorted-IsDistinct (x ∷ xs) d =
      insert_sorted-IsDistinct x (sorted xs) (contains-sorted x xs ∙ d.0) (sorted-IsDistinct xs d.1)

  le_of_contains : (a x : A) (xs : List A) → Above a xs → contains xs x ≡ true → o.le a x ≡ true
  le_of_contains a x [] k h = cc
  le_of_contains a x (y ∷ ys) k h = elim (Bool-cases (y == x)) [
    | inl same ↦ rw (sym ((e.beq_iff y x).0 same)) k.0
    | inr other ↦ le_of_contains a x ys k.1 (ground arith)
  ]

  -- A sorted list without duplicates is fixed by its members.
  pub eq_of_SameMembers :
      (xs ys : List A)
      → IsSorted xs
      → IsSorted ys
      → IsDistinct xs
      → IsDistinct ys
      → SameMembers xs ys
      → xs ≡ ys
  eq_of_SameMembers [] [] s t d f m = refl
  eq_of_SameMembers [] (y ∷ ys) s t d f m = ground (arith, m y, beq_refl y)
  eq_of_SameMembers (x ∷ xs) [] s t d f m = ground (arith, m x, beq_refl x)
  eq_of_SameMembers (x ∷ xs) (y ∷ ys) s t d f m = ap₂ ◌∷◌ heads (
      eq_of_SameMembers xs ys s.1 t.1 d.1 f.1 λ a.
        ground
          (arith, heads, m a, e.beq_iff x a, e.beq_iff y a, contains_eq xs x a, contains_eq ys y a))
    where
      heads : x ≡ y
      heads = elim (Bool-cases (x == y)) [
        | inl same ↦ (e.beq_iff x y).0 same
        | inr other ↦
            o.le_antisym x y (le_of_contains x y xs s.0 (ground (arith, m y, beq_refl y))) (
              le_of_contains y x ys t.0
                (ground (arith, m x, beq_refl x, e.beq_iff x y, e.beq_iff y x)))
      ]

  -- `sorted(set(xs))` depends on the members of `xs` alone.
  pub sorted-distinct :
      (xs ys : List A) → SameMembers xs ys → sorted (distinct xs) ≡ sorted (distinct ys)
  sorted-distinct xs ys m =
      eq_of_SameMembers _ _ (sorted-IsSorted _) (sorted-IsSorted _)
        (sorted-IsDistinct _ (append_all_new-IsDistinct xs [] tt))
        (sorted-IsDistinct _ (append_all_new-IsDistinct ys [] tt))
        λ a.
          contains-sorted a (distinct xs)
          ∙ contains-append_all_new xs [] a
          ∙ m a
          ∙ sym (contains-append_all_new ys [] a)
          ∙ sym (contains-sorted a (distinct ys))
