-- ===== src/Prelude/Permuted.antt =====
-- Sorting forgets the order: permuted lists are sorted to the same list, and back.
use mathlib.Core.Path.{◌≡◌, refl, ap, subst, ◌∙◌}
use mathlib.Core.Logic.{◌↔◌, inl, inr, ∥∥₁_elim}
use mathlib.Core.Bool.{false}
use mathlib.Core.List.{List, [], ◌∷◌, Perm, Permᴰ}
use mathlib.Core.List
use mathlib.Core.List.Perm
use mathlib.Core.HLevel.{hedberg, ×_prop}
use native.Mathlib.Omega.{arith}
use lexicon_mcp.Prelude.Tests.{Bool-cases}
use lexicon_mcp.Prelude.Equality.{Eq, ◌==◌, string_eq, bool_eq, contains, IsDistinct}
use Prim.Native.String.{String}
use lexicon_mcp.Prelude.Order.{Ord, insert_sorted, sorted}

-- An equality test decides, so the equations of its type are propositions.
pub Eq-set {ℓ} : {A : Type ℓ} ⦃e : Eq A⦄ → IsSet A
Eq-set {A} ⦃e⦄ = hedberg decide
  where
    decide : Discrete A
    decide a b = elim (Bool-cases (a == b)) [
      | inl same ↦ Dec.yes ((e.beq_iff a b).0 same)
      | inr other ↦ Dec.no (λ p. ground (arith, (e.beq_iff a b).1 p, other))
    ]

pub String-set : IsSet String
String-set = Eq-set

module _ {ℓ} {A : Type ℓ} ⦃o : Ord A⦄ where
  insert_sorted-insert_sorted :
      (a b : A) (xs : List A)
      → insert_sorted a (insert_sorted b xs) ≡ insert_sorted b (insert_sorted a xs)
  unfolding insert_sorted
  insert_sorted-insert_sorted a b [] = ground (arith, o.le_total a b, o.le_antisym a b)
  insert_sorted-insert_sorted a b (x ∷ xs) = ground (
    arith,
    o.le_total a b,
    o.le_antisym a b,
    o.le_total a x,
    o.le_total b x,
    o.le_trans a b x,
    o.le_trans b a x,
    o.le_trans a x b,
    o.le_trans b x a,
    insert_sorted-insert_sorted a b xs,
  )

  insert_sorted-perm : (a : A) (xs : List A) → Perm (insert_sorted a xs) (a ∷ xs)
  unfolding insert_sorted
  insert_sorted-perm a [] = Perm.rfl
  insert_sorted-perm a (x ∷ xs) = elim (Bool-cases (o.le a x)) [
    | inl below ↦ rw below Perm.rfl
    | inr above ↦ rw above (Perm.trans (Perm.cons x (insert_sorted-perm a xs)) (Perm.swap a x xs))
  ]

  pub sorted-perm : (xs : List A) → Perm (sorted xs) xs
  unfolding sorted
  sorted-perm [] = Perm.rfl
  sorted-perm (x ∷ xs) =
      Perm.trans (insert_sorted-perm x (sorted xs)) (Perm.cons x (sorted-perm xs))

  sorted_of_permᴰ : {xs ys : List A} → Permᴰ xs ys → sorted xs ≡ sorted ys
  unfolding sorted
  sorted_of_permᴰ Permᴰ.nil = refl
  sorted_of_permᴰ (Permᴰ.cons p d) = cc (sorted_of_permᴰ d)
  sorted_of_permᴰ (Permᴰ.swap {a} {b} {l = l} p q) = insert_sorted-insert_sorted a b (sorted l) ∙ cc
  sorted_of_permᴰ (Permᴰ.trans d d') = sorted_of_permᴰ d ∙ sorted_of_permᴰ d'

  pub sorted_of_perm : IsSet A → (xs ys : List A) → Perm xs ys → sorted xs ≡ sorted ys
  sorted_of_perm set xs ys p = ∥∥₁_elim p (List.is_set set _ _) sorted_of_permᴰ

  -- Two lists are sorted to the same list exactly if one is a permutation of the other.
  pub sorted-eq_iff : IsSet A → (xs ys : List A) → (sorted xs ≡ sorted ys) ↔ Perm xs ys
  sorted-eq_iff set xs ys = (
    λ same. Perm.trans (rw same at (Perm.symm (sorted-perm xs))) (sorted-perm ys),
    sorted_of_perm set xs ys,
  )

module _ {ℓ} {A : Type ℓ} ⦃e : Eq A⦄ where
  contains-permᴰ : {xs ys : List A} → Permᴰ xs ys → (a : A) → contains xs a ≡ contains ys a
  contains-permᴰ Permᴰ.nil a = refl
  contains-permᴰ (Permᴰ.cons {a = x} {b = y} p d) a = ground (arith, contains-permᴰ d a, p)
  contains-permᴰ (Permᴰ.swap {a = x} {b = y} {l = l} p q) a =
      ground (arith, ap (λ z. z == a) p, ap (λ z. z == a) q)
  contains-permᴰ (Permᴰ.trans d d') a = contains-permᴰ d a ∙ contains-permᴰ d' a

  pub contains-perm : {xs ys : List A} → Perm xs ys → (a : A) → contains xs a ≡ contains ys a
  contains-perm p a = ∥∥₁_elim p (Eq-set ⦃e = bool_eq⦄ _ _) (λ d. contains-permᴰ d a)

  IsDistinct-prop : (xs : List A) → IsProp (IsDistinct xs)
  IsDistinct-prop [] = hlevel
  IsDistinct-prop (x ∷ xs) = ×_prop (Eq-set ⦃e = bool_eq⦄ _ _) (IsDistinct-prop xs)

  IsDistinct-permᴰ : {xs ys : List A} → Permᴰ xs ys → IsDistinct xs → IsDistinct ys
  IsDistinct-permᴰ Permᴰ.nil h = h
  IsDistinct-permᴰ (Permᴰ.cons {a = x} {b = y} p d) h =
      (ground (arith, contains-permᴰ d x, p, h.0), IsDistinct-permᴰ d h.1)
  IsDistinct-permᴰ (Permᴰ.swap {a = x} {b = y} {b' = z} {l = l} p q) h =
      let other : (x == y) ≡ false = ground (arith, h.0, e.beq_iff x y, e.beq_iff y x) in
      let swapped : IsDistinct (y ∷ x ∷ l) =
        (ground (arith, h.1.0, other), (ground (arith, h.0), h.1.1)) in
      subst (λ w. IsDistinct (w ∷ z ∷ l)) q (subst (λ w. IsDistinct (y ∷ w ∷ l)) p swapped)
  IsDistinct-permᴰ (Permᴰ.trans d d') h = IsDistinct-permᴰ d' (IsDistinct-permᴰ d h)

  pub IsDistinct-perm : {xs ys : List A} → Perm xs ys → IsDistinct xs → IsDistinct ys
  IsDistinct-perm {xs} {ys} p h = ∥∥₁_elim p (IsDistinct-prop ys) (λ d. IsDistinct-permᴰ d h)
