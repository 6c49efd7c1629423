-- ===== src/Prelude/Equality.antt =====
-- Python's `==` and `in`, and the lists without duplicates that stand for sets.
use Prim.Native.Nat.{ℕ, compare, Ordering}
use Prim.Native.String.{String}
use mathlib.Core.Path.{◌≡◌, refl, ap, ◌∙◌}
use mathlib.Core.Logic.{◌↔◌, inl, inr}
use mathlib.Core.Bool.{Bool, true, false, not, ◌&&◌, ◌||◌}
use mathlib.Core.Option.{Option, none, some}
use mathlib.Core.List.{List, [], ◌∷◌, ◌++◌}
use native.Mathlib.Omega.{arith}
use text.Mathlib.Text.{◌==◌ as str_eq}
use text.Mathlib.TextEquality.{eq_iff}
use lexicon_mcp.Prelude.Tests.{if◌then◌else◌, Bool-cases}

pub record Eq {ℓ} (A : Type ℓ) : Type ℓ where
  pub beq : A → A → Bool
  pub beq_iff : (a b : A) → (beq a b ≡ true) ↔ (a ≡ b)

abbrev pub nat_beq : ℕ → ℕ → Bool
nat_beq a b = elim (compare a b) [ Ordering.eq ↦ true | _ ↦ false ]

pub nat_beq_iff : (a b : ℕ) → (nat_beq a b ≡ true) ↔ (a ≡ b)
nat_beq_iff a b = ground arith

infix 50 ◌==◌
abbrev pub ◌==◌ {ℓ} : {A : Type ℓ} ⦃eq : Eq A⦄ → A → A → Bool
◌==◌ ⦃eq⦄ = eq.beq

instance abbrev pub nat_eq : Eq ℕ
nat_eq = record { beq = nat_beq; beq_iff = nat_beq_iff }

instance abbrev pub string_eq : Eq String
string_eq = record { beq = str_eq; beq_iff = eq_iff }

abbrev pub bool_beq : Bool → Bool → Bool
bool_beq true b = b
bool_beq false b = not b

pub bool_beq_iff : (a b : Bool) → (bool_beq a b ≡ true) ↔ (a ≡ b)
bool_beq_iff a b = ground arith

instance abbrev pub bool_eq : Eq Bool
bool_eq = record { beq = bool_beq; beq_iff = bool_beq_iff }

module _ {ℓ} {A : Type ℓ} ⦃e : Eq A⦄ where
  abbrev pub list_beq : List A → List A → Bool
  list_beq [] [] = true
  list_beq [] (y ∷ ys) = false
  list_beq (x ∷ xs) [] = false
  list_beq (x ∷ xs) (y ∷ ys) = x == y && list_beq xs ys

  pub list_beq_iff : (xs ys : List A) → (list_beq xs ys ≡ true) ↔ (xs ≡ ys)
  list_beq_iff [] [] = ground arith
  list_beq_iff [] (y ∷ ys) = ground arith
  list_beq_iff (x ∷ xs) [] = ground arith
  list_beq_iff (x ∷ xs) (y ∷ ys) = ground (arith, e.beq_iff x y, list_beq_iff xs ys)

  instance abbrev pub list_eq : Eq (List A)
  list_eq = record { beq = list_beq; beq_iff = list_beq_iff }

module _ {ℓ κ} {A : Type ℓ} {B : Type κ} ⦃e : Eq A⦄ ⦃f : Eq B⦄ where
  abbrev pub pair_beq : A × B → A × B → Bool
  pair_beq p q = p.0 == q.0 && p.1 == q.1

  pub pair_beq_iff : (p q : A × B) → (pair_beq p q ≡ true) ↔ (p ≡ q)
  pair_beq_iff (a, b) (c, d) = ground (arith, e.beq_iff a c, f.beq_iff b d)

  instance abbrev pub pair_eq : Eq (A × B)
  pair_eq = record { beq = pair_beq; beq_iff = pair_beq_iff }

module _ {ℓ} {A : Type ℓ} ⦃e : Eq A⦄ where
  abbrev pub option_beq : Option A → Option A → Bool
  option_beq none none = true
  option_beq none (some b) = false
  option_beq (some a) none = false
  option_beq (some a) (some b) = a == b

  pub option_beq_iff : (x y : Option A) → (option_beq x y ≡ true) ↔ (x ≡ y)
  option_beq_iff none none = ground arith
  option_beq_iff none (some b) = ground arith
  option_beq_iff (some a) none = ground arith
  option_beq_iff (some a) (some b) = ground (arith, e.beq_iff a b)

  instance abbrev pub option_eq : Eq (Option A)
  option_eq = record { beq = option_beq; beq_iff = option_beq_iff }

module _ {ℓ} {A : Type ℓ} ⦃e : Eq A⦄ where
  -- `a in xs`
  abbrev pub contains : List A → A → Bool
  contains [] a = false
  contains (x ∷ xs) a = x == a || contains xs a

  pub beq_refl : (a : A) → (a == a) ≡ true
  beq_refl a = (e.beq_iff a a).1 refl

  pub contains-append :
      (xs ys : List A) (a : A) → contains (xs ++ ys) a ≡ (contains xs a || contains ys a)
  contains-append [] ys a = refl
  contains-append (x ∷ xs) ys a = ground (arith, contains-append xs ys a)

  -- `if a not in xs: xs.append(a)`
  abbrev pub append_new : List A → A → List A
  append_new xs a = if contains xs a then xs else xs ++ a ∷ []

  -- the same for each item of `ys` in turn, as `set.update` does
  abbrev pub append_all_new : List A → List A → List A
  append_all_new xs [] = xs
  append_all_new xs (y ∷ ys) = append_all_new (append_new xs y) ys

  pub contains_eq : (xs : List A) (a b : A) → a ≡ b → contains xs a ≡ contains xs b
  contains_eq xs a b p = ap (contains xs) p

  pub contains-append_new :
      (xs : List A) (b a : A) → contains (append_new xs b) a ≡ (contains xs a || b == a)
  contains-append_new xs b a = elim (Bool-cases (contains xs b)) [
    | inl old ↦ ground (arith, e.beq_iff b a, contains_eq xs a b)
    | inr new ↦ rw new (contains-append xs (b ∷ []) a ∙ ground arith)
  ]

  pub contains-append_all_new :
      (ys xs : List A) (a : A)
      → contains (append_all_new xs ys) a ≡ (contains xs a || contains ys a)
  contains-append_all_new [] xs a = ground arith
  contains-append_all_new (y ∷ ys) xs a =
      ground (arith, contains-append_all_new ys (append_new xs y) a, contains-append_new xs y a)

  -- No item stands twice.
  abbrev pub IsDistinct : List A → Type 0
  IsDistinct [] = Unit
  IsDistinct (x ∷ xs) = (contains xs x ≡ false) × IsDistinct xs

  pub IsDistinct-snoc :
      (xs : List A) (a : A) → IsDistinct xs → contains xs a ≡ false → IsDistinct (xs ++ a ∷ [])
  IsDistinct-snoc [] a d h = (refl, tt)
  IsDistinct-snoc (x ∷ xs) a d h = (
    contains-append xs (a ∷ []) x ∙ ground (arith, e.beq_iff a x, beq_refl a),
    IsDistinct-snoc xs a d.1 (ground arith),
  )

  -- What a list without duplicates holds on one side of a cut it does not hold on the other.
  pub IsDistinct-apart :
      (xs ys : List A) (a : A)
      → IsDistinct (xs ++ ys)
      → contains xs a ≡ true
      → contains ys a ≡ false
  IsDistinct-apart [] ys a d h = cc
  IsDistinct-apart (x ∷ xs) ys a d h = ground (
    arith,
    e.beq_iff x a,
    IsDistinct-apart xs ys a d.1,
    contains-append xs ys x,
    contains_eq ys x a,
  )

  pub IsDistinct-append :
      (xs ys : List A)
      → IsDistinct xs
      → IsDistinct ys
      → ((a : A) → contains ys a ≡ true → contains xs a ≡ false)
      → IsDistinct (xs ++ ys)
  IsDistinct-append [] ys d f h = f
  IsDistinct-append (x ∷ xs) ys d f h = (
    contains-append xs ys x ∙ ground (arith, d.0, h x, beq_refl x),
    IsDistinct-append xs ys d.1 f (λ a m. ground (arith, h a m)),
  )

  pub append_new-IsDistinct : (xs : List A) (a : A) → IsDistinct xs → IsDistinct (append_new xs a)
  append_new-IsDistinct xs a d = elim (Bool-cases (contains xs a)) [
    | inl old ↦ rw old d
    | inr new ↦ rw new (IsDistinct-snoc xs a d new)
  ]

  pub append_all_new-IsDistinct :
      (ys xs : List A) → IsDistinct xs → IsDistinct (append_all_new xs ys)
  append_all_new-IsDistinct [] xs d = d
  append_all_new-IsDistinct (y ∷ ys) xs d =
      append_all_new-IsDistinct ys (append_new xs y) (append_new-IsDistinct xs y d)

  -- `set(xs)`, as a list
  abbrev pub distinct : List A → List A
  distinct xs = append_all_new [] xs

  -- Two lists hold the same items, however often.
  abbrev pub SameMembers : List A → List A → Type ℓ
  SameMembers xs ys = (a : A) → contains xs a ≡ contains ys a
