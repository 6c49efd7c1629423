-- ===== src/Prelude/Outcome.antt =====
-- Python's exceptions as values: the class of what was raised, and the blocks that may raise.
use mathlib.Core.Path.{◌≡◌, refl}
use mathlib.Core.Logic.{◌⊎◌, inl, inr}
use mathlib.Core.Bool.{Bool, true, false}
use mathlib.Core.List.{List, [], ◌∷◌}

-- The classes that the modelled code raises. Messages are not kept.
pub data Error : Type 0 where
  manifest_error selection_error activation_error store_error lifecycle_error space_error : Error
  lock_busy os_error key_error router_error programming_error runtime_error value_error : Error
  type_error index_error : Error

pub data Result {ℓ} (A : Type ℓ) : Type ℓ where
  err : Error → Result A
  ok : A → Result A

pub ok-injective {ℓ} : {A : Type ℓ} {a b : A} → ok a ≡ ok b → a ≡ b
ok-injective p = cc

module _ {ℓ κ} {A : Type ℓ} {B : Type κ} where
  infixl 5 ◌>>=◌
  -- The next block runs on the value, unless there is none.
  abbrev pub ◌>>=◌ : Result A → (A → Result B) → Result B
  err x >>= k = err x
  ok a >>= k = k a

  -- A chain that returned has returned at each of its blocks.
  pub >>=-eq-ok :
      (r : Result A) (k : A → Result B) {y : B}
      → (r >>= k) ≡ ok y
      → (a : A) × (r ≡ ok a) × (k a ≡ ok y)
  >>=-eq-ok (err x) k h = cc
  >>=-eq-ok (ok a) k h = (a, refl, h)

infixl 5 ◌>>◌
-- A check, and what follows if it passes.
abbrev pub ◌>>◌ {κ} : {B : Type κ} → Result (Unit {0}) → Result B → Result B
check >> next = check >>= λ _. next

-- `if b: raise E(...)`
abbrev pub raise_if : Bool → Error → Result (Unit {0})
raise_if true e = err e
raise_if false e = ok tt

-- `if not b: raise E(...)`
abbrev pub require : Bool → Error → Result (Unit {0})
require true e = ok tt
require false e = err e

pub require-eq-ok {ℓ} :
    {A : Type ℓ} (b : Bool) (e : Error) (m : Result A) {a : A}
    → (require b e >> m) ≡ ok a
    → (b ≡ true) × (m ≡ ok a)
require-eq-ok true e m h = (refl, h)
require-eq-ok false e m h = cc

pub raise_if-eq-ok {ℓ} :
    {A : Type ℓ} (b : Bool) (e : Error) (m : Result A) {a : A}
    → (raise_if b e >> m) ≡ ok a
    → (b ≡ false) × (m ≡ ok a)
raise_if-eq-ok true e m h = cc
raise_if-eq-ok false e m h = (refl, h)

-- `[f(x) for x in xs]`, where `f` may raise
abbrev pub map_ok {ℓ κ} : {A : Type ℓ} {B : Type κ} → (A → Result B) → List A → Result (List B)
map_ok f [] = ok []
map_ok f (x ∷ xs) = do y ← f x; ys ← map_ok f xs; ok (y ∷ ys)

-- What holds of the value, if there is one.
abbrev pub OnOk {ℓ κ} : {A : Type ℓ} → (A → Type κ) → Result A → Type κ
OnOk P (ok a) = P a
OnOk P (err e) = Unit

pub Result-cases {ℓ} :
    {A : Type ℓ} (r : Result A) → ((a : A) × (r ≡ ok a)) ⊎ ((e : Error) × (r ≡ err e))
Result-cases (ok a) = inl (a, refl)
Result-cases (err e) = inr (e, refl)
