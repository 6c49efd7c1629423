-- ===== src/Install/Exec.antt =====
-- Methods that write and may raise: the state comes back beside the error too, since what was
-- written before a raise stays written.
use mathlib.Core.Path.{◌≡◌, refl}
use lexicon_mcp.Prelude.{Bool, true, false, Result, ok, err, lock_busy, if◌then◌else◌}

abbrev pub Exec {ℓ} : Type ℓ → Type ℓ → Type ℓ
Exec S A = S → Result A × S

module _ {ℓ} {S A : Type ℓ} where
  abbrev pub pure : A → Exec S A
  pure a s = (ok a, s)

  abbrev pub lift : Result A → Exec S A
  lift r s = (r, s)

  -- A read, which may raise.
  abbrev pub ask : (S → Result A) → Exec S A
  ask f s = (f s, s)

module _ {ℓ} {S A B : Type ℓ} where
  abbrev pub continue : Result A → (A → Exec S B) → Exec S B
  continue (ok a) f s = f a s
  continue (err e) f s = (err e, s)

  infixl 5 ◌>>=◌ ◌>>◌
  abbrev pub ◌>>=◌ : Exec S A → (A → Exec S B) → Exec S B
  ◌>>=◌ m f s = continue (m s).0 f (m s).1

  abbrev pub ◌>>◌ : Exec S A → Exec S B → Exec S B
  m >> n = m >>= λ _. n

-- A block that returned has run its first step and then the rest.
pub >>=-eq-ok {ℓ} :
    {S A B : Type ℓ} (m : Exec S A) (f : A → Exec S B) (s : S) {b : B} {t : S}
    → (m >>= f) s ≡ (ok b, t)
    → (a : A) × (s' : S) × (m s ≡ (ok a, s')) × (f a s' ≡ (ok b, t))
>>=-eq-ok {S = S} {A = A} {B = B} m f s {b} {t} h = split (m s).0 (m s).1 refl h
  where
    split :
        (x : Result A) (s' : S)
        → m s ≡ (x, s')
        → continue x f s' ≡ (ok b, t)
        → (a : A) × (s'' : S) × (m s ≡ (ok a, s'')) × (f a s'' ≡ (ok b, t))
    split (ok a) s' e k = (a, s', e, k)
    split (err x) s' e k = cc

-- So for a first step that only reads or computes.
pub continue-eq-ok {ℓ} :
    {S A B : Type ℓ} (x : Result A) (f : A → Exec S B) (s : S) {b : B} {t : S}
    → continue x f s ≡ (ok b, t)
    → (a : A) × (x ≡ ok a) × (f a s ≡ (ok b, t))
continue-eq-ok (ok a) f s h = (a, refl, h)
continue-eq-ok (err e) f s h = cc

-- A block that returned has had the lock.
pub unlocked {ℓ} :
    {S A : Type ℓ} (busy : Bool) (s t : S) (body : Result A × S) {b : A}
    → (if busy then (err lock_busy, s) else body) ≡ (ok b, t)
    → body ≡ (ok b, t)
unlocked true s t body h = cc
unlocked false s t body h = h
