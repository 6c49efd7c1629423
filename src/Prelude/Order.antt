-- ===== src/Prelude/Order.antt =====
-- Python's `sorted`, by a total order, and the order of strings by code points.
use Prim.Native.String.{String}
use Prim.Native.Char.{code}
use mathlib.Core.Path.{◌≡◌, refl, ap₂}
use mathlib.Core.Logic.{◌⊎◌, inl, inr}
use mathlib.Core.Bool.{Bool, true, false, ◌&&◌}
use mathlib.Core.List.{List, [], ◌∷◌}
use native.Mathlib.Omega.{arith}
use text.Mathlib.TextEquality.{Char-path}
use lexicon_mcp.Prelude.Tests.{if◌then◌else◌, ltb, leb}

pub record Ord {ℓ} (A : Type ℓ) : Type ℓ where
  pub le : A → A → Bool
  pub le_total : (a b : A) → (le a b ≡ true) ⊎ (le b a ≡ true)
  pub le_antisym : (a b : A) → le a b ≡ true → le b a ≡ true → a ≡ b
  pub le_trans : (a b c : A) → le a b ≡ true → le b c ≡ true → le a c ≡ true

unfoldable pub string_le : String → String → Bool
string_le String.[] t = true
string_le (String.◌∷◌ c s) String.[] = false
string_le (String.◌∷◌ c s) (String.◌∷◌ d t) =
    if ltb (code c) (code d) then true else leb (code c) (code d) && string_le s t

pub string_le_total : (s t : String) → (string_le s t ≡ true) ⊎ (string_le t s ≡ true)
unfolding string_le
string_le_total String.[] t = inl refl
string_le_total (String.◌∷◌ c s) String.[] = inr refl
string_le_total (String.◌∷◌ c s) (String.◌∷◌ d t) = ground (arith, string_le_total s t)

pub string_le_antisym : (s t : String) → string_le s t ≡ true → string_le t s ≡ true → s ≡ t
unfolding string_le
string_le_antisym String.[] String.[] h k = refl
string_le_antisym String.[] (String.◌∷◌ d t) h k = cc
string_le_antisym (String.◌∷◌ c s) String.[] h k = cc
string_le_antisym (String.◌∷◌ c s) (String.◌∷◌ d t) h k =
    ap₂ String.◌∷◌ (Char-path c d (ground arith))
      (string_le_antisym s t (ground arith) (ground arith))

pub string_le_trans :
    (s t u : String) → string_le s t ≡ true → string_le t u ≡ true → string_le s u ≡ true
unfolding string_le
string_le_trans String.[] t u h k = refl
string_le_trans (String.◌∷◌ c s) String.[] u h k = cc
string_le_trans (String.◌∷◌ c s) (String.◌∷◌ d t) String.[] h k = cc
string_le_trans (String.◌∷◌ c s) (String.◌∷◌ d t) (String.◌∷◌ e u) h k =
    ground (arith, string_le_trans s t u)

instance abbrev pub string_ord : Ord String
string_ord = record {
  le = string_le;
  le_total = string_le_total;
  le_antisym = string_le_antisym;
  le_trans = string_le_trans;
}

module _ {ℓ} {A : Type ℓ} ⦃o : Ord A⦄ where
  unfoldable pub insert_sorted : A → List A → List A
  insert_sorted a [] = a ∷ []
  insert_sorted a (x ∷ xs) = if o.le a x then a ∷ x ∷ xs else x ∷ insert_sorted a xs

  unfoldable pub sorted : List A → List A
  unfolding insert_sorted
  sorted [] = []
  sorted (x ∷ xs) = insert_sorted x (sorted xs)

  -- Every item is at least `a`.
  abbrev pub Above : A → List A → Type 0
  Above a [] = Unit
  Above a (x ∷ xs) = (o.le a x ≡ true) × Above a xs

  abbrev pub IsSorted : List A → Type 0
  IsSorted [] = Unit
  IsSorted (x ∷ xs) = Above x xs × IsSorted xs
