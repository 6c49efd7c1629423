-- ===== src/Keys.antt =====
-- The tuples of integers and texts by which the program sorts, and Python's stable sort by a key.
pub mod Sorted
use lexicon_mcp.Prelude.{
  ℕ, zero, suc, String, Bool, true, false, List, [], ◌∷◌, ◌++◌, ◌==◌, Eq, Ord, string_le,
  string_le_total, string_le_antisym, string_le_trans, string_eq, if◌then◌else◌, ◌≡◌, refl, ap₂,
  ◌⊎◌, inl, inr, arith, ◌↔◌, Bool-cases,
}
use lexicon_mcp.Json.{ℤ, pos, negsuc}
use lexicon_mcp.Json.Integers.{int_leb, int_leb_total, int_leb_antisym, int_leb_trans}

pub data Part : Type 0 where
  num : ℤ → Part
  text : String → Part

abbrev pub Key : Type 0
Key = List Part

-- -n
abbrev pub minus : ℕ → ℤ
minus zero = pos 0
minus (suc n) = negsuc n

-- Parts at one place of a tuple are of one kind, so a number and a text never meet.
abbrev pub part_le : Part → Part → Bool
part_le (num a) (num b) = int_leb a b
part_le (num a) (text t) = true
part_le (text s) (num b) = false
part_le (text s) (text t) = string_le s t

unfoldable pub key_le : Key → Key → Bool
key_le [] k = true
key_le (x ∷ xs) [] = false
key_le (x ∷ xs) (y ∷ ys) = if part_le x y then if part_le y x then key_le xs ys else true else false

part_le_total : (x y : Part) → (part_le x y ≡ true) ⊎ (part_le y x ≡ true)
part_le_total (num a) (num b) = int_leb_total a b
part_le_total (num a) (text t) = inl refl
part_le_total (text s) (num b) = inr refl
part_le_total (text s) (text t) = string_le_total s t

part_le_antisym : (x y : Part) → part_le x y ≡ true → part_le y x ≡ true → x ≡ y
part_le_antisym (num a) (num b) h k = cc (int_leb_antisym a b h k)
part_le_antisym (num a) (text t) h k = cc
part_le_antisym (text s) (num b) h k = cc
part_le_antisym (text s) (text t) h k = cc (string_le_antisym s t h k)

part_le_trans : (x y z : Part) → part_le x y ≡ true → part_le y z ≡ true → part_le x z ≡ true
part_le_trans (num a) (num b) (num c) h k = int_leb_trans a b c h k
part_le_trans (num a) (num b) (text u) h k = refl
part_le_trans (num a) (text t) (num c) h k = cc
part_le_trans (num a) (text t) (text u) h k = refl
part_le_trans (text s) (num b) z h k = cc
part_le_trans (text s) (text t) (num c) h k = cc
part_le_trans (text s) (text t) (text u) h k = string_le_trans s t u h k

pub key_le_total : (k l : Key) → (key_le k l ≡ true) ⊎ (key_le l k ≡ true)
unfolding key_le
key_le_total [] l = inl refl
key_le_total (x ∷ xs) [] = inr refl
key_le_total (x ∷ xs) (y ∷ ys) = ground (arith, part_le_total x y, key_le_total xs ys)

pub key_le_antisym : (k l : Key) → key_le k l ≡ true → key_le l k ≡ true → k ≡ l
unfolding key_le
key_le_antisym [] [] h k = refl
key_le_antisym [] (y ∷ ys) h k = cc
key_le_antisym (x ∷ xs) [] h k = cc
key_le_antisym (x ∷ xs) (y ∷ ys) h k =
    ap₂ ◌∷◌ (part_le_antisym x y (ground arith) (ground arith))
      (key_le_antisym xs ys (ground arith) (ground arith))

pub key_le_trans : (k l m : Key) → key_le k l ≡ true → key_le l m ≡ true → key_le k m ≡ true
unfolding key_le
key_le_trans [] l m h k = refl
key_le_trans (x ∷ xs) [] m h k = cc
key_le_trans (x ∷ xs) (y ∷ ys) [] h k = cc
key_le_trans (x ∷ xs) (y ∷ ys) (z ∷ zs) h k =
    ground
      (arith, part_le_trans x y z, part_le_trans z x y, part_le_trans y z x, key_le_trans xs ys zs)

instance abbrev pub key_ord : Ord Key
key_ord = record {
  le = key_le;
  le_total = key_le_total;
  le_antisym = key_le_antisym;
  le_trans = key_le_trans;
}

-- Two keys are equal if each is at most the other.
abbrev pub key_beq : Key → Key → Bool
key_beq k l = if key_le k l then key_le l k else false

pub key_beq_iff : (k l : Key) → (key_beq k l ≡ true) ↔ (k ≡ l)
key_beq_iff k l = (
  λ h. key_le_antisym k l (ground arith) (ground arith),
  λ e. rw e (ground (arith, key_le_total l l)),
)

instance abbrev pub key_eq : Eq Key
key_eq = record { beq = key_beq; beq_iff = key_beq_iff }

module _ {ℓ} {A : Type ℓ} (key : A → Key) where
  unfoldable pub insert_by : A → List A → List A
  insert_by a [] = a ∷ []
  insert_by a (x ∷ xs) = if key_le (key a) (key x) then a ∷ x ∷ xs else x ∷ insert_by a xs

  -- `sorted(xs, key=key)`: items of one key stay in their order.
  unfoldable pub sorted_by : List A → List A
  unfolding insert_by
  sorted_by [] = []
  sorted_by (x ∷ xs) = insert_by x (sorted_by xs)
