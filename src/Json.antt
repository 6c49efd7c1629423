-- ===== src/Json.antt =====
-- The values that `json.loads` returns, and the reads that the parsers of data/ make of them.
-- A float is kept as its `repr`, so that 2.0 has one form.
pub mod Integers
pub mod Equality
use lexicon_mcp.Prelude.{ℕ, String, Bool, true, false, List, [], ◌∷◌, Dict}
use lexicon_mcp.Prelude.{◌==◌, string_eq, string_le, if◌then◌else◌, Result, ok, err, Error}

-- `negsuc n` is -(n + 1).
pub data ℤ : Type 0 where
  pos : ℕ → ℤ
  negsuc : ℕ → ℤ

mutual
  pub data Value : Type 0 where
    null : Value
    bool : Bool → Value
    int : ℤ → Value
    float : String → Value
    str : String → Value
    arr : Items → Value
    obj : Fields → Value

  -- The entries of an object, in the order of the text.
  pub data Fields : Type 0 where
    field : String → Value → Fields → Fields
    end : Fields

  pub data Items : Type 0 where
    cons : Value → Items → Items
    nil : Items

-- `value.get(key)`: a missing key reads as null.
abbrev pub get : String → Fields → Value
get k end = null
get k (field j v fs) = if j == k then v else get k fs

-- `key in value`
abbrev pub has_key : String → Fields → Bool
has_key k end = false
has_key k (field j v fs) = if j == k then true else has_key k fs

abbrev pub values : Items → List Value
values nil = []
values (cons v vs) = v ∷ values vs

abbrev pub items : List Value → Items
items [] = nil
items (v ∷ vs) = cons v (items vs)

abbrev pub entries : Fields → Dict Value
entries end = []
entries (field k v fs) = (k, v) ∷ entries fs

abbrev pub object : Dict Value → Fields
object [] = end
object ((k, v) ∷ d) = field k v (object d)

-- `isinstance(value, dict)`, and the object
abbrev pub as_object : Error → Value → Result Fields
as_object e (obj fs) = ok fs
as_object e _ = err e

-- `isinstance(value, list)`, and the array
abbrev pub as_array : Error → Value → Result (List Value)
as_array e (arr vs) = ok (values vs)
as_array e _ = err e

-- `isinstance(value, list) and value`
abbrev pub as_nonempty : Error → Value → Result (List Value)
as_nonempty e (arr (cons v vs)) = ok (v ∷ values vs)
as_nonempty e _ = err e

abbrev pub is_null : Value → Bool
is_null null = true
is_null _ = false

-- The value with the keys of every object in order, which is what `sort_keys=True` writes.
abbrev pub insert_field : String → Value → Fields → Fields
insert_field k v end = field k v end
insert_field k v (field j w fs) =
    if string_le k j then field k v (field j w fs) else field j w (insert_field k v fs)

unfoldable mutual
  pub sort_keys : Value → Value
  sort_keys (arr vs) = arr (sort_keys_items vs)
  sort_keys (obj fs) = obj (sort_keys_fields fs)
  sort_keys null = null
  sort_keys (bool b) = bool b
  sort_keys (int n) = int n
  sort_keys (float x) = float x
  sort_keys (str s) = str s

  pub sort_keys_items : Items → Items
  sort_keys_items nil = nil
  sort_keys_items (cons v vs) = cons (sort_keys v) (sort_keys_items vs)

  pub sort_keys_fields : Fields → Fields
  sort_keys_fields end = end
  sort_keys_fields (field k v fs) = insert_field k (sort_keys v) (sort_keys_fields fs)
