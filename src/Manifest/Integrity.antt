-- ===== src/Manifest/Integrity.antt =====
-- `_parse_integrity` of data/manifest.py: the checks that a component declares for its file.
use lexicon_mcp.Prelude.{
  ℕ, String, code, Bool, true, false, ◌&&◌, ◌||◌, not, ◌==◌, bool_eq, nat_eq, string_eq, ltb, List,
  [], ◌∷◌, all, contains, Result, ok, manifest_error, if◌then◌else◌, ◌>>=◌, ◌>>◌, require, raise_if,
}
use lexicon_mcp.Json.{Value, Fields, null, bool, str, end, field, get, has_key, entries, as_object}
use lexicon_mcp.Text.{is_letter, is_alnum}
use lexicon_mcp.Manifest.Scalars.{string_value, size_value}
use lexicon_mcp.Manifest.Paths.{safe_relative_path, path_text}

-- `_SEMANTIC_INDEX_SCHEMA_KEYS`
abbrev pub semantic_keys : List String
semantic_keys =
    "semantic_dimensions" ∷ "semantic_metric" ∷ "semantic_dtype" ∷ "semantic_connectivity"
    ∷ "semantic_expansion_add" ∷ "semantic_expansion_search" ∷ []

abbrev pub allowed_keys : List String
allowed_keys =
    "sqlite" ∷ "semantic_count" ∷ "semantic_mapping" ∷ "semantic_mapping_table" ∷ "semantic_table"
    ∷ "dataset_schema_version" ∷ "archive_member" ∷ semantic_keys

-- ^[A-Za-z_][A-Za-z0-9_]*$
abbrev pub all_table_chars : String → Bool
all_table_chars String.[] = true
all_table_chars (String.◌∷◌ c s) = (is_alnum (code c) || code c == b'_') && all_table_chars s

unfoldable pub table_re : String → Bool
table_re String.[] = false
table_re (String.◌∷◌ c s) = (is_letter (code c) || code c == b'_') && all_table_chars s

-- `result[key] = value` for a key that is there
abbrev pub set_field : String → Value → Fields → Fields
set_field k v end = end
set_field k v (field j w fs) = if j == k then field j v fs else field j w (set_field k v fs)

abbrev pub is_bool : Value → Bool
is_bool (bool b) = true
is_bool _ = false

abbrev pub some_key : Fields → List String → Bool
some_key fs [] = false
some_key fs (k ∷ ks) = has_key k fs || some_key fs ks

-- `_size`, and a lower bound
abbrev pub size_from : ℕ → Value → Result (Unit {0})
size_from least v = do n ← size_value v; raise_if (ltb n least) manifest_error

abbrev pub size_is : ℕ → Value → Result (Unit {0})
size_is wanted v = do n ← size_value v; require (n == wanted) manifest_error

abbrev pub text_is : String → Value → Result (Unit {0})
text_is wanted v = do s ← string_value v; require (s == wanted) manifest_error

-- The schema of a semantic index: a string or a number that passes comes back as it was.
unfoldable pub check_semantic_schema : Fields → Result (Unit {0})
check_semantic_schema fs = do
  size_from 1 (get "semantic_dimensions" fs)
  text_is "cos" (get "semantic_metric" fs)
  text_is "i8" (get "semantic_dtype" fs)
  size_is 16 (get "semantic_connectivity" fs)
  size_is 256 (get "semantic_expansion_add" fs)
  size_from 512 (get "semantic_expansion_search" fs)

-- `if key in result: check(result[key])`
abbrev pub if_key : String → (Value → Result (Unit {0})) → Fields → Result (Unit {0})
if_key k check fs = if has_key k fs then check (get k fs) else ok tt

abbrev pub table_value : Value → Result (Unit {0})
table_value v = do s ← string_value v; require (table_re s) manifest_error

-- The path under a key, in the form that `str` gives it.
unfoldable pub normalize_path : String → Fields → Result Fields
normalize_path k fs =
    if has_key k fs
    then (do p ← safe_relative_path (get k fs); ok (set_field k (str (path_text p)) fs))
    else ok fs

abbrev pub object_or_empty : Value → Result Fields
object_or_empty null = ok end
object_or_empty v = as_object manifest_error v

-- The semantic keys: all or none of them, and all exactly for a semantic index.
unfoldable pub check_semantic : Bool → Fields → Result (Unit {0})
unfolding check_semantic_schema
check_semantic is_index fs =
    let present = some_key fs semantic_keys in
    let complete = all (λ k. has_key k fs) semantic_keys in
    do
      if_key "semantic_count" (size_from 0) fs
      raise_if (is_index && not (has_key "semantic_count" fs)) manifest_error
      if is_index then size_from 1 (get "semantic_count" fs) else ok tt
      raise_if (present && not complete) manifest_error
      raise_if (is_index && not complete) manifest_error
      raise_if (not is_index && present) manifest_error
      if present then check_semantic_schema fs else ok tt

unfoldable pub parse_integrity : Value → String → Result Fields
unfolding check_semantic normalize_path
parse_integrity v artifact_type = do
  fs ← object_or_empty v
  require (all (λ (k, w). contains allowed_keys k) (entries fs)) manifest_error
  if_key "sqlite" (λ w. require (is_bool w) manifest_error) fs
  check_semantic (artifact_type == "semantic_index") fs
  if_key "dataset_schema_version" (size_from 1) fs
  mapped ← normalize_path "semantic_mapping" fs
  if_key "semantic_mapping_table" table_value mapped
  if_key "semantic_table" table_value mapped
  normalize_path "archive_member" mapped
