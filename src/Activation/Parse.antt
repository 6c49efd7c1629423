-- ===== src/Activation/Parse.antt =====
-- `parse_activation` of data/activation.py.

use lexicon_mcp.Prelude.{
  ℕ, String, Bool, false, List, [], ◌∷◌, ◌++◌, Option, none, some, ◌==◌, string_eq, nat_eq,
  contains, map, map_ok, Dict, Result, ok, err, activation_error, type_error, if◌then◌else◌, ◌>>=◌,
  ◌>>◌, require, raise_if,
}
use lexicon_mcp.Json.{
  Value, pos, null, int, float, str, arr, obj, Fields, nil, end, field, get, has_key, values,
  entries, as_object, as_array, as_nonempty,
}
use lexicon_mcp.Codec.{Codec}
use lexicon_mcp.Manifest.Scalars.{safe_identifier, is_sha256, normalize_language}
use lexicon_mcp.Activation.{ActivationComponent, ActivationPack, Activation}

-- `_string`: any text but the empty one
unfoldable pub string_value : Value → Result String
string_value (str s) = if s == "" then err activation_error else ok s
string_value _ = err activation_error

unfoldable pub size_value : Value → Result ℕ
size_value (int (pos n)) = ok n
size_value _ = err activation_error

-- `value != 2`, where the float 2.0 is equal to 2
abbrev pub is_two : Value → Bool
is_two (int (pos n)) = n == 2
is_two (float x) = x == "2.0"
is_two _ = false

abbrev pub text_or_empty : Value → String
text_or_empty (str s) = s
text_or_empty _ = ""

-- `require is_sha256(value)`, and the text
unfoldable pub digest_value : Value → Result String
digest_value v = if is_sha256 v then ok (text_or_empty v) else err activation_error

unfoldable pub parse_component : List String → Value → Result ActivationComponent
parse_component seen v = do
  item ← as_object activation_error v
  id ← safe_identifier (get "id" item)
  raise_if (contains seen id) activation_error
  sha256 ← digest_value (get "sha256" item)
  size ← size_value (get "size" item)
  path ← string_value (get "path" item)
  ok (record { id = id; sha256 = sha256; path = path; size = size })

-- The loop over `components`, with the ids seen before.
unfoldable pub parse_components : List String → List Value → Result (List ActivationComponent)
parse_components seen [] = ok []
parse_components seen (v ∷ vs) =
    let rest = λ (c : ActivationComponent). parse_components (seen ++ c.id ∷ []) vs in
    do c ← parse_component seen v; cs ← rest c; ok (c ∷ cs)

-- The components of a pack must have been recorded.
unfoldable pub parse_reference : List String → Value → Result String
parse_reference ids v = do i ← safe_identifier v; require (contains ids i) activation_error; ok i

unfoldable pub parse_pack : List String → Value → Result ActivationPack
parse_pack ids v = do
  item ← as_object activation_error v
  raw ← as_nonempty activation_error (get "components" item)
  components ← map_ok (parse_reference ids) raw
  languages ← as_array activation_error (get "languages" item)
  id ← safe_identifier (get "id" item)
  capability ← string_value (get "capability" item)
  tags ← map_ok normalize_language languages
  ok (record { id = id; capability = capability; languages = tags; components = components })

-- `value.get(key, default)`
abbrev pub get_or : String → Value → Fields → Value
get_or k d fs = if has_key k fs then get k fs else d

abbrev pub component_ids : List ActivationComponent → List String
component_ids cs = map (λ c. c.id) cs

-- `tuple(str(item) for item in value)`, which raises for a value that cannot be iterated over
abbrev pub characters : String → List String
characters String.[] = []
characters (String.◌∷◌ c s) = String.◌∷◌ c String.[] ∷ characters s

abbrev pub field_keys : Fields → List String
field_keys end = []
field_keys (field k v fs) = k ∷ field_keys fs

module _ (K : Codec) where
  open K use {Bytes, loads, text_of}

  -- `str(value)`
  abbrev pub to_text : Value → String
  to_text (str s) = s
  to_text v = text_of v

  abbrev pub iterate_texts : Value → Result (List String)
  iterate_texts (arr vs) = ok (map to_text (values vs))
  iterate_texts (str s) = ok (characters s)
  iterate_texts (obj fs) = ok (field_keys fs)
  iterate_texts _ = err type_error

  abbrev pub parse_effective : Dict Value → Result (Dict (List String))
  parse_effective [] = ok []
  parse_effective ((c, v) ∷ d) = do
    ls ← iterate_texts v
    rest ← parse_effective d
    ok ((c, ls) ∷ rest)

  abbrev pub text_entries : Fields → Dict String
  text_entries end = []
  text_entries (field k v fs) = (k, to_text v) ∷ text_entries fs

  -- What is no object is dropped.
  abbrev pub parse_unavailable : List Value → List (Dict String)
  parse_unavailable [] = []
  parse_unavailable (obj fs ∷ vs) = text_entries fs ∷ parse_unavailable vs
  parse_unavailable (_ ∷ vs) = parse_unavailable vs

  -- `null`, or an array whose items are kept as they are; a tag that is no text is not refused
  abbrev pub parse_requested : Value → Result (Option (List String))
  parse_requested null = ok none
  parse_requested (arr vs) = ok (some (map to_text (values vs)))
  parse_requested _ = err activation_error

  unfoldable pub parse_record : Value → Result Activation
  parse_record v = do
    value ← as_object activation_error v
    require (is_two (get "schema_version" value)) activation_error
    raw_components ← as_nonempty activation_error (get "components" value)
    components ← parse_components [] raw_components
    raw_packs ← as_nonempty activation_error (get "packs" value)
    packs ← map_ok (parse_pack (component_ids components)) raw_packs
    requested ← as_object activation_error (get "requested" value)
    requested_languages ← parse_requested (get "languages" requested)
    capabilities ← as_array activation_error (get "capabilities" requested)
    effective ← as_object activation_error (get_or "effective" (obj end) value)
    unavailable ← as_array activation_error (get_or "unavailable" (arr nil) value)
    activation_id ← safe_identifier (get "activation_id" value)
    dataset_version ← string_value (get "dataset_version" value)
    created_at ← string_value (get "created_at" value)
    effective_map ← parse_effective (entries effective)
    manifest_sha256 ← digest_value (get "manifest_sha256" value)
    ok (record {
      schema_version = 2;
      activation_id = activation_id;
      dataset_version = dataset_version;
      manifest_sha256 = manifest_sha256;
      created_at = created_at;
      requested_languages = requested_languages;
      requested_capabilities = map to_text capabilities;
      effective = effective_map;
      unavailable = parse_unavailable unavailable;
      components = components;
      packs = packs;
    })

  unfoldable pub parse_activation : Bytes → Result Activation
  parse_activation raw = elim (loads raw) [ none ↦ err activation_error | some v ↦ parse_record v ]
