-- ===== src/Manifest/Packs.antt =====
-- `_parse_packs` of data/manifest.py. Each loop of the source is a function over what it has
-- gathered so far.
use lexicon_mcp.Prelude.{
  String, Bool, true, false, List, [], ◌∷◌, ◌++◌, ◌==◌, string_eq, bool_eq, pair_eq, Result, ok,
  err, manifest_error, if◌then◌else◌, ◌>>=◌, ◌>>◌, require, raise_if, contains,
}
use lexicon_mcp.Json.{
  Value, Fields, bool, arr, nil, get, has_key, as_object, as_nonempty, is_null, items,
}
use lexicon_mcp.Manifest.{Pack}
use lexicon_mcp.Manifest.Scalars.{safe_identifier, string_value, parse_language_tags}

abbrev pub capabilities : List String
capabilities = "core" ∷ "lexical" ∷ "semantic" ∷ "pronunciation" ∷ "wordplay" ∷ []

-- The loop of `_parse_pack_components`.
unfoldable pub resolve_components : List String → List Value → List String → Result (List String)
resolve_components component_ids [] resolved = ok resolved
resolve_components component_ids (v ∷ vs) resolved =
    let rest = λ (c : String). resolve_components component_ids vs (resolved ++ c ∷ []) in
    do
      c ← safe_identifier v
      require (contains component_ids c) manifest_error
      raise_if (contains resolved c) manifest_error
      rest c

-- A single `component` or a `components` array, never both.
unfoldable pub parse_pack_components : Fields → List String → Result (List String)
parse_pack_components item component_ids =
    let single = get "component" item in
    let many = get "components" item in
    do
      raise_if (is_null single == is_null many) manifest_error
      raw ← as_nonempty manifest_error (if is_null single then many else arr (items (single ∷ [])))
      resolve_components component_ids raw []

-- `item.get("required", capability == "core")`, which must be a Boolean
abbrev pub as_bool : Value → Result Bool
as_bool (bool b) = ok b
as_bool _ = err manifest_error

unfoldable pub parse_required : Fields → Bool → Result Bool
parse_required item is_core =
    as_bool (if has_key "required" item then get "required" item else bool is_core)

-- The languages of a pack: a core pack may have none, and must be required.
unfoldable pub parse_pack_languages : Fields → Bool → Bool → Result (List String)
parse_pack_languages item is_core required =
    if is_core
    then (do
      require required manifest_error
      parse_language_tags true (if has_key "languages" item then get "languages" item else arr nil))
    else parse_language_tags false (get "languages" item)

-- What is served by whom: the keys of `claimed`.
abbrev pub Claims : Type 0
Claims = List (String × String)

unfoldable pub claim_languages : String → List String → Claims → Result Claims
claim_languages capability [] claimed = ok claimed
claim_languages capability (l ∷ ls) claimed =
    let rest = claim_languages capability ls (claimed ++ (capability, l) ∷ []) in
    do raise_if (contains claimed (capability, l)) manifest_error; rest

-- The variables of the loop.
pub record PackState : Type 0 where
  pub parsed : List Pack
  pub seen_ids : List String
  pub claimed : Claims

unfoldable pub parse_pack : List String → Value → PackState → Result PackState
parse_pack component_ids v s = do
  item ← as_object manifest_error v
  pack_id ← safe_identifier (get "id" item)
  raise_if (contains s.seen_ids pack_id) manifest_error
  capability ← string_value (get "capability" item)
  require (contains capabilities capability) manifest_error
  components ← parse_pack_components item component_ids
  required ← parse_required item (capability == "core")
  languages ← parse_pack_languages item (capability == "core") required
  claimed ← claim_languages capability languages s.claimed
  ok (record {
    parsed =
        s.parsed
        ++ record {
          id = pack_id;
          capability = capability;
          languages = languages;
          components = components;
          required = required;
        }
          ∷ [];
    seen_ids = s.seen_ids ++ pack_id ∷ [];
    claimed = claimed;
  })

unfoldable pub parse_pack_list : List String → List Value → PackState → Result PackState
parse_pack_list component_ids [] s = ok s
parse_pack_list component_ids (v ∷ vs) s =
    let rest = λ (t : PackState). parse_pack_list component_ids vs t in
    do t ← parse_pack component_ids v s; rest t

-- `any(pack.capability == "core" for pack in parsed)`
abbrev pub has_core : List Pack → Bool
has_core [] = false
has_core (p ∷ ps) = if p.capability == "core" then true else has_core ps

unfoldable pub parse_packs : Value → List String → Result (List Pack)
parse_packs v component_ids = do
  vs ← as_nonempty manifest_error v
  s ← parse_pack_list component_ids vs (record { parsed = []; seen_ids = []; claimed = [] })
  require (has_core s.parsed) manifest_error
  ok s.parsed
