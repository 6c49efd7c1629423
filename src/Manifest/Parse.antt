-- ===== src/Manifest/Parse.antt =====
-- `_parse_release`, `_parse_source_dataset` and `parse_manifest` of data/manifest.py.
use lexicon_mcp.Prelude.{
  ℕ, String, Bool, true, false, ◌&&◌, ◌||◌, not, ◌==◌, nat_eq, string_eq, list_eq, List, [], ◌∷◌,
  Option, none, some, all, length, map, append_all_new, sorted, string_ord, Result, ok, err,
  manifest_error, type_error, if◌then◌else◌, ◌>>=◌, ◌>>◌, require, raise_if,
}
use lexicon_mcp.Json.{Value, Fields, pos, bool, int, float, str, arr, obj, get, has_key, as_object}
use lexicon_mcp.Codec.{Codec}
use lexicon_mcp.Text.{id_re, commit_re}
use lexicon_mcp.Manifest.{Release, Pack, SourceDataset, DatasetManifest}
use lexicon_mcp.Manifest.Scalars.{safe_identifier, string_value, sha256_value, parse_language_tags}
use lexicon_mcp.Manifest.Paths.{starts_with, split}
use lexicon_mcp.Manifest.Components.{optional, http_value, parse_sources, parse_components}
use lexicon_mcp.Manifest.Packs.{parse_packs}

abbrev pub is_true : Value → Bool
is_true (bool b) = b
is_true _ = false

unfoldable pub parse_release : Value → String → Result Release
parse_release v dataset_version = do
  fs ← as_object manifest_error v
  repository ← string_value (get "repository" fs)
  raise_if (starts_with repository "http://" || starts_with repository "https://") manifest_error
  require (length (split b'/' repository) == 2 && all id_re (split b'/' repository)) manifest_error
  tag ← safe_identifier (get "tag" fs)
  require (tag == dataset_version) manifest_error
  require (is_true (get "immutable" fs)) manifest_error
  base_url ← optional http_value (get "base_url" fs)
  ok (record { repository = repository; tag = tag; immutable = true; base_url = base_url })

abbrev pub source_dataset_value : Value → Result SourceDataset
source_dataset_value v = do
  fs ← as_object manifest_error v
  version ← safe_identifier (get "dataset_version" fs)
  digest ← sha256_value (get "manifest_sha256" fs)
  ok (record { dataset_version = version; manifest_sha256 = digest })

unfoldable pub parse_source_dataset : Value → Result (Option SourceDataset)
parse_source_dataset v = optional source_dataset_value v

-- `schema_version not in {1, 2}`: True and 1.0 are equal to 1, and a list or an object has no
-- hash, so that the test itself raises.
unfoldable pub schema_number : Value → Result ℕ
schema_number (int (pos n)) = if n == 1 || n == 2 then ok n else err manifest_error
schema_number (bool true) = ok 1
schema_number (float x) =
    if x == "1.0" then ok 1 else if x == "2.0" then ok 2 else err manifest_error
schema_number (arr vs) = err type_error
schema_number (obj fs) = err type_error
schema_number _ = err manifest_error

abbrev pub commit_value : Value → Result String
commit_value (str s) = if commit_re s then ok s else err manifest_error
commit_value _ = err manifest_error

-- What the two schemas differ in.
pub record Body : Type 0 where
  pub profile : String
  pub languages : List String
  pub packs : List Pack
  pub source_dataset : Option SourceDataset

abbrev pub or_nothing : Option (List String) → List String
or_nothing none = []
or_nothing (some ls) = ls

unfoldable pub parse_profile : Fields → Result Body
parse_profile fs = do
  profile ← string_value (get "profile" fs)
  require (profile == "full" || profile == "english") manifest_error
  tags ← optional (parse_language_tags false) (get "languages" fs)
  require (not (profile == "english") || or_nothing tags == "en" ∷ []) manifest_error
  ok (record { profile = profile; languages = or_nothing tags; packs = []; source_dataset = none })

-- `{language for pack in packs for language in pack.languages}`
abbrev pub languages_of : List Pack → List String → List String
languages_of [] seen = seen
languages_of (p ∷ ps) seen = languages_of ps (append_all_new seen p.languages)

unfoldable pub parse_capabilities : Fields → List String → Result Body
parse_capabilities fs component_ids = do
  raise_if (has_key "profile" fs) manifest_error
  raise_if (has_key "languages" fs) manifest_error
  packs ← parse_packs (get "packs" fs) component_ids
  source_dataset ← parse_source_dataset (get "source_dataset" fs)
  ok (record {
    profile = "components";
    languages = sorted (languages_of packs []);
    packs = packs;
    source_dataset = source_dataset;
  })

module _ (K : Codec) where
  open K use {Bytes, encode, loads, sha256}

  -- `json.loads(raw)`, which must be an object
  abbrev pub root_object : Option Value → Result Fields
  root_object (some (obj fs)) = ok fs
  root_object _ = err manifest_error

  -- The call with bytes; a text is encoded first.
  unfoldable pub parse_manifest : Bytes → Result (DatasetManifest Bytes)
  parse_manifest raw = do
    fs ← root_object (loads raw)
    schema_version ← schema_number (get "schema_version" fs)
    dataset_version ← safe_identifier (get "dataset_version" fs)
    release ← parse_release (get "release" fs) dataset_version
    sources ← parse_sources (get "sources" fs)
    components ← parse_components (get "components" fs) (map (λ s. s.id) sources)
    commit ← commit_value (get "transformation_commit" fs)
    body ←
        if schema_version == 1
        then parse_profile fs
        else parse_capabilities fs (map (λ c. c.id) components)
    created_at ← string_value (get "created_at" fs)
    ok (record {
      schema_version = schema_version;
      dataset_version = dataset_version;
      profile = body.profile;
      languages = body.languages;
      release = release;
      created_at = created_at;
      transformation_commit = commit;
      sources = sources;
      components = components;
      raw = raw;
      sha256 = sha256 raw;
      packs = body.packs;
      source_dataset = body.source_dataset;
    })

  unfoldable pub parse_manifest_text : String → Result (DatasetManifest Bytes)
  parse_manifest_text text = parse_manifest (encode text)
