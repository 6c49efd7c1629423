-- ===== src/Manifest/Components.antt =====
-- `_parse_sources` and `_parse_components` of data/manifest.py. The records of each loop's
-- variables are what the source keeps in `parsed` and the sets beside it.
use lexicon_mcp.Prelude.{
  ℕ, ◌+◌, String, Bool, true, false, ◌&&◌, ◌||◌, not, ◌==◌, bool_eq, nat_eq, string_eq, list_eq,
  List, [], ◌∷◌, ◌++◌, Option, none, some, contains, append_new, Result, ok, manifest_error,
  if◌then◌else◌, ◌>>=◌, ◌>>◌, require, raise_if,
}
use lexicon_mcp.Json.{Value, Fields, pos, null, int, get, has_key, as_object, as_nonempty, is_null}
use lexicon_mcp.Text.{lower}
use lexicon_mcp.Manifest.{Source, Part, PosixPath, Component}
use lexicon_mcp.Manifest.Scalars.{safe_identifier, string_value, size_value, sha256_value}
use lexicon_mcp.Manifest.Paths.{safe_relative_path, path_text, starts_with, suffix}
use lexicon_mcp.Manifest.Integrity.{parse_integrity}

-- `if v is not None: v = check(v)`
abbrev pub optional {ℓ} : {A : Type ℓ} → (Value → Result A) → Value → Result (Option A)
optional check null = ok none
optional check v = do a ← check v; ok (some a)

abbrev pub is_given {ℓ} : {A : Type ℓ} → Option A → Bool
is_given none = false
is_given (some a) = true

unfoldable pub parse_source : List String → Value → Result Source
parse_source seen v = do
  item ← as_object manifest_error v
  source_id ← safe_identifier (get "id" item)
  raise_if (contains seen source_id) manifest_error
  license_url ← optional string_value (get "license_url" item)
  row_count ← optional size_value (get "row_count" item)
  row_digest ← optional sha256_value (get "row_digest" item)
  require (is_given row_count == is_given row_digest) manifest_error
  name ← string_value (get "name" item)
  url ← string_value (get "url" item)
  revision ← string_value (get "revision" item)
  retrieved_at ← string_value (get "retrieved_at" item)
  sha256 ← sha256_value (get "sha256" item)
  size ← size_value (get "size" item)
  license ← string_value (get "license" item)
  ok (record {
    id = source_id;
    name = name;
    url = url;
    revision = revision;
    retrieved_at = retrieved_at;
    sha256 = sha256;
    size = size;
    row_count = row_count;
    row_digest = row_digest;
    license = license;
    license_url = license_url;
  })

unfoldable pub parse_source_list : List Value → List String → List Source → Result (List Source)
parse_source_list [] seen parsed = ok parsed
parse_source_list (v ∷ vs) seen parsed =
    let rest = λ (s : Source). parse_source_list vs (seen ++ s.id ∷ []) (parsed ++ s ∷ []) in
    do s ← parse_source seen v; rest s

unfoldable pub parse_sources : Value → Result (List Source)
parse_sources v = do vs ← as_nonempty manifest_error v; parse_source_list vs [] []

abbrev pub is_http : String → Bool
is_http s = starts_with s "https://" || starts_with s "http://"

abbrev pub path_value : Value → Result String
path_value v = do p ← safe_relative_path v; ok (path_text p)

abbrev pub http_value : Value → Result String
http_value v = do s ← string_value v; require (is_http s) manifest_error; ok s

-- A part must begin where the one before it has ended.
unfoldable pub parse_part : ℕ → Value → Result Part
parse_part next_offset v = do
  part ← as_object manifest_error v
  raise_if (is_null (get "name" part) && is_null (get "url" part)) manifest_error
  name ← optional path_value (get "name" part)
  url ← optional http_value (get "url" part)
  size ← size_value (get "size" part)
  offset ← size_value (if has_key "offset" part then get "offset" part else int (pos next_offset))
  require (offset == next_offset) manifest_error
  sha256 ← sha256_value (get "sha256" part)
  ok (record { name = name; url = url; size = size; sha256 = sha256; offset = offset })

-- The parts, and where the last one ends.
unfoldable pub parse_parts : List Value → ℕ → List Part → Result (List Part × ℕ)
parse_parts [] next_offset parts = ok (parts, next_offset)
parse_parts (v ∷ vs) next_offset parts =
    let rest = λ (p : Part). parse_parts vs (next_offset + p.size) (parts ++ p ∷ []) in
    do p ← parse_part next_offset v; rest p

unfoldable pub parse_source_refs : List String → List Value → List String → Result (List String)
parse_source_refs source_ids [] refs = ok refs
parse_source_refs source_ids (v ∷ vs) refs =
    let rest = λ (i : String). parse_source_refs source_ids vs (append_new refs i) in
    do i ← safe_identifier v; require (contains source_ids i) manifest_error; rest i

abbrev pub compressions : List String
compressions = "none" ∷ "zstd" ∷ "zip" ∷ []

pub record ComponentState : Type 0 where
  pub parsed : List Component
  pub seen_ids : List String
  pub seen_paths : List PosixPath

-- `artifact_type == "semantic_index"` exactly for a path with the suffix .usearch; only ASCII
-- letters are lowered, since no other lowers to one of the suffix.
abbrev pub suffix_matches : String → PosixPath → Bool
suffix_matches artifact_type path =
    (artifact_type == "semantic_index") == (lower (suffix path) == ".usearch")

-- How a component is stored, and the file it becomes.
pub record Payload : Type 0 where
  pub compression : String
  pub compressed_size : ℕ
  pub compressed_sha256 : String
  pub final_size : ℕ
  pub final_sha256 : String
  pub parts : List Part

-- Whether a component that is not compressed says the same of both forms.
abbrev pub is_consistent : Payload → Bool
is_consistent p = not (
    p.compression == "none"
    && (not (p.compressed_size == p.final_size) || not (p.compressed_sha256 == p.final_sha256)))

unfoldable pub parse_payload : Fields → Result Payload
parse_payload item = do
  compression ← string_value (get "compression" item)
  require (contains compressions compression) manifest_error
  compressed_size ← size_value (get "compressed_size" item)
  compressed_sha ← sha256_value (get "compressed_sha256" item)
  final_size ← size_value (get "final_size" item)
  final_sha ← sha256_value (get "final_sha256" item)
  raw_parts ← as_nonempty manifest_error (get "parts" item)
  parts ← parse_parts raw_parts 0 []
  require (parts.1 == compressed_size) manifest_error
  let payload : Payload = record {
    compression = compression;
    compressed_size = compressed_size;
    compressed_sha256 = compressed_sha;
    final_size = final_size;
    final_sha256 = final_sha;
    parts = parts.0;
  }
  require (is_consistent payload) manifest_error
  ok payload

unfoldable pub parse_component : List String → Value → ComponentState → Result Component
parse_component source_ids v s = do
  item ← as_object manifest_error v
  component_id ← safe_identifier (get "id" item)
  raise_if (contains s.seen_ids component_id) manifest_error
  path ← safe_relative_path (get "path" item)
  raise_if (contains s.seen_paths path) manifest_error
  payload ← parse_payload item
  raw_refs ← as_nonempty manifest_error (get "sources" item)
  refs ← parse_source_refs source_ids raw_refs []
  artifact_type ← string_value (get "artifact_type" item)
  require (suffix_matches artifact_type path) manifest_error
  integrity ← parse_integrity (get "integrity" item) artifact_type
  ok (record {
    id = component_id;
    artifact_type = artifact_type;
    path = path;
    compression = payload.compression;
    compressed_size = payload.compressed_size;
    compressed_sha256 = payload.compressed_sha256;
    final_size = payload.final_size;
    final_sha256 = payload.final_sha256;
    parts = payload.parts;
    sources = refs;
    integrity = integrity;
  })

unfoldable pub parse_component_list :
    List String → List Value → ComponentState → Result (List Component)
parse_component_list source_ids [] s = ok s.parsed
parse_component_list source_ids (v ∷ vs) s =
    let rest = λ (c : Component). parse_component_list source_ids vs (record {
      parsed = s.parsed ++ c ∷ [];
      seen_ids = s.seen_ids ++ c.id ∷ [];
      seen_paths = s.seen_paths ++ c.path ∷ [];
    }) in
    do c ← parse_component source_ids v s; rest c

unfoldable pub parse_components : Value → List String → Result (List Component)
parse_components v source_ids = do
  vs ← as_nonempty manifest_error v
  parse_component_list source_ids vs (record { parsed = []; seen_ids = []; seen_paths = [] })
