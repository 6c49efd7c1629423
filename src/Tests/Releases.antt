-- ===== src/Tests/Releases.antt =====
-- data/manifest.py at the sample.
use lexicon_mcp.Prelude.{
  ℕ, String, Bool, true, false, List, [], ◌∷◌, Option, none, some, ◌≡◌, ◌↔◌, refl, Result, ok, err,
  type_error, manifest_error, IsDistinct,
}
use lexicon_mcp.Json.{Value, nil, arr, str, field, obj, end, sort_keys}
use lexicon_mcp.Manifest.{pack_for}
use lexicon_mcp.Manifest.Scalars.{normalize_language}
use lexicon_mcp.Manifest.Cases.{normalize_language_lem, differ_in_case, has_no_upper}
use lexicon_mcp.Text.{language_re}
use lexicon_mcp.Manifest.Parse.{parse_manifest}
use lexicon_mcp.Manifest.Accepted.{ManifestOk, parse_manifest-ManifestOk, parse_manifest-pack_for}
use lexicon_mcp.Tests.Samples.{
  sample_codec, manifest_json, sample_manifest, core_pack, english_pack,
}

pub sample_parsed : parse_manifest sample_codec manifest_json ≡ ok sample_manifest
unfolding lexicon_mcp.Json.sort_keys_fields lexicon_mcp.Text.sha256_re lexicon_mcp.Text.commit_re
    lexicon_mcp.Text.id_re lexicon_mcp.Text.language_re lexicon_mcp.Text.lower
    lexicon_mcp.Manifest.Scalars.is_blank lexicon_mcp.Manifest.Scalars.safe_identifier
    lexicon_mcp.Manifest.Scalars.string_value lexicon_mcp.Manifest.Scalars.size_value
    lexicon_mcp.Manifest.Scalars.sha256_value lexicon_mcp.Manifest.Scalars.normalize_language
    lexicon_mcp.Manifest.Scalars.parse_language_tags lexicon_mcp.Manifest.Paths.starts_with
    lexicon_mcp.Manifest.Paths.posix_path lexicon_mcp.Manifest.Paths.safe_relative_path
    lexicon_mcp.Manifest.Paths.suffix lexicon_mcp.Manifest.Integrity.parse_integrity
    lexicon_mcp.Manifest.Components.parse_source lexicon_mcp.Manifest.Components.parse_source_list
    lexicon_mcp.Manifest.Components.parse_sources lexicon_mcp.Manifest.Components.parse_part
    lexicon_mcp.Manifest.Components.parse_parts lexicon_mcp.Manifest.Components.parse_source_refs
    lexicon_mcp.Manifest.Components.parse_payload lexicon_mcp.Manifest.Components.parse_component
    lexicon_mcp.Manifest.Components.parse_component_list
    lexicon_mcp.Manifest.Components.parse_components lexicon_mcp.Manifest.Packs.resolve_components
    lexicon_mcp.Manifest.Packs.parse_pack_components lexicon_mcp.Manifest.Packs.parse_required
    lexicon_mcp.Manifest.Packs.parse_pack_languages lexicon_mcp.Manifest.Packs.claim_languages
    lexicon_mcp.Manifest.Packs.parse_pack lexicon_mcp.Manifest.Packs.parse_pack_list
    lexicon_mcp.Manifest.Packs.parse_packs lexicon_mcp.Manifest.Parse.parse_release
    lexicon_mcp.Manifest.Parse.parse_source_dataset lexicon_mcp.Manifest.Parse.schema_number
    lexicon_mcp.Manifest.Parse.parse_capabilities lexicon_mcp.Manifest.Parse.parse_manifest
    lexicon_mcp.Prelude.string_le lexicon_mcp.Prelude.sorted
sample_parsed = refl

parse_manifest-ManifestOk_example : ManifestOk sample_codec sample_manifest
parse_manifest-ManifestOk_example =
    parse_manifest-ManifestOk sample_codec manifest_json sample_manifest sample_parsed

parse_manifest-pack_for_example : pack_for sample_manifest "lexical" "en" ≡ some english_pack
parse_manifest-pack_for_example =
    parse_manifest-pack_for sample_codec manifest_json sample_manifest (core_pack ∷ []) []
      english_pack "lexical" "en" sample_parsed refl refl

english_tag : normalize_language (str "EN-gb") ≡ ok "en-gb"
unfolding lexicon_mcp.Text.language_re lexicon_mcp.Text.lower
    lexicon_mcp.Manifest.Scalars.normalize_language
english_tag = refl

normalize_language_lem_example : (normalize_language (str "EN-gb") ≡ ok "en-gb") ↔ (
    (language_re "EN-gb" ≡ true)
    × (differ_in_case "EN-gb" "en-gb" ≡ true)
    × (has_no_upper "en-gb" ≡ true))
normalize_language_lem_example = normalize_language_lem "EN-gb" "en-gb"

-- A schema version that is a list makes the parser raise a TypeError.
unhashable_version :
    parse_manifest sample_codec (obj (field "schema_version" (arr nil) end)) ≡ err type_error
unfolding lexicon_mcp.Json.sort_keys_fields lexicon_mcp.Manifest.Parse.schema_number
    lexicon_mcp.Manifest.Parse.parse_manifest
unhashable_version = refl
