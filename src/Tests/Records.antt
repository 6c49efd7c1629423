-- ===== src/Tests/Records.antt =====
-- The records of the sample: failures, a second install, and what is kept, dropped and activated.
use lexicon_mcp.Prelude.{
  ℕ, String, Bool, true, false, List, [], ◌∷◌, Option, none, some, ◌≡◌, refl, Result, ok, err,
  Error, space_error, lifecycle_error, contains, string_eq, lookup, insert, length, if◌then◌else◌,
}
use lexicon_mcp.Json.{Value, str}
use lexicon_mcp.Selection.{Selection, resolve, normalized_request}
use lexicon_mcp.Activation.{Activation}
use lexicon_mcp.Activation.Build.{sorted_items, to_dict, build_activation}
use lexicon_mcp.Activation.Parse.{parse_activation}
use lexicon_mcp.Activation.RoundTrip.{read_back, parse_activation-to_dict}
use lexicon_mcp.Activation.Identity.{build_activation_same_id}
use lexicon_mcp.Store.{Entry, Store, is_file}
use lexicon_mcp.Install.{
  Root, active_id, active_activation, activations, read_activation, verify_components,
  verify_installed,
}
use lexicon_mcp.Install.Write.{InstallReport, install, amend, prune_root, forget, activate}
use lexicon_mcp.Install.Unmoved.{UnmovedFrom, StaysActive}
use lexicon_mcp.Install.Atomic.{amend_fails}
use lexicon_mcp.Install.Stale.{install_stale}
use lexicon_mcp.Tests.Releases.{sample_parsed}
use lexicon_mcp.Tests.Installs.{english, words, words_resolved, words_built}
use lexicon_mcp.Activation.Accepted.{built_IsRecord}
use lexicon_mcp.Manifest.Accepted.{parse_manifest-ManifestOk}
use lexicon_mcp.Store.{iter_digests, regular}
use lexicon_mcp.Install.Write.{all_digests}
use lexicon_mcp.Tests.Samples.{
  sample_codec, manifest_json, sample_manifest, words_selection, words_id, words_activation,
  sample_fetch, words_report, words_root,
}

parse_activation-to_dict_example :
    parse_activation sample_codec (to_dict (words_activation "2025"))
    ≡ ok (read_back (words_activation "2025"))
parse_activation-to_dict_example = parse_activation-to_dict sample_codec (words_activation "2025") (
    built_IsRecord sample_codec sample_manifest english words true words_selection "2025"
      (words_activation "2025")
      (parse_manifest-ManifestOk sample_codec manifest_json sample_manifest sample_parsed) refl
      words_resolved words_built refl)

words_built_later :
    build_activation sample_codec sample_manifest words_selection english words "2027"
    ≡ ok (words_activation "2027")
unfolding lexicon_mcp.Text.take_chars lexicon_mcp.Text.sha256_re lexicon_mcp.Manifest.component
    lexicon_mcp.Activation.Build.compute_activation_id lexicon_mcp.Activation.Build.build_activation
    lexicon_mcp.Prelude.string_le lexicon_mcp.Prelude.sorted
words_built_later = refl

build_activation_same_id_example : words_id ≡ words_id
build_activation_same_id_example =
    build_activation_same_id sample_codec sample_manifest words_selection words_selection english
      english words words "2025" "2027" (words_activation "2025") (words_activation "2027")
      words_built words_built_later (λ d. refl)

abbrev again_root : Root Value
again_root =
    (install sample_codec sample_fetch sample_manifest english words true "2027" "2028"
      words_root).1

words_installed_again :
    install sample_codec sample_fetch sample_manifest english words true "2027" "2028" words_root
    ≡ (ok (words_report (some words_id) []), again_root)
unfolding lexicon_mcp.Json.Equality.value_beq lexicon_mcp.Json.sort_keys_fields
    lexicon_mcp.Text.take_chars lexicon_mcp.Text.sha256_re lexicon_mcp.Text.id_re
    lexicon_mcp.Text.language_re lexicon_mcp.Text.lower lexicon_mcp.Manifest.component
    lexicon_mcp.Manifest.required_packs lexicon_mcp.Manifest.pack_for
    lexicon_mcp.Manifest.Scalars.safe_identifier lexicon_mcp.Manifest.Scalars.normalize_language
    lexicon_mcp.Selection.normalized_tags lexicon_mcp.Selection.normalized_request
    lexicon_mcp.Selection.wanted lexicon_mcp.Selection.cover lexicon_mcp.Selection.gather
    lexicon_mcp.Selection.sizes lexicon_mcp.Selection.finish lexicon_mcp.Selection.gathered
    lexicon_mcp.Selection.resolve lexicon_mcp.Activation.installed_size
    lexicon_mcp.Activation.Build.compute_activation_id lexicon_mcp.Activation.Build.build_activation
    lexicon_mcp.Store.path_for lexicon_mcp.Store.file_digest lexicon_mcp.Store.verify
    lexicon_mcp.Store.adopt lexicon_mcp.Install.activation_path lexicon_mcp.Install.read_pointer
    lexicon_mcp.Install.active_id lexicon_mcp.Install.Write.write_pointer
    lexicon_mcp.Install.Write.write_activation lexicon_mcp.Install.Write.retain_manifest
    lexicon_mcp.Install.Write.preflight lexicon_mcp.Install.Write.missing_components
    lexicon_mcp.Install.Write.adopt_in lexicon_mcp.Install.Write.fetch_each
    lexicon_mcp.Install.Write.apply_activation lexicon_mcp.Install.Write.apply
    lexicon_mcp.Install.Write.install lexicon_mcp.Prelude.string_le lexicon_mcp.Prelude.sorted
    lexicon_mcp.Prelude.insert
words_installed_again = refl

words_recorded :
    lookup "00000000000000000000000000000000.json" words_root.activation_files
    ≡ some (some (to_dict (words_activation "2025")))
unfolding lexicon_mcp.Json.sort_keys lexicon_mcp.Json.sort_keys_items
    lexicon_mcp.Json.sort_keys_fields lexicon_mcp.Text.take_chars lexicon_mcp.Text.run_of
    lexicon_mcp.Text.up_to lexicon_mcp.Text.sha256_re lexicon_mcp.Text.commit_re
    lexicon_mcp.Text.id_re lexicon_mcp.Text.subtags lexicon_mcp.Text.language_from
    lexicon_mcp.Text.language_re lexicon_mcp.Text.lower lexicon_mcp.Manifest.component
    lexicon_mcp.Manifest.packs_for lexicon_mcp.Manifest.required_packs
    lexicon_mcp.Manifest.languages_for lexicon_mcp.Manifest.pack_for
    lexicon_mcp.Manifest.Scalars.is_blank lexicon_mcp.Manifest.Scalars.safe_identifier
    lexicon_mcp.Manifest.Scalars.string_value lexicon_mcp.Manifest.Scalars.size_value
    lexicon_mcp.Manifest.Scalars.is_sha256 lexicon_mcp.Manifest.Scalars.sha256_value
    lexicon_mcp.Manifest.Scalars.normalize_language lexicon_mcp.Manifest.Scalars.parse_tags
    lexicon_mcp.Manifest.Scalars.parse_language_tags lexicon_mcp.Selection.normalized_tags
    lexicon_mcp.Selection.normalized_request lexicon_mcp.Selection.wanted
    lexicon_mcp.Selection.cover lexicon_mcp.Selection.gather lexicon_mcp.Selection.sizes
    lexicon_mcp.Selection.finish lexicon_mcp.Selection.gathered lexicon_mcp.Selection.resolve
    lexicon_mcp.Activation.component lexicon_mcp.Activation.component_for
    lexicon_mcp.Activation.digests lexicon_mcp.Activation.installed_languages
    lexicon_mcp.Activation.installed_size lexicon_mcp.Activation.Build.to_dict
    lexicon_mcp.Activation.Build.compute_activation_id lexicon_mcp.Activation.Build.build_activation
    lexicon_mcp.Activation.Parse.string_value lexicon_mcp.Activation.Parse.size_value
    lexicon_mcp.Activation.Parse.digest_value lexicon_mcp.Activation.Parse.parse_component
    lexicon_mcp.Activation.Parse.parse_components lexicon_mcp.Activation.Parse.parse_reference
    lexicon_mcp.Activation.Parse.parse_pack lexicon_mcp.Activation.Parse.parse_record
    lexicon_mcp.Activation.Parse.parse_activation lexicon_mcp.Store.path_for
    lexicon_mcp.Store.store_contains lexicon_mcp.Store.open_path lexicon_mcp.Store.iter_digests
    lexicon_mcp.Store.prune_each lexicon_mcp.Store.prune lexicon_mcp.Store.file_digest
    lexicon_mcp.Store.verify lexicon_mcp.Store.adopt lexicon_mcp.Store.total_bytes
    lexicon_mcp.Install.activation_path lexicon_mcp.Install.read_pointer
    lexicon_mcp.Install.active_id lexicon_mcp.Install.read_activation
    lexicon_mcp.Install.active_activation lexicon_mcp.Install.list_activations
    lexicon_mcp.Install.activations lexicon_mcp.Install.verify_components
    lexicon_mcp.Install.verify_installed lexicon_mcp.Install.Write.amended
    lexicon_mcp.Install.Write.write_pointer lexicon_mcp.Install.Write.write_activation
    lexicon_mcp.Install.Write.retain_manifest lexicon_mcp.Install.Write.preflight
    lexicon_mcp.Install.Write.missing_components lexicon_mcp.Install.Write.adopt_in
    lexicon_mcp.Install.Write.fetch_each lexicon_mcp.Install.Write.apply_activation
    lexicon_mcp.Install.Write.apply lexicon_mcp.Install.Write.install
    lexicon_mcp.Install.Write.amend lexicon_mcp.Install.Write.activate
    lexicon_mcp.Install.Write.prune_root lexicon_mcp.Install.Write.forget
    lexicon_mcp.Prelude.string_le lexicon_mcp.Prelude.sorted lexicon_mcp.Prelude.insert_sorted
    lexicon_mcp.Prelude.insert lexicon_mcp.Prelude.erase
words_recorded = refl

install_stale_example :
    (again_root.activation_files ≡ words_root.activation_files)
    × (active_activation sample_codec again_root ≡ ok (some (read_back (words_activation "2025"))))
    × ((words_report (some words_id) []).effective
        ≡ sorted_items (words_activation "2027").effective)
install_stale_example =
    install_stale sample_codec sample_fetch sample_manifest english words true "2027" "2028"
      words_selection (words_activation "2027") (read_back (words_activation "2025")) words_root
      again_root (words_report (some words_id) []) (to_dict (words_activation "2025"))
      words_resolved words_built_later words_recorded parse_activation-to_dict_example refl
      words_installed_again

-- A volume that is full.
abbrev full_root : Root Value
full_root = record words_root { free = some 0; store = record { objects = [] } }

full_refused :
    (install sample_codec sample_fetch sample_manifest english words true "2027" "2028" full_root).0
    ≡ err space_error
unfolding lexicon_mcp.Json.sort_keys lexicon_mcp.Json.sort_keys_items
    lexicon_mcp.Json.sort_keys_fields lexicon_mcp.Text.take_chars lexicon_mcp.Text.run_of
    lexicon_mcp.Text.up_to lexicon_mcp.Text.sha256_re lexicon_mcp.Text.commit_re
    lexicon_mcp.Text.id_re lexicon_mcp.Text.subtags lexicon_mcp.Text.language_from
    lexicon_mcp.Text.language_re lexicon_mcp.Text.lower lexicon_mcp.Manifest.component
    lexicon_mcp.Manifest.packs_for lexicon_mcp.Manifest.required_packs
    lexicon_mcp.Manifest.languages_for lexicon_mcp.Manifest.pack_for
    lexicon_mcp.Manifest.Scalars.is_blank lexicon_mcp.Manifest.Scalars.safe_identifier
    lexicon_mcp.Manifest.Scalars.string_value lexicon_mcp.Manifest.Scalars.size_value
    lexicon_mcp.Manifest.Scalars.is_sha256 lexicon_mcp.Manifest.Scalars.sha256_value
    lexicon_mcp.Manifest.Scalars.normalize_language lexicon_mcp.Manifest.Scalars.parse_tags
    lexicon_mcp.Manifest.Scalars.parse_language_tags lexicon_mcp.Selection.normalized_tags
    lexicon_mcp.Selection.normalized_request lexicon_mcp.Selection.wanted
    lexicon_mcp.Selection.cover lexicon_mcp.Selection.gather lexicon_mcp.Selection.sizes
    lexicon_mcp.Selection.finish lexicon_mcp.Selection.gathered lexicon_mcp.Selection.resolve
    lexicon_mcp.Activation.component lexicon_mcp.Activation.component_for
    lexicon_mcp.Activation.digests lexicon_mcp.Activation.installed_languages
    lexicon_mcp.Activation.installed_size lexicon_mcp.Activation.Build.to_dict
    lexicon_mcp.Activation.Build.compute_activation_id lexicon_mcp.Activation.Build.build_activation
    lexicon_mcp.Activation.Parse.string_value lexicon_mcp.Activation.Parse.size_value
    lexicon_mcp.Activation.Parse.digest_value lexicon_mcp.Activation.Parse.parse_component
    lexicon_mcp.Activation.Parse.parse_components lexicon_mcp.Activation.Parse.parse_reference
    lexicon_mcp.Activation.Parse.parse_pack lexicon_mcp.Activation.Parse.parse_record
    lexicon_mcp.Activation.Parse.parse_activation lexicon_mcp.Store.path_for
    lexicon_mcp.Store.store_contains lexicon_mcp.Store.open_path lexicon_mcp.Store.iter_digests
    lexicon_mcp.Store.prune_each lexicon_mcp.Store.prune lexicon_mcp.Store.file_digest
    lexicon_mcp.Store.verify lexicon_mcp.Store.adopt lexicon_mcp.Store.total_bytes
    lexicon_mcp.Install.activation_path lexicon_mcp.Install.read_pointer
    lexicon_mcp.Install.active_id lexicon_mcp.Install.read_activation
    lexicon_mcp.Install.active_activation lexicon_mcp.Install.list_activations
    lexicon_mcp.Install.activations lexicon_mcp.Install.verify_components
    lexicon_mcp.Install.verify_installed lexicon_mcp.Install.Write.amended
    lexicon_mcp.Install.Write.write_pointer lexicon_mcp.Install.Write.write_activation
    lexicon_mcp.Install.Write.retain_manifest lexicon_mcp.Install.Write.preflight
    lexicon_mcp.Install.Write.missing_components lexicon_mcp.Install.Write.adopt_in
    lexicon_mcp.Install.Write.fetch_each lexicon_mcp.Install.Write.apply_activation
    lexicon_mcp.Install.Write.apply lexicon_mcp.Install.Write.install
    lexicon_mcp.Install.Write.amend lexicon_mcp.Install.Write.activate
    lexicon_mcp.Install.Write.prune_root lexicon_mcp.Install.Write.forget
    lexicon_mcp.Prelude.string_le lexicon_mcp.Prelude.sorted lexicon_mcp.Prelude.insert_sorted
    lexicon_mcp.Prelude.insert lexicon_mcp.Prelude.erase
full_refused = refl

-- Without English nothing is left.
amend_refused :
    (amend sample_codec sample_fetch sample_manifest []
      ("EN" ∷ [])
      none
      true
      "2027"
      "2028"
      words_root).0
    ≡ err lifecycle_error
unfolding lexicon_mcp.Json.sort_keys lexicon_mcp.Json.sort_keys_items
    lexicon_mcp.Json.sort_keys_fields lexicon_mcp.Text.take_chars lexicon_mcp.Text.run_of
    lexicon_mcp.Text.up_to lexicon_mcp.Text.sha256_re lexicon_mcp.Text.commit_re
    lexicon_mcp.Text.id_re lexicon_mcp.Text.subtags lexicon_mcp.Text.language_from
    lexicon_mcp.Text.language_re lexicon_mcp.Text.lower lexicon_mcp.Manifest.component
    lexicon_mcp.Manifest.packs_for lexicon_mcp.Manifest.required_packs
    lexicon_mcp.Manifest.languages_for lexicon_mcp.Manifest.pack_for
    lexicon_mcp.Manifest.Scalars.is_blank lexicon_mcp.Manifest.Scalars.safe_identifier
    lexicon_mcp.Manifest.Scalars.string_value lexicon_mcp.Manifest.Scalars.size_value
    lexicon_mcp.Manifest.Scalars.is_sha256 lexicon_mcp.Manifest.Scalars.sha256_value
    lexicon_mcp.Manifest.Scalars.normalize_language lexicon_mcp.Manifest.Scalars.parse_tags
    lexicon_mcp.Manifest.Scalars.parse_language_tags lexicon_mcp.Selection.normalized_tags
    lexicon_mcp.Selection.normalized_request lexicon_mcp.Selection.wanted
    lexicon_mcp.Selection.cover lexicon_mcp.Selection.gather lexicon_mcp.Selection.sizes
    lexicon_mcp.Selection.finish lexicon_mcp.Selection.gathered lexicon_mcp.Selection.resolve
    lexicon_mcp.Activation.component lexicon_mcp.Activation.component_for
    lexicon_mcp.Activation.digests lexicon_mcp.Activation.installed_languages
    lexicon_mcp.Activation.installed_size lexicon_mcp.Activation.Build.to_dict
    lexicon_mcp.Activation.Build.compute_activation_id lexicon_mcp.Activation.Build.build_activation
    lexicon_mcp.Activation.Parse.string_value lexicon_mcp.Activation.Parse.size_value
    lexicon_mcp.Activation.Parse.digest_value lexicon_mcp.Activation.Parse.parse_component
    lexicon_mcp.Activation.Parse.parse_components lexicon_mcp.Activation.Parse.parse_reference
    lexicon_mcp.Activation.Parse.parse_pack lexicon_mcp.Activation.Parse.parse_record
    lexicon_mcp.Activation.Parse.parse_activation lexicon_mcp.Store.path_for
    lexicon_mcp.Store.store_contains lexicon_mcp.Store.open_path lexicon_mcp.Store.iter_digests
    lexicon_mcp.Store.prune_each lexicon_mcp.Store.prune lexicon_mcp.Store.file_digest
    lexicon_mcp.Store.verify lexicon_mcp.Store.adopt lexicon_mcp.Store.total_bytes
    lexicon_mcp.Install.activation_path lexicon_mcp.Install.read_pointer
    lexicon_mcp.Install.active_id lexicon_mcp.Install.read_activation
    lexicon_mcp.Install.active_activation lexicon_mcp.Install.list_activations
    lexicon_mcp.Install.activations lexicon_mcp.Install.verify_components
    lexicon_mcp.Install.verify_installed lexicon_mcp.Install.Write.amended
    lexicon_mcp.Install.Write.write_pointer lexicon_mcp.Install.Write.write_activation
    lexicon_mcp.Install.Write.retain_manifest lexicon_mcp.Install.Write.preflight
    lexicon_mcp.Install.Write.missing_components lexicon_mcp.Install.Write.adopt_in
    lexicon_mcp.Install.Write.fetch_each lexicon_mcp.Install.Write.apply_activation
    lexicon_mcp.Install.Write.apply lexicon_mcp.Install.Write.install
    lexicon_mcp.Install.Write.amend lexicon_mcp.Install.Write.activate
    lexicon_mcp.Install.Write.prune_root lexicon_mcp.Install.Write.forget
    lexicon_mcp.Prelude.string_le lexicon_mcp.Prelude.sorted lexicon_mcp.Prelude.insert_sorted
    lexicon_mcp.Prelude.insert lexicon_mcp.Prelude.erase
amend_refused = refl

amend_fails_example :
    UnmovedFrom sample_codec words_root lifecycle_error
      (amend sample_codec sample_fetch sample_manifest []
        ("EN" ∷ [])
        none
        true
        "2027"
        "2028"
        words_root).1
    × StaysActive sample_codec words_root
        (amend sample_codec sample_fetch sample_manifest []
          ("EN" ∷ [])
          none
          true
          "2027"
          "2028"
          words_root).1
amend_fails_example =
    amend_fails sample_codec sample_fetch sample_manifest [] ("EN" ∷ []) none true "2027" "2028"
      words_root lifecycle_error amend_refused
