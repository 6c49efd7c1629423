-- ===== src/Tests/Retained.antt =====
-- What pruning, forgetting and activating keep of the sample.
use lexicon_mcp.Prelude.{
  ℕ, String, Bool, true, false, List, [], ◌∷◌, Option, none, some, ◌≡◌, refl, Result, ok, err,
  Error, space_error, lifecycle_error, contains, string_eq, lookup, insert, length, ◌==◌,
  if◌then◌else◌,
}
use lexicon_mcp.Json.{Value, str}
use lexicon_mcp.Selection.{Selection, resolve, normalized_request}
use lexicon_mcp.Activation.{Activation}
use lexicon_mcp.Activation.Build.{sorted_items, to_dict, build_activation}
use lexicon_mcp.Activation.Parse.{parse_activation}
use lexicon_mcp.Activation.RoundTrip.{read_back}
use lexicon_mcp.Store.{Entry, Store, is_file}
use lexicon_mcp.Install.{
  Root, active_id, active_activation, activations, read_activation, verify_components,
  verify_installed,
}
use lexicon_mcp.Install.Write.{InstallReport, install, amend, prune_root, forget, activate}
use lexicon_mcp.Install.Atomic.{SameActive}
use lexicon_mcp.Install.Retention.{prune_root_safe, prune_root_removes}
use lexicon_mcp.Install.Forget.{forget_keeps, activate_lem}
use lexicon_mcp.Store.{iter_digests, regular}
use lexicon_mcp.Store.Prune.{unreferenced}
use lexicon_mcp.Install.Write.{all_digests}
use lexicon_mcp.Tests.Samples.{
  sample_codec, words_id, words_activation, words_root, sample_file, zeros,
}

-- A file that no record names.
abbrev littered_root : Root Value
littered_root = record words_root {
  store = record { objects = insert zeros (sample_file zeros) words_root.store.objects };
}

abbrev pruned_root : Root Value
pruned_root = (prune_root sample_codec littered_root).1

littered_listed :
    activations sample_codec littered_root ≡ ok (read_back (words_activation "2025") ∷ [])
unfolding lexicon_mcp.Json.sort_keys_fields lexicon_mcp.Text.take_chars lexicon_mcp.Text.sha256_re
    lexicon_mcp.Text.id_re lexicon_mcp.Text.language_re lexicon_mcp.Text.lower
    lexicon_mcp.Manifest.component lexicon_mcp.Manifest.required_packs lexicon_mcp.Manifest.pack_for
    lexicon_mcp.Manifest.Scalars.safe_identifier lexicon_mcp.Manifest.Scalars.is_sha256
    lexicon_mcp.Manifest.Scalars.normalize_language lexicon_mcp.Selection.normalized_tags
    lexicon_mcp.Selection.normalized_request lexicon_mcp.Selection.wanted
    lexicon_mcp.Selection.cover lexicon_mcp.Selection.gather lexicon_mcp.Selection.sizes
    lexicon_mcp.Selection.finish lexicon_mcp.Selection.gathered lexicon_mcp.Selection.resolve
    lexicon_mcp.Activation.Build.to_dict lexicon_mcp.Activation.Build.compute_activation_id
    lexicon_mcp.Activation.Build.build_activation lexicon_mcp.Activation.Parse.string_value
    lexicon_mcp.Activation.Parse.size_value lexicon_mcp.Activation.Parse.digest_value
    lexicon_mcp.Activation.Parse.parse_component lexicon_mcp.Activation.Parse.parse_components
    lexicon_mcp.Activation.Parse.parse_reference lexicon_mcp.Activation.Parse.parse_pack
    lexicon_mcp.Activation.Parse.parse_record lexicon_mcp.Activation.Parse.parse_activation
    lexicon_mcp.Store.path_for lexicon_mcp.Store.file_digest lexicon_mcp.Store.verify
    lexicon_mcp.Store.adopt lexicon_mcp.Install.activation_path lexicon_mcp.Install.read_pointer
    lexicon_mcp.Install.active_id lexicon_mcp.Install.list_activations
    lexicon_mcp.Install.activations lexicon_mcp.Install.Write.write_pointer
    lexicon_mcp.Install.Write.write_activation lexicon_mcp.Install.Write.retain_manifest
    lexicon_mcp.Install.Write.preflight lexicon_mcp.Install.Write.missing_components
    lexicon_mcp.Install.Write.adopt_in lexicon_mcp.Install.Write.fetch_each
    lexicon_mcp.Install.Write.apply_activation lexicon_mcp.Install.Write.apply
    lexicon_mcp.Install.Write.install lexicon_mcp.Prelude.string_le lexicon_mcp.Prelude.sorted
    lexicon_mcp.Prelude.insert
littered_listed = refl

littered_pruned : prune_root sample_codec littered_root ≡ (ok (zeros ∷ [], 2), pruned_root)
unfolding lexicon_mcp.Json.sort_keys lexicon_mcp.Json.sort_keys_items
    lexicon_mcp.Json.sort_keys_fields lexicon_mcp.Text.take_chars lexicon_mcp.Text.run_of
    lexicon_mcp.Text.up_to lexicon_mcp.Text.sha256_re lexicon_mcp.Text.commit_re
    lexicon_mcp.Text.id_re lexicon_mcp.Text.subtags lexicon_mcp.Text.language_from
    lexicon_mcp.Text.language_re lexicon_mcp.Text.lower lexicon_mcp.Manifest.component
    lexicon_mcp.Manifest.packs_for lexicon_mcp.Manifest.required_packs
    lexicon_mcp.Manifest.languages_for lexicon_mcp.Manifest.pack_for
    lexicon_mcp.Manifest.Scalars.is_blank lexicon_mcp.Manifest.Scalars.safe_identifier
    lexicon_mcp.Manifest.Scalars.string_value lexicon_mcp.Manifest.Scalars.size_value
    lexicon_mcp.Manifest.Scalars.is_sha256 lexicon_mcp.Manifest.Scalars.sha256_value
    lexicon_mcp.Manifest.Scalars.normalize_language lexicon_mcp.Manifest.Scalars.parse_tags
    lexicon_mcp.Manifest.Scalars.parse_language_tags lexicon_mcp.Selection.normalized_tags
    lexicon_mcp.Selection.normalized_request lexicon_mcp.Selection.wanted
    lexicon_mcp.Selection.cover lexicon_mcp.Selection.gather lexicon_mcp.Selection.sizes
    lexicon_mcp.Selection.finish lexicon_mcp.Selection.gathered lexicon_mcp.Selection.resolve
    lexicon_mcp.Activation.component lexicon_mcp.Activation.component_for
    lexicon_mcp.Activation.digests lexicon_mcp.Activation.installed_languages
    lexicon_mcp.Activation.installed_size lexicon_mcp.Activation.Build.to_dict
    lexicon_mcp.Activation.Build.compute_activation_id lexicon_mcp.Activation.Build.build_activation
    lexicon_mcp.Activation.Parse.string_value lexicon_mcp.Activation.Parse.size_value
    lexicon_mcp.Activation.Parse.digest_value lexicon_mcp.Activation.Parse.parse_component
    lexicon_mcp.Activation.Parse.parse_components lexicon_mcp.Activation.Parse.parse_reference
    lexicon_mcp.Activation.Parse.parse_pack lexicon_mcp.Activation.Parse.parse_record
    lexicon_mcp.Activation.Parse.parse_activation lexicon_mcp.Store.path_for
    lexicon_mcp.Store.store_contains lexicon_mcp.Store.open_path lexicon_mcp.Store.iter_digests
    lexicon_mcp.Store.prune_each lexicon_mcp.Store.prune lexicon_mcp.Store.file_digest
    lexicon_mcp.Store.verify lexicon_mcp.Store.adopt lexicon_mcp.Store.total_bytes
    lexicon_mcp.Install.activation_path lexicon_mcp.Install.read_pointer
    lexicon_mcp.Install.active_id lexicon_mcp.Install.read_activation
    lexicon_mcp.Install.active_activation lexicon_mcp.Install.list_activations
    lexicon_mcp.Install.activations lexicon_mcp.Install.verify_components
    lexicon_mcp.Install.verify_installed lexicon_mcp.Install.Write.amended
    lexicon_mcp.Install.Write.write_pointer lexicon_mcp.Install.Write.write_activation
    lexicon_mcp.Install.Write.retain_manifest lexicon_mcp.Install.Write.preflight
    lexicon_mcp.Install.Write.missing_components lexicon_mcp.Install.Write.adopt_in
    lexicon_mcp.Install.Write.fetch_each lexicon_mcp.Install.Write.apply_activation
    lexicon_mcp.Install.Write.apply lexicon_mcp.Install.Write.install
    lexicon_mcp.Install.Write.amend lexicon_mcp.Install.Write.activate
    lexicon_mcp.Install.Write.prune_root lexicon_mcp.Install.Write.forget
    lexicon_mcp.Prelude.string_le lexicon_mcp.Prelude.sorted lexicon_mcp.Prelude.insert_sorted
    lexicon_mcp.Prelude.insert lexicon_mcp.Prelude.erase
littered_pruned = refl

prune_root_safe_example :
    SameActive littered_root pruned_root
    × (verify_components sample_codec pruned_root.store (words_activation "2025").components
        ≡ verify_components sample_codec littered_root.store (words_activation "2025").components)
prune_root_safe_example =
    prune_root_safe sample_codec littered_root [] [] (read_back (words_activation "2025"))
      littered_listed

prune_root_removes_example :
    (all : List Activation) × (activations sample_codec littered_root ≡ ok all)
    × (zeros ∷ [] ≡ unreferenced (all_digests all []) (iter_digests littered_root.store))
    × (2 ≡ length (all_digests all []))
    × ((j : String)
        → lookup j pruned_root.store.objects
          ≡ (if contains (zeros ∷ []) j then none else lookup j littered_root.store.objects))
prune_root_removes_example =
    prune_root_removes sample_codec littered_root pruned_root (zeros ∷ []) 2 littered_pruned

abbrev other : String
other = "other"

-- A second record.
abbrev shared_root : Root Value
shared_root = record words_root {
  activation_files = insert "other.json" (some (str "")) words_root.activation_files;
}

abbrev forgotten_root : Root Value
forgotten_root = (forget sample_codec "other" shared_root).1

other_forgotten : forget sample_codec "other" shared_root ≡ (ok "other", forgotten_root)
unfolding lexicon_mcp.Json.sort_keys lexicon_mcp.Json.sort_keys_items
    lexicon_mcp.Json.sort_keys_fields lexicon_mcp.Text.take_chars lexicon_mcp.Text.run_of
    lexicon_mcp.Text.up_to lexicon_mcp.Text.sha256_re lexicon_mcp.Text.commit_re
    lexicon_mcp.Text.id_re lexicon_mcp.Text.subtags lexicon_mcp.Text.language_from
    lexicon_mcp.Text.language_re lexicon_mcp.Text.lower lexicon_mcp.Manifest.component
    lexicon_mcp.Manifest.packs_for lexicon_mcp.Manifest.required_packs
    lexicon_mcp.Manifest.languages_for lexicon_mcp.Manifest.pack_for
    lexicon_mcp.Manifest.Scalars.is_blank lexicon_mcp.Manifest.Scalars.safe_identifier
    lexicon_mcp.Manifest.Scalars.string_value lexicon_mcp.Manifest.Scalars.size_value
    lexicon_mcp.Manifest.Scalars.is_sha256 lexicon_mcp.Manifest.Scalars.sha256_value
    lexicon_mcp.Manifest.Scalars.normalize_language lexicon_mcp.Manifest.Scalars.parse_tags
    lexicon_mcp.Manifest.Scalars.parse_language_tags lexicon_mcp.Selection.normalized_tags
    lexicon_mcp.Selection.normalized_request lexicon_mcp.Selection.wanted
    lexicon_mcp.Selection.cover lexicon_mcp.Selection.gather lexicon_mcp.Selection.sizes
    lexicon_mcp.Selection.finish lexicon_mcp.Selection.gathered lexicon_mcp.Selection.resolve
    lexicon_mcp.Activation.component lexicon_mcp.Activation.component_for
    lexicon_mcp.Activation.digests lexicon_mcp.Activation.installed_languages
    lexicon_mcp.Activation.installed_size lexicon_mcp.Activation.Build.to_dict
    lexicon_mcp.Activation.Build.compute_activation_id lexicon_mcp.Activation.Build.build_activation
    lexicon_mcp.Activation.Parse.string_value lexicon_mcp.Activation.Parse.size_value
    lexicon_mcp.Activation.Parse.digest_value lexicon_mcp.Activation.Parse.parse_component
    lexicon_mcp.Activation.Parse.parse_components lexicon_mcp.Activation.Parse.parse_reference
    lexicon_mcp.Activation.Parse.parse_pack lexicon_mcp.Activation.Parse.parse_record
    lexicon_mcp.Activation.Parse.parse_activation lexicon_mcp.Store.path_for
    lexicon_mcp.Store.store_contains lexicon_mcp.Store.open_path lexicon_mcp.Store.iter_digests
    lexicon_mcp.Store.prune_each lexicon_mcp.Store.prune lexicon_mcp.Store.file_digest
    lexicon_mcp.Store.verify lexicon_mcp.Store.adopt lexicon_mcp.Store.total_bytes
    lexicon_mcp.Install.activation_path lexicon_mcp.Install.read_pointer
    lexicon_mcp.Install.active_id lexicon_mcp.Install.read_activation
    lexicon_mcp.Install.active_activation lexicon_mcp.Install.list_activations
    lexicon_mcp.Install.activations lexicon_mcp.Install.verify_components
    lexicon_mcp.Install.verify_installed lexicon_mcp.Install.Write.amended
    lexicon_mcp.Install.Write.write_pointer lexicon_mcp.Install.Write.write_activation
    lexicon_mcp.Install.Write.retain_manifest lexicon_mcp.Install.Write.preflight
    lexicon_mcp.Install.Write.missing_components lexicon_mcp.Install.Write.adopt_in
    lexicon_mcp.Install.Write.fetch_each lexicon_mcp.Install.Write.apply_activation
    lexicon_mcp.Install.Write.apply lexicon_mcp.Install.Write.install
    lexicon_mcp.Install.Write.amend lexicon_mcp.Install.Write.activate
    lexicon_mcp.Install.Write.prune_root lexicon_mcp.Install.Write.forget
    lexicon_mcp.Prelude.string_le lexicon_mcp.Prelude.sorted lexicon_mcp.Prelude.insert_sorted
    lexicon_mcp.Prelude.insert lexicon_mcp.Prelude.erase
other_forgotten = refl

shared_active : active_id sample_codec shared_root ≡ ok (some words_id)
unfolding lexicon_mcp.Json.sort_keys lexicon_mcp.Json.sort_keys_items
    lexicon_mcp.Json.sort_keys_fields lexicon_mcp.Text.take_chars lexicon_mcp.Text.run_of
    lexicon_mcp.Text.up_to lexicon_mcp.Text.sha256_re lexicon_mcp.Text.commit_re
    lexicon_mcp.Text.id_re lexicon_mcp.Text.subtags lexicon_mcp.Text.language_from
    lexicon_mcp.Text.language_re lexicon_mcp.Text.lower lexicon_mcp.Manifest.component
    lexicon_mcp.Manifest.packs_for lexicon_mcp.Manifest.required_packs
    lexicon_mcp.Manifest.languages_for lexicon_mcp.Manifest.pack_for
    lexicon_mcp.Manifest.Scalars.is_blank lexicon_mcp.Manifest.Scalars.safe_identifier
    lexicon_mcp.Manifest.Scalars.string_value lexicon_mcp.Manifest.Scalars.size_value
    lexicon_mcp.Manifest.Scalars.is_sha256 lexicon_mcp.Manifest.Scalars.sha256_value
    lexicon_mcp.Manifest.Scalars.normalize_language lexicon_mcp.Manifest.Scalars.parse_tags
    lexicon_mcp.Manifest.Scalars.parse_language_tags lexicon_mcp.Selection.normalized_tags
    lexicon_mcp.Selection.normalized_request lexicon_mcp.Selection.wanted
    lexicon_mcp.Selection.cover lexicon_mcp.Selection.gather lexicon_mcp.Selection.sizes
    lexicon_mcp.Selection.finish lexicon_mcp.Selection.gathered lexicon_mcp.Selection.resolve
    lexicon_mcp.Activation.component lexicon_mcp.Activation.component_for
    lexicon_mcp.Activation.digests lexicon_mcp.Activation.installed_languages
    lexicon_mcp.Activation.installed_size lexicon_mcp.Activation.Build.to_dict
    lexicon_mcp.Activation.Build.compute_activation_id lexicon_mcp.Activation.Build.build_activation
    lexicon_mcp.Activation.Parse.string_value lexicon_mcp.Activation.Parse.size_value
    lexicon_mcp.Activation.Parse.digest_value lexicon_mcp.Activation.Parse.parse_component
    lexicon_mcp.Activation.Parse.parse_components lexicon_mcp.Activation.Parse.parse_reference
    lexicon_mcp.Activation.Parse.parse_pack lexicon_mcp.Activation.Parse.parse_record
    lexicon_mcp.Activation.Parse.parse_activation lexicon_mcp.Store.path_for
    lexicon_mcp.Store.store_contains lexicon_mcp.Store.open_path lexicon_mcp.Store.iter_digests
    lexicon_mcp.Store.prune_each lexicon_mcp.Store.prune lexicon_mcp.Store.file_digest
    lexicon_mcp.Store.verify lexicon_mcp.Store.adopt lexicon_mcp.Store.total_bytes
    lexicon_mcp.Install.activation_path lexicon_mcp.Install.read_pointer
    lexicon_mcp.Install.active_id lexicon_mcp.Install.read_activation
    lexicon_mcp.Install.active_activation lexicon_mcp.Install.list_activations
    lexicon_mcp.Install.activations lexicon_mcp.Install.verify_components
    lexicon_mcp.Install.verify_installed lexicon_mcp.Install.Write.amended
    lexicon_mcp.Install.Write.write_pointer lexicon_mcp.Install.Write.write_activation
    lexicon_mcp.Install.Write.retain_manifest lexicon_mcp.Install.Write.preflight
    lexicon_mcp.Install.Write.missing_components lexicon_mcp.Install.Write.adopt_in
    lexicon_mcp.Install.Write.fetch_each lexicon_mcp.Install.Write.apply_activation
    lexicon_mcp.Install.Write.apply lexicon_mcp.Install.Write.install
    lexicon_mcp.Install.Write.amend lexicon_mcp.Install.Write.activate
    lexicon_mcp.Install.Write.prune_root lexicon_mcp.Install.Write.forget
    lexicon_mcp.Prelude.string_le lexicon_mcp.Prelude.sorted lexicon_mcp.Prelude.insert_sorted
    lexicon_mcp.Prelude.insert lexicon_mcp.Prelude.erase
shared_active = refl

forget_keeps_example :
    (other ≡ other)
    × (forgotten_root.store ≡ shared_root.store)
    × (active_activation sample_codec forgotten_root ≡ active_activation sample_codec shared_root)
    × (read_activation sample_codec forgotten_root "other" ≡ err lifecycle_error)
    × ((l : String)
        → ("other" == l) ≡ false
        → read_activation sample_codec forgotten_root l
          ≡ read_activation sample_codec shared_root l)
forget_keeps_example =
    forget_keeps sample_codec shared_root forgotten_root words_id "other" "other" other_forgotten
      shared_active

abbrev activated_root : Root Value
activated_root = (activate sample_codec words_id "2027" words_root).1

words_activated :
    activate sample_codec words_id "2027" words_root
    ≡ (ok (words_id, some words_id), activated_root)
unfolding lexicon_mcp.Json.sort_keys lexicon_mcp.Json.sort_keys_items
    lexicon_mcp.Json.sort_keys_fields lexicon_mcp.Text.take_chars lexicon_mcp.Text.run_of
    lexicon_mcp.Text.up_to lexicon_mcp.Text.sha256_re lexicon_mcp.Text.commit_re
    lexicon_mcp.Text.id_re lexicon_mcp.Text.subtags lexicon_mcp.Text.language_from
    lexicon_mcp.Text.language_re lexicon_mcp.Text.lower lexicon_mcp.Manifest.component
    lexicon_mcp.Manifest.packs_for lexicon_mcp.Manifest.required_packs
    lexicon_mcp.Manifest.languages_for lexicon_mcp.Manifest.pack_for
    lexicon_mcp.Manifest.Scalars.is_blank lexicon_mcp.Manifest.Scalars.safe_identifier
    lexicon_mcp.Manifest.Scalars.string_value lexicon_mcp.Manifest.Scalars.size_value
    lexicon_mcp.Manifest.Scalars.is_sha256 lexicon_mcp.Manifest.Scalars.sha256_value
    lexicon_mcp.Manifest.Scalars.normalize_language lexicon_mcp.Manifest.Scalars.parse_tags
    lexicon_mcp.Manifest.Scalars.parse_language_tags lexicon_mcp.Selection.normalized_tags
    lexicon_mcp.Selection.normalized_request lexicon_mcp.Selection.wanted
    lexicon_mcp.Selection.cover lexicon_mcp.Selection.gather lexicon_mcp.Selection.sizes
    lexicon_mcp.Selection.finish lexicon_mcp.Selection.gathered lexicon_mcp.Selection.resolve
    lexicon_mcp.Activation.component lexicon_mcp.Activation.component_for
    lexicon_mcp.Activation.digests lexicon_mcp.Activation.installed_languages
    lexicon_mcp.Activation.installed_size lexicon_mcp.Activation.Build.to_dict
    lexicon_mcp.Activation.Build.compute_activation_id lexicon_mcp.Activation.Build.build_activation
    lexicon_mcp.Activation.Parse.string_value lexicon_mcp.Activation.Parse.size_value
    lexicon_mcp.Activation.Parse.digest_value lexicon_mcp.Activation.Parse.parse_component
    lexicon_mcp.Activation.Parse.parse_components lexicon_mcp.Activation.Parse.parse_reference
    lexicon_mcp.Activation.Parse.parse_pack lexicon_mcp.Activation.Parse.parse_record
    lexicon_mcp.Activation.Parse.parse_activation lexicon_mcp.Store.path_for
    lexicon_mcp.Store.store_contains lexicon_mcp.Store.open_path lexicon_mcp.Store.iter_digests
    lexicon_mcp.Store.prune_each lexicon_mcp.Store.prune lexicon_mcp.Store.file_digest
    lexicon_mcp.Store.verify lexicon_mcp.Store.adopt lexicon_mcp.Store.total_bytes
    lexicon_mcp.Install.activation_path lexicon_mcp.Install.read_pointer
    lexicon_mcp.Install.active_id lexicon_mcp.Install.read_activation
    lexicon_mcp.Install.active_activation lexicon_mcp.Install.list_activations
    lexicon_mcp.Install.activations lexicon_mcp.Install.verify_components
    lexicon_mcp.Install.verify_installed lexicon_mcp.Install.Write.amended
    lexicon_mcp.Install.Write.write_pointer lexicon_mcp.Install.Write.write_activation
    lexicon_mcp.Install.Write.retain_manifest lexicon_mcp.Install.Write.preflight
    lexicon_mcp.Install.Write.missing_components lexicon_mcp.Install.Write.adopt_in
    lexicon_mcp.Install.Write.fetch_each lexicon_mcp.Install.Write.apply_activation
    lexicon_mcp.Install.Write.apply lexicon_mcp.Install.Write.install
    lexicon_mcp.Install.Write.amend lexicon_mcp.Install.Write.activate
    lexicon_mcp.Install.Write.prune_root lexicon_mcp.Install.Write.forget
    lexicon_mcp.Prelude.string_le lexicon_mcp.Prelude.sorted lexicon_mcp.Prelude.insert_sorted
    lexicon_mcp.Prelude.insert lexicon_mcp.Prelude.erase
words_activated = refl

activate_lem_example :
    (a : Activation) × (read_activation sample_codec words_root words_id ≡ ok a)
    × (words_id ≡ words_id)
    × (verify_components sample_codec words_root.store a.components ≡ ok [])
    × (active_activation sample_codec activated_root ≡ ok (some a))
    × (activated_root.activation_files ≡ words_root.activation_files)
    × (activated_root.store ≡ words_root.store)
activate_lem_example =
    activate_lem sample_codec words_root activated_root words_id "2027" words_id (some words_id)
      words_activated
