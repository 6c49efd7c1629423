-- ===== src/Tests/Installs.antt =====
-- data/activation.py and data/component_lifecycle.py at the sample.
use lexicon_mcp.Prelude.{
  ℕ, String, Bool, true, false, List, [], ◌∷◌, Option, none, some, ◌≡◌, refl, Result, ok, err,
  Error, space_error, lifecycle_error, contains, string_eq, lookup, length, if◌then◌else◌,
}
use lexicon_mcp.Selection.{Selection, resolve, normalized_request}
use lexicon_mcp.Activation.{Activation}
use lexicon_mcp.Activation.Build.{sorted_items, to_dict, build_activation}
use lexicon_mcp.Activation.Parse.{parse_activation}
use lexicon_mcp.Activation.RoundTrip.{read_back}
use lexicon_mcp.Activation.Accepted.{accepted_activation}
use lexicon_mcp.Store.{Entry, Store, is_file}
use lexicon_mcp.Install.{
  Root, active_id, active_activation, activations, read_activation, verify_components,
  verify_installed,
}
use lexicon_mcp.Install.Write.{InstallReport, install, amend, prune_root, forget, activate}
use lexicon_mcp.Install.Verified.{install_verified}
use lexicon_mcp.Tests.Releases.{sample_parsed}
use lexicon_mcp.Tests.Samples.{
  sample_codec, manifest_json, sample_manifest, words_selection, words_id, words_activation,
  empty_root, sample_fetch, words_report, words_root,
}

abbrev pub english : Option (List String)
english = some ("EN" ∷ [])

abbrev pub words : List String
words = "lexical" ∷ []

pub words_normalized : normalized_request english ≡ ok (some ("en" ∷ []))
unfolding lexicon_mcp.Text.language_re lexicon_mcp.Text.lower
    lexicon_mcp.Manifest.Scalars.normalize_language lexicon_mcp.Selection.normalized_tags
    lexicon_mcp.Selection.normalized_request
words_normalized = refl

pub words_resolved : resolve sample_manifest english words true ≡ ok words_selection
unfolding lexicon_mcp.Text.language_re lexicon_mcp.Text.lower lexicon_mcp.Manifest.component
    lexicon_mcp.Manifest.required_packs lexicon_mcp.Manifest.pack_for
    lexicon_mcp.Manifest.Scalars.normalize_language lexicon_mcp.Selection.normalized_tags
    lexicon_mcp.Selection.normalized_request lexicon_mcp.Selection.wanted
    lexicon_mcp.Selection.cover lexicon_mcp.Selection.gather lexicon_mcp.Selection.sizes
    lexicon_mcp.Selection.finish lexicon_mcp.Selection.gathered lexicon_mcp.Selection.resolve
    lexicon_mcp.Prelude.string_le lexicon_mcp.Prelude.sorted lexicon_mcp.Prelude.insert
words_resolved = refl

pub words_built :
    build_activation sample_codec sample_manifest words_selection english words "2025"
    ≡ ok (words_activation "2025")
unfolding lexicon_mcp.Text.take_chars lexicon_mcp.Text.sha256_re lexicon_mcp.Manifest.component
    lexicon_mcp.Activation.Build.compute_activation_id lexicon_mcp.Activation.Build.build_activation
    lexicon_mcp.Prelude.string_le lexicon_mcp.Prelude.sorted
words_built = refl

pub words_installed :
    install sample_codec sample_fetch sample_manifest english words true "2025" "2026" empty_root
    ≡ (ok (words_report none ("base" ∷ "words" ∷ [])), words_root)
unfolding lexicon_mcp.Text.take_chars lexicon_mcp.Text.sha256_re lexicon_mcp.Text.id_re
    lexicon_mcp.Text.language_from lexicon_mcp.Text.language_re lexicon_mcp.Text.lower
    lexicon_mcp.Manifest.component lexicon_mcp.Manifest.packs_for
    lexicon_mcp.Manifest.required_packs lexicon_mcp.Manifest.languages_for
    lexicon_mcp.Manifest.pack_for lexicon_mcp.Manifest.Scalars.is_blank
    lexicon_mcp.Manifest.Scalars.safe_identifier lexicon_mcp.Manifest.Scalars.normalize_language
    lexicon_mcp.Manifest.Scalars.parse_tags lexicon_mcp.Manifest.Scalars.parse_language_tags
    lexicon_mcp.Selection.normalized_tags lexicon_mcp.Selection.normalized_request
    lexicon_mcp.Selection.wanted lexicon_mcp.Selection.cover lexicon_mcp.Selection.gather
    lexicon_mcp.Selection.sizes lexicon_mcp.Selection.finish lexicon_mcp.Selection.gathered
    lexicon_mcp.Selection.resolve lexicon_mcp.Activation.Build.compute_activation_id
    lexicon_mcp.Activation.Build.build_activation lexicon_mcp.Store.path_for
    lexicon_mcp.Store.store_contains lexicon_mcp.Store.file_digest lexicon_mcp.Store.verify
    lexicon_mcp.Store.adopt lexicon_mcp.Store.total_bytes lexicon_mcp.Install.activation_path
    lexicon_mcp.Install.read_pointer lexicon_mcp.Install.active_id
    lexicon_mcp.Install.read_activation lexicon_mcp.Install.Write.write_pointer
    lexicon_mcp.Install.Write.write_activation lexicon_mcp.Install.Write.retain_manifest
    lexicon_mcp.Install.Write.preflight lexicon_mcp.Install.Write.missing_components
    lexicon_mcp.Install.Write.adopt_in lexicon_mcp.Install.Write.fetch_each
    lexicon_mcp.Install.Write.apply_activation lexicon_mcp.Install.Write.apply
    lexicon_mcp.Install.Write.install lexicon_mcp.Prelude.string_le lexicon_mcp.Prelude.sorted
    lexicon_mcp.Prelude.insert_sorted lexicon_mcp.Prelude.insert
words_installed = refl

install_verified_example :
    (active_activation sample_codec words_root ≡ ok (some (read_back (words_activation "2025"))))
    × (verify_installed sample_codec words_root none
        ≡ ok (record { activation_id = words_id; components_checked = 2; damaged = [] }))
install_verified_example =
    install_verified sample_codec sample_fetch manifest_json sample_manifest english words true
      "2025" "2026" words_selection (words_activation "2025") empty_root words_root
      (words_report none ("base" ∷ "words" ∷ [])) sample_parsed refl words_resolved words_built refl
      refl (λ there. absurd cc, (λ there. absurd cc, tt)) words_installed

accepted_activation_example :
    (s : Selection) × (a : Activation) × (resolve sample_manifest english words true ≡ ok s)
    × (build_activation sample_codec sample_manifest s english words "2025" ≡ ok a)
    × (parse_activation sample_codec (to_dict a) ≡ ok (read_back a))
accepted_activation_example =
    accepted_activation sample_codec manifest_json sample_manifest english (some ("en" ∷ [])) words
      true "2025" sample_parsed refl refl words_normalized refl refl
