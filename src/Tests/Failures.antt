-- ===== src/Tests/Failures.antt =====
-- Installs at the sample that fail, and one over a damaged store.
use lexicon_mcp.Prelude.{
  ℕ, String, Bool, true, false, List, [], ◌∷◌, Option, none, some, ◌≡◌, refl, ok, err, os_error,
  contains, string_eq, lookup,
}
use lexicon_mcp.Json.{Value}
use lexicon_mcp.Activation.{ActivationComponent}
use lexicon_mcp.Store.{verify}
use lexicon_mcp.Install.{Root, Target}
use lexicon_mcp.Install.Write.{install}
use lexicon_mcp.Install.Unmoved.{UnmovedFrom, StaysActive}
use lexicon_mcp.Install.Atomic.{install_fails}
use lexicon_mcp.Install.Damaged.{install_damaged}
use lexicon_mcp.Tests.Installs.{english, words, words_resolved, words_built}
use lexicon_mcp.Tests.Samples.{
  ones, twos, zeros, sample_file, sample_codec, sample_manifest, words_selection, words_activation,
  sample_fetch, words_report, words_root, empty_root,
}

-- A system that does not let the pointer be written.
abbrev all_but_pointer : Target → Bool
all_but_pointer Target.pointer_file = false
all_but_pointer _ = true

abbrev refused_root : Root Value
refused_root = record empty_root { writable = all_but_pointer }

-- The record is left behind, where the error is raised.
pointer_refused :
    ((install sample_codec sample_fetch sample_manifest english words true "2025" "2026"
        refused_root).0
      ≡ err os_error)
    × ((install sample_codec sample_fetch sample_manifest english words true "2025" "2026"
          refused_root).1.activation_files
        ≡ words_root.activation_files)
unfolding lexicon_mcp.Text.take_chars lexicon_mcp.Text.sha256_re lexicon_mcp.Text.id_re
    lexicon_mcp.Text.language_re lexicon_mcp.Text.lower lexicon_mcp.Manifest.component
    lexicon_mcp.Manifest.required_packs lexicon_mcp.Manifest.pack_for
    lexicon_mcp.Manifest.Scalars.safe_identifier lexicon_mcp.Manifest.Scalars.normalize_language
    lexicon_mcp.Selection.normalized_tags lexicon_mcp.Selection.normalized_request
    lexicon_mcp.Selection.wanted lexicon_mcp.Selection.cover lexicon_mcp.Selection.gather
    lexicon_mcp.Selection.sizes lexicon_mcp.Selection.finish lexicon_mcp.Selection.gathered
    lexicon_mcp.Selection.resolve lexicon_mcp.Activation.Build.compute_activation_id
    lexicon_mcp.Activation.Build.build_activation lexicon_mcp.Store.path_for
    lexicon_mcp.Store.file_digest lexicon_mcp.Store.verify lexicon_mcp.Store.adopt
    lexicon_mcp.Install.activation_path lexicon_mcp.Install.read_pointer
    lexicon_mcp.Install.active_id lexicon_mcp.Install.Write.write_pointer
    lexicon_mcp.Install.Write.write_activation lexicon_mcp.Install.Write.retain_manifest
    lexicon_mcp.Install.Write.preflight lexicon_mcp.Install.Write.missing_components
    lexicon_mcp.Install.Write.adopt_in lexicon_mcp.Install.Write.fetch_each
    lexicon_mcp.Install.Write.apply_activation lexicon_mcp.Install.Write.apply
    lexicon_mcp.Install.Write.install lexicon_mcp.Prelude.string_le lexicon_mcp.Prelude.sorted
    lexicon_mcp.Prelude.insert
pointer_refused = (refl, refl)

install_fails_example :
    UnmovedFrom sample_codec refused_root os_error
      (install sample_codec sample_fetch sample_manifest english words true "2025" "2026"
        refused_root).1
    × StaysActive sample_codec refused_root
        (install sample_codec sample_fetch sample_manifest english words true "2025" "2026"
          refused_root).1
install_fails_example =
    install_fails sample_codec sample_fetch sample_manifest english words true "2025" "2026"
      refused_root os_error pointer_refused.0

-- A store with a file under the digest of another.
abbrev damaged_root : Root Value
damaged_root = record empty_root { store = record { objects = (ones, sample_file zeros) ∷ [] } }

abbrev damaged_after : Root Value
damaged_after =
    (install sample_codec sample_fetch sample_manifest english words true "2025" "2026"
      damaged_root).1

abbrev base_part : ActivationComponent
base_part = record { id = "base"; sha256 = ones; path = "base.sqlite"; size = 7 }

abbrev words_part : ActivationComponent
words_part = record { id = "words"; sha256 = twos; path = "words/en.sqlite"; size = 7 }

base_damaged : verify sample_codec damaged_root.store ones ≡ ok false
unfolding lexicon_mcp.Text.sha256_re lexicon_mcp.Store.path_for lexicon_mcp.Store.file_digest
    lexicon_mcp.Store.verify
base_damaged = refl

damaged_installed :
    install sample_codec sample_fetch sample_manifest english words true "2025" "2026" damaged_root
    ≡ (ok (words_report none ("base" ∷ "words" ∷ [])), damaged_after)
unfolding lexicon_mcp.Text.take_chars lexicon_mcp.Text.sha256_re lexicon_mcp.Text.id_re
    lexicon_mcp.Text.language_re lexicon_mcp.Text.lower lexicon_mcp.Manifest.component
    lexicon_mcp.Manifest.required_packs lexicon_mcp.Manifest.pack_for
    lexicon_mcp.Manifest.Scalars.safe_identifier lexicon_mcp.Manifest.Scalars.normalize_language
    lexicon_mcp.Selection.normalized_tags lexicon_mcp.Selection.normalized_request
    lexicon_mcp.Selection.wanted lexicon_mcp.Selection.cover lexicon_mcp.Selection.gather
    lexicon_mcp.Selection.sizes lexicon_mcp.Selection.finish lexicon_mcp.Selection.gathered
    lexicon_mcp.Selection.resolve lexicon_mcp.Activation.Build.compute_activation_id
    lexicon_mcp.Activation.Build.build_activation lexicon_mcp.Store.path_for
    lexicon_mcp.Store.file_digest lexicon_mcp.Store.verify lexicon_mcp.Store.adopt
    lexicon_mcp.Install.activation_path lexicon_mcp.Install.read_pointer
    lexicon_mcp.Install.active_id lexicon_mcp.Install.Write.write_pointer
    lexicon_mcp.Install.Write.write_activation lexicon_mcp.Install.Write.retain_manifest
    lexicon_mcp.Install.Write.preflight lexicon_mcp.Install.Write.missing_components
    lexicon_mcp.Install.Write.adopt_in lexicon_mcp.Install.Write.fetch_each
    lexicon_mcp.Install.Write.apply_activation lexicon_mcp.Install.Write.apply
    lexicon_mcp.Install.Write.install lexicon_mcp.Prelude.string_le lexicon_mcp.Prelude.sorted
    lexicon_mcp.Prelude.insert
damaged_installed = refl

install_damaged_example :
    (contains {A = String} ("base" ∷ "words" ∷ []) "base" ≡ true)
    × (lookup ones damaged_after.store.objects ≡ lookup ones damaged_root.store.objects)
    × (verify sample_codec damaged_after.store ones ≡ ok false)
install_damaged_example =
    install_damaged sample_codec sample_fetch sample_manifest english words true "2025" "2026"
      words_selection (words_activation "2025") damaged_root damaged_after
      (words_report none ("base" ∷ "words" ∷ [])) [] base_part (words_part ∷ []) words_resolved
      words_built refl refl base_damaged damaged_installed
