-- ===== src/Tests/Objects.antt =====
-- data/store.py at the sample.
use lexicon_mcp.Prelude.{
  String, Bool, true, false, List, [], ◌∷◌, Option, none, some, ◌≡◌, refl, Result, ok, err,
  contains, string_eq, lookup, if◌then◌else◌, ◌==◌,
}
use lexicon_mcp.Json.{Value}
use lexicon_mcp.Store.{File, Entry, Store, regular, iter_digests, verify, adopt, prune}
use lexicon_mcp.Store.Adopt.{IsIntact, Adopted, adopt-Adopted, adopt_new, adopt-IsIntact}
use lexicon_mcp.Store.Prune.{unreferenced, prune_kept, prune_removed}
use lexicon_mcp.Tests.Samples.{sample_codec, sample_file, ones}

abbrev empty_store : Store Value
empty_store = record { objects = [] }

abbrev store_of_ones : Store Value
store_of_ones = record { objects = (ones, sample_file ones) ∷ [] }

ones_adopted : adopt sample_codec empty_store (some (sample_file ones)) ones ≡ ok store_of_ones
unfolding lexicon_mcp.Text.take_chars lexicon_mcp.Text.run_of lexicon_mcp.Text.up_to
    lexicon_mcp.Text.sha256_re lexicon_mcp.Text.commit_re lexicon_mcp.Text.id_re
    lexicon_mcp.Text.subtags lexicon_mcp.Text.language_from lexicon_mcp.Text.language_re
    lexicon_mcp.Text.lower lexicon_mcp.Store.path_for lexicon_mcp.Store.store_contains
    lexicon_mcp.Store.open_path lexicon_mcp.Store.iter_digests lexicon_mcp.Store.prune_each
    lexicon_mcp.Store.prune lexicon_mcp.Store.file_digest lexicon_mcp.Store.verify
    lexicon_mcp.Store.adopt lexicon_mcp.Store.total_bytes lexicon_mcp.Prelude.insert
ones_adopted = refl

adopt_new_example :
    (verify sample_codec store_of_ones ones ≡ ok true)
    × ((j : String)
        → (ones == j) ≡ false
        → lookup j store_of_ones.objects ≡ lookup j empty_store.objects)
adopt_new_example =
    adopt_new sample_codec empty_store (some (sample_file ones)) ones store_of_ones refl
      ones_adopted

adopt-Adopted_example :
    Adopted sample_codec empty_store (some (sample_file ones)) ones store_of_ones
adopt-Adopted_example =
    adopt-Adopted sample_codec empty_store (some (sample_file ones)) ones store_of_ones ones_adopted

adopt-IsIntact_example : IsIntact sample_codec store_of_ones
adopt-IsIntact_example =
    adopt-IsIntact sample_codec empty_store (some (sample_file ones)) ones store_of_ones
      (record { at = λ d f found. absurd cc }) ones_adopted

prune_kept_example :
    lookup ones (prune (ones ∷ []) store_of_ones).1.objects ≡ lookup ones store_of_ones.objects
prune_kept_example = prune_kept (ones ∷ []) store_of_ones ones refl

ones_pruned : (prune [] store_of_ones).0 ≡ ok (ones ∷ [])
unfolding lexicon_mcp.Text.take_chars lexicon_mcp.Text.run_of lexicon_mcp.Text.up_to
    lexicon_mcp.Text.sha256_re lexicon_mcp.Text.commit_re lexicon_mcp.Text.id_re
    lexicon_mcp.Text.subtags lexicon_mcp.Text.language_from lexicon_mcp.Text.language_re
    lexicon_mcp.Text.lower lexicon_mcp.Store.path_for lexicon_mcp.Store.store_contains
    lexicon_mcp.Store.open_path lexicon_mcp.Store.iter_digests lexicon_mcp.Store.prune_each
    lexicon_mcp.Store.prune lexicon_mcp.Store.file_digest lexicon_mcp.Store.verify
    lexicon_mcp.Store.adopt lexicon_mcp.Store.total_bytes lexicon_mcp.Prelude.string_le
    lexicon_mcp.Prelude.sorted lexicon_mcp.Prelude.insert_sorted lexicon_mcp.Prelude.erase
ones_pruned = refl

prune_removed_example :
    (ones ∷ [] ≡ unreferenced [] (iter_digests store_of_ones))
    × ((j : String)
        → lookup j (prune [] store_of_ones).1.objects
          ≡ (if contains (ones ∷ []) j then none else lookup j store_of_ones.objects))
prune_removed_example = prune_removed [] (ones ∷ []) store_of_ones ones_pruned
