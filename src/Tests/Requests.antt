-- ===== src/Tests/Requests.antt =====
-- data/selection.py at the sample.
use lexicon_mcp.Prelude.{
  ℕ, String, Bool, true, false, List, [], ◌∷◌, Option, none, some, ◌≡◌, refl, Result, ok, err,
  contains, string_eq, lookup, sorted, string_ord, filter, if◌then◌else◌, not, ◌&&◌, ◌||◌, ◌==◌,
  IsSorted, IsDistinct, sum_by,
}
use lexicon_mcp.Manifest.{required_packs}
use lexicon_mcp.Selection.{
  Selection, pack_eq, Unavailable, Reason, reason_eq, unavailable_eq, wanted, reason_for,
  normalized_request, resolve,
}
use lexicon_mcp.Selection.Loops.{served}
use lexicon_mcp.Selection.Coverage.{resolve-effective, resolve-unavailable}
use lexicon_mcp.Selection.Components.{
  provides, asked_with, compressed_of, installed_of, resolve-components, resolve-sizes,
}
use lexicon_mcp.Selection.Strict.{resolve_strict}
use lexicon_mcp.Selection.Closed.{resolve-closed}
use lexicon_mcp.Tests.Samples.{sample_manifest, english_pack, sample_selection}

abbrev both : List String
both = "EN" ∷ "fr" ∷ []

abbrev both_tags : List String
both_tags = "en" ∷ "fr" ∷ []

abbrev words_and_vectors : List String
words_and_vectors = "lexical" ∷ "semantic" ∷ []

abbrev request_of_vectors : Unavailable
request_of_vectors = record {
  capability = "semantic";
  language = "en";
  reason = Reason.capability_not_available_for_language;
}

abbrev vectors_selection : Selection
vectors_selection = record {
  components = "base" ∷ [];
  packs = "core" ∷ [];
  effective = ("semantic", []) ∷ [];
  unavailable = request_of_vectors ∷ [];
  compressed_size = 7;
  installed_size = 7;
}

both_normalized : normalized_request (some both) ≡ ok (some both_tags)
unfolding lexicon_mcp.Text.language_re lexicon_mcp.Text.lower
    lexicon_mcp.Manifest.Scalars.normalize_language lexicon_mcp.Selection.normalized_tags
    lexicon_mcp.Selection.normalized_request
both_normalized = refl

both_resolved : resolve sample_manifest (some both) words_and_vectors false ≡ ok sample_selection
unfolding lexicon_mcp.Text.language_re lexicon_mcp.Text.lower lexicon_mcp.Manifest.component
    lexicon_mcp.Manifest.required_packs lexicon_mcp.Manifest.pack_for
    lexicon_mcp.Manifest.Scalars.normalize_language lexicon_mcp.Selection.normalized_tags
    lexicon_mcp.Selection.normalized_request lexicon_mcp.Selection.wanted
    lexicon_mcp.Selection.cover lexicon_mcp.Selection.gather lexicon_mcp.Selection.sizes
    lexicon_mcp.Selection.finish lexicon_mcp.Selection.gathered lexicon_mcp.Selection.resolve
    lexicon_mcp.Prelude.string_le lexicon_mcp.Prelude.sorted lexicon_mcp.Prelude.insert
both_resolved = refl

vectors_resolved :
    resolve sample_manifest (some ("EN" ∷ [])) ("semantic" ∷ []) true ≡ ok vectors_selection
unfolding lexicon_mcp.Text.language_re lexicon_mcp.Text.lower lexicon_mcp.Manifest.component
    lexicon_mcp.Manifest.required_packs lexicon_mcp.Manifest.pack_for
    lexicon_mcp.Manifest.Scalars.normalize_language lexicon_mcp.Selection.normalized_tags
    lexicon_mcp.Selection.normalized_request lexicon_mcp.Selection.wanted
    lexicon_mcp.Selection.cover lexicon_mcp.Selection.gather lexicon_mcp.Selection.sizes
    lexicon_mcp.Selection.finish lexicon_mcp.Selection.gathered lexicon_mcp.Selection.resolve
    lexicon_mcp.Prelude.sorted lexicon_mcp.Prelude.insert
vectors_resolved = refl

vectors_normalized : normalized_request (some ("EN" ∷ [])) ≡ ok (some ("en" ∷ []))
unfolding lexicon_mcp.Text.language_re lexicon_mcp.Text.lower
    lexicon_mcp.Manifest.Scalars.normalize_language lexicon_mcp.Selection.normalized_tags
    lexicon_mcp.Selection.normalized_request
vectors_normalized = refl

resolve-effective_example :
    lookup "lexical" sample_selection.effective
    ≡ some (
        sorted (
          filter
            (served sample_manifest "lexical")
            (wanted sample_manifest (some both_tags) "lexical")))
resolve-effective_example =
    resolve-effective sample_manifest (some both) (some both_tags) words_and_vectors false
      sample_selection both_normalized both_resolved "lexical"

resolve-unavailable_example : true ≡ (
    contains (wanted sample_manifest (some both_tags) "semantic") "en"
    && (not (served sample_manifest "semantic" "en")
        && reason_for sample_manifest "en" == Reason.capability_not_available_for_language))
resolve-unavailable_example =
    resolve-unavailable sample_manifest (some both) (some both_tags) words_and_vectors false
      sample_selection both_normalized both_resolved request_of_vectors

resolve-components_example :
    ((i : String)
      → contains sample_selection.components i ≡ (
          provides (required_packs sample_manifest) i
          || asked_with sample_manifest (some both_tags) words_and_vectors i))
    × IsSorted sample_selection.components
    × IsDistinct sample_selection.components
resolve-components_example =
    resolve-components sample_manifest (some both) (some both_tags) words_and_vectors false
      sample_selection both_normalized both_resolved

resolve-sizes_example :
    (sample_selection.compressed_size
      ≡ sum_by (compressed_of sample_manifest) sample_selection.components)
    × (sample_selection.installed_size
        ≡ sum_by (installed_of sample_manifest) sample_selection.components)
resolve-sizes_example =
    resolve-sizes sample_manifest (some both) (some both_tags) words_and_vectors false
      sample_selection both_normalized both_resolved

resolve_strict_example : request_of_vectors.reason ≡ Reason.capability_not_available_for_language
resolve_strict_example =
    resolve_strict sample_manifest ("EN" ∷ []) ("en" ∷ []) ("semantic" ∷ []) vectors_selection
      request_of_vectors vectors_normalized vectors_resolved refl

resolve-closed_example : contains sample_selection.components "words" ≡ true
resolve-closed_example =
    resolve-closed sample_manifest (some both) (some both_tags) words_and_vectors false
      sample_selection both_normalized both_resolved english_pack "words" (refl, (refl, tt)) refl
      refl refl
