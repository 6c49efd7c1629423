-- ===== src/Tests/Plans.antt =====
-- pipeline/packs.py at a few languages.
use mathlib.Core.List.{Perm}
use mathlib.Core.List.Perm
use lexicon_mcp.Prelude.{
  ℕ, ◌<◌, ◌≤◌, String, List, [], ◌∷◌, ◌++◌, ◌≡◌, refl, Result, ok, err, value_error, All,
  IsDistinct, string_eq, length, sum_by, sorted,
}
use lexicon_mcp.Json.{pos, negsuc}
use lexicon_mcp.Pipeline.Plan.{
  LanguageSize, PlannedPack, size_ord, languages_of, estimate, plan_lexical_packs,
  plan_capability_packs,
}
use lexicon_mcp.Pipeline.Plan.Covers.{served, plan_covers, plan_permuted}
use lexicon_mcp.Pipeline.Plan.Bounds.{IsFilled, plan_bounds}

abbrev english : LanguageSize
english = record { language = "en"; terms = pos 90 }

abbrev french : LanguageSize
french = record { language = "fr"; terms = pos 30 }

abbrev breton : LanguageSize
breton = record { language = "br"; terms = pos 30 }

abbrev frisian : LanguageSize
frisian = record { language = "fy"; terms = pos 4 }

abbrev sizes : List LanguageSize
sizes = frisian ∷ french ∷ english ∷ breton ∷ []

abbrev other_order : List LanguageSize
other_order = french ∷ frisian ∷ english ∷ breton ∷ []

abbrev lexical : String → List String → ℕ → PlannedPack
lexical id languages estimated = record {
  id = id;
  capability = "lexical";
  languages = languages;
  estimated_compressed = estimated;
}

abbrev plan : List PlannedPack
plan =
    lexical "lexical-en" ("en" ∷ []) 180
    ∷ lexical "lexical-bundle-001" ("br" ∷ "fr" ∷ []) 120
    ∷ lexical "lexical-bundle-002" ("fy" ∷ []) 8
    ∷ []

planned : plan_lexical_packs sizes 100 110 2 ≡ ok plan
unfolding plan_lexical_packs lexicon_mcp.Pipeline.Plan.flush lexicon_mcp.Pipeline.Plan.size_le
    lexicon_mcp.Prelude.string_le lexicon_mcp.Prelude.sorted lexicon_mcp.Pipeline.Plan.place
    lexicon_mcp.Pipeline.Plan.bundle_id
planned = refl

-- With a bundle target below the threshold a bundle of one language is not counted, and the next
-- bundle gets its number again.
repeated_id :
    plan_lexical_packs (french ∷ breton ∷ []) 100 50 2
    ≡ ok (
        lexical "lexical-bundle-001" ("br" ∷ []) 60
        ∷ lexical "lexical-bundle-001" ("fr" ∷ []) 60
        ∷ [])
unfolding plan_lexical_packs lexicon_mcp.Pipeline.Plan.flush lexicon_mcp.Pipeline.Plan.size_le
    lexicon_mcp.Prelude.string_le lexicon_mcp.Prelude.sorted lexicon_mcp.Pipeline.Plan.place
    lexicon_mcp.Pipeline.Plan.bundle_id
repeated_id = refl

negative_refused :
    plan_lexical_packs (record { language = "xx"; terms = negsuc 0 } ∷ []) 100 110 2
    ≡ err value_error
unfolding plan_lexical_packs lexicon_mcp.Pipeline.Plan.flush lexicon_mcp.Pipeline.Plan.size_le
    lexicon_mcp.Prelude.string_le lexicon_mcp.Prelude.sorted lexicon_mcp.Pipeline.Plan.place
    lexicon_mcp.Pipeline.Plan.bundle_id
negative_refused = refl

twice_refused : plan_lexical_packs (french ∷ french ∷ []) 100 110 2 ≡ err value_error
unfolding plan_lexical_packs lexicon_mcp.Pipeline.Plan.flush lexicon_mcp.Pipeline.Plan.size_le
    lexicon_mcp.Prelude.string_le lexicon_mcp.Prelude.sorted lexicon_mcp.Pipeline.Plan.place
    lexicon_mcp.Pipeline.Plan.bundle_id
twice_refused = refl

plan_covers_example :
    IsDistinct (served plan)
    × Perm (served plan) (languages_of sizes)
    × (served plan ≡ languages_of (sorted sizes))
plan_covers_example = plan_covers sizes 100 110 2 plan planned

plan_bounds_example :
    (filled rest : List PlannedPack) × (plan ≡ filled ++ rest)
    × All (IsFilled 100 110 2) filled
    × (length rest ≤ 1)
    × All (λ p. p.estimated_compressed < 110) rest
    × (sum_by (λ p. p.estimated_compressed) plan ≡ sum_by (estimate 100 110 2) sizes)
plan_bounds_example = plan_bounds sizes 100 110 2 plan planned

plan_permuted_example :
    plan_lexical_packs sizes 100 110 2 ≡ plan_lexical_packs other_order 100 110 2
plan_permuted_example =
    plan_permuted sizes other_order 100 110 2 (Perm.swap french frisian (english ∷ breton ∷ []))
