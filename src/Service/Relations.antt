-- ===== src/Service/Relations.antt =====
-- runtime/service.py: `dictionary_relations`, from the checks of its numbers to the rows that it
-- renders. The word, the languages and the sense are given as they are after their checks.
pub mod Selected
use lexicon_mcp.Prelude.{
  ℕ, ◌-◌, ◌*◌, String, Bool, true, false, ◌&&◌, List, [], ◌∷◌, ◌++◌, map, Option, none, some, ◌==◌,
  nat_eq, ltb, leb, length, take, Result, ok, err, if◌then◌else◌, ◌>>=◌,
}
use lexicon_mcp.Json.{Value}
use lexicon_mcp.Service.Arguments.{
  validate_limit, validate_bounded_integer, validate_allocation, relation_scan_limit,
}
use lexicon_mcp.Service.Rows.{Row, Identity, relation_identity}
use lexicon_mcp.Service.Diverse.{target_diverse_relation_rows}
use lexicon_mcp.Service.Frontier.{is_sensed}
use lexicon_mcp.Service.Transitive.{
  Related, is_hierarchy, Database, relation_rows, transitive_relation_rows,
}

abbrev pub row_of : Related → Row
row_of c = c.row

abbrev pub direct : Row → Related
direct r = record {
  row = r;
  path_rows = r ∷ [];
  distance = 1;
  scope_priority = if is_sensed r.source_sense_id then 1 else 2;
}

-- `xs[: n - m]`: a negative end counts from the back.
abbrev pub slice_to {ℓ} : {A : Type ℓ} → ℕ → ℕ → List A → List A
slice_to n m xs = if leb m n then take (n - m) xs else take (length xs - (m - n)) xs

unfoldable pub transitive_budget : ℕ → ℕ → ℕ → ℕ
transitive_budget relation_code max_depth transitive_limit =
    if max_depth == 2 && is_hierarchy relation_code then transitive_limit else 0

abbrev pub identities_of : List Related → List Identity
identities_of = map (λ c. relation_identity c.row)

-- `transitive_frontier`
abbrev pub reused : Option String → List Row → Option (List Row)
reused none frontier = some frontier
reused (some target_language) frontier = none

-- `transitive_rows`, which are new against the direct ones.
unfoldable pub new_transitive :
    Database
    → String
    → String
    → ℕ
    → Option String
    → Option String
    → ℕ
    → List Row
    → List Related
    → Option (List Related)
new_transitive db key language code target_language sense budget frontier direct_rows =
    if ltb 0 budget
    then elim (transitive_relation_rows db key language code target_language sense budget
        (reused target_language frontier)) [
          | none ↦ none
          | some rows ↦ some (target_diverse_relation_rows row_of (identities_of direct_rows) rows)
        ]
    else some []

-- `ordered_rows`
unfoldable pub order_rows : ℕ → ℕ → List Related → List Related → List Related
order_rows limit budget direct_rows transitive_rows =
    let selected_transitive = take budget transitive_rows in
    slice_to limit (length selected_transitive) direct_rows ++ selected_transitive

unfoldable pub related_rows :
    Database → String → String → ℕ → Option String → Option String → ℕ → ℕ → Option (List Related)
related_rows db key language code target_language sense limit budget =
    elim (relation_rows db key language code target_language sense (relation_scan_limit limit)) [
      | none ↦ none
      | some frontier ↦
          let direct_rows = target_diverse_relation_rows row_of [] (map direct frontier) in
          elim (new_transitive db key language code target_language sense budget frontier
            direct_rows) [
              | none ↦ none
              | some transitive_rows ↦ some (order_rows limit budget direct_rows transitive_rows)
            ]
    ]

-- The numbers are checked before anything is read.
unfoldable pub dictionary_relations :
    Database
    → String
    → String
    → ℕ
    → Option String
    → Option String
    → Value
    → Value
    → Value
    → Result (Option (List Related))
dictionary_relations db key language code target_language sense limit max_depth transitive_limit =
    do
      l ← validate_limit limit
      d ← validate_bounded_integer max_depth 1 2
      t ← validate_allocation transitive_limit l
      ok (related_rows db key language code target_language sense l (transitive_budget code d t))
