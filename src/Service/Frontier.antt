-- ===== src/Service/Frontier.antt =====
-- runtime/service.py: `_transitive_frontier_rows`, the first edges that are followed. The rows that
-- were selected are told apart by their identities, of which no two of the diverse rows share one.
pub mod Laws
use lexicon_mcp.Prelude.{
  ℕ, String, Bool, true, false, not, List, [], ◌∷◌, map, Option, none, some, ◌==◌, Eq, nat_eq,
  string_eq, bool_eq, pair_eq, option_eq, ltb, length, filter, contains, distinct, if◌then◌else◌,
}
use lexicon_mcp.Json.{pos}
use lexicon_mcp.Keys.{Key, key_eq, num, text, minus, sorted_by}
use lexicon_mcp.Service.Rows.{
  Row, Identity, relation_identity, relation_row_rank_key, text_length, spaces, or_default,
  or_empty,
}
use lexicon_mcp.Service.Diverse.{target_diverse_relation_rows}
use lexicon_mcp.Service.Weave.{fill_buckets, weave}
use lexicon_mcp.Service.Rank.{bucket_key, bucket_rows}

abbrev pub hypernym : ℕ
hypernym = 3

abbrev pub hyponym : ℕ
hyponym = 4

abbrev pub preferred_direction : ℕ → ℕ
preferred_direction relation_code = if relation_code == hypernym then 1 else 2

abbrev pub same_row : Row → Row
same_row r = r

abbrev pub is_sensed : Option String → Bool
is_sensed none = false
is_sensed (some s) = true

-- (target_normalized, target_language)
abbrev pub target_identity : Row → String × String
target_identity r = (r.target_normalized, r.target_language)

-- `scopes_by_target[target]`
unfoldable pub scopes_by_target : List Row → String × String → List Bool
scopes_by_target rows target =
    distinct
      (map (λ r. is_sensed r.source_sense_id) (filter (λ r. target_identity r == target) rows))

unfoldable pub is_corroborated : List Row → Row → Bool
unfolding scopes_by_target
is_corroborated rows r = ltb 1 (length (scopes_by_target rows (target_identity r)))

abbrev pub zero_if : Bool → Key → Key
zero_if b k = num (pos (if b then 0 else 1)) ∷ k

unfoldable pub direction_first : ℕ → Row → Key
unfolding relation_row_rank_key
direction_first relation_code r =
    zero_if (r.direction_code == preferred_direction relation_code) (relation_row_rank_key r)

unfoldable pub frontier_key : List Row → Row → Key
unfolding is_corroborated spaces text_length
frontier_key rows r = zero_if (is_corroborated rows r) (
    zero_if (is_sensed r.target_sense_id) (
      num (minus (or_default 0 r.target_sense_count))
      ∷ num (minus (or_default 0 r.target_entry_count))
      ∷ num (pos (or_default 1 r.target_variant_rank))
      ∷ num (pos (spaces r.target_normalized))
      ∷ num (pos (text_length r.target_normalized))
      ∷ text r.target_language
      ∷ text r.target_normalized
      ∷ text r.target_term
      ∷ text (or_empty r.target_sense_id)
      ∷ []))

-- `(provenance_id, query_orientation, source_sense_id or "")`
abbrev pub scope_key : Row → Key
scope_key r =
    num (pos r.provenance_id)
    ∷ num (pos r.query_orientation)
    ∷ text (or_empty r.source_sense_id)
    ∷ []

unfoldable pub diverse_rows : ℕ → List Row → List Row
unfolding sorted_by direction_first target_diverse_relation_rows
diverse_rows relation_code rows =
    target_diverse_relation_rows same_row [] (sorted_by (direction_first relation_code) rows)

abbrev pub sort_bucket : List Row → Key × List Row → Key × List Row
sort_bucket rows b = (b.0, sorted_by (frontier_key rows) b.1)

-- The rows of the sorted buckets, in the order of the buckets' keys.
unfoldable pub frontier_buckets : List Row → List (List Row)
unfolding fill_buckets sorted_by frontier_key
frontier_buckets rows =
    map bucket_rows (sorted_by bucket_key (map (sort_bucket rows) (fill_buckets scope_key [] rows)))

abbrev pub is_selected : List Row → Row → Bool
is_selected selected r = contains (map relation_identity selected) (relation_identity r)

-- The two rounds: first what is corroborated across scopes, then what is left.
unfoldable pub take_frontier : ℕ → List Row → List (List Row) → Option (List Row)
unfolding weave is_corroborated relation_identity
take_frontier budget rows buckets =
    elim (weave budget [] (map (filter (is_corroborated rows)) buckets)) [
      | none ↦ none
      | some selected ↦
          weave budget selected (map (filter (λ r. not (is_selected selected r))) buckets)
    ]

unfoldable pub transitive_frontier_rows : ℕ → ℕ → List Row → Option (List Row)
unfolding diverse_rows frontier_buckets take_frontier
transitive_frontier_rows relation_code budget rows =
    let diverse = diverse_rows relation_code rows in
    take_frontier budget diverse (frontier_buckets diverse)
