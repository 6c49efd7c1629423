-- ===== src/Service/Rank.antt =====
-- runtime/service.py: `_rank_oriented_relation_rows`.
pub mod Fair
use lexicon_mcp.Prelude.{ℕ, List, [], ◌∷◌, map, Option}
use lexicon_mcp.Json.{pos}
use lexicon_mcp.Keys.{Key, key_eq, num, sorted_by}
use lexicon_mcp.Service.Rows.{Row, relation_row_rank_key}
use lexicon_mcp.Service.Weave.{fill_buckets, weave}

-- `(provenance_id, query_orientation)`
abbrev pub orientation_key : Row → Key
orientation_key r = num (pos r.provenance_id) ∷ num (pos r.query_orientation) ∷ []

abbrev pub rank_bucket : Key × List Row → Key × List Row
rank_bucket b = (b.0, sorted_by relation_row_rank_key b.1)

abbrev pub bucket_key : Key × List Row → Key
bucket_key b = b.0

abbrev pub bucket_rows : Key × List Row → List Row
bucket_rows b = b.1

-- The buckets in the order of their keys, each ranked.
unfoldable pub ranked_buckets : List Row → List (Key × List Row)
unfolding fill_buckets sorted_by
ranked_buckets oriented =
    sorted_by bucket_key (map rank_bucket (fill_buckets orientation_key [] oriented))

unfoldable pub rank_oriented_relation_rows : ℕ → List Row → Option (List Row)
unfolding ranked_buckets weave
rank_oriented_relation_rows limit oriented =
    weave limit [] (map bucket_rows (ranked_buckets oriented))
