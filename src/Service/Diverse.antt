-- ===== src/Service/Diverse.antt =====
-- runtime/service.py: `_target_diverse_relation_rows`, one row for each target before the others.
pub mod Laws
pub mod Keeps
use lexicon_mcp.Prelude.{
  Bool, true, false, List, [], ◌∷◌, ◌++◌, Eq, contains, String, string_eq, pair_eq, option_eq,
  if◌then◌else◌,
}
use lexicon_mcp.Service.Rows.{Row, Identity, relation_identity, target_of}

-- The rows carry further fields by then: `row` is what was read from the database.
module _ {A : Type 0} (row : A → Row) where
  -- The first loop: rows with an identity that was not seen before.
  unfoldable pub unique_rows : List Identity → List A → List A
  unique_rows seen [] = []
  unique_rows seen (r ∷ rs) =
      let skipped = unique_rows seen rs in
      let kept = r ∷ unique_rows (seen ++ relation_identity (row r) ∷ []) rs in
      if contains seen (relation_identity (row r)) then skipped else kept

  -- The second loop: `primary_rows` and `sense_variants`.
  unfoldable pub split_rows : List (String × String) → List A → List A → List A → List A × List A
  split_rows target_seen primary variants [] = (primary, variants)
  split_rows target_seen primary variants (r ∷ rs) =
      let variant = split_rows target_seen primary (variants ++ r ∷ []) rs in
      let first =
        split_rows (target_seen ++ target_of (row r) ∷ []) (primary ++ r ∷ []) variants rs in
      if contains target_seen (target_of (row r)) then variant else first

  unfoldable pub target_diverse_relation_rows : List Identity → List A → List A
  unfolding unique_rows split_rows
  target_diverse_relation_rows seen rows =
      let (primary, variants) = split_rows [] [] [] (unique_rows seen rows) in primary ++ variants
