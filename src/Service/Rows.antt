-- ===== src/Service/Rows.antt =====
-- runtime/service.py: the rows of relations, and the keys by which they are ranked.
use lexicon_mcp.Prelude.{
  ℕ, suc, String, code, [], ◌∷◌, Option, none, some, ◌==◌, nat_eq, if◌then◌else◌,
}
use lexicon_mcp.Json.{pos}
use lexicon_mcp.Keys.{Key, num, text, minus}

-- A row of `_relation_rows`, without the license and address of its source, which are only rendered.
-- The last three counts are those that are read by `get` with a default.
pub record Row : Type 0 where
  pub source_term_id : ℕ
  pub source_term : String
  pub source_normalized : String
  pub source_language : String
  pub source_sense_id : Option String
  pub relation_code : ℕ
  pub target_term_id : ℕ
  pub target_term : String
  pub target_normalized : String
  pub target_language : String
  pub target_sense_id : Option String
  pub direction_code : ℕ
  pub provenance_id : ℕ
  pub source : String
  pub query_orientation : ℕ
  pub target_entry_count : Option ℕ
  pub target_sense_count : Option ℕ
  pub target_variant_rank : Option ℕ

-- `len(s)`
unfoldable pub text_length : String → ℕ
text_length String.[] = 0
text_length (String.◌∷◌ c s) = suc (text_length s)

-- `s.count(" ")`
unfoldable pub spaces : String → ℕ
spaces String.[] = 0
spaces (String.◌∷◌ c s) = let n = spaces s in if code c == b' ' then suc n else n

-- `row.get(key, default)`
abbrev pub or_default : ℕ → Option ℕ → ℕ
or_default d none = d
or_default d (some n) = n

-- `value or ""`
abbrev pub or_empty : Option String → String
or_empty none = ""
or_empty (some s) = s

unfoldable pub relation_row_rank_key : Row → Key
unfolding spaces text_length
relation_row_rank_key r =
    num (pos (or_default 1 r.target_variant_rank))
    ∷ num (minus (or_default 0 r.target_sense_count))
    ∷ num (minus (or_default 0 r.target_entry_count))
    ∷ num (pos (spaces r.target_normalized))
    ∷ num (pos (text_length r.target_normalized))
    ∷ text r.target_language
    ∷ text r.target_normalized
    ∷ text r.target_term
    ∷ text (or_empty r.source_sense_id)
    ∷ text (or_empty r.target_sense_id)
    ∷ num (pos r.direction_code)
    ∷ text r.source
    ∷ []

-- `_relation_identity`, as two pairs
abbrev pub Identity : Type 0
Identity = (String × String) × (Option String × Option String)

unfoldable pub relation_identity : Row → Identity
relation_identity r =
    ((r.target_normalized, r.target_language), (r.source_sense_id, r.target_sense_id))

abbrev pub target_of : Row → String × String
target_of r = (r.target_language, r.target_normalized)
