-- ===== src/Service/Transitive.antt =====
-- runtime/service.py: `_transitive_relation_rows`, the relations at distance two. The database
-- enters as two functions: the rows of one word, before they are ranked, and the rows of many.
pub mod Paths
use lexicon_mcp.Prelude.{
  ℕ, ◌*◌, String, Bool, true, false, not, ◌&&◌, List, [], ◌∷◌, ◌++◌, map, min, max, Option, none,
  some, ◌==◌, Eq, nat_eq, string_eq, pair_eq, option_eq, list_eq, leb, take, filter, contains,
  if◌then◌else◌,
}
use lexicon_mcp.Json.{pos}
use lexicon_mcp.Keys.{Key, num, text, minus, sorted_by}
use lexicon_mcp.Service.Rows.{Row, or_default, or_empty}
use lexicon_mcp.Service.Rank.{rank_oriented_relation_rows}
use lexicon_mcp.Service.Frontier.{
  hypernym, hyponym, preferred_direction, is_sensed, target_identity, zero_if,
  transitive_frontier_rows,
}

-- A row with what the handlers add to it.
pub record Related : Type 0 where
  pub row : Row
  pub path_rows : List Row
  pub distance : ℕ
  pub scope_priority : ℕ

-- (source_normalized, source_language)
abbrev pub source_identity : Row → String × String
source_identity r = (r.source_normalized, r.source_language)

-- All four sense ids are absent.
abbrev pub is_unsensed : Row → Row → Bool
is_unsensed first second =
    not (is_sensed first.source_sense_id)
    && (not (is_sensed first.target_sense_id)
        && (not (is_sensed second.source_sense_id) && not (is_sensed second.target_sense_id)))

abbrev pub is_fully_sensed : Row → Row → Bool
is_fully_sensed first second =
    is_sensed first.source_sense_id
    && (is_sensed first.target_sense_id
        && (is_sensed second.source_sense_id && is_sensed second.target_sense_id))

unfoldable pub relation_path_is_scoped : Row → Row → Bool
relation_path_is_scoped first second =
    if is_unsensed first second
    then first.target_term_id == second.source_term_id
    else is_fully_sensed first second && first.target_sense_id == second.source_sense_id

-- What the inner loop asks of a second edge before it makes a candidate of it.
unfoldable pub continues : String → String → Row → Row → Bool
unfolding relation_path_is_scoped
continues word language first second =
    first.provenance_id == second.provenance_id
    && (first.direction_code == second.direction_code
        && (relation_path_is_scoped first second
            && not (target_identity second == (word, language))))

abbrev pub joined : ℕ → Row → Row → Related
joined relation_code first second = record {
  row = record second {
    source_term_id = first.source_term_id;
    source_term = first.source_term;
    source_normalized = first.source_normalized;
    source_language = first.source_language;
    source_sense_id = first.source_sense_id;
    relation_code = relation_code;
  };
  path_rows = first ∷ second ∷ [];
  distance = 2;
  scope_priority = 0;
}

-- `by_source.get(intermediate, ())`
abbrev pub edges_from : Row → List Row → List Row
edges_from first = filter (λ second. source_identity second == target_identity first)

unfoldable pub candidates : String → String → ℕ → List Row → List Row → List Related
unfolding continues
candidates word language relation_code [] second_edges = []
candidates word language relation_code (first ∷ firsts) second_edges =
    map (joined relation_code first)
      (filter (continues word language first) (edges_from first second_edges))
    ++ candidates word language relation_code firsts second_edges

abbrev pub Signature : Type 0
Signature = List ((String × String) × (String × String))

abbrev pub signature : Related → Signature
signature c = map (λ e. (source_identity e, target_identity e)) c.path_rows

abbrev pub sensed_signatures : List Related → List Signature
sensed_signatures cs = map signature (filter (λ c. is_sensed c.row.source_sense_id) cs)

unfoldable pub set_priority : List Signature → Related → Related
set_priority sensed c = record c {
  scope_priority =
      if not (is_sensed c.row.source_sense_id) && contains sensed (signature c)
      then 0
      else if is_sensed c.row.source_sense_id
      then 1
      else 2;
}

-- The part of the key that the edges of the path make up.
abbrev pub path_key : List Row → Key
path_key [] = []
path_key (e ∷ es) =
    text e.source_normalized
    ∷ text (or_empty e.source_sense_id)
    ∷ text e.target_normalized
    ∷ text (or_empty e.target_sense_id)
    ∷ path_key es

unfoldable pub candidate_key : ℕ → Related → Key
candidate_key relation_code c =
    num (pos c.scope_priority)
    ∷ num (minus (or_default 0 c.row.target_sense_count))
    ∷ num (minus (or_default 0 c.row.target_entry_count))
    ∷ text c.row.target_language
    ∷ text c.row.target_normalized
    ∷ text c.row.target_term
    ∷ text (or_empty c.row.target_sense_id)
    ∷ zero_if (c.row.direction_code == preferred_direction relation_code)
        (num (pos c.row.direction_code) ∷ text c.row.source ∷ path_key c.path_rows)

unfoldable pub ranked_candidates : ℕ → List Related → List Related
unfolding sorted_by set_priority candidate_key
ranked_candidates relation_code cs =
    sorted_by (candidate_key relation_code) (map (set_priority (sensed_signatures cs)) cs)

abbrev pub is_hierarchy : ℕ → Bool
is_hierarchy relation_code = if relation_code == hypernym then true else relation_code == hyponym

abbrev pub frontier_budget : ℕ → ℕ
frontier_budget limit = if leb limit 5 then 16 else min 64 (limit * 4)

abbrev pub branch_limit : ℕ → ℕ
branch_limit limit = max 16 (min 32 (limit * 2))

-- `_oriented_relation_rows` and `_relation_rows_many`
pub record Database : Type 0 where
  pub oriented_relation_rows : String → String → ℕ → Option String → Option String → ℕ → List Row
  pub relation_rows_many : List (String × String) → ℕ → Option String → ℕ → List Row

module _ (db : Database) where
  unfoldable pub relation_rows :
      String → String → ℕ → Option String → Option String → ℕ → Option (List Row)
  relation_rows word language relation_code target_language source_sense_id limit =
      rank_oriented_relation_rows limit (
        db.oriented_relation_rows word language relation_code target_language source_sense_id limit)

  abbrev pub first_hops :
      String → String → ℕ → Option String → Option (List Row) → Option (List Row)
  first_hops word language relation_code source_sense_id (some edges) = some (take 256 edges)
  first_hops word language relation_code source_sense_id none =
      relation_rows word language relation_code none source_sense_id 256

  -- What is made of the first edges that are followed.
  unfoldable pub second_hops : String → String → ℕ → Option String → ℕ → List Row → List Related
  second_hops word language relation_code target_language limit first_edges =
      ranked_candidates relation_code (
        candidates word language relation_code first_edges (
          db.relation_rows_many (map target_identity first_edges) relation_code target_language
            (branch_limit limit)))

  unfoldable pub transitive_relation_rows :
      String
      → String
      → ℕ
      → Option String
      → Option String
      → ℕ
      → Option (List Row)
      → Option (List Related)
  transitive_relation_rows word language relation_code target_language source_sense_id limit
        first_edges =
      if is_hierarchy relation_code
      then elim (first_hops word language relation_code source_sense_id first_edges) [
        | none ↦ none
        | some edges ↦ elim (transitive_frontier_rows relation_code (frontier_budget limit) edges) [
          | none ↦ none
          | some frontier ↦
              some (second_hops word language relation_code target_language limit frontier)
        ]
      ]
      else some []
