-- ===== src/Tests/Queries.antt =====
-- runtime/service.py on a few rows of a relation.
use mathlib.Core.List.{Mem}
use lexicon_mcp.Prelude.{
  ℕ, ◌≤◌, String, true, not, ◌&&◌, List, [], ◌∷◌, ◌++◌, map, min, none, some, ◌≡◌, refl, ok, err,
  value_error, length, take, contains, IsDistinct, All, string_eq, pair_eq, option_eq,
}
use lexicon_mcp.Json.{int, pos, bool}
use lexicon_mcp.Keys.{Key}
use lexicon_mcp.Service.Rows.{Row, Identity}
use lexicon_mcp.Service.Allocate.{round_robin_allocate}
use lexicon_mcp.Service.Allocate.Fair.{shares, offered, round_robin_allocate_fair}
use lexicon_mcp.Service.Arguments.{validate_limit, validate_bounded_integer, validate_allocation}
use lexicon_mcp.Service.Diverse.{target_diverse_relation_rows}
use lexicon_mcp.Service.Diverse.Laws.{
  identities, targets, AllVaried, target_diverse_relation_rows_lem,
}
use lexicon_mcp.Service.Weave.Laws.{columns}
use lexicon_mcp.Service.Rank.{bucket_rows, rank_oriented_relation_rows}
use lexicon_mcp.Service.Rank.Fair.{Buckets, rank_oriented_relation_rows_lem}
use lexicon_mcp.Service.Frontier.{same_row, target_identity}
use lexicon_mcp.Service.Transitive.{
  Related, frontier_budget, branch_limit, Database, first_hops, transitive_relation_rows,
}
use lexicon_mcp.Service.Transitive.Paths.{IsPath, transitive_relation_rows_lem}
use lexicon_mcp.Service.Relations.{
  identities_of, transitive_budget, related_rows, dictionary_relations,
}
use lexicon_mcp.Service.Relations.Selected.{Answer, dictionary_relations_lem}

abbrev edge : ℕ → String → ℕ → String → ℕ → Row
edge a s b t provenance = record {
  source_term_id = a;
  source_term = s;
  source_normalized = s;
  source_language = "en";
  source_sense_id = none;
  relation_code = 3;
  target_term_id = b;
  target_term = t;
  target_normalized = t;
  target_language = "en";
  target_sense_id = none;
  direction_code = 1;
  provenance_id = provenance;
  source = "oewn";
  query_orientation = 1;
  target_entry_count = some 1;
  target_sense_count = some 1;
  target_variant_rank = some 1;
}

abbrev dog_canine : Row
dog_canine = edge 1 "dog" 2 "canine" 7

abbrev dog_pet : Row
dog_pet = edge 1 "dog" 3 "pet" 8

abbrev canine_animal : Row
canine_animal = edge 2 "canine" 4 "animal" 7

abbrev canine_dog : Row
canine_dog = edge 2 "canine" 1 "dog" 7

-- The word in the middle is the same, and the source is another.
abbrev pet_animal : Row
pet_animal = edge 3 "pet" 4 "animal" 7

abbrev words : Database
words = record {
  oriented_relation_rows = λ word language code target sense limit. dog_pet ∷ dog_canine ∷ [];
  relation_rows_many = λ sources code target limit. canine_dog ∷ canine_animal ∷ pet_animal ∷ [];
}

abbrev near_row : Row → Related
near_row r = record { row = r; path_rows = r ∷ []; distance = 1; scope_priority = 2 }

abbrev dog_animal : Related
dog_animal = record {
  row = edge 1 "dog" 4 "animal" 7;
  path_rows = dog_canine ∷ canine_animal ∷ [];
  distance = 2;
  scope_priority = 2;
}

abbrev answered : List Related
answered = near_row dog_canine ∷ near_row dog_pet ∷ dog_animal ∷ []

answered_at_five :
    dictionary_relations words "dog" "en" 3 none none (int (pos 5)) (int (pos 2)) (int (pos 1))
    ≡ ok (some answered)
unfolding dictionary_relations validate_limit validate_allocation related_rows
    lexicon_mcp.Service.Transitive.relation_rows rank_oriented_relation_rows
    lexicon_mcp.Service.Arguments.relation_scan_limit lexicon_mcp.Keys.key_le
    lexicon_mcp.Service.Relations.new_transitive transitive_budget transitive_relation_rows
    lexicon_mcp.Service.Frontier.transitive_frontier_rows lexicon_mcp.Service.Relations.order_rows
    lexicon_mcp.Service.Transitive.second_hops lexicon_mcp.Service.Transitive.ranked_candidates
    lexicon_mcp.Service.Transitive.candidates
answered_at_five = refl

-- With room for two rows the path takes the place of the second direct row.
answered_at_two :
    dictionary_relations words "dog" "en" 3 none none (int (pos 2)) (int (pos 2)) (int (pos 1))
    ≡ ok (some (near_row dog_canine ∷ dog_animal ∷ []))
unfolding dictionary_relations validate_limit validate_allocation related_rows
    lexicon_mcp.Service.Transitive.relation_rows rank_oriented_relation_rows
    lexicon_mcp.Service.Arguments.relation_scan_limit lexicon_mcp.Keys.key_le
    lexicon_mcp.Service.Relations.new_transitive transitive_budget transitive_relation_rows
    lexicon_mcp.Service.Frontier.transitive_frontier_rows lexicon_mcp.Service.Relations.order_rows
    lexicon_mcp.Service.Transitive.second_hops lexicon_mcp.Service.Transitive.ranked_candidates
    lexicon_mcp.Service.Transitive.candidates
answered_at_two = refl

bool_refused :
    dictionary_relations words "dog" "en" 3 none none (bool true) (int (pos 2)) (int (pos 1))
    ≡ err value_error
unfolding dictionary_relations validate_limit
bool_refused = refl

dictionary_relations_lem_example :
    (l d t : ℕ) × (validate_limit (int (pos 5)) ≡ ok l)
    × (validate_bounded_integer (int (pos 2)) 1 2 ≡ ok d)
    × (validate_allocation (int (pos 1)) l ≡ ok t)
    × (l ≤ 100)
    × Answer words "dog" "en" 3 none none l (transitive_budget 3 d t) (some answered)
dictionary_relations_lem_example =
    dictionary_relations_lem words "dog" "en" 3 none none (int (pos 5)) (int (pos 2)) (int (pos 1))
      (some answered) answered_at_five

transitive_relation_rows_lem_example :
    (edges frontier : List Row) × (found : List Related) × (first_hops words "dog" "en" 3 none none
      ≡ some edges)
    × (transitive_relation_rows words "dog" "en" 3 none none 1 none ≡ some found)
    × (length frontier ≤ frontier_budget 1)
    × All (λ f. Mem f edges) frontier
    × All
        (IsPath "dog" "en" frontier
          (words.relation_rows_many (map target_identity frontier) 3 none (branch_limit 1)))
        found
transitive_relation_rows_lem_example =
    transitive_relation_rows_lem words "dog" "en" 3 none none 1 none refl

abbrev rows : List Row
rows = dog_pet ∷ dog_canine ∷ dog_pet ∷ []

rank_oriented_relation_rows_lem_example :
    (bs : List (Key × List Row)) × (ranked : List Row) × (rank_oriented_relation_rows 2 rows
      ≡ some ranked)
    × Buckets rows bs
    × (ranked ≡ take 2 (columns (length rows) 0 (map bucket_rows bs)))
    × (length ranked ≡ min 2 (length rows))
rank_oriented_relation_rows_lem_example = rank_oriented_relation_rows_lem 2 rows

target_diverse_relation_rows_lem_example :
    ((i : Identity)
      → contains (identities same_row (target_diverse_relation_rows same_row [] rows)) i
        ≡ (contains (identities same_row rows) i && not (contains {A = Identity} [] i)))
    × IsDistinct (identities same_row (target_diverse_relation_rows same_row [] rows))
    × (primary variants : List Row) × (target_diverse_relation_rows same_row [] rows
        ≡ primary ++ variants)
    × IsDistinct (targets same_row primary)
    × AllVaried same_row primary variants
target_diverse_relation_rows_lem_example = target_diverse_relation_rows_lem same_row [] rows

abbrev groups : List (List ℕ)
groups = (1 ∷ 2 ∷ 3 ∷ []) ∷ (4 ∷ []) ∷ (5 ∷ 6 ∷ []) ∷ []

allocated : round_robin_allocate groups 4 ≡ some ((1 ∷ 2 ∷ []) ∷ (4 ∷ []) ∷ (5 ∷ []) ∷ [])
unfolding round_robin_allocate
allocated = refl

round_robin_allocate_fair_example :
    (p k : ℕ) × (round_robin_allocate groups 4 ≡ some (shares p k groups))
    × (offered (shares p k groups) ≡ min 4 (offered groups))
round_robin_allocate_fair_example = round_robin_allocate_fair groups 4
