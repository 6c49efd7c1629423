-- ===== src/Tests/Frontiers.antt =====
-- runtime/traversal.py at the sample: a frontier with a word of a language that a pack serves and one
-- of a language that the corpus does not know.
use lexicon_mcp.Prelude.{
  ℕ, ◌≤◌, arith, length, String, Bool, true, false, List, [], ◌∷◌, Option, none, some, ◌≡◌, refl,
  Result, ok, err, programming_error, contains, IsDistinct, all, string_eq, pair_eq, map,
}
use lexicon_mcp.Router.{Availability, Connections}
use lexicon_mcp.Router.Traversal.{
  FrontierNode, PackRow, ReachedRow, TraversalResult, complete, expand_frontier, frontier_from_rows,
  node_identity,
}
use lexicon_mcp.Router.Traversal.{Routed, route_all, grouped}
use lexicon_mcp.Router.Traversal.Served.{served}
use lexicon_mcp.Router.Traversal.Expansion.{Expansion, expand_frontier_lem}
use lexicon_mcp.Router.Queue.{IsSound}
use lexicon_mcp.Router.Traversal.Returns.{expand_frontier_returns}
use lexicon_mcp.Router.Traversal.Whole.{complete_lem, node_names, frontier_from_rows_lem}
use lexicon_mcp.Tests.Routes.{
  words_store, no_connections, always, english_coverage, catalogue, routed,
}
use lexicon_mcp.Tests.Samples.{ones, twos}

abbrev target : String → String → PackRow
target language word = record {
  target_normalized = word;
  target_language = language;
  target_term = word;
  target_sense_id = none;
  target_variant_rank = 1;
  target_sense_count = 2;
  target_entry_count = 1;
  provenance_id = 1;
  direction_code = 1;
}

abbrev node : String → String → FrontierNode
node language word = record { language = language; word = word }

-- A pack whose every word has two relations.
abbrev query : ℕ → String → String → ℕ → ℕ → Bool → Result (List PackRow)
query h word language code limit reverse = ok (target "en" "b" ∷ target "fr" "a" ∷ [])

abbrev words_and_others : List FrontierNode
words_and_others = node "xx" "q" ∷ node "en" "w" ∷ []

abbrev both_open : Connections
both_open = record {
  opened = (twos, 0) ∷ (ones, 1) ∷ [];
  made = 2;
  closed = [];
  coverage = some (("en", english_coverage) ∷ []);
}

abbrev reached_first : TraversalResult
reached_first = record {
  rows = record { row = target "en" "b"; via_language = "en"; via_word = "w" } ∷ [];
  unexpanded = record { language = "xx"; reason = Availability.unknown_language } ∷ [];
}

expanded :
    expand_frontier query 3 1 false routed words_store 2 always catalogue words_and_others
      no_connections
    ≡ (ok reached_first, both_open)
unfolding lexicon_mcp.Text.sha256_re lexicon_mcp.Text.language_re lexicon_mcp.Text.lower
    lexicon_mcp.Manifest.Scalars.normalize_language lexicon_mcp.Activation.component
    lexicon_mcp.Activation.component_for lexicon_mcp.Store.path_for lexicon_mcp.Store.open_path
    lexicon_mcp.Router.evict lexicon_mcp.Router.keep_open lexicon_mcp.Router.connect
    lexicon_mcp.Router.core_component lexicon_mcp.Router.load_coverage
    lexicon_mcp.Router.read_coverage lexicon_mcp.Router.availability
    lexicon_mcp.Router.connection_for lexicon_mcp.Prelude.insert lexicon_mcp.Router.Traversal.extend
    lexicon_mcp.Router.Traversal.expand_frontier lexicon_mcp.Keys.key_le
    lexicon_mcp.Prelude.string_le
expanded = refl

-- With one open connection at most, the reading of the catalogue closes the pack that is still to
-- be asked.
closed_too_early :
    (expand_frontier query 3 1 false routed words_store 1 always catalogue words_and_others
      no_connections).0
    ≡ err programming_error
unfolding lexicon_mcp.Text.sha256_re lexicon_mcp.Text.language_re lexicon_mcp.Text.lower
    lexicon_mcp.Manifest.Scalars.normalize_language lexicon_mcp.Activation.component
    lexicon_mcp.Activation.component_for lexicon_mcp.Store.path_for lexicon_mcp.Store.open_path
    lexicon_mcp.Router.evict lexicon_mcp.Router.keep_open lexicon_mcp.Router.connect
    lexicon_mcp.Router.core_component lexicon_mcp.Router.load_coverage
    lexicon_mcp.Router.read_coverage lexicon_mcp.Router.availability
    lexicon_mcp.Router.connection_for lexicon_mcp.Prelude.insert lexicon_mcp.Router.Traversal.extend
    lexicon_mcp.Router.Traversal.expand_frontier lexicon_mcp.Keys.key_le
    lexicon_mcp.Prelude.string_le
closed_too_early = refl

expand_frontier_lem_example :
    Expansion query 3 1 false routed words_store 2 always catalogue words_and_others reached_first
      both_open
expand_frontier_lem_example =
    expand_frontier_lem query 3 1 false routed words_store 2 always catalogue words_and_others
      no_connections both_open reached_first expanded

complete_lem_example : complete reached_first ≡ all (λ n. served routed n.language) words_and_others
complete_lem_example =
    complete_lem query 3 1 false routed words_store 2 always catalogue words_and_others
      no_connections both_open reached_first expanded

abbrev targets : List PackRow
targets = target "en" "b" ∷ target "fr" "a" ∷ target "en" "b" ∷ []

frontier_from_rows_lem_example :
    IsDistinct (node_names (frontier_from_rows targets))
    × ((i : String × String)
        → contains (node_names (frontier_from_rows targets)) i
          ≡ contains (map node_identity targets) i)
frontier_from_rows_lem_example = frontier_from_rows_lem targets

abbrev found : Routed
found = record {
  packs = (0, node "en" "w" ∷ []) ∷ [];
  unexpanded = record { language = "xx"; reason = Availability.unknown_language } ∷ [];
}

languages_routed :
    route_all routed words_store 2 always catalogue
      (grouped words_and_others)
      (record { packs = []; unexpanded = [] })
      no_connections
    ≡ (ok found, both_open)
unfolding lexicon_mcp.Text.up_to lexicon_mcp.Text.sha256_re lexicon_mcp.Text.language_re
    lexicon_mcp.Text.lower lexicon_mcp.Manifest.Scalars.normalize_language
    lexicon_mcp.Manifest.Scalars.parse_tags lexicon_mcp.Manifest.Scalars.parse_language_tags
    lexicon_mcp.Activation.component lexicon_mcp.Activation.component_for
    lexicon_mcp.Activation.digests lexicon_mcp.Store.path_for lexicon_mcp.Store.store_contains
    lexicon_mcp.Store.open_path lexicon_mcp.Store.iter_digests lexicon_mcp.Router.offers
    lexicon_mcp.Router.evict lexicon_mcp.Router.new_router lexicon_mcp.Router.keep_open
    lexicon_mcp.Router.connect lexicon_mcp.Router.core_component lexicon_mcp.Router.load_coverage
    lexicon_mcp.Router.read_coverage lexicon_mcp.Router.availability
    lexicon_mcp.Router.connection_for lexicon_mcp.Router.close lexicon_mcp.Prelude.insert
    lexicon_mcp.Router.Traversal.frontier_from_rows lexicon_mcp.Router.Traversal.extend
    lexicon_mcp.Router.Traversal.expand_frontier lexicon_mcp.Service.Weave.add_to_bucket
    lexicon_mcp.Service.Weave.fill_buckets lexicon_mcp.Service.Rows.spaces
    lexicon_mcp.Service.Rows.text_length lexicon_mcp.Keys.insert_by lexicon_mcp.Keys.sorted_by
    lexicon_mcp.Keys.key_le lexicon_mcp.Prelude.string_le
languages_routed = refl

two_languages : length (grouped words_and_others) ≤ 2
unfolding grouped lexicon_mcp.Keys.key_le lexicon_mcp.Prelude.string_le
two_languages = omega arith

nothing_open : IsSound 2 no_connections
nothing_open = record {
  bounded = omega arith;
  packs_once = tt;
  handles_once = tt;
  handles_made = λ h m. absurd cc;
}

expand_frontier_returns_example :
    (r : TraversalResult) × (expand_frontier query 3 1 false routed words_store 2 always catalogue
        words_and_others no_connections
      ≡ (ok r, both_open))
expand_frontier_returns_example =
    expand_frontier_returns query 3 1 false (λ h word language. (_, refl)) routed words_store 2
      always catalogue words_and_others no_connections both_open found nothing_open two_languages
      languages_routed
