-- ===== src/Router/Traversal.antt =====
-- runtime/traversal.py: the expansion of a frontier over the packs that serve its languages. The
-- query of one pack enters as a function of the connection, which is asked only if it is open.
pub mod Nodes
pub mod Served
pub mod Routes
pub mod Expansion
pub mod Whole
pub mod Recent
pub mod Alive
pub mod Returns
use lexicon_mcp.Prelude.{
  ℕ, String, Bool, true, false, not, List, [], ◌∷◌, ◌++◌, map, Option, none, some, ◌==◌, Eq, nat_eq,
  string_eq, pair_eq, take, is_nonempty, contains, Result, ok, err, programming_error,
  if◌then◌else◌,
}
use lexicon_mcp.Prelude.{◌>>=◌ as ◌then_use◌}
use lexicon_mcp.Json.{pos}
use lexicon_mcp.Keys.{Key, num, text, minus, sorted_by}
use lexicon_mcp.Activation.{Activation}
use lexicon_mcp.Store.{Store}
use lexicon_mcp.Install.Exec.{Exec, pure, ask, ◌>>=◌}
use lexicon_mcp.Router.{Availability, LanguageCoverage, Connections, connection_for, availability}
use lexicon_mcp.Service.Rows.{text_length, spaces, or_empty}
use lexicon_mcp.Service.Weave.{fill_buckets}

pub record FrontierNode : Type 0 where
  pub language : String
  pub word : String

-- The columns of a pack's relation row that the traversal reads.
pub record PackRow : Type 0 where
  pub target_normalized : String
  pub target_language : String
  pub target_term : String
  pub target_sense_id : Option String
  pub target_variant_rank : ℕ
  pub target_sense_count : ℕ
  pub target_entry_count : ℕ
  pub provenance_id : ℕ
  pub direction_code : ℕ

-- A row with the node that it was reached from.
pub record ReachedRow : Type 0 where
  pub row : PackRow
  pub via_language : String
  pub via_word : String

pub record Unexpanded : Type 0 where
  pub language : String
  pub reason : Availability

pub record TraversalResult : Type 0 where
  pub rows : List ReachedRow
  pub unexpanded : List Unexpanded

unfoldable pub complete : TraversalResult → Bool
complete r = not (is_nonempty r.unexpanded)

-- `_order_key`
unfoldable pub order_key : ReachedRow → Key
unfolding spaces text_length
order_key v =
    let r = v.row in
    num (pos r.target_variant_rank)
    ∷ num (minus r.target_sense_count)
    ∷ num (minus r.target_entry_count)
    ∷ num (pos (spaces r.target_normalized))
    ∷ num (pos (text_length r.target_normalized))
    ∷ text r.target_language
    ∷ text r.target_normalized
    ∷ text r.target_term
    ∷ text (or_empty r.target_sense_id)
    ∷ num (pos r.provenance_id)
    ∷ num (pos r.direction_code)
    ∷ []

-- (target_language, target_normalized)
abbrev pub node_identity : PackRow → String × String
node_identity r = (r.target_language, r.target_normalized)

abbrev pub node_of : PackRow → FrontierNode
node_of r = record { language = r.target_language; word = r.target_normalized }

-- The loop of `frontier_from_rows`, with `seen`.
unfoldable pub nodes_of : List (String × String) → List PackRow → List FrontierNode
nodes_of seen [] = []
nodes_of seen (r ∷ rs) =
    let passed_over = nodes_of seen rs in
    let after = nodes_of (seen ++ node_identity r ∷ []) rs in
    if contains seen (node_identity r) then passed_over else node_of r ∷ after

unfoldable pub frontier_from_rows : List PackRow → List FrontierNode
unfolding nodes_of
frontier_from_rows rows = nodes_of [] rows

-- `packs.setdefault(id(connection), (connection, []))[1].extend(nodes)`
unfoldable pub extend :
    ℕ → List FrontierNode → List (ℕ × List FrontierNode) → List (ℕ × List FrontierNode)
extend h nodes [] = (h, nodes) ∷ []
extend h nodes ((j, b) ∷ packs) =
    if j == h then (j, b ++ nodes) ∷ packs else (j, b) ∷ extend h nodes packs

-- `packs` and `result.unexpanded`; `seen_unexpandable` is the languages of the latter.
pub record Routed : Type 0 where
  pub packs : List (ℕ × List FrontierNode)
  pub unexpanded : List Unexpanded

abbrev pub unexpanded_languages : List Unexpanded → List String
unexpanded_languages = map (λ u. u.language)

abbrev pub by_language : List FrontierNode → List (String × List FrontierNode)
unfolding fill_buckets
by_language frontier = fill_buckets (λ n. n.language) [] frontier

abbrev pub language_key : String × List FrontierNode → Key
language_key b = text b.0 ∷ []

unfoldable pub grouped : List FrontierNode → List (String × List FrontierNode)
unfolding sorted_by fill_buckets
grouped frontier = sorted_by language_key (by_language frontier)

abbrev pub reached : FrontierNode → PackRow → ReachedRow
reached n r = record { row = r; via_language = n.language; via_word = n.word }

module _ {B : Type 0} (activation : Activation) (store : Store B) (max_open_packs : ℕ)
    (connects : String → Result (Unit {0})) (catalogue : ℕ → Result (List LanguageCoverage)) where
  -- A language that no pack serves is reported with the reason.
  abbrev pub report : String → Routed → Exec Connections Routed
  report language found s =
      if contains (unexpanded_languages found.unexpanded) language
      then (ok found, s)
      else (do
        v ← availability activation store max_open_packs connects catalogue "lexical" language
        pure (record found {
          unexpanded = found.unexpanded ++ record { language = language; reason = v.reason } ∷ [];
        }))
          s

  abbrev pub route_to : Option ℕ → String → List FrontierNode → Routed → Exec Connections Routed
  route_to (some h) language nodes found =
      pure (record found { packs = extend h nodes found.packs })
  route_to none language nodes found = report language found

  -- The loop over the languages.
  unfoldable pub route_all : List (String × List FrontierNode) → Routed → Exec Connections Routed
  route_all [] found = pure found
  route_all ((language, nodes) ∷ groups) found = do
    connection ←
        connection_for activation store max_open_packs connects catalogue "lexical" language
    next ← route_to connection language nodes found
    route_all groups next

-- `relation_rows` of runtime/pack_queries.py, on a connection, for a word in a language.
abbrev pub Query : Type 0
Query = ℕ → String → String → ℕ → ℕ → Bool → Result (List PackRow)

module _ (query : Query) (relation_code limit : ℕ) (reverse : Bool) where
  -- SQLite refuses a connection that is closed.
  abbrev pub ask_open : List ℕ → ℕ → FrontierNode → Result (List PackRow)
  ask_open closed h n =
      if contains closed h
      then err programming_error
      else query h n.word n.language relation_code limit reverse

  unfoldable pub ask_nodes : List ℕ → ℕ → List FrontierNode → Result (List ReachedRow)
  ask_nodes closed h [] = ok []
  ask_nodes closed h (n ∷ ns) = ask_open closed h n then_use λ rows.
      ask_nodes closed h ns then_use λ others. ok (map (reached n) rows ++ others)

  -- `merged`
  unfoldable pub ask_packs : List ℕ → List (ℕ × List FrontierNode) → Result (List ReachedRow)
  unfolding ask_nodes
  ask_packs closed [] = ok []
  ask_packs closed ((h, ns) ∷ packs) = ask_nodes closed h ns then_use λ rows.
      ask_packs closed packs then_use λ others. ok (rows ++ others)

  module _ {B : Type 0} (activation : Activation) (store : Store B) (max_open_packs : ℕ)
      (connects : String → Result (Unit {0})) (catalogue : ℕ → Result (List LanguageCoverage)) where
    unfoldable pub expand_frontier : List FrontierNode → Exec Connections TraversalResult
    unfolding grouped route_all ask_packs sorted_by order_key
    expand_frontier frontier = do
      found ←
          route_all activation store max_open_packs connects catalogue (grouped frontier)
            (record { packs = []; unexpanded = [] })
      merged ← ask (λ s. ask_packs s.closed found.packs)
      pure
          (record { rows = take limit (sorted_by order_key merged); unexpanded = found.unexpanded })
