-- ===== src/Router/Traversal/Returns.antt =====
-- The queries of the packs that were found return, and with them the expansion.
use lexicon_mcp.Prelude.{
  ℕ, ◌+◌, ◌≤◌, String, Bool, true, false, List, [], ◌∷◌, ◌++◌, map, nat_eq, length, take, contains,
  All, All-imp, Result, ok, ◌≡◌, refl, arith,
}
use lexicon_mcp.Keys.{sorted_by}
use lexicon_mcp.Activation.{Activation}
use lexicon_mcp.Store.{Store}
use lexicon_mcp.Router.{LanguageCoverage, Connections}
use lexicon_mcp.Router.Queue.{IsSound}
use lexicon_mcp.Router.Traversal.{
  FrontierNode, PackRow, ReachedRow, TraversalResult, Routed, route_all, grouped, Query, reached,
  order_key, ask_open, ask_nodes, ask_packs, expand_frontier,
}
use lexicon_mcp.Router.Traversal.Recent.{within, open_within}
use lexicon_mcp.Router.Traversal.Alive.{route_all-Ready}

module _ (query : Query) (code limit : ℕ) (reverse : Bool)
    (answers : (h : ℕ) (word language : String)
      → (rows : List PackRow) × (query h word language code limit reverse ≡ ok rows)) where
  ask_nodes_returns :
      (closed : List ℕ) (h : ℕ) (ns : List FrontierNode)
      → contains closed h ≡ false
      → (rows : List ReachedRow) × (ask_nodes query code limit reverse closed h ns ≡ ok rows)
  unfolding ask_nodes
  ask_nodes_returns closed h [] alive = ([], refl)
  ask_nodes_returns closed h (n ∷ ns) alive =
      let (rows, answered) = answers h n.word n.language in
      let (others, rest) = ask_nodes_returns closed h ns alive in
      (map (reached n) rows ++ others, rw (alive, ask_open) (rw answered (rw rest refl)))

  ask_packs_returns :
      (closed : List ℕ) (packs : List (ℕ × List FrontierNode))
      → All (λ b. contains closed b.0 ≡ false) packs
      → (rows : List ReachedRow) × (ask_packs query code limit reverse closed packs ≡ ok rows)
  unfolding ask_packs
  ask_packs_returns closed [] alive = ([], refl)
  ask_packs_returns closed ((h, ns) ∷ packs) alive =
      let (rows, asked) = ask_nodes_returns closed h ns alive.0 in
      let (others, rest) = ask_packs_returns closed packs alive.1 in
      (rows ++ others, rw asked (rw rest refl))

  -- Where a frontier has no more languages than connections may be open at once, and the queries
  -- of open connections return, the expansion returns once its packs are found: from a sound state
  -- no connection is closed before it is asked.
  pub expand_frontier_returns :
      {B : Type 0} (activation : Activation) (store : Store B) (max_open_packs : ℕ)
      (connects : String → Result (Unit {0})) (catalogue : ℕ → Result (List LanguageCoverage))
      (frontier : List FrontierNode) (s u : Connections) (found : Routed)
      → IsSound max_open_packs s
      → length (grouped frontier) ≤ max_open_packs
      → route_all activation store max_open_packs connects catalogue
          (grouped frontier)
          (record { packs = []; unexpanded = [] })
          s
        ≡ (ok found, u)
      → (r : TraversalResult) × (expand_frontier query code limit reverse activation store
            max_open_packs connects catalogue frontier s
          ≡ (ok r, u))
  unfolding expand_frontier
  expand_frontier_returns activation store max_open_packs connects catalogue frontier s u found v l
        routed =
      let ready =
        route_all-Ready activation store max_open_packs connects catalogue (grouped frontier) 0 _
          found s u (omega (arith, l)) (v, tt) routed in
      let alive =
        All-imp (λ b. within (0 + length (grouped frontier)) b.0 u.opened ≡ true)
          (λ b. contains u.closed b.0 ≡ false) (λ b m. open_within max_open_packs _ b.0 u ready.0 m)
          found.packs ready.1 in
      let (rows, asked) = ask_packs_returns u.closed found.packs alive in
      (
        record { rows = take limit (sorted_by order_key rows); unexpanded = found.unexpanded },
        rw routed (rw asked refl),
      )
