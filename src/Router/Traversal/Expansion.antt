-- ===== src/Router/Traversal/Expansion.antt =====
-- `expand_frontier`: which nodes are asked for, what is made of the answers, and what is reported.
use mathlib.Core.List.{append-nil, append_assoc, map-append, Perm}
use mathlib.Core.List.Perm
use lexicon_mcp.Prelude.{
  ℕ, String, Bool, false, not, List, [], ◌∷◌, ◌++◌, map, filter, take, string_eq, nat_eq, contains,
  IsDistinct, IsSorted, IsDistinct-perm, contains-perm, All, All-append, Result, ok, OnOk,
  >>=-eq-ok, ok-injective, ◌≡◌, refl, ap, ap₂, sym, ◌∙◌, subst, arith, Bool-cases, inl, inr,
}
use lexicon_mcp.Keys.{Key, text, key_ord, sorted_by}
use lexicon_mcp.Keys.Sorted.{sorted_by-IsSorted, sorted_by-perm}
use lexicon_mcp.Service.Weave.Buckets.{contains-fill_buckets, fill_buckets-IsDistinct}
use lexicon_mcp.Activation.{Activation}
use lexicon_mcp.Store.{Store}
use lexicon_mcp.Install.Exec.{>>=-eq-ok as then-eq-ok, continue-eq-ok}
use lexicon_mcp.Router.{LanguageCoverage, Connections}
use lexicon_mcp.Router.Traversal.{
  FrontierNode, PackRow, ReachedRow, TraversalResult, order_key, unexpanded_languages, language_key,
  by_language, grouped, reached, route_all, Query, ask_open, ask_nodes, ask_packs, expand_frontier,
}
use lexicon_mcp.Router.Traversal.Nodes.{kept, kept-sorted_by, kept-fill_buckets}
use lexicon_mcp.Router.Traversal.Served.{served}
use lexicon_mcp.Router.Traversal.Routes.{asked_nodes, group_languages, Reported, route_all_lem}

-- A query that was run: the connection, the node and the rows that came back.
pub record Asked : Type 0 where
  pub connection : ℕ
  pub node : FrontierNode
  pub rows : List PackRow

abbrev pub nodes_asked : List Asked → List FrontierNode
nodes_asked = map (λ a. a.node)

abbrev pub merged_rows : List Asked → List ReachedRow
merged_rows [] = []
merged_rows (a ∷ qs) = map (reached a.node) a.rows ++ merged_rows qs

merged_rows-append :
    (xs ys : List Asked) → merged_rows (xs ++ ys) ≡ merged_rows xs ++ merged_rows ys
merged_rows-append [] ys = refl
merged_rows-append (x ∷ xs) ys =
    ap (λ l. map (reached x.node) x.rows ++ l) (merged_rows-append xs ys)
    ∙ sym (append_assoc (map (reached x.node) x.rows) (merged_rows xs) (merged_rows ys))

module _ (query : Query) (code limit : ℕ) (reverse : Bool) where
  -- The connection was open, and these rows are its answer.
  abbrev pub IsAnswered : List ℕ → Asked → Type 0
  IsAnswered closed a =
      (contains closed a.connection ≡ false)
      × (query a.connection a.node.word a.node.language code limit reverse ≡ ok a.rows)

  abbrev Ran : List ℕ → List FrontierNode → List ReachedRow → Type 0
  Ran closed ns rows =
      (qs : List Asked) × (nodes_asked qs ≡ ns)
      × All (IsAnswered closed) qs
      × (rows ≡ merged_rows qs)

  ask_nodes_lem :
      (closed : List ℕ) (h : ℕ) (ns : List FrontierNode) (rows : List ReachedRow)
      → ask_nodes query code limit reverse closed h ns ≡ ok rows
      → Ran closed ns rows
  unfolding ask_nodes
  ask_nodes_lem closed h [] rows e = ([], refl, tt, sym (ok-injective e))
  ask_nodes_lem closed h (n ∷ ns) rows e = elim (Bool-cases (contains closed h)) [
    | inl gone ↦ absurd (ground (arith, rw (gone, ask_open, ask_nodes) at e))
    | inr alive ↦
        let (first, answered, e1) = >>=-eq-ok (ask_open query code limit reverse closed h n) _ e in
        let (others, asked, e2) = >>=-eq-ok (ask_nodes query code limit reverse closed h ns) _ e1 in
        let (qs, same, all_answered, merged) = ask_nodes_lem closed h ns others asked in
        let a : Asked = record { connection = h; node = n; rows = first } in
        (
          a ∷ qs,
          ap (◌∷◌ n) same,
          ((alive, rw (alive, ask_open) at answered), all_answered),
          sym (ok-injective e2) ∙ ap (λ l. map (reached n) first ++ l) merged,
        )
  ]

  ask_packs_lem :
      (closed : List ℕ) (packs : List (ℕ × List FrontierNode)) (rows : List ReachedRow)
      → ask_packs query code limit reverse closed packs ≡ ok rows
      → Ran closed (asked_nodes packs) rows
  unfolding ask_packs
  ask_packs_lem closed [] rows e = ([], refl, tt, sym (ok-injective e))
  ask_packs_lem closed ((h, ns) ∷ packs) rows e =
      let (first, asked, e1) = >>=-eq-ok (ask_nodes query code limit reverse closed h ns) _ e in
      let (others, rest, e2) = >>=-eq-ok (ask_packs query code limit reverse closed packs) _ e1 in
      let (qs, same, good, merged) = ask_nodes_lem closed h ns first asked in
      let (rs, same', good', merged') = ask_packs_lem closed packs others rest in
      (
        qs ++ rs,
        map-append (λ a. a.node) qs rs ∙ ap₂ ◌++◌ same same',
        All-append (IsAnswered closed) qs rs good good',
        sym (ok-injective e2) ∙ ap₂ ◌++◌ merged merged' ∙ sym (merged_rows-append qs rs),
      )

group_languages-IsDistinct :
    (frontier : List FrontierNode) → IsDistinct (group_languages (grouped frontier))
unfolding grouped
group_languages-IsDistinct frontier =
    IsDistinct-perm
      (Perm.map (λ b. b.0) (Perm.symm (sorted_by-perm language_key (by_language frontier))))
      (fill_buckets-IsDistinct (λ n. n.language) [] frontier tt)

contains-group_languages :
    (frontier : List FrontierNode) (l : String)
    → contains (group_languages (grouped frontier)) l ≡ contains (map (λ n. n.language) frontier) l
unfolding grouped
contains-group_languages frontier l =
    contains-perm (Perm.map (λ b. b.0) (sorted_by-perm language_key (by_language frontier))) l
    ∙ contains-fill_buckets (λ n. n.language) l [] frontier

kept-grouped :
    (p : String → Bool) (frontier : List FrontierNode)
    → Perm (kept p (grouped frontier)) (filter (λ n. p n.language) frontier)
unfolding grouped
kept-grouped p frontier =
    subst (Perm (kept p (grouped frontier))) (append-nil (filter (λ n. p n.language) frontier)) (
      Perm.trans (kept-sorted_by p language_key (by_language frontier))
        (kept-fill_buckets p (λ n. n.language) [] frontier))

abbrev pub single : String → Key
single l = text l ∷ []

language_keys :
    (groups : List (String × List FrontierNode))
    → map language_key groups ≡ map single (group_languages groups)
language_keys [] = refl
language_keys (b ∷ groups) = ap (◌∷◌ (single b.0)) (language_keys groups)

language_keys-IsSorted :
    (frontier : List FrontierNode) → IsSorted (map single (group_languages (grouped frontier)))
unfolding grouped
language_keys-IsSorted frontier =
    subst IsSorted (language_keys (grouped frontier))
      (sorted_by-IsSorted language_key (by_language frontier))

module _ (query : Query) (code limit : ℕ) (reverse : Bool) {B : Type 0} (activation : Activation)
    (store : Store B) (max_open_packs : ℕ) (connects : String → Result (Unit {0}))
    (catalogue : ℕ → Result (List LanguageCoverage)) where
  pub record Expansion (frontier : List FrontierNode) (r : TraversalResult) (t : Connections)
      : Type 0 where
    pub languages : List String
    pub ascending : IsSorted (map single languages)
    pub once : IsDistinct languages
    pub named : (l : String) → contains languages l ≡ contains (map (λ n. n.language) frontier) l
    pub unexpanded :
        unexpanded_languages r.unexpanded ≡ filter (λ l. not (served activation l)) languages
    pub reported : All (Reported activation store max_open_packs connects catalogue t) r.unexpanded
    pub asked : List Asked
    pub covered : Perm (nodes_asked asked) (filter (λ n. served activation n.language) frontier)
    pub answered : All (IsAnswered query code limit reverse t.closed) asked
    pub ranked : r.rows ≡ take limit (sorted_by order_key (merged_rows asked))

  -- An expansion that returns has asked for each node of the frontier whose language a pack
  -- serves, as often as it stands there, on an open connection. Its rows are those that came back
  -- for these nodes, in the order of the relations and cut at the limit. The other languages of
  -- the frontier are reported, each once and in order, with the reason that holds by the catalogue
  -- that is then held.
  pub expand_frontier_lem :
      (frontier : List FrontierNode) (s t : Connections) (r : TraversalResult)
      → expand_frontier query code limit reverse activation store max_open_packs connects catalogue
          frontier s
        ≡ (ok r, t)
      → Expansion frontier r t
  unfolding expand_frontier
  expand_frontier_lem frontier s t r e =
      let (found, s1, routed, e1) =
        then-eq-ok
          (route_all activation store max_open_packs connects catalogue (grouped frontier)
            (record { packs = []; unexpanded = [] }))
          _ s e in
      let (merged, ran, e2) =
        continue-eq-ok (ask_packs query code limit reverse s1.closed found.packs) _ s1 e1 in
      let added =
        route_all_lem activation store max_open_packs connects catalogue (grouped frontier)
          (record { packs = []; unexpanded = [] }) found s s1 (group_languages-IsDistinct frontier)
          tt routed in
      let (qs, same, good, merges) =
        ask_packs_lem query code limit reverse s1.closed found.packs merged ran in
      subst (λ (q : Result TraversalResult × Connections). OnOk (λ x. Expansion frontier x q.1) q.0)
        e2
        (record {
          languages = group_languages (grouped frontier);
          ascending = language_keys-IsSorted frontier;
          once = group_languages-IsDistinct frontier;
          named = contains-group_languages frontier;
          unexpanded = added.left_out;
          reported = added.reported;
          asked = qs;
          covered = rw same (Perm.trans added.asked (kept-grouped (served activation) frontier));
          answered = good;
          ranked = ap (λ m. take limit (sorted_by order_key m)) merges;
        })
