-- ===== src/Router/Traversal/Whole.antt =====
-- `complete`, and what `frontier_from_rows` makes of rows.
use lexicon_mcp.Prelude.{
  ℕ, String, Bool, true, false, not, ◌&&◌, List, [], ◌∷◌, ◌++◌, map, filter, all, ◌==◌, string_eq,
  pair_eq, contains, contains-append, contains_eq, beq_refl, IsDistinct, is_nonempty, Result, ok,
  ◌≡◌, refl, ap, sym, ◌∙◌, arith, Bool-cases, inl, inr,
}
use lexicon_mcp.Activation.{Activation}
use lexicon_mcp.Store.{Store}
use lexicon_mcp.Router.{LanguageCoverage, Connections}
use lexicon_mcp.Router.Traversal.{
  FrontierNode, PackRow, Unexpanded, TraversalResult, complete, Query, expand_frontier,
  node_identity, unexpanded_languages, nodes_of, frontier_from_rows,
}
use lexicon_mcp.Router.Traversal.Served.{served}
use lexicon_mcp.Router.Traversal.Expansion.{expand_frontier_lem}

module _ (p : String → Bool) where
  nonempty-filter : (ls : List String) → is_nonempty (filter (λ l. not (p l)) ls) ≡ not (all p ls)
  nonempty-filter [] = refl
  nonempty-filter (l ∷ ls) = ground (arith, nonempty-filter ls)

  all-contains :
      (ls : List String) (l : String) → all p ls ≡ true → contains ls l ≡ true → p l ≡ true
  all-contains [] l h m = cc
  all-contains (k ∷ ls) l h m = ground (arith, string_eq.beq_iff k l, all-contains ls l, ap p, h, m)

  all_of_contains :
      (ls : List String) → ((l : String) → contains ls l ≡ true → p l ≡ true) → all p ls ≡ true
  all_of_contains [] h = refl
  all_of_contains (k ∷ ls) h =
      ground (arith, h k, beq_refl k, all_of_contains ls (λ l m. h l (ground (arith, m))))

  all_same :
      (ks ls : List String) → ((l : String) → contains ks l ≡ contains ls l) → all p ks ≡ all p ls
  all_same ks ls same = elim (Bool-cases (all p ks)) [
    | inl holds ↦ holds ∙ sym (all_of_contains ls (λ l m. all-contains ks l holds (same l ∙ m)))
    | inr fails ↦ elim (Bool-cases (all p ls)) [
      | inr fails' ↦ fails ∙ sym fails'
      | inl holds ↦ absurd (
          ground
            (arith, fails, all_of_contains ks (λ l m. all-contains ls l holds (sym (same l) ∙ m))))
    ]
  ]

  all-map : (ns : List FrontierNode) → all p (map (λ n. n.language) ns) ≡ all (λ n. p n.language) ns
  all-map [] = refl
  all-map (n ∷ ns) = ground (arith, all-map ns)

nonempty-languages : (us : List Unexpanded) → is_nonempty us ≡ is_nonempty (unexpanded_languages us)
nonempty-languages [] = refl
nonempty-languages (u ∷ us) = refl

-- An expansion that returns is complete exactly if a pack serves the language of each node.
pub complete_lem :
    (query : Query) (code limit : ℕ) (reverse : Bool) {B : Type 0} (activation : Activation)
    (store : Store B) (max_open_packs : ℕ) (connects : String → Result (Unit {0}))
    (catalogue : ℕ → Result (List LanguageCoverage)) (frontier : List FrontierNode)
    (s t : Connections) (r : TraversalResult)
    → expand_frontier query code limit reverse activation store max_open_packs connects catalogue
        frontier s
      ≡ (ok r, t)
    → complete r ≡ all (λ n. served activation n.language) frontier
unfolding complete
complete_lem query code limit reverse activation store max_open_packs connects catalogue frontier s
      t r e =
    let x =
      expand_frontier_lem query code limit reverse activation store max_open_packs connects
        catalogue frontier s t r e in
    let p = served activation in
    ap not (
      nonempty-languages r.unexpanded ∙ ap is_nonempty x.unexpanded ∙ nonempty-filter p x.languages)
    ∙ not_not (all p x.languages)
    ∙ all_same p x.languages (map (λ n. n.language) frontier) x.named
    ∙ all-map p frontier
  where
    not_not : (b : Bool) → not (not b) ≡ b
    not_not true = refl
    not_not false = refl

abbrev pub node_names : List FrontierNode → List (String × String)
node_names = map (λ n. (n.language, n.word))

identity_iff : (i j : String × String) → ((i == j) ≡ true → i ≡ j) × (i ≡ j → (i == j) ≡ true)
identity_iff i j = pair_eq.beq_iff i j

contains-nodes_of :
    (seen : List (String × String)) (rows : List PackRow) (i : String × String)
    → contains (node_names (nodes_of seen rows)) i
      ≡ (contains (map node_identity rows) i && not (contains seen i))
unfolding nodes_of
contains-nodes_of seen [] i = refl
contains-nodes_of seen (r ∷ rs) i = elim (Bool-cases (contains seen (node_identity r))) [
  | inl old ↦
      rw (old, nodes_of)
        (ground (
          arith,
          contains-nodes_of seen rs i,
          identity_iff (node_identity r) i,
          contains_eq seen (node_identity r) i,
          old,
        ))
  | inr new ↦
      rw (new, nodes_of)
        (ground (
          arith,
          contains-nodes_of (seen ++ node_identity r ∷ []) rs i,
          contains-append seen (node_identity r ∷ []) i,
          identity_iff (node_identity r) i,
          contains_eq seen (node_identity r) i,
          new,
        ))
]

nodes_of-IsDistinct :
    (seen : List (String × String)) (rows : List PackRow)
    → IsDistinct (node_names (nodes_of seen rows))
unfolding nodes_of
nodes_of-IsDistinct seen [] = tt
nodes_of-IsDistinct seen (r ∷ rs) = elim (Bool-cases (contains seen (node_identity r))) [
  | inl old ↦ rw (old, nodes_of) (nodes_of-IsDistinct seen rs)
  | inr new ↦
      let seen' = seen ++ node_identity r ∷ [] in
      rw (new, nodes_of)
        (
          ground (
            arith,
            contains-nodes_of seen' rs (node_identity r),
            contains-append seen (node_identity r ∷ []) (node_identity r),
            beq_refl (node_identity r),
          ),
          nodes_of-IsDistinct seen' rs,
        )
]

-- The next frontier names exactly the targets of the rows, each once.
pub frontier_from_rows_lem :
    (rows : List PackRow)
    → IsDistinct (node_names (frontier_from_rows rows))
      × ((i : String × String)
          → contains (node_names (frontier_from_rows rows)) i ≡ contains (map node_identity rows) i)
unfolding frontier_from_rows
frontier_from_rows_lem rows =
    (nodes_of-IsDistinct [] rows, λ i. contains-nodes_of [] rows i ∙ ground arith)
