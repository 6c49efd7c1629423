-- ===== src/Service/Transitive/Paths.antt =====
-- Every relation at distance two is a path of two edges that fit together.
use mathlib.Core.List.{Mem, mem-cons_self, mem-cons_of_mem}
use lexicon_mcp.Prelude.{
  ℕ, ◌≤◌, String, true, not, ◌&&◌, List, [], ◌∷◌, map, Option, none, some, ◌==◌, nat_eq,
  nat_beq_iff, string_eq, eq_iff, pair_eq, option_eq, length, filter, All, All-imp, All-append,
  All-map, if◌then◌else◌, ◌≡◌, ◌≢◌, refl, ap, sym, ◌∙◌, arith, Bool-cases, ◌⊎◌, inl, inr,
}
use lexicon_mcp.Keys.Sorted.{sorted_by-All}
use lexicon_mcp.Service.Rows.{Row}
use lexicon_mcp.Service.Frontier.{is_sensed, target_identity}
use lexicon_mcp.Service.Frontier.Laws.{transitive_frontier_rows_lem}
use lexicon_mcp.Service.Transitive.{
  Related, source_identity, relation_path_is_scoped, continues, joined, edges_from, candidates,
  sensed_signatures, set_priority, candidate_key, ranked_candidates, is_hierarchy, frontier_budget,
  branch_limit, Database, first_hops, second_hops, relation_rows, transitive_relation_rows,
}
use lexicon_mcp.Service.Rank.Fair.{rank_oriented_relation_rows_lem}

-- The senses of the path: none is named and the word in the middle is one entry, or all are, and
-- the sense in the middle is one.
abbrev pub Scoped : Row → Row → Type 0
Scoped first second =
    ((first.source_sense_id ≡ none)
      × (first.target_sense_id ≡ none)
      × (second.source_sense_id ≡ none)
      × (second.target_sense_id ≡ none)
      × (first.target_term_id ≡ second.source_term_id))
    ⊎ ((s t u : String) × (first.source_sense_id ≡ some s)
        × (first.target_sense_id ≡ some t)
        × (second.source_sense_id ≡ some t)
        × (second.target_sense_id ≡ some u))

relation_path_is_scoped_lem :
    (first second : Row) → relation_path_is_scoped first second ≡ true → Scoped first second
unfolding relation_path_is_scoped
relation_path_is_scoped_lem first second h =
    split first.source_sense_id first.target_sense_id second.source_sense_id second.target_sense_id
      refl refl refl refl h
  where
    split :
        (a b c d : Option String)
        → first.source_sense_id ≡ a
        → first.target_sense_id ≡ b
        → second.source_sense_id ≡ c
        → second.target_sense_id ≡ d
        → (if not (is_sensed a) && (not (is_sensed b) && (not (is_sensed c) && not (is_sensed d)))
            then first.target_term_id == second.source_term_id
            else (is_sensed a && (is_sensed b && (is_sensed c && is_sensed d))) && b == c)
          ≡ true
        → Scoped first second
    split none none none none p q r s e = inl (p, q, r, s, (nat_beq_iff _ _).0 e)
    split (some a) (some b) (some c) (some d) p q r s e =
        inr (a, b, d, p, q, r ∙ ap some (sym ((eq_iff b c).0 e)), s)
    split a b c d p q r s e = absurd (ground (arith, e))

-- A candidate with its two edges, from the given ones.
pub record IsPath (word language : String) (firsts seconds : List Row) (c : Related) : Type 0 where
  pub first : Row
  pub second : Row
  pub path : c.path_rows ≡ first ∷ second ∷ []
  pub first_given : Mem first firsts
  pub second_given : Mem second seconds
  pub meets : target_identity first ≡ source_identity second
  pub scoped : Scoped first second
  pub same_provenance : first.provenance_id ≡ second.provenance_id
  pub same_direction : first.direction_code ≡ second.direction_code
  pub from : source_identity c.row ≡ source_identity first
  pub to : target_identity c.row ≡ target_identity second
  pub away : target_identity c.row ≢ (word, language)
  pub far : c.distance ≡ 2

module _ (word language : String) (code : ℕ) where
  pair_same : (p q : String × String) → ((p == q) ≡ true → p ≡ q) × (p ≡ q → (p == q) ≡ true)
  pair_same p q = pair_eq.beq_iff p q

  joined-IsPath :
      (first second : Row) (firsts seconds : List Row)
      → Mem first firsts
      → Mem second seconds
      → (source_identity second == target_identity first) ≡ true
      → continues word language first second ≡ true
      → IsPath word language firsts seconds (joined code first second)
  unfolding continues
  joined-IsPath first second firsts seconds m n e h = record {
    first = first;
    second = second;
    path = refl;
    first_given = m;
    second_given = n;
    meets = sym ((pair_same _ _).0 e);
    scoped = relation_path_is_scoped_lem first second (ground (arith, h));
    same_provenance = ground (arith, h);
    same_direction = ground (arith, h);
    from = refl;
    to = refl;
    away = λ p. ground (arith, h, (pair_same (target_identity second) (word, language)).1 p);
    far = refl;
  }

  module _ (firsts seconds : List Row) where
    inner-IsPath :
        (first : Row) (xs : List Row)
        → Mem first firsts
        → All (λ s. Mem s seconds) xs
        → All
            (IsPath word language firsts seconds)
            (map (joined code first) (filter (continues word language first) (edges_from first xs)))
    inner-IsPath first [] m h = tt
    inner-IsPath first (x ∷ xs) m h =
        elim (Bool-cases (source_identity x == target_identity first)) [
          | inr apart ↦ rw (apart, filter) (inner-IsPath first xs m h.1)
          | inl meets ↦ elim (Bool-cases (continues word language first x)) [
            | inr refused ↦ rw (meets, refused, filter) (inner-IsPath first xs m h.1)
            | inl follows ↦
                rw (meets, follows, filter)
                  (
                    joined-IsPath first x firsts seconds m h.0 meets follows,
                    inner-IsPath first xs m h.1,
                  )
          ]
        ]

    candidates-IsPath :
        (xs ys : List Row)
        → All (λ f. Mem f firsts) xs
        → All (λ s. Mem s seconds) ys
        → All (IsPath word language firsts seconds) (candidates word language code xs ys)
    unfolding candidates
    candidates-IsPath [] ys h k = tt
    candidates-IsPath (x ∷ xs) ys h k =
        All-append (IsPath word language firsts seconds) _ _ (inner-IsPath x ys h.0 k)
          (candidates-IsPath xs ys h.1 k)

    set_priority-IsPath :
        (sensed : List _) (c : Related)
        → IsPath word language firsts seconds c
        → IsPath word language firsts seconds (set_priority sensed c)
    unfolding set_priority
    set_priority-IsPath sensed c v = record {
      first = v.first;
      second = v.second;
      path = v.path;
      first_given = v.first_given;
      second_given = v.second_given;
      meets = v.meets;
      scoped = v.scoped;
      same_provenance = v.same_provenance;
      same_direction = v.same_direction;
      from = v.from;
      to = v.to;
      away = v.away;
      far = v.far;
    }

    ranked_candidates-IsPath :
        (cs : List Related)
        → All (IsPath word language firsts seconds) cs
        → All (IsPath word language firsts seconds) (ranked_candidates code cs)
    unfolding ranked_candidates
    ranked_candidates-IsPath cs h =
        sorted_by-All (candidate_key code) (IsPath word language firsts seconds) _ (
          All-map (IsPath word language firsts seconds) (set_priority (sensed_signatures cs)) cs (
            All-imp (IsPath word language firsts seconds) _
              (set_priority-IsPath (sensed_signatures cs)) cs h))

All-mem : (xs : List Row) → All (λ x. Mem x xs) xs
All-mem [] = tt
All-mem (x ∷ xs) = (
  mem-cons_self,
  All-imp (λ y. Mem y xs) (λ y. Mem y (x ∷ xs)) (λ y m. mem-cons_of_mem x m) xs (All-mem xs),
)

pub relation_rows_total :
    (db : Database) (word language : String) (code : ℕ) (target_language sense : Option String)
    (limit : ℕ)
    → (rows : List Row) × (relation_rows db word language code target_language sense limit
        ≡ some rows)
unfolding relation_rows
relation_rows_total db word language code target_language sense limit =
    let v =
      rank_oriented_relation_rows_lem limit
        (db.oriented_relation_rows word language code target_language sense limit) in
    (v.1, v.2)

first_hops_total :
    (db : Database) (word language : String) (code : ℕ) (sense : Option String)
    (given : Option (List Row))
    → (edges : List Row) × (first_hops db word language code sense given ≡ some edges)
first_hops_total db word language code sense (some edges) = (_, refl)
first_hops_total db word language code sense none =
    relation_rows_total db word language code none sense 256

-- The expansion of a hierarchy ends. It follows some of the first edges, not more than the budget
-- that the limit gives, and each of its results is a path of one of them and of an edge of the
-- word that it leads to: of one source and direction, continuous in the sense, and not back to the
-- word that it started from.
pub transitive_relation_rows_lem :
    (db : Database) (word language : String) (code : ℕ) (target_language sense : Option String)
    (limit : ℕ) (given : Option (List Row))
    → is_hierarchy code ≡ true
    → (edges frontier : List Row) × (found : List Related) × (first_hops db word language code sense
          given
        ≡ some edges)
      × (transitive_relation_rows db word language code target_language sense limit given
          ≡ some found)
      × (length frontier ≤ frontier_budget limit)
      × All (λ f. Mem f edges) frontier
      × All
          (IsPath word language frontier (
            db.relation_rows_many
              (map target_identity frontier)
              code
              target_language
              (branch_limit limit)))
          found
unfolding transitive_relation_rows second_hops
transitive_relation_rows_lem db word language code target_language sense limit given h =
    let (edges, e) = first_hops_total db word language code sense given in
    let (frontier, run, few, some_of) =
      transitive_frontier_rows_lem (λ f. Mem f edges) code (frontier_budget limit) edges
        (All-mem edges) in
    let seconds =
      db.relation_rows_many (map target_identity frontier) code target_language
        (branch_limit limit) in
    (
      edges,
      frontier,
      second_hops db word language code target_language limit frontier,
      e,
      rw (h, e, run, transitive_relation_rows) refl,
      few,
      some_of,
      ranked_candidates-IsPath word language code frontier seconds
          (candidates word language code frontier seconds)
          (candidates-IsPath word language code frontier seconds frontier seconds (All-mem frontier)
            (All-mem seconds)),
    )
