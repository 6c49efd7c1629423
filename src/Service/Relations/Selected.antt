-- ===== src/Service/Relations/Selected.antt =====
-- What `dictionary_relations` renders: which rows, how many of each distance, and none twice.
use mathlib.Core.List.{map-append}
use lexicon_mcp.Prelude.{
  ℕ, zero, suc, ◌+◌, ◌-◌, ◌≤◌, String, true, false, List, [], ◌∷◌, ◌++◌, map, Option, some, ltb,
  leb, length, length-take-le, take, contains, IsDistinct, IsDistinct-append, All, All-take,
  string_eq, pair_eq, option_eq, ok, >>=-eq-ok, ok-injective, ◌≡◌, refl, sym, subst, arith,
  Bool-cases, inl, inr,
}
use lexicon_mcp.Json.{Value}
use lexicon_mcp.Service.Arguments.{
  validate_limit, validate_bounded_integer, validate_allocation, relation_scan_limit,
  validate_limit_lem, validate_allocation_lem,
}
use lexicon_mcp.Service.Rows.{Row, Identity, relation_identity}
use lexicon_mcp.Service.Diverse.{target_diverse_relation_rows}
use lexicon_mcp.Service.Diverse.Laws.{target_diverse_relation_rows_lem}
use lexicon_mcp.Service.Diverse.Keeps.{target_diverse-All}
use lexicon_mcp.Service.Transitive.{
  Related, is_hierarchy, Database, relation_rows, transitive_relation_rows,
}
use lexicon_mcp.Service.Transitive.Paths.{IsPath, relation_rows_total, transitive_relation_rows_lem}
use lexicon_mcp.Service.Relations.{
  row_of, direct, transitive_budget, identities_of, reused, new_transitive, order_rows,
  related_rows, dictionary_relations,
}

-- An edge of its own.
abbrev pub IsDirect : Related → Type 0
IsDirect c = (c.path_rows ≡ c.row ∷ []) × (c.distance ≡ 1)

-- A path of two edges, from edges that were read.
abbrev pub IsIndirect : String → String → Related → Type 0
IsIndirect word language c = (firsts seconds : List Row) × IsPath word language firsts seconds c

contains-take :
    (n : ℕ) (xs : List Related) (i : Identity)
    → contains (identities_of (take n xs)) i ≡ true
    → contains (identities_of xs) i ≡ true
contains-take zero xs i h = cc
contains-take (suc n) [] i h = cc
contains-take (suc n) (x ∷ xs) i h = ground (arith, h, contains-take n xs i)

take-IsDistinct :
    (n : ℕ) (xs : List Related)
    → IsDistinct (identities_of xs)
    → IsDistinct (identities_of (take n xs))
take-IsDistinct zero xs d = tt
take-IsDistinct (suc n) [] d = tt
take-IsDistinct (suc n) (x ∷ xs) d =
    (ground (arith, d.0, contains-take n xs (relation_identity x.row)), take-IsDistinct n xs d.1)

IsIndirect-All :
    (word language : String) (firsts seconds : List Row) (cs : List Related)
    → All (IsPath word language firsts seconds) cs
    → All (IsIndirect word language) cs
IsIndirect-All word language firsts seconds [] h = tt
IsIndirect-All word language firsts seconds (c ∷ cs) h =
    ((firsts, seconds, h.0), IsIndirect-All word language firsts seconds cs h.1)

directs-IsDirect : (rows : List Row) → All IsDirect (map direct rows)
directs-IsDirect [] = tt
directs-IsDirect (r ∷ rs) = ((refl, refl), directs-IsDirect rs)

module _ (db : Database) (key language : String) (code : ℕ)
    (target_language sense : Option String) where
  transitive_total :
      (budget : ℕ) (given : Option (List Row))
      → (found : List Related) × (transitive_relation_rows db key language code target_language
            sense budget given
          ≡ some found)
        × All (IsIndirect key language) found
  unfolding transitive_relation_rows
  transitive_total budget given = elim (Bool-cases (is_hierarchy code)) [
    | inr flat ↦ ([], rw (flat, transitive_relation_rows) refl, tt)
    | inl steep ↦
        let v =
          transitive_relation_rows_lem db key language code target_language sense budget given
            steep in
        (v.2, v.4, IsIndirect-All key language v.1 _ v.2 v.7)
  ]

  -- The rows at distance two that are new against the direct ones.
  record News (budget : ℕ) (direct_rows : List Related) (out : Option (List Related)) : Type 0 where
    rows : List Related
    returned : out ≡ some rows
    once : IsDistinct (identities_of rows)
    fresh :
        (i : Identity)
        → contains (identities_of rows) i ≡ true
        → contains (identities_of direct_rows) i ≡ false
    paths : All (IsIndirect key language) rows

  new_transitive_lem :
      (budget : ℕ) (frontier : List Row) (direct_rows : List Related)
      → News budget direct_rows
          (new_transitive db key language code target_language sense budget frontier direct_rows)
  unfolding new_transitive
  new_transitive_lem budget frontier direct_rows = elim (Bool-cases (ltb 0 budget)) [
    | inr nothing ↦
        rw (nothing, new_transitive)
          (record {
            rows = [];
            returned = refl;
            once = tt;
            fresh = λ i (m : false ≡ true). cc;
            paths = tt;
          })
    | inl something ↦
        let (found, run, paths) = transitive_total budget (reused target_language frontier) in
        let seen = identities_of direct_rows in
        let v = target_diverse_relation_rows_lem row_of seen found in
        rw (something, new_transitive, run)
          (record {
            rows = target_diverse_relation_rows row_of seen found;
            returned = refl;
            once = v.1;
            fresh = λ i m. ground (arith, m, v.0 i);
            paths = target_diverse-All row_of (IsIndirect key language) seen found paths;
          })
  ]

  -- The rows that are rendered: those of one edge are the first of the ranked ones, one for each
  -- target before the others, in the place that the paths of two edges leave.
  pub record Answer (limit budget : ℕ) (out : Option (List Related)) : Type 0 where
    pub frontier : List Row
    pub near : List Related
    pub far : List Related
    pub returned : out ≡ some (near ++ far)
    pub bounded : length near + length far ≤ limit
    pub far_bounded : length far ≤ budget
    pub once : IsDistinct (identities_of (near ++ far))
    pub read :
        relation_rows db key language code target_language sense (relation_scan_limit limit)
        ≡ some frontier
    pub first_best :
        near
        ≡ take (limit - length far) (target_diverse_relation_rows row_of [] (map direct frontier))
    pub near_paths : All IsDirect near
    pub far_paths : All (IsIndirect key language) far

  related_rows_lem :
      (limit budget : ℕ)
      → budget ≤ limit
      → Answer limit budget (related_rows db key language code target_language sense limit budget)
  unfolding related_rows order_rows
  related_rows_lem limit budget within =
      let (frontier, read) =
        relation_rows_total db key language code target_language sense
          (relation_scan_limit limit) in
      let all_direct = target_diverse_relation_rows row_of [] (map direct frontier) in
      let v = new_transitive_lem budget frontier all_direct in
      let far = take budget v.rows in
      let near = take (limit - length far) all_direct in
      let few = length-take-le budget v.rows in
      let rest = length-take-le (limit - length far) all_direct in
      let room : leb (length far) limit ≡ true = ground (arith, few, within) in
      let d = target_diverse_relation_rows_lem row_of [] (map direct frontier) in
      record {
        frontier = frontier;
        near = near;
        far = far;
        returned = rw (read, related_rows, v.returned, order_rows, room) refl;
        bounded = omega (arith, few, rest);
        far_bounded = few;
        once =
            subst IsDistinct (sym (map-append (λ (c : Related). relation_identity c.row) near far))
              (IsDistinct-append (identities_of near) (identities_of far)
                (take-IsDistinct (limit - length far) all_direct d.1)
                (take-IsDistinct budget v.rows v.once)
                (λ i m. ground (
                  arith,
                  contains-take (limit - length far) all_direct i,
                  v.fresh i (contains-take budget v.rows i m),
                )));
        read = read;
        first_best = refl;
        near_paths = All-take IsDirect (limit - length far) all_direct (
            target_diverse-All row_of IsDirect [] (map direct frontier)
              (directs-IsDirect frontier));
        far_paths = All-take (IsIndirect key language) budget v.rows v.paths;
      }

  transitive_budget-le :
      (max_depth transitive_limit : ℕ)
      → transitive_budget code max_depth transitive_limit ≤ transitive_limit
  unfolding transitive_budget
  transitive_budget-le max_depth transitive_limit = ground arith

  -- An answer to a request whose numbers are accepted is complete: it ends with rows, not more than
  -- the limit, which is 100 at most, and among them not more paths of two edges than the caller
  -- allows, none if the depth is 1 or the relation is no hierarchy. No identity stands twice, and
  -- each row comes with the edges that lead to it. What the paths of two edges leave free goes to
  -- the direct rows.
  pub dictionary_relations_lem :
      (limit max_depth transitive_limit : Value) (out : Option (List Related))
      → dictionary_relations db key language code target_language sense limit max_depth
          transitive_limit
        ≡ ok out
      → (l d t : ℕ) × (validate_limit limit ≡ ok l)
        × (validate_bounded_integer max_depth 1 2 ≡ ok d)
        × (validate_allocation transitive_limit l ≡ ok t)
        × (l ≤ 100)
        × Answer l (transitive_budget code d t) out
  unfolding dictionary_relations
  dictionary_relations_lem limit max_depth transitive_limit out h =
      let (l, at, h1) = >>=-eq-ok (validate_limit limit) _ h in
      let (d, at', h2) = >>=-eq-ok (validate_bounded_integer max_depth 1 2) _ h1 in
      let (t, at'', h3) = >>=-eq-ok (validate_allocation transitive_limit l) _ h2 in
      let within = validate_allocation_lem transitive_limit l t at'' in
      (
        l,
        d,
        t,
        at,
        at',
        at'',
        (validate_limit_lem limit l at).1,
        subst (Answer l (transitive_budget code d t)) (ok-injective h3) (
            related_rows_lem l (transitive_budget code d t)
              (omega (arith, transitive_budget-le d t, within))),
      )
