-- ===== src/Router/Traversal/Alive.antt =====
-- Where a frontier has no more languages than connections may be open, none of the packs to be
-- asked is closed by the others.
use lexicon_mcp.Prelude.{
  ℕ, suc, ◌+◌, ◌≤◌, String, true, List, [], ◌∷◌, none, some, ◌==◌, string_eq, nat_eq, Option,
  length, contains, All, All-imp, Dict, lookup, Result, ok, OnOk, Result-cases, ◌≡◌, refl, ap,
  subst, arith, Bool-cases, Option-cases, inl, inr,
}
use lexicon_mcp.Json.{str}
use lexicon_mcp.Manifest.Scalars.{normalize_language}
use lexicon_mcp.Activation.{ActivationComponent, Activation, component_for}
use lexicon_mcp.Store.{Store}
use lexicon_mcp.Install.Exec.{>>=-eq-ok, continue-eq-ok}
use lexicon_mcp.Router.{
  Answer, LanguageCoverage, Connections, connect, core_component, load_coverage, read_coverage,
  availability_of, availability, connection_to, connection_for, explain,
}
use lexicon_mcp.Router.Queue.{IsSound}
use lexicon_mcp.Router.Cache.{connect-IsSound}
use lexicon_mcp.Router.Traversal.{
  FrontierNode, Routed, unexpanded_languages, extend, report, route_to, route_all,
}
use lexicon_mcp.Router.Traversal.Recent.{within, within_suc, connect_recent}

module _ {B : Type 0} (activation : Activation) (store : Store B) (limit : ℕ)
    (connects : String → Result (Unit {0})) (catalogue : ℕ → Result (List LanguageCoverage)) where
  -- A sound state in which what was among the last `n` is among the last `n + 1`.
  abbrev Kept : ℕ → Connections → Connections → Type 0
  Kept n s t =
      IsSound limit t × ((g : ℕ) → within n g s.opened ≡ true → within (suc n) g t.opened ≡ true)

  abbrev Answered : ℕ → Connections → Option ℕ → Connections → Type 0
  Answered n s none t = t ≡ s
  Answered n s (some h) t = Kept n s t × (within (suc n) h t.opened ≡ true)

  unmoved : (n : ℕ) (s : Connections) → IsSound limit s → Kept n s s
  unmoved n s v = (v, λ g m. within_suc n g s.opened m)

  connect-Kept :
      (n : ℕ) (c : ActivationComponent) (s t : Connections) (h : ℕ)
      → suc n ≤ limit
      → IsSound limit s
      → connect activation store limit connects catalogue c s ≡ (ok h, t)
      → Kept n s t
  connect-Kept n c s t h l v e = (
    connect-IsSound activation store limit connects catalogue c s t h v e,
    (connect_recent activation store limit connects catalogue n c s t h l v e).1,
  )

  connection_for-Answered :
      (n : ℕ) (language : String) (s t : Connections) (found : Option ℕ)
      → suc n ≤ limit
      → IsSound limit s
      → connection_for activation store limit connects catalogue "lexical" language s
        ≡ (ok found, t)
      → Answered n s found t
  unfolding connection_for
  connection_for-Answered n language s t found l v e =
      let (tag, normal, e1) = continue-eq-ok (normalize_language (str language)) _ s e in
      let (c?, which, e2) = continue-eq-ok (component_for activation "lexical" tag) _ s e1 in
      elim (Option-cases c?) [
        | inl absent ↦
            subst (λ (q : Result (Option ℕ) × Connections). OnOk (λ x. Answered n s x q.1) q.0)
              (rw (absent, connection_to) at e2) refl
        | inr (c, there) ↦
            let (h, u, opened, e3) =
              >>=-eq-ok (connect activation store limit connects catalogue c) _ s
                (rw (there, connection_to) at e2) in
            subst (λ (q : Result (Option ℕ) × Connections). OnOk (λ x. Answered n s x q.1) q.0) e3
              (
                connect-Kept n c s u h l v opened,
                (connect_recent activation store limit connects catalogue n c s u h l v opened).0,
              )
      ]

  catalogued :
      (n : ℕ) (s u : Connections) (d : Dict LanguageCoverage)
      → Kept n s u
      → Kept n s (record u { coverage = some d })
  catalogued n s u d k = (
    record {
      bounded = k.0.bounded;
      packs_once = k.0.packs_once;
      handles_once = k.0.handles_once;
      handles_made = k.0.handles_made;
    },
    k.1,
  )

  read_coverage-Kept :
      (n : ℕ) (s t : Connections) (d : Dict LanguageCoverage)
      → suc n ≤ limit
      → IsSound limit s
      → read_coverage activation store limit connects catalogue s ≡ (ok d, t)
      → Kept n s t
  unfolding read_coverage load_coverage
  read_coverage-Kept n s t d l v e = elim (Option-cases s.coverage) [
    | inr (known, there) ↦
        subst (λ (q : Result (Dict LanguageCoverage) × Connections). OnOk (λ x. Kept n s q.1) q.0)
          (rw (there, read_coverage) at e) (unmoved n s v)
    | inl absent ↦
        let (read, u, loaded, e1) =
          >>=-eq-ok (load_coverage activation store limit connects catalogue) _ s
            (rw (absent, read_coverage) at e) in
        let (core, _, e2) =
          continue-eq-ok (core_component activation store limit connects catalogue) _ s loaded in
        let (h, w, opened, e3) =
          >>=-eq-ok (connect activation store limit connects catalogue core) _ s e2 in
        let (rows, _, e4) = continue-eq-ok (catalogue h) _ w e3 in
        subst (Kept n s) (ap (λ q. q.1) e1) (
          catalogued n s u read
            (subst (Kept n s) (ap (λ q. q.1) e4) (connect-Kept n core s w h l v opened)))
  ]

  availability-Kept :
      (n : ℕ) (language : String) (s t : Connections) (a : Answer)
      → suc n ≤ limit
      → IsSound limit s
      → availability activation store limit connects catalogue "lexical" language s ≡ (ok a, t)
      → Kept n s t
  unfolding availability
  availability-Kept n language s t a l v e =
      elim (Result-cases (normalize_language (str language))) [
        | inr (x, bad) ↦
            subst (λ (q : Result Answer × Connections). OnOk (λ x. Kept n s q.1) q.0)
              (rw (bad, availability) at e) (unmoved n s v)
        | inl (tag, normal) ↦
            let (found, at, e1) =
              continue-eq-ok (component_for activation "lexical" tag) _ s
                (rw (normal, availability) at e) in
            elim (Option-cases found) [
              | inr (c, some_c) ↦
                  subst (λ (q : Result Answer × Connections). OnOk (λ x. Kept n s q.1) q.0)
                    (rw (some_c, availability_of) at e1) (unmoved n s v)
              | inl absent ↦
                  let (d, u, read, e2) =
                    >>=-eq-ok (read_coverage activation store limit connects catalogue) _ s
                      (rw (absent, availability_of) at e1) in
                  let (reason, why, e3) =
                    continue-eq-ok
                      (explain activation store limit connects catalogue "lexical" tag
                        (lookup tag d))
                      _ u e2 in
                  subst (λ (q : Result Answer × Connections). OnOk (λ x. Kept n s q.1) q.0) e3
                    (read_coverage-Kept n s u d l v read)
            ]
      ]

  -- The connections of the packs are among the last `n`.
  abbrev Recent : ℕ → List (ℕ × List FrontierNode) → Connections → Type 0
  Recent n packs s = All (λ b. within n b.0 s.opened ≡ true) packs

  extend-Recent :
      (n h : ℕ) (nodes : List FrontierNode) (packs : List (ℕ × List FrontierNode)) (s : Connections)
      → within n h s.opened ≡ true
      → Recent n packs s
      → Recent n (extend h nodes packs) s
  unfolding extend
  extend-Recent n h nodes [] s w r = (w, tt)
  extend-Recent n h nodes ((j, b) ∷ packs) s w r = elim (Bool-cases (j == h)) [
    | inl same ↦ rw (same, extend) r
    | inr other ↦ rw (other, extend) (r.0, extend-Recent n h nodes packs s w r.1)
  ]

  older :
      (n : ℕ) (packs : List (ℕ × List FrontierNode)) (s t : Connections)
      → Kept n s t
      → Recent n packs s
      → Recent (suc n) packs t
  older n packs s t k r =
      All-imp (λ b. within n b.0 s.opened ≡ true) (λ b. within (suc n) b.0 t.opened ≡ true)
        (λ b m. k.1 b.0 m) packs r

  abbrev Ready : ℕ → Routed → Connections → Type 0
  Ready n r t = IsSound limit t × Recent n r.packs t

  report-Ready :
      (n : ℕ) (language : String) (found r : Routed) (s t : Connections)
      → suc n ≤ limit
      → Ready n found s
      → report activation store limit connects catalogue language found s ≡ (ok r, t)
      → Ready (suc n) r t
  report-Ready n language found r s t l v e =
      elim (Bool-cases (contains (unexpanded_languages found.unexpanded) language)) [
        | inl seen ↦
            subst (λ (q : Result Routed × Connections). OnOk (λ x. Ready (suc n) x q.1) q.0)
              (rw (seen, report) at e) (v.0, older n found.packs s s (unmoved n s v.0) v.1)
        | inr new ↦
            let (a, u, why, e1) =
              >>=-eq-ok (availability activation store limit connects catalogue "lexical" language)
                _ s (rw (new, report) at e) in
            let k = availability-Kept n language s u a l v.0 why in
            subst (λ (q : Result Routed × Connections). OnOk (λ x. Ready (suc n) x q.1) q.0) e1
              (k.0, older n found.packs s u k v.1)
      ]

  route_to-Ready :
      (n : ℕ) (connection : Option ℕ) (language : String) (nodes : List FrontierNode)
      (found r : Routed) (s t : Connections)
      → suc n ≤ limit
      → Ready n found s
      → (u : Connections) → Answered n s connection u
      → route_to activation store limit connects catalogue connection language nodes found u
        ≡ (ok r, t)
      → Ready (suc n) r t
  route_to-Ready n (some h) language nodes found r s t l v u k e =
      subst (λ (q : Result Routed × Connections). OnOk (λ x. Ready (suc n) x q.1) q.0) e
        (k.0.0, extend-Recent (suc n) h nodes found.packs u k.1 (older n found.packs s u k.0 v.1))
  route_to-Ready n none language nodes found r s t l v u k e =
      report-Ready n language found r s t l v (
        subst (λ x. report activation store limit connects catalogue language found x ≡ (ok r, t)) k
          e)

  pub route_all-Ready :
      (groups : List (String × List FrontierNode)) (n : ℕ) (found r : Routed) (s t : Connections)
      → n + length groups ≤ limit
      → Ready n found s
      → route_all activation store limit connects catalogue groups found s ≡ (ok r, t)
      → Ready (n + length groups) r t
  unfolding route_all
  route_all-Ready [] n found r s t l v e =
      subst (λ (q : Result Routed × Connections). OnOk (λ x. Ready (n + 0) x q.1) q.0) e
        (subst (λ m. Ready m found s) (omega arith) v)
  route_all-Ready ((language, nodes) ∷ groups) n found r s t l v e =
      let (connection, u, routed, e1) =
        >>=-eq-ok (connection_for activation store limit connects catalogue "lexical" language) _ s
          e in
      let (next, w, went, e2) =
        >>=-eq-ok
          (route_to activation store limit connects catalogue connection language nodes found) _ u
          e1 in
      let room : suc n ≤ limit = omega (arith, l) in
      let next_ready : Ready (suc n) next w =
        route_to-Ready n connection language nodes found next s w room v u
          (connection_for-Answered n language s u connection room v.0 routed) went in
      subst (λ m. Ready m r t) (omega arith)
        (route_all-Ready groups (suc n) next r w t (omega (arith, l)) next_ready e2)
