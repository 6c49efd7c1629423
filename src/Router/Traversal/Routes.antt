-- ===== src/Router/Traversal/Routes.antt =====
-- The loop over the languages of a frontier: which nodes are asked for, and what is reported.
use mathlib.Core.List.{append_assoc, append-nil, Perm, map-append, perm_middle, perm_append_comm}
use mathlib.Core.List.Perm
use lexicon_mcp.Prelude.{
  ℕ, String, true, false, not, List, [], ◌∷◌, ◌++◌, map, filter, ◌==◌, nat_eq, string_eq, contains,
  IsDistinct, IsDistinct-apart, IsDistinct-perm, All, All-imp, All-snoc, beq_refl, Result, ok, OnOk,
  ◌≡◌, refl, ap, sym, ◌∙◌, subst, arith, Bool-cases, inl, inr,
}
use lexicon_mcp.Activation.{Activation}
use lexicon_mcp.Store.{Store}
use lexicon_mcp.Install.Exec.{>>=-eq-ok}
use lexicon_mcp.Router.{Availability, LanguageCoverage, Connections, connection_for, availability}
use lexicon_mcp.Router.Traversal.{
  FrontierNode, Unexpanded, Routed, unexpanded_languages, extend, report, route_to, route_all,
}
use lexicon_mcp.Router.Traversal.Nodes.{kept}
use lexicon_mcp.Router.Traversal.Served.{
  served, Explained, connection_for_lem, availability-coverage, availability_lem,
}

-- The nodes of all packs.
abbrev pub asked_nodes : List (ℕ × List FrontierNode) → List FrontierNode
asked_nodes = kept (λ h. true)

asked_nodes-extend :
    (h : ℕ) (ns : List FrontierNode) (packs : List (ℕ × List FrontierNode))
    → Perm (asked_nodes (extend h ns packs)) (asked_nodes packs ++ ns)
unfolding extend
asked_nodes-extend h ns [] = subst (λ l. Perm l ns) (sym (append-nil ns)) Perm.rfl
asked_nodes-extend h ns ((j, b) ∷ packs) =
    let rest = asked_nodes packs in
    elim (Bool-cases (j == h)) [
      | inl same ↦
          rw (same, extend)
            (subst (λ l. Perm l ((b ++ rest) ++ ns)) (sym (append_assoc b ns rest))
              (subst (Perm (b ++ (ns ++ rest))) (sym (append_assoc b rest ns))
                (Perm.append_left b (perm_append_comm ns rest))))
      | inr other ↦
          rw (other, extend)
            (subst (Perm (b ++ asked_nodes (extend h ns packs))) (sym (append_assoc b rest ns))
              (Perm.append_left b (asked_nodes-extend h ns packs)))
    ]

abbrev pub group_languages : List (String × List FrontierNode) → List String
group_languages = map (λ b. b.0)

abbrev reporting : Routed → String → Availability → Routed
reporting found language reason = record found {
  unexpanded = found.unexpanded ++ record { language = language; reason = reason } ∷ [];
}

reported_languages :
    (found : Routed) (language : String) (reason : Availability) (ls : List String)
    → unexpanded_languages (reporting found language reason).unexpanded ++ ls
      ≡ unexpanded_languages found.unexpanded ++ language ∷ ls
reported_languages found language reason ls =
    let known = unexpanded_languages found.unexpanded in
    ap (λ l. l ++ ls) (map-append (λ u. u.language) found.unexpanded _)
    ∙ append_assoc known (language ∷ []) ls

module _ {B : Type 0} (activation : Activation) (store : Store B) (limit : ℕ)
    (connects : String → Result (Unit {0})) (catalogue : ℕ → Result (List LanguageCoverage)) where
  abbrev pub Reported : Connections → Unexpanded → Type 0
  Reported t u = Explained activation store limit connects catalogue u.language u.reason t

  -- What the loop adds to what was found before it.
  pub record Added (groups : List (String × List FrontierNode)) (found r : Routed) (t : Connections)
      : Type 0 where
    pub asked :
        Perm (asked_nodes r.packs) (asked_nodes found.packs ++ kept (served activation) groups)
    pub left_out :
        unexpanded_languages r.unexpanded
        ≡ unexpanded_languages found.unexpanded
          ++ filter (λ l. not (served activation l)) (group_languages groups)
    pub reported : All (Reported t) r.unexpanded

  -- The loop after a step that returned.
  resumed :
      (groups : List (String × List FrontierNode)) (made next r : Routed) (s s' t : Connections)
      → Path (Result Routed × Connections) (ok made, s) (ok next, s')
      → route_all activation store limit connects catalogue groups next s' ≡ (ok r, t)
      → route_all activation store limit connects catalogue groups made s ≡ (ok r, t)
  resumed groups made next r s s' t went e =
      subst
        (λ (q : Result Routed × Connections).
          OnOk (λ x. route_all activation store limit connects catalogue groups x q.1 ≡ (ok r, t))
            q.0)
        (sym went) e

  served_step :
      (language : String) (nodes : List FrontierNode) (groups : List (String × List FrontierNode))
      (found r : Routed) (s t : Connections) (h : ℕ)
      → served activation language ≡ true
      → Added groups (record found { packs = extend h nodes found.packs }) r t
      → Added ((language, nodes) ∷ groups) found r t
  served_step language nodes groups found r s t h serves a =
      let later = kept (served activation) groups in
      record {
        asked = rw serves (
            Perm.trans a.asked (
              subst (Perm (asked_nodes (extend h nodes found.packs) ++ later))
                (append_assoc (asked_nodes found.packs) nodes later)
                (Perm.append_right later (asked_nodes-extend h nodes found.packs))));
        left_out = a.left_out ∙ rw serves refl;
        reported = a.reported;
      }

  missing_step :
      (language : String) (nodes : List FrontierNode) (groups : List (String × List FrontierNode))
      (found r : Routed) (t : Connections) (reason : Availability)
      → served activation language ≡ false
      → Added groups (reporting found language reason) r t
      → Added ((language, nodes) ∷ groups) found r t
  missing_step language nodes groups found r t reason missing a = record {
    asked = rw missing a.asked;
    left_out = rw missing (a.left_out ∙ reported_languages found language reason _);
    reported = a.reported;
  }

  pub route_all_lem :
      (groups : List (String × List FrontierNode)) (found r : Routed) (s t : Connections)
      → IsDistinct (unexpanded_languages found.unexpanded ++ group_languages groups)
      → All (Reported s) found.unexpanded
      → route_all activation store limit connects catalogue groups found s ≡ (ok r, t)
      → Added groups found r t
  unfolding route_all
  route_all_lem [] found r s t d h e =
      subst (λ (q : Result Routed × Connections). OnOk (λ x. Added [] found x q.1) q.0) e
        (record {
          asked =
              subst (Perm (asked_nodes found.packs)) (sym (append-nil (asked_nodes found.packs)))
                Perm.rfl;
          left_out = sym (append-nil (unexpanded_languages found.unexpanded));
          reported = h;
        })
  route_all_lem ((language, nodes) ∷ groups) found r s t d h e =
      let (connection, s1, routed, e1) =
        >>=-eq-ok (connection_for activation store limit connects catalogue "lexical" language) _ s
          e in
      let (next, s2, went, e2) =
        >>=-eq-ok
          (route_to activation store limit connects catalogue connection language nodes found) _ s1
          e1 in
      let (kept_1, tag, normal, how) =
        connection_for_lem activation store limit connects catalogue language s s1 connection
          routed in
      let h1 : All (Reported s1) found.unexpanded =
        All-imp (Reported s) (Reported s1) (λ u x. (x.0, x.1, x.2, kept_1 ∙ x.3, x.4))
          found.unexpanded h in
      elim how [
        | inr (c, there, serves) ↦ served_step language nodes groups found r s1 t c serves (
            route_all_lem groups (record found { packs = extend c nodes found.packs }) r s1 t
              (IsDistinct-perm
                (perm_middle (unexpanded_languages found.unexpanded) (group_languages groups)) d).1
              h1 (resumed groups _ next r s1 s2 t (rw (there, route_to) at went) e2))
        | inl (absent, nothing) ↦
            let known = unexpanded_languages found.unexpanded in
            let new : contains known language ≡ false = ground (
              arith,
              IsDistinct-apart known (language ∷ group_languages groups) language d,
              beq_refl language,
            ) in
            let (v, s3, why, e3) =
              >>=-eq-ok (availability activation store limit connects catalogue "lexical" language)
                _ s1 (rw (absent, new, report) at went) in
            let found' = reporting found language v.reason in
            let h3 : All (Reported s3) found.unexpanded =
              All-imp (Reported s1) (Reported s3)
                (λ u x. (
                  x.0,
                  x.1,
                  x.2,
                  availability-coverage activation store limit connects catalogue language tag s1 s3
                      x.2 v normal x.3 why,
                  x.4,
                ))
                found.unexpanded h1 in
            missing_step language nodes groups found r t v.reason (rw (normal, nothing) refl) (
              route_all_lem groups found' r s3 t
                (subst IsDistinct
                  (sym (reported_languages found language v.reason (group_languages groups))) d)
                (All-snoc (Reported s3) found.unexpanded _ h3 (
                  availability_lem activation store limit connects catalogue language tag s1 s3 v
                    normal nothing why))
                (resumed groups _ next r s3 s2 t e3 e2))
      ]
