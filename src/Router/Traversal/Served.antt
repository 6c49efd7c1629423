-- ===== src/Router/Traversal/Served.antt =====
-- What a step of the routing tells of a language, and that the catalogue stays once it is read.
use lexicon_mcp.Prelude.{
  ℕ, String, Bool, true, false, Option, none, some, List, Dict, lookup, Result, ok, err, ◌≡◌, refl,
  ap, sym, ◌∙◌, arith, Option-cases, inl, inr, ◌⊎◌,
}
use lexicon_mcp.Json.{str}
use lexicon_mcp.Manifest.Scalars.{normalize_language}
use lexicon_mcp.Activation.{ActivationComponent, Activation, component_for}
use lexicon_mcp.Store.{Store, open_path}
use lexicon_mcp.Install.Exec.{>>=-eq-ok, continue-eq-ok}
use lexicon_mcp.Router.{
  Availability, Answer, LanguageCoverage, Connections, answer, keep_open, connect, read_coverage,
  availability_of, availability, connection_to, connection_for, explain,
}
use lexicon_mcp.Router.Reasons.{Holds, availability_holds}

abbrev is_found : Result (Option ActivationComponent) → Bool
is_found (ok (some c)) = true
is_found (ok none) = false
is_found (err e) = false

abbrev served_tag : Activation → Result String → Bool
served_tag activation (ok tag) = is_found (component_for activation "lexical" tag)
served_tag activation (err e) = false

-- A pack of the activation serves the words of the language.
abbrev pub served : Activation → String → Bool
served activation language = served_tag activation (normalize_language (str language))

module _ {B : Type 0} (activation : Activation) (store : Store B) (limit : ℕ)
    (connects : String → Result (Unit {0})) (catalogue : ℕ → Result (List LanguageCoverage)) where
  connect-coverage :
      (c : ActivationComponent) (s t : Connections) (h : ℕ)
      → connect activation store limit connects catalogue c s ≡ (ok h, t)
      → t.coverage ≡ s.coverage
  unfolding connect keep_open
  connect-coverage c s t h e = elim (Option-cases (lookup c.sha256 s.opened)) [
    | inr (g, there) ↦ sym (ap (λ q. q.1.coverage) (rw (there, connect) at e))
    | inl absent ↦
        let (path, _, e1) =
          continue-eq-ok (open_path store c.sha256) _ s (rw (absent, connect) at e) in
        let (_, _, e2) = continue-eq-ok (connects path) _ s e1 in sym (ap (λ q. q.1.coverage) e2)
  ]

  -- The reason why a language is not expanded, by the catalogue that is held.
  abbrev pub Explained : String → Availability → Connections → Type 0
  Explained language reason t =
      (tag : String) × (normalize_language (str language) ≡ ok tag)
      × (d : Dict LanguageCoverage) × (t.coverage ≡ some d)
      × Holds activation store limit connects catalogue "lexical" tag d reason

  pub connection_for_lem :
      (language : String) (s t : Connections) (found : Option ℕ)
      → connection_for activation store limit connects catalogue "lexical" language s
        ≡ (ok found, t)
      → (t.coverage ≡ s.coverage)
        × (tag : String) × (normalize_language (str language) ≡ ok tag)
        × ((found ≡ none) × (component_for activation "lexical" tag ≡ ok none)
            ⊎ (h : ℕ) × (found ≡ some h) × (served activation language ≡ true))
  unfolding connection_for
  connection_for_lem language s t found e =
      let (tag, normal, e1) = continue-eq-ok (normalize_language (str language)) _ s e in
      let (c?, which, e2) = continue-eq-ok (component_for activation "lexical" tag) _ s e1 in
      elim (Option-cases c?) [
        | inl absent ↦
            let e3 = rw (absent, connection_to) at e2 in
            (
              sym (ap (λ q. q.1.coverage) e3),
              tag,
              normal,
              inl (ground (arith, e3), which ∙ ap ok absent),
            )
        | inr (c, there) ↦
            let (h, u, opened, e3) =
              >>=-eq-ok (connect activation store limit connects catalogue c) _ s
                (rw (there, connection_to) at e2) in
            (
              sym (ap (λ q. q.1.coverage) e3) ∙ connect-coverage c s u h opened,
              tag,
              normal,
              inr (h, ground (arith, e3), rw (normal, which, there) refl),
            )
      ]

  read_coverage-coverage :
      (s t : Connections) (d d' : Dict LanguageCoverage)
      → s.coverage ≡ some d
      → read_coverage activation store limit connects catalogue s ≡ (ok d', t)
      → t.coverage ≡ some d
  unfolding read_coverage
  read_coverage-coverage s t d d' there e =
      sym (ap (λ q. q.1.coverage) (rw (there, read_coverage) at e)) ∙ there

  pub availability-coverage :
      (language tag : String) (s t : Connections) (d : Dict LanguageCoverage) (v : Answer)
      → normalize_language (str language) ≡ ok tag
      → s.coverage ≡ some d
      → availability activation store limit connects catalogue "lexical" language s ≡ (ok v, t)
      → t.coverage ≡ some d
  unfolding availability
  availability-coverage language tag s t d v normal there e =
      let (found, at, e1) =
        continue-eq-ok (component_for activation "lexical" tag) _ s
          (rw (normal, availability) at e) in
      elim (Option-cases found) [
        | inr (c, some_c) ↦
            sym (ap (λ q. q.1.coverage) (rw (some_c, availability_of) at e1)) ∙ there
        | inl absent ↦
            let (d', u, read, e2) =
              >>=-eq-ok (read_coverage activation store limit connects catalogue) _ s
                (rw (absent, availability_of) at e1) in
            let (reason, why, e3) =
              continue-eq-ok
                (explain activation store limit connects catalogue "lexical" tag (lookup tag d')) _
                u e2 in
            sym (ap (λ q. q.1.coverage) e3) ∙ read_coverage-coverage s u d d' there read
      ]

  not_installed :
      (tag : String) (d : Dict LanguageCoverage) (reason : Availability)
      → component_for activation "lexical" tag ≡ ok none
      → Holds activation store limit connects catalogue "lexical" tag d reason
      → (answer "lexical" tag reason).installed ≡ false
  not_installed tag d Availability.installed absent h = absurd (ground (arith, absent, h.1))
  not_installed tag d Availability.language_not_installed absent h = refl
  not_installed tag d Availability.capability_not_installed absent h = refl
  not_installed tag d Availability.not_available_upstream absent h = refl
  not_installed tag d Availability.unknown_language absent h = refl

  pub availability_lem :
      (language tag : String) (s t : Connections) (v : Answer)
      → normalize_language (str language) ≡ ok tag
      → component_for activation "lexical" tag ≡ ok none
      → availability activation store limit connects catalogue "lexical" language s ≡ (ok v, t)
      → Explained language v.reason t
  availability_lem language tag s t v normal absent e =
      let (d, same, holds, held) =
        availability_holds activation store limit connects catalogue "lexical" language tag s t v
          normal e in
      elim held [
        | inr known ↦ (tag, normal, d, known, holds)
        | inl installed ↦ absurd (
            ground (
              arith,
              installed,
              ap (λ w. w.installed) same,
              not_installed tag d v.reason absent holds,
            ))
      ]
