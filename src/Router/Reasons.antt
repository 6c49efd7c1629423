-- ===== src/Router/Reasons.antt =====
-- `availability`: what each answer tells of the activation and of the corpus.
use lexicon_mcp.Prelude.{
  ℕ, String, true, false, List, [], Option, none, some, ◌==◌, string_eq, eq_iff, Dict, lookup,
  Result, ok, Result-cases, ◌≡◌, refl, ap, sym, ◌∙◌, subst, arith, Bool-cases, Option-cases, inl,
  inr, OnOk, ◌⊎◌,
}
use lexicon_mcp.Json.{str}
use lexicon_mcp.Manifest.Scalars.{normalize_language}
use lexicon_mcp.Activation.{ActivationComponent, Activation, component_for}
use lexicon_mcp.Store.{Store}
use lexicon_mcp.Install.Exec.{>>=-eq-ok, continue-eq-ok}
use lexicon_mcp.Router.{
  Availability, Answer, LanguageCoverage, Connections, offers, answer, load_coverage, read_coverage,
  without, explain, availability_of, availability,
}

module _ {B : Type 0} (activation : Activation) (store : Store B) (limit : ℕ)
    (connects : String → Result (Unit {0})) (catalogue : ℕ → Result (List LanguageCoverage)) where
  -- What has to hold for each reason, given the normalized tag and the catalogue that was read.
  abbrev pub Holds : String → String → Dict LanguageCoverage → Availability → Type 0
  Holds capability tag d Availability.installed =
      (c : ActivationComponent) × (component_for activation capability tag ≡ ok (some c))
  Holds capability tag d Availability.unknown_language =
      (component_for activation capability tag ≡ ok none) × (lookup tag d ≡ none)
  Holds capability tag d Availability.not_available_upstream =
      (component_for activation capability tag ≡ ok none)
      × (known : LanguageCoverage) × (lookup tag d ≡ some known)
      × (offers known capability ≡ false)
  Holds capability tag d Availability.language_not_installed =
      (component_for activation capability tag ≡ ok none)
      × (component_for activation "lexical" tag ≡ ok none)
      × (known : LanguageCoverage) × (lookup tag d ≡ some known)
      × (offers known capability ≡ true)
  Holds capability tag d Availability.capability_not_installed =
      (component_for activation capability tag ≡ ok none)
      × ((capability == "lexical") ≡ false)
      × (c : ActivationComponent) × (component_for activation "lexical" tag ≡ ok (some c))
      × (known : LanguageCoverage) × (lookup tag d ≡ some known)
      × (offers known capability ≡ true)

  -- An answer that names the capability and the tag and gives the reason that holds, by the
  -- catalogue that the router then has, unless the answer is that the language is installed.
  abbrev pub Told : String → String → Answer → Connections → Type 0
  Told capability tag v t =
      (d : Dict LanguageCoverage) × (v ≡ answer capability tag v.reason)
      × Holds capability tag d v.reason
      × ((v.installed ≡ true) ⊎ (t.coverage ≡ some d))

  read_coverage_lem :
      (s t : Connections) (d : Dict LanguageCoverage)
      → read_coverage activation store limit connects catalogue s ≡ (ok d, t)
      → t.coverage ≡ some d
  unfolding read_coverage
  read_coverage_lem s t d e = elim (Option-cases s.coverage) [
    | inr (known, there) ↦ ground (arith, there, e)
    | inl absent ↦
        let (read, u, _, e1) =
          >>=-eq-ok (load_coverage activation store limit connects catalogue) _ s
            (rw (absent, read_coverage) at e) in
        sym (ap (λ q. q.1.coverage) e1) ∙ ap some (ground (arith, e1))
  ]

  explain_lem :
      (capability tag : String) (d : Dict LanguageCoverage) (reason : Availability)
      → component_for activation capability tag ≡ ok none
      → explain activation store limit connects catalogue capability tag (lookup tag d) ≡ ok reason
      → Holds capability tag d reason
  explain_lem capability tag d reason absent e = elim (Option-cases (lookup tag d)) [
    | inl unknown ↦
        subst (OnOk (Holds capability tag d)) (rw (unknown, explain) at e) (absent, unknown)
    | inr (known, there) ↦ elim (Bool-cases (offers known capability)) [
      | inr nothing ↦
          subst (OnOk (Holds capability tag d)) (rw (there, nothing, explain) at e)
            (absent, known, there, nothing)
      | inl something ↦ elim (Result-cases (component_for activation "lexical" tag)) [
        | inr (x, bad) ↦ absurd (ground (arith, e, there, something, bad))
        | inl (lexical, found) ↦
            subst (OnOk (Holds capability tag d)) (rw (there, something, found, explain) at e)
              (without_lem capability tag d lexical absent found known there something)
      ]
    ]
  ]
    where
      without_lem :
          (capability tag : String) (d : Dict LanguageCoverage)
          (lexical : Option ActivationComponent)
          → component_for activation capability tag ≡ ok none
          → component_for activation "lexical" tag ≡ ok lexical
          → (known : LanguageCoverage) → lookup tag d ≡ some known
          → offers known capability ≡ true
          → Holds capability tag d (without activation store limit connects catalogue lexical)
      without_lem capability tag d none absent found known there offered =
          (absent, found, known, there, offered)
      without_lem capability tag d (some c) absent found known there offered = (
        absent,
        elim (Bool-cases (capability == "lexical")) [
          | inr other ↦ other
          | inl same ↦ absurd (
              ground (
                arith,
                found,
                absent,
                ap (λ k. component_for activation k tag) ((eq_iff capability "lexical").0 same),
              ))
        ],
        c,
        found,
        known,
        there,
        offered,
      )

  -- The answer for a well-formed tag names the capability and the normalized tag and gives the
  -- reason that holds: that a pack serves it; or else, by the catalogue that is then held, that
  -- the corpus does not have the language, or not this capability for it, or that it has it and
  -- the words of the language are not installed, or they are and this capability is not.
  pub availability_holds :
      (capability language tag : String) (s t : Connections) (v : Answer)
      → normalize_language (str language) ≡ ok tag
      → availability activation store limit connects catalogue capability language s ≡ (ok v, t)
      → Told capability tag v t
  unfolding availability
  availability_holds capability language tag s t v normal e =
      let (found, at, e1) =
        continue-eq-ok (component_for activation capability tag) _ s
          (rw (normal, availability) at e) in
      elim (Option-cases found) [
        | inr (c, there) ↦
            let e2 = ap (λ q. q.0) (rw (there, availability_of) at e1) in
            subst (OnOk λ w. Told capability tag w t) e2 ([], refl, (c, at ∙ ap ok there), inl refl)
        | inl absent ↦
            let none_here : component_for activation capability tag ≡ ok none = at ∙ ap ok absent in
            let (d, u, read, e2) =
              >>=-eq-ok (read_coverage activation store limit connects catalogue) _ s
                (rw (absent, availability_of) at e1) in
            let (reason, why, e3) =
              continue-eq-ok
                (explain activation store limit connects catalogue capability tag (lookup tag d)) _
                u e2 in
            subst (λ (q : Result Answer × Connections). OnOk (λ w. Told capability tag w q.1) q.0)
              e3
              (
                d,
                refl,
                explain_lem capability tag d reason none_here why,
                inr (read_coverage_lem s u d read),
              )
      ]
