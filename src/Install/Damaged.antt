-- ===== src/Install/Damaged.antt =====
-- What an install makes of a component that stands in the store and is damaged.
use lexicon_mcp.Prelude.{
  String, Bool, true, false, List, [], ◌∷◌, ◌++◌, map, Option, ◌≡◌, ap, sym, subst, ◌∙◌, string_eq,
  lookup, contains, beq_refl, Result, ok, arith, inl, inr, Result-cases, OnOk,
}
use lexicon_mcp.Codec.{Codec}
use lexicon_mcp.Manifest.{Component, DatasetManifest, component}
use lexicon_mcp.Selection.{Selection, resolve}
use lexicon_mcp.Activation.{ActivationComponent, Activation}
use lexicon_mcp.Activation.Build.{build_activation}
use lexicon_mcp.Store.{Entry, Store, is_file, path_for, verify}
use lexicon_mcp.Store.Adopt.{adopt-file}
use lexicon_mcp.Install.{Root}
use lexicon_mcp.Install.Exec.{>>=-eq-ok as bind-eq-ok, continue-eq-ok}
use lexicon_mcp.Install.Write.{InstallReport, missing_components, adopt_in, fetch_each, install}
use lexicon_mcp.Install.Success.{install_of}
use lexicon_mcp.Install.Integrity.{adopt_in_ok}

abbrev ids : List ActivationComponent → List String
ids = map (λ c. c.id)

module _ (K : Codec) where
  open K use {Bytes}

  verify_same :
      (s t : Store Bytes) (d : String)
      → lookup d t.objects ≡ lookup d s.objects
      → verify K t d ≡ verify K s d
  unfolding verify path_for
  verify_same s t d same = ground (arith, same)

  -- What is damaged is among the components to be fetched.
  missing_damaged :
      (s : Store Bytes) (before : List ActivationComponent) (c : ActivationComponent)
      (after missing : List ActivationComponent)
      → verify K s c.sha256 ≡ ok false
      → missing_components K s (before ++ c ∷ after) ≡ ok missing
      → contains (ids missing) c.id ≡ true
  unfolding missing_components
  missing_damaged s [] c after missing bad h = elim (Result-cases (missing_components K s after)) [
    | inr (e, lost) ↦ absurd (ground (arith, rw (bad, lost, missing_components) at h))
    | inl (rest, more) ↦
        subst (OnOk (λ l. contains (ids l) c.id ≡ true)) (rw (bad, more, missing_components) at h)
          (ground (arith, beq_refl c.id))
  ]
  missing_damaged s (b ∷ before) c after missing bad h = elim (Result-cases (verify K s b.sha256)) [
    | inr (e, lost) ↦ absurd (ground (arith, rw (lost, missing_components) at h))
    | inl (intact, found) ↦ elim (Result-cases (missing_components K s (before ++ c ∷ after))) [
      | inr (e, lost) ↦ absurd (ground (arith, rw (found, lost, missing_components) at h))
      | inl (rest, more) ↦
          let there = missing_damaged s before c after rest bad more in
          subst (OnOk (λ l. contains (ids l) c.id ≡ true))
            (rw (found, more, missing_components) at h) (ground (arith, there))
    ]
  ]

  module _ (fetch : Component → Result (Option (Entry Bytes))) (m : DatasetManifest Bytes) where
    -- Each component is reported, and the files of the store are as they were.
    fetch_each-files :
        (cs : List ActivationComponent) (r t : Root Bytes) (fetched : List String) (j : String)
        → is_file (lookup j r.store.objects) ≡ true
        → fetch_each K fetch m cs r ≡ (ok fetched, t)
        → (fetched ≡ ids cs) × (lookup j t.store.objects ≡ lookup j r.store.objects)
    unfolding fetch_each
    fetch_each-files [] r t fetched j present h =
        (ground (arith, h), sym (ap (λ q. lookup j q.1.store.objects) h))
    fetch_each-files (c ∷ cs) r t fetched j present h =
        let (wanted, _, h1) = continue-eq-ok (component m c.id) _ r h in
        let (staged, _, h2) = continue-eq-ok (fetch wanted) _ r h1 in
        let (_, u, h3, h4) = bind-eq-ok (adopt_in K staged c.sha256) _ r h2 in
        let (s, stored, at) = adopt_in_ok K staged c.sha256 r u h3 in
        let (rest, v, h5, h6) = bind-eq-ok (fetch_each K fetch m cs) _ u h4 in
        let first : lookup j u.store.objects ≡ lookup j r.store.objects =
          sym (ap (λ (q : Root Bytes). lookup j q.store.objects) at)
          ∙ adopt-file K r.store staged c.sha256 j s present stored in
        let (named, same) = fetch_each-files cs u v rest j (ap is_file first ∙ present) h5 in
        (ground (arith, h6, named), sym (ap (λ q. lookup j q.1.store.objects) h6) ∙ same ∙ first)

    -- A component of the selection that stands in the store as a file and does not verify is
    -- reported as fetched by an install that returns, and is as damaged as it was before.
    pub install_damaged :
        (languages : Option (List String)) (wanted : List String) (strict : Bool)
        (now later : String) (s : Selection) (a : Activation) (r t : Root Bytes)
        (report : InstallReport) (before : List ActivationComponent) (c : ActivationComponent)
        (after : List ActivationComponent)
        → resolve m languages wanted strict ≡ ok s
        → build_activation K m s languages wanted now ≡ ok a
        → a.components ≡ before ++ c ∷ after
        → is_file (lookup c.sha256 r.store.objects) ≡ true
        → verify K r.store c.sha256 ≡ ok false
        → install K fetch m languages wanted strict now later r ≡ (ok report, t)
        → (contains report.components_fetched c.id ≡ true)
          × (lookup c.sha256 t.store.objects ≡ lookup c.sha256 r.store.objects)
          × (verify K t.store c.sha256 ≡ ok false)
    install_damaged languages wanted strict now later s a r t report before c after resolved built
          chosen present bad installed =
        let x =
          install_of K fetch m languages wanted strict now later s a r t report resolved built
            installed in
        let (named, same) =
          fetch_each-files x.missing r x.between x.fetched c.sha256 present x.staged in
        let kept : lookup c.sha256 t.store.objects ≡ lookup c.sha256 r.store.objects =
          ap (λ (q : Store Bytes). lookup c.sha256 q.objects) x.store ∙ same in
        (
          ap (λ (q : InstallReport). contains q.components_fetched c.id) x.reported
              ∙ ap (λ l. contains l c.id) named
              ∙ missing_damaged r.store before c after x.missing bad
                  (ap (missing_components K r.store) (sym chosen) ∙ x.lacking),
          kept,
          verify_same r.store t.store c.sha256 kept ∙ bad,
        )
