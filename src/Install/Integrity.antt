-- ===== src/Install/Integrity.antt =====
-- What the store holds after a component is adopted, and after all that were missing are.
use lexicon_mcp.Prelude.{
  String, Bool, true, false, List, [], ◌∷◌, Option, ◌≡◌, ap, subst, string_eq, lookup,
  lookup-insert, Result, ok, if◌then◌else◌, arith, Bool-cases, inl, inr, Result-cases, OnOk, eq_iff,
}
use lexicon_mcp.Codec.{Codec}
use lexicon_mcp.Manifest.{Component, DatasetManifest, component}
use lexicon_mcp.Activation.{ActivationComponent}
use lexicon_mcp.Store.{Entry, Store, regular, is_file, path_for, verify, adopt}
use lexicon_mcp.Store.Adopt.{adopt-Adopted}
use lexicon_mcp.Install.{Root}
use lexicon_mcp.Install.Exec.{>>=-eq-ok as bind-eq-ok, continue-eq-ok}
use lexicon_mcp.Install.Write.{missing_components, adopt_in, fetch_each}

module _ (K : Codec) where
  open K use {Bytes, sha256}

  abbrev pub Verifies : Store Bytes → String → Type 0
  Verifies s d = verify K s d ≡ ok true

  -- What stands at the digest, if it is a file, is the component.
  abbrev pub Undamaged : Store Bytes → String → Type 0
  Undamaged s d = is_file (lookup d s.objects) ≡ true → Verifies s d

  abbrev pub AllVerify : Store Bytes → List ActivationComponent → Type 0
  AllVerify s [] = Unit
  AllVerify s (c ∷ cs) = Verifies s c.sha256 × AllVerify s cs

  abbrev pub AllUndamaged : Store Bytes → List ActivationComponent → Type 0
  AllUndamaged s [] = Unit
  AllUndamaged s (c ∷ cs) = Undamaged s c.sha256 × AllUndamaged s cs

  adopt-Verifies :
      (s : Store Bytes) (staged : Option (Entry Bytes)) (d j : String) (t : Store Bytes)
      → adopt K s staged d ≡ ok t
      → Verifies s j
      → Verifies t j
  unfolding verify path_for
  adopt-Verifies s staged d j t h k =
      let a = adopt-Adopted K s staged d t h in
      ground (
        arith,
        a.admitted,
        a.hashed,
        a.readable,
        lookup-insert d j (regular a.file) s.objects,
        eq_iff d j,
        eq_iff (sha256 a.file.content) j,
      )

  adopt_self :
      (s : Store Bytes) (staged : Option (Entry Bytes)) (d : String) (t : Store Bytes)
      → adopt K s staged d ≡ ok t
      → Undamaged s d
      → Verifies t d
  unfolding verify path_for
  adopt_self s staged d t h k =
      let a = adopt-Adopted K s staged d t h in
      elim (Bool-cases (is_file (lookup d s.objects))) [
        | inl there ↦ adopt-Verifies s staged d d t h (k there)
        | inr absent ↦ ground (
          arith,
          a.admitted,
          a.hashed,
          a.readable,
          a.valid,
          lookup-insert d d (regular a.file) s.objects,
          eq_iff d d,
          eq_iff (sha256 a.file.content) d,
        )
      ]

  adopt-Undamaged :
      (s : Store Bytes) (staged : Option (Entry Bytes)) (d j : String) (t : Store Bytes)
      → adopt K s staged d ≡ ok t
      → Undamaged s j
      → Undamaged t j
  unfolding verify path_for
  adopt-Undamaged s staged d j t h k there =
      let a = adopt-Adopted K s staged d t h in
      ground (
        arith,
        a.admitted,
        a.hashed,
        a.readable,
        a.valid,
        lookup-insert d j (regular a.file) s.objects,
        eq_iff d j,
        eq_iff (sha256 a.file.content) j,
      )

  AllUndamaged-adopt :
      (s : Store Bytes) (staged : Option (Entry Bytes)) (d : String) (t : Store Bytes)
      (cs : List ActivationComponent)
      → adopt K s staged d ≡ ok t
      → AllUndamaged s cs
      → AllUndamaged t cs
  AllUndamaged-adopt s staged d t [] h k = tt
  AllUndamaged-adopt s staged d t (c ∷ cs) h k =
      (adopt-Undamaged s staged d c.sha256 t h k.0, AllUndamaged-adopt s staged d t cs h k.1)

  pub AllUndamaged-missing :
      (s : Store Bytes) (cs missing : List ActivationComponent)
      → missing_components K s cs ≡ ok missing
      → AllUndamaged s cs
      → AllUndamaged s missing
  unfolding missing_components
  AllUndamaged-missing s [] missing h k = subst (OnOk (AllUndamaged s)) h tt
  AllUndamaged-missing s (c ∷ cs) missing h k = elim (Result-cases (verify K s c.sha256)) [
    | inr (e, bad) ↦ absurd (ground (arith, bad))
    | inl (intact, found) ↦ elim (Result-cases (missing_components K s cs)) [
      | inr (e, bad) ↦ absurd (ground (arith, found, bad))
      | inl (rest, more) ↦
          let h' : ok (if intact then rest else c ∷ rest) ≡ ok missing =
            ground (arith, found, more) in
          let k' = AllUndamaged-missing s cs rest more k.1 in
          subst (OnOk (AllUndamaged s)) h'
            (elim intact as (λ b. AllUndamaged s (if b then rest else c ∷ rest)) [
              | true ↦ k'
              | false ↦ (k.0, k')
            ])
    ]
  ]

  AllVerify-cons :
      (s t : Store Bytes) (c : ActivationComponent) (cs rest : List ActivationComponent)
      (intact : Bool)
      → verify K s c.sha256 ≡ ok intact
      → ((d : String) → Verifies s d → Verifies t d)
      → AllVerify t (if intact then rest else c ∷ rest)
      → (AllVerify t rest → AllVerify t cs)
      → AllVerify t (c ∷ cs)
  AllVerify-cons s t c cs rest true e mono k more = (mono c.sha256 e, more k)
  AllVerify-cons s t c cs rest false e mono k more = (k.0, more k.1)

  pub adopt_in_ok :
      (staged : Option (Entry Bytes)) (d : String) (r u : Root Bytes)
      → adopt_in K staged d r ≡ (ok tt, u)
      → (s : Store Bytes) × (adopt K r.store staged d ≡ ok s) × (record r { store = s } ≡ u)
  unfolding adopt_in
  adopt_in_ok staged d r u h = elim (Result-cases (adopt K r.store staged d)) [
    | inr (e, bad) ↦ absurd (ground (arith, bad))
    | inl (s, good) ↦ (s, good, ap (λ q. q.1) (rw (good, adopt_in) at h))
  ]

  -- What verified before or was missing and has been made good verifies.
  pub AllVerify-of_missing :
      (s t : Store Bytes) (cs missing : List ActivationComponent)
      → missing_components K s cs ≡ ok missing
      → ((d : String) → Verifies s d → Verifies t d)
      → AllVerify t missing
      → AllVerify t cs
  unfolding missing_components
  AllVerify-of_missing s t [] missing h mono k = tt
  AllVerify-of_missing s t (c ∷ cs) missing h mono k = elim (Result-cases (verify K s c.sha256)) [
    | inr (e, bad) ↦ absurd (ground (arith, bad))
    | inl (intact, found) ↦ elim (Result-cases (missing_components K s cs)) [
      | inr (e, bad) ↦ absurd (ground (arith, found, bad))
      | inl (rest, more) ↦
          let h' : ok missing ≡ ok (if intact then rest else c ∷ rest) =
            ground (arith, found, more) in
          let k' = subst (OnOk (AllVerify t)) h' k in
          AllVerify-cons s t c cs rest intact found mono k'
            (AllVerify-of_missing s t cs rest more mono)
    ]
  ]

  pub fetch_each_good :
      (fetch : Component → Result (Option (Entry Bytes))) (m : DatasetManifest Bytes)
      (cs : List ActivationComponent) (r t : Root Bytes) (fetched : List String)
      → fetch_each K fetch m cs r ≡ (ok fetched, t)
      → AllUndamaged r.store cs
      → AllVerify t.store cs × ((d : String) → Verifies r.store d → Verifies t.store d)
  unfolding fetch_each adopt_in
  fetch_each_good fetch m [] r t fetched h k =
      (tt, λ d v. subst (λ (q : Root Bytes). Verifies q.store d) (ap (λ q. q.1) h) v)
  fetch_each_good fetch m (c ∷ cs) r t fetched h k =
      let (wanted, _, h1) = continue-eq-ok (component m c.id) _ r h in
      let (staged, _, h2) = continue-eq-ok (fetch wanted) _ r h1 in
      let (_, u, h3, h4) = bind-eq-ok (adopt_in K staged c.sha256) _ r h2 in
      let (s, stored, at) = adopt_in_ok staged c.sha256 r u h3 in
      let (rest, v, h5, h6) = bind-eq-ok (fetch_each K fetch m cs) _ u h4 in
      let good : Verifies s c.sha256 = adopt_self r.store staged c.sha256 s stored k.0 in
      let at' : s ≡ u.store = ap (λ (q : Root Bytes). q.store) at in
      let k' : AllUndamaged u.store cs =
        subst (λ s'. AllUndamaged s' cs) at'
          (AllUndamaged-adopt r.store staged c.sha256 s cs stored k.1) in
      let (all, mono) = fetch_each_good fetch m cs u v rest h5 k' in
      let same : v.store ≡ t.store = ap (λ q. q.1.store) h6 in
      subst
        (λ s'.
          (Verifies s' c.sha256 × AllVerify s' cs)
          × ((d : String) → Verifies r.store d → Verifies s' d))
        same
        (
          (mono c.sha256 (subst (λ s'. Verifies s' c.sha256) at' good), all),
          λ d w. mono d (
              subst (λ s'. Verifies s' d) at'
                (adopt-Verifies r.store staged c.sha256 d s stored w)),
        )
