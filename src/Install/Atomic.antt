-- ===== src/Install/Atomic.antt =====
-- Installing ends in one write of the pointer: a failure leaves what is active as it was.
use lexicon_mcp.Prelude.{
  String, Bool, true, false, List, [], ◌∷◌, Option, none, some, ◌≡◌, refl, ◌==◌, string_eq, Result,
  ok, err, lock_busy, lifecycle_error, Error, require, raise_if, not, ◌&&◌, if◌then◌else◌, ap, sym,
  subst, ◌∙◌, sum_by, arith, inl, inr, Result-cases,
}
use lexicon_mcp.Codec.{Codec}
use lexicon_mcp.Manifest.{Component, DatasetManifest, component}
use lexicon_mcp.Selection.{Selection, resolve}
use lexicon_mcp.Activation.{ActivationComponent, Activation}
use lexicon_mcp.Activation.Build.{build_activation}
use lexicon_mcp.Store.{Entry, adopt}
use lexicon_mcp.Install.{Root, active_id, active_activation}
use lexicon_mcp.Install.Exec.{Exec, pure, continue, lift, ◌>>=◌, ◌>>◌}
use lexicon_mcp.Install.Write.{
  InstallReport, write_pointer, write_activation, retain_manifest, enough, report_of, preflight,
  missing_components, adopt_in, fetch_each, apply_activation, apply, install, amend_active, amend,
  amended, or_default, is_empty, is_none,
}
use lexicon_mcp.Install.Unmoved.{Unmoved, UnmovedFrom, unmoved, StaysActive, active_of_Unmoved}
use lexicon_mcp.Install.Commit.{commit_fails}

-- Two states with the same pointer and the same records.
pub record SameActive {B : Type 0} (r t : Root B) : Type 0 where
  pub pointer : t.pointer ≡ r.pointer
  pub records : t.activation_files ≡ r.activation_files

module _ (K : Codec) (fetch : Component → Result (Option (Entry K.Bytes))) where
  open K use {Bytes}

  pub fetch_each-SameActive :
      (m : DatasetManifest Bytes) (cs : List ActivationComponent) (r : Root Bytes)
      → SameActive r (fetch_each K fetch m cs r).1
  unfolding fetch_each adopt_in
  fetch_each-SameActive m [] r = record { pointer = refl; records = refl }
  fetch_each-SameActive m (c ∷ cs) r = elim (Result-cases (component m c.id)) [
    | inr (e, lost) ↦ rw (lost, fetch_each) (record { pointer = refl; records = refl })
    | inl (wanted, found) ↦ elim (Result-cases (fetch wanted)) [
      | inr (e, lost) ↦ rw (found, lost, fetch_each) (record { pointer = refl; records = refl })
      | inl (staged, got) ↦ elim (Result-cases (adopt K r.store staged c.sha256)) [
        | inr (e, bad) ↦ rw (found, got, bad, adopt_in) (record { pointer = refl; records = refl })
        | inl (s, good) ↦
            let h = fetch_each-SameActive m cs (record r { store = s }) in
            rw (found, got, good, adopt_in) (ground (arith, h.pointer, h.records))
      ]
    ]
  ]

  carried :
      (r s : Root Bytes) (e : Error) (t : Root Bytes)
      → SameActive r s
      → UnmovedFrom K s e t
      → UnmovedFrom K r e t
  carried r s e t k u =
      subst (λ f. Unmoved K r.pointer f e t) k.records
        (subst (λ p. Unmoved K p s.activation_files e t) k.pointer u)

  apply_activation_fails :
      (m : DatasetManifest Bytes) (a : Activation) (now : String) (r : Root Bytes) (e : Error)
      → (apply_activation K fetch m a now r).0 ≡ err e
      → UnmovedFrom K r e (apply_activation K fetch m a now r).1
  unfolding apply_activation preflight
  apply_activation_fails m a now r e h =
      elim (Result-cases (missing_components K r.store a.components)) [
        | inr (f, lost) ↦ rw (lost, apply_activation) (unmoved K r e)
        | inl (missing, found) ↦
            elim (Result-cases (enough (sum_by (λ c. c.size) missing) r.free)) [
              | inr (f, short) ↦ rw (found, short, apply_activation) (unmoved K r e)
              | inl (u, room) ↦
                  let k = fetch_each-SameActive m missing r in
                  let s = (fetch_each K fetch m missing r).1 in
                  elim (Result-cases (fetch_each K fetch m missing r).0) [
                    | inr (f, lost) ↦
                        rw (found, room, lost, apply_activation)
                          (record { same_pointer = k.pointer; records = inl k.records })
                    | inl (fetched, got) ↦ elim (Result-cases (active_id K s)) [
                      | inr (f, bad) ↦
                          rw (found, room, got, bad, apply_activation)
                            (record { same_pointer = k.pointer; records = inl k.records })
                      | inl (previous, was) ↦
                          let out = report_of K fetch a previous fetched in
                          let same : apply_activation K fetch m a now r
                              ≡ (retain_manifest K m
                                    >> (write_activation K a
                                        >> (write_pointer K a previous now >> pure out)))
                                  s =
                            rw (found, room, got, was, apply_activation) refl in
                          carried r s e (apply_activation K fetch m a now r).1 k (
                            subst (λ q. UnmovedFrom K s e q.1) (sym same)
                              (commit_fails K m a previous now out s e
                                (ap (λ q. q.0) (sym same) ∙ h)))
                    ]
                  ]
            ]
      ]

  locked_fails :
      {A : Type 0} (busy : Bool) (r : Root Bytes) (body : Result A × Root Bytes) (e : Error)
      → (body.0 ≡ err e → UnmovedFrom K r e body.1)
      → (if busy then (err lock_busy, r) else body).0 ≡ err e
      → UnmovedFrom K r e (if busy then (err lock_busy, r) else body).1
  locked_fails true r body e k h = unmoved K r e
  locked_fails false r body e k h = k h

  -- A step that reads or computes changes nothing; so what follows it decides.
  lift_fails :
      {A B : Type 0} (x : Result A) (f : A → Exec (Root Bytes) B) (r : Root Bytes) (e : Error)
      → ((a : A) → (f a r).0 ≡ err e → UnmovedFrom K r e (f a r).1)
      → (continue x f r).0 ≡ err e
      → UnmovedFrom K r e (continue x f r).1
  lift_fails (ok a) f r e k h = k a h
  lift_fails (err x) f r e k h = unmoved K r e

  apply_fails :
      (m : DatasetManifest Bytes) (s : Selection) (languages : Option (List String))
      (capabilities : List String) (now later : String) (r : Root Bytes) (e : Error)
      → (apply K fetch m s languages capabilities now later r).0 ≡ err e
      → UnmovedFrom K r e (apply K fetch m s languages capabilities now later r).1
  unfolding apply
  apply_fails m s languages capabilities now later r e h =
      lift_fails (build_activation K m s languages capabilities now) _ r e
        (λ a. locked_fails r.locked r _ e (apply_activation_fails m a later r e)) h

  install-Unmoved :
      (m : DatasetManifest Bytes) (languages : Option (List String)) (capabilities : List String)
      (strict : Bool) (now later : String) (r : Root Bytes) (e : Error)
      → (install K fetch m languages capabilities strict now later r).0 ≡ err e
      → UnmovedFrom K r e (install K fetch m languages capabilities strict now later r).1
  unfolding install
  install-Unmoved m languages capabilities strict now later r e h =
      lift_fails (resolve m languages capabilities strict) _ r e
        (λ s. apply_fails m s languages capabilities now later r e) h

  -- An install that fails, wherever it does, leaves the pointer as it was, every record that was
  -- there and, if it can be read, the active selection. The records are the same ones, unless it
  -- was the write of the pointer that the system refused: then the record that was written just
  -- before may be left, under a name that no record had.
  pub install_fails :
      (m : DatasetManifest Bytes) (languages : Option (List String)) (capabilities : List String)
      (strict : Bool) (now later : String) (r : Root Bytes) (e : Error)
      → (install K fetch m languages capabilities strict now later r).0 ≡ err e
      → UnmovedFrom K r e (install K fetch m languages capabilities strict now later r).1
        × StaysActive K r (install K fetch m languages capabilities strict now later r).1
  install_fails m languages capabilities strict now later r e h =
      let k = install-Unmoved m languages capabilities strict now later r e h in
      (k, active_of_Unmoved K r e _ k)

  amend_active-Unmoved :
      (m : DatasetManifest Bytes) (add remove : List String) (capabilities : Option (List String))
      (strict : Bool) (now later : String) (active : Option Activation) (r : Root Bytes) (e : Error)
      → (amend_active K fetch m add remove capabilities strict now later active r).0 ≡ err e
      → UnmovedFrom K r e
          (amend_active K fetch m add remove capabilities strict now later active r).1
  amend_active-Unmoved m add remove capabilities strict now later none r e h = unmoved K r e
  amend_active-Unmoved m add remove capabilities strict now later (some active) r e h =
      let wanted = or_default capabilities active.requested_capabilities in
      let current = amended active m.languages add remove in
      let last = λ (s : Selection). apply K fetch m s (some current) wanted now later in
      let resolving : Exec (Root Bytes) InstallReport =
        lift (resolve m (some current) wanted strict) >>= last in
      let nonempty : Result (Unit {0}) = raise_if (is_empty current) lifecycle_error in
      let widened : Result (Unit {0}) =
        raise_if (is_none active.requested_languages && not (is_empty add)) lifecycle_error in
      let matching : Result (Unit {0}) =
        require (m.sha256 == active.manifest_sha256) lifecycle_error in
      lift_fails matching (λ _. lift widened >> (lift nonempty >> resolving)) r e
        (λ _.
          lift_fails widened (λ _. lift nonempty >> resolving) r e
            (λ _.
              lift_fails nonempty (λ _. resolving) r e
                (λ _.
                  lift_fails (resolve m (some current) wanted strict) last r e
                    λ s. apply_fails m s (some current) wanted now later r e)))
        h

  -- Adding or removing languages, where it fails, leaves the pointer as it was, every record that
  -- was there and, if it can be read, the active selection. The records are the same ones, unless
  -- it was the write of the pointer that the system refused: then a new record may be left, under a
  -- name that no record had.
  pub amend_fails :
      (m : DatasetManifest Bytes) (add remove : List String) (capabilities : Option (List String))
      (strict : Bool) (now later : String) (r : Root Bytes) (e : Error)
      → (amend K fetch m add remove capabilities strict now later r).0 ≡ err e
      → UnmovedFrom K r e (amend K fetch m add remove capabilities strict now later r).1
        × StaysActive K r (amend K fetch m add remove capabilities strict now later r).1
  unfolding amend
  amend_fails m add remove capabilities strict now later r e h =
      let k =
        lift_fails (active_activation K r)
          (amend_active K fetch m add remove capabilities strict now later) r e
          (λ active. amend_active-Unmoved m add remove capabilities strict now later active r e)
          h in
      (k, active_of_Unmoved K r e _ k)
