-- ===== src/Install/Success.antt =====
-- What a successful install has done.
use lexicon_mcp.Prelude.{
  String, Bool, List, Option, none, some, ◌≡◌, subst, string_eq, Dict, insert, lookup, Result, ok,
  sum_by, arith,
}
use lexicon_mcp.Codec.{Codec}
use lexicon_mcp.Manifest.{Component, DatasetManifest}
use lexicon_mcp.Manifest.Scalars.{safe_identifier}
use lexicon_mcp.Selection.{Selection, resolve}
use lexicon_mcp.Activation.{ActivationComponent, Activation}
use lexicon_mcp.Activation.Build.{to_dict, build_activation}
use lexicon_mcp.Store.{Entry}
use lexicon_mcp.Install.{Root, active_id, activation_path, file_name}
use lexicon_mcp.Install.Exec.{pure, ◌>>◌, >>=-eq-ok, continue-eq-ok, unlocked}
use lexicon_mcp.Install.Write.{
  InstallReport, write_pointer, write_activation, retain_manifest, preflight, enough,
  missing_components, fetch_each, report_of, pointer_value, apply_activation, apply, install,
}

module _ (K : Codec) (fetch : Component → Result (Option (Entry K.Bytes))) where
  open K use {Bytes, dumps}

  -- The records behind `write_activation`: a record that is there is left alone.
  abbrev pub with_record : Activation → Root Bytes → Dict (Option Bytes)
  with_record a r = elim (lookup (file_name a.activation_id) r.activation_files) [
    | some old ↦ r.activation_files
    | none ↦ insert (file_name a.activation_id) (some (dumps (to_dict a))) r.activation_files
  ]

  pub record Applied (m : DatasetManifest Bytes) (a : Activation) (now : String) (r : Root Bytes)
      (report : InstallReport) (t : Root Bytes) : Type 0 where
    pub missing : List ActivationComponent
    pub lacking : missing_components K r.store a.components ≡ ok missing
    pub fetched : List String
    pub between : Root Bytes
    pub staged : fetch_each K fetch m missing r ≡ (ok fetched, between)
    pub previous : Option String
    pub was : active_id K between ≡ ok previous
    pub pointer : t.pointer ≡ some (dumps (pointer_value K a previous now))
    pub records : t.activation_files ≡ with_record a between
    pub store : t.store ≡ between.store
    pub reported : report ≡ report_of K fetch a previous fetched

  commit_lem :
      (m : DatasetManifest Bytes) (a : Activation) (previous : Option String)
      (fetched : List String) (now : String) (s t : Root Bytes) (report : InstallReport)
      → (retain_manifest K m
            >> (write_activation K a
                >> (write_pointer K a previous now >> pure (report_of K fetch a previous fetched))))
          s
        ≡ (ok report, t)
      → (t.pointer ≡ some (dumps (pointer_value K a previous now)))
        × (t.activation_files ≡ with_record a s)
        × (t.store ≡ s.store)
        × (report ≡ report_of K fetch a previous fetched)
  unfolding retain_manifest write_activation write_pointer activation_path safe_identifier
  commit_lem m a previous fetched now s t report h = ground arith

  pub apply_activation-Applied :
      (m : DatasetManifest Bytes) (a : Activation) (now : String) (r t : Root Bytes)
      (report : InstallReport)
      → apply_activation K fetch m a now r ≡ (ok report, t)
      → Applied m a now r report t
  unfolding apply_activation preflight
  apply_activation-Applied m a now r t report h =
      let (missing, lacking, h1) =
        continue-eq-ok (missing_components K r.store a.components) _ r h in
      let (_, _, h2) = continue-eq-ok (enough (sum_by (λ c. c.size) missing) r.free) _ r h1 in
      let (fetched, s, staged, h3) = >>=-eq-ok (fetch_each K fetch m missing) _ r h2 in
      let (previous, was, h4) = continue-eq-ok (active_id K s) _ s h3 in
      let (pointer, records, store, reported) = commit_lem m a previous fetched now s t report h4 in
      record {
        missing = missing;
        lacking = lacking;
        fetched = fetched;
        between = s;
        staged = staged;
        previous = previous;
        was = was;
        pointer = pointer;
        records = records;
        store = store;
        reported = reported;
      }

  -- An install that returned has resolved the request, built a record and applied it.
  pub install-Applied :
      (m : DatasetManifest Bytes) (languages : Option (List String)) (capabilities : List String)
      (strict : Bool) (now later : String) (r t : Root Bytes) (report : InstallReport)
      → install K fetch m languages capabilities strict now later r ≡ (ok report, t)
      → (s : Selection) × (a : Activation) × (resolve m languages capabilities strict ≡ ok s)
        × (build_activation K m s languages capabilities now ≡ ok a)
        × Applied m a later r report t
  unfolding install apply
  install-Applied m languages capabilities strict now later r t report h =
      let (s, resolved, h1) = continue-eq-ok (resolve m languages capabilities strict) _ r h in
      let (a, built, h2) =
        continue-eq-ok (build_activation K m s languages capabilities now) _ r h1 in
      (
        s,
        a,
        resolved,
        built,
        apply_activation-Applied m a later r t report
            (unlocked r.locked r t (apply_activation K fetch m a later r) h2),
      )

  -- The same, for a selection and a record that are known.
  pub install_of :
      (m : DatasetManifest Bytes) (languages : Option (List String)) (capabilities : List String)
      (strict : Bool) (now later : String) (s : Selection) (a : Activation) (r t : Root Bytes)
      (report : InstallReport)
      → resolve m languages capabilities strict ≡ ok s
      → build_activation K m s languages capabilities now ≡ ok a
      → install K fetch m languages capabilities strict now later r ≡ (ok report, t)
      → Applied m a later r report t
  install_of m languages capabilities strict now later s a r t report resolved built h =
      let (s', a', resolved', built', applied) =
        install-Applied m languages capabilities strict now later r t report h in
      let same : s' ≡ s = cc (resolved, resolved') in
      let there : build_activation K m s languages capabilities now ≡ ok a' =
        subst (λ q. build_activation K m q languages capabilities now ≡ ok a') same built' in
      let same' : a' ≡ a = cc (built, there) in
      subst (λ q. Applied m q later r report t) same' applied
