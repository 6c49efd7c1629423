-- ===== src/Install/Commit.antt =====
-- The three writes that end an install, and what they leave when the system refuses one.
use lexicon_mcp.Prelude.{
  String, false, Option, ◌≡◌, refl, string_eq, err, Error, os_error, lookup, ap, sym, subst, ◌∙◌,
  arith, inl, inr, Result-cases, Bool-cases, Option-cases,
}
use lexicon_mcp.Codec.{Codec}
use lexicon_mcp.Manifest.{DatasetManifest}
use lexicon_mcp.Activation.{Activation}
use lexicon_mcp.Json.{str}
use lexicon_mcp.Manifest.Scalars.{safe_identifier}
use lexicon_mcp.Install.{Root, Target, activation_path, file_name}
use lexicon_mcp.Install.Exec.{Exec, pure, ◌>>◌}
use lexicon_mcp.Install.Write.{
  write_pointer, write_activation, retain_manifest, set_record, set_manifest, is_retained,
}
use lexicon_mcp.Install.Unmoved.{UnmovedFrom, unmoved}

module _ (K : Codec) where
  open K use {Bytes}

  -- A write of the pointer that fails changes nothing, and the system has refused it.
  point_fails :
      {A : Type 0} (a : Activation) (previous : Option String) (now : String) (out : A)
      (s : Root Bytes) (e : Error)
      → ((write_pointer K a previous now >> pure out) s).0 ≡ err e
      → ((write_pointer K a previous now >> pure out) s ≡ (err os_error, s))
        × (e ≡ os_error)
        × (s.writable Target.pointer_file ≡ false)
  unfolding write_pointer
  point_fails a previous now out s e h = elim (Bool-cases (s.writable Target.pointer_file)) [
    | inl free ↦ absurd (ground (arith, rw (free, write_pointer) at h))
    | inr refused ↦ (
      rw (refused, write_pointer) refl,
      ground (arith, rw (refused, write_pointer) at h),
      refused,
    )
  ]

  record_fails :
      {A : Type 0} (a : Activation) (previous : Option String) (now : String) (out : A)
      (s : Root Bytes) (e : Error)
      → ((write_activation K a >> (write_pointer K a previous now >> pure out)) s).0 ≡ err e
      → UnmovedFrom K s e
          ((write_activation K a >> (write_pointer K a previous now >> pure out)) s).1
  unfolding write_activation
  record_fails {A = A} a previous now out s e h =
      elim (Result-cases (activation_path a.activation_id)) [
        | inr (x, bad) ↦ rw (bad, write_activation) (unmoved K s e)
        | inl (path, good) ↦ elim (Option-cases (lookup path s.activation_files)) [
          | inr (old, there) ↦
              let rest : Exec (Root Bytes) A = write_pointer K a previous now >> pure out in
              let same : (write_activation K a >> rest) s ≡ rest s =
                rw (good, there, write_activation) refl in
              let (stopped, _, _) =
                point_fails a previous now out s e (ap (λ q. q.0) (sym same) ∙ h) in
              subst (λ q. UnmovedFrom K s e q.1) (sym (same ∙ stopped)) (unmoved K s e)
          | inl absent ↦ elim (Bool-cases (s.writable (Target.record_file path))) [
            | inr refused ↦ rw (good, absent, refused, write_activation) (unmoved K s e)
            | inl free ↦
                let rest : Exec (Root Bytes) A = write_pointer K a previous now >> pure out in
                let next : Root Bytes = set_record K path a s in
                let same : (write_activation K a >> rest) s ≡ rest next =
                  rw (good, absent, free, write_activation) refl in
                let (stopped, cause, refusal) =
                  point_fails a previous now out next e (ap (λ q. q.0) (sym same) ∙ h) in
                subst (λ q. UnmovedFrom K s e q.1) (sym (same ∙ stopped))
                  (record {
                    same_pointer = refl;
                    records = inr (record {
                      refused = (cause, refusal);
                      name = path;
                      written = a;
                      absent = absent;
                      added = refl;
                    });
                  })
          ]
        ]
      ]

  pub commit_fails :
      {A : Type 0} (m : DatasetManifest Bytes) (a : Activation) (previous : Option String)
      (now : String) (out : A) (s : Root Bytes) (e : Error)
      → ((retain_manifest K m
            >> (write_activation K a >> (write_pointer K a previous now >> pure out)))
          s).0
        ≡ err e
      → UnmovedFrom K s e
          ((retain_manifest K m
              >> (write_activation K a >> (write_pointer K a previous now >> pure out)))
            s).1
  unfolding retain_manifest
  commit_fails {A = A} m a previous now out s e h =
      elim (Result-cases (safe_identifier (str m.dataset_version))) [
        | inr (x, bad) ↦ rw (bad, retain_manifest) (unmoved K s e)
        | inl (version, good) ↦
            let rest : Exec (Root Bytes) A =
              write_activation K a >> (write_pointer K a previous now >> pure out) in
            let path = file_name version in
            elim (Bool-cases (is_retained K (lookup path s.manifests) m.raw)) [
              | inl kept ↦
                  let same : (retain_manifest K m >> rest) s ≡ rest s =
                    rw (good, kept, retain_manifest) refl in
                  subst (λ q. UnmovedFrom K s e q.1) (sym same)
                    (record_fails a previous now out s e (ap (λ q. q.0) (sym same) ∙ h))
              | inr new ↦ elim (Bool-cases (s.writable (Target.manifest_file path))) [
                | inr refused ↦ rw (good, new, refused, retain_manifest) (unmoved K s e)
                | inl free ↦
                    let next : Root Bytes = set_manifest K path m.raw s in
                    let same : (retain_manifest K m >> rest) s ≡ rest next =
                      rw (good, new, free, retain_manifest) refl in
                    subst (λ q. UnmovedFrom K s e q.1) (sym same)
                      (record_fails a previous now out next e (ap (λ q. q.0) (sym same) ∙ h))
              ]
            ]
      ]
