-- ===== src/Install/Verified.antt =====
-- What `verify_installed` reports of the selection that an install has activated.
use lexicon_mcp.Prelude.{
  String, Bool, true, false, List, [], ◌∷◌, Option, none, some, ◌≡◌, refl, sym, subst, lookup,
  length, Result, ok, arith, ◌==◌, nat_eq, string_eq,
}
use lexicon_mcp.Codec.{Codec}
use lexicon_mcp.Manifest.{Component, DatasetManifest}
use lexicon_mcp.Selection.{Selection, resolve}
use lexicon_mcp.Activation.{ActivationComponent, Activation}
use lexicon_mcp.Activation.Build.{build_activation}
use lexicon_mcp.Activation.RoundTrip.{read_back}
use lexicon_mcp.Activation.Accepted.{built_IsRecord}
use lexicon_mcp.Manifest.Parse.{parse_manifest}
use lexicon_mcp.Manifest.Accepted.{parse_manifest-ManifestOk}
use lexicon_mcp.Store.{Entry, Store, path_for, store_contains, verify}
use lexicon_mcp.Install.{
  Root, problem, file_name, verify_components, verify_installed, active_activation,
}
use lexicon_mcp.Install.Write.{InstallReport, install}
use lexicon_mcp.Install.Success.{Applied, install_of}
use lexicon_mcp.Install.ReadBack.{Applied-active}
use lexicon_mcp.Install.Integrity.{
  Verifies, AllVerify, AllUndamaged, AllUndamaged-missing, AllVerify-of_missing, fetch_each_good,
}

module _ (K : Codec) where
  open K use {Bytes, sha256}

  -- A component that verifies is contained.
  verify-contains : (s : Store Bytes) (d : String) → Verifies K s d → store_contains s d ≡ ok true
  unfolding verify store_contains path_for
  verify-contains s d h = ground arith

  verify_components_clean :
      (s : Store Bytes) (cs : List ActivationComponent)
      → AllVerify K s cs
      → verify_components K s cs ≡ ok []
  unfolding verify_components
  verify_components_clean s [] h = refl
  verify_components_clean s (c ∷ cs) h =
      rw (verify-contains s c.sha256 h.0, h.0, verify_components_clean s cs h.1, problem)

  -- After an install, every component of the record verifies, where no damaged file stood.
  pub Applied-AllVerify :
      (fetch : Component → Result (Option (Entry Bytes))) (m : DatasetManifest Bytes)
      (a : Activation) (now : String) (r t : Root Bytes) (report : InstallReport)
      → Applied K fetch m a now r report t
      → AllUndamaged K r.store a.components
      → AllVerify K t.store a.components
  Applied-AllVerify fetch m a now r t report h k =
      let (all, mono) =
        fetch_each_good K fetch m h.missing r h.between h.fetched h.staged
          (AllUndamaged-missing K r.store a.components h.missing h.lacking k) in
      subst (λ s. AllVerify K s a.components) (sym h.store)
        (AllVerify-of_missing K r.store h.between.store a.components h.missing h.lacking mono all)

  -- An install from an accepted manifest of schema 2 that returns, where no record of that id
  -- stood and no damaged file of the selection lay in the store, leaves active the record that
  -- was built, as it is read back, and a verification of it finds nothing damaged.
  pub install_verified :
      (fetch : Component → Result (Option (Entry Bytes))) (raw : Bytes) (m : DatasetManifest Bytes)
      (languages : Option (List String)) (wanted : List String) (strict : Bool) (now later : String)
      (s : Selection) (a : Activation) (r t : Root Bytes) (report : InstallReport)
      → parse_manifest K raw ≡ ok m
      → (m.schema_version == 1) ≡ false
      → resolve m languages wanted strict ≡ ok s
      → build_activation K m s languages wanted now ≡ ok a
      → (now == "") ≡ false
      → lookup (file_name a.activation_id) r.activation_files ≡ none
      → AllUndamaged K r.store a.components
      → install K fetch m languages wanted strict now later r ≡ (ok report, t)
      → (active_activation K t ≡ ok (some (read_back a)))
        × (verify_installed K t none
            ≡ ok (record {
              activation_id = a.activation_id;
              components_checked = length a.components;
              damaged = [];
            }))
  unfolding verify_installed
  install_verified fetch raw m languages wanted strict now later s a r t report h new resolved built
        named fresh whole installed =
      let good = parse_manifest-ManifestOk K raw m h in
      let valid =
        built_IsRecord K m languages wanted strict s now a good new resolved built named in
      let applied =
        install_of K fetch m languages wanted strict now later s a r t report resolved built
          installed in
      let active = Applied-active K fetch m a later r t report applied valid fresh in
      (
        active,
        rw (
          active,
          verify_components_clean t.store a.components
              (Applied-AllVerify fetch m a later r t report applied whole),
        ),
      )
