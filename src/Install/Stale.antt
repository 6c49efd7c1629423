-- ===== src/Install/Stale.antt =====
-- An install whose record stands already.
use lexicon_mcp.Prelude.{String, Bool, true, List, Option, some, ◌≡◌, ap, ◌∙◌, lookup, Result, ok}
use lexicon_mcp.Codec.{Codec}
use lexicon_mcp.Text.{id_re}
use lexicon_mcp.Manifest.{Component, DatasetManifest}
use lexicon_mcp.Selection.{Selection, resolve}
use lexicon_mcp.Activation.{Activation}
use lexicon_mcp.Activation.Build.{sorted_items, build_activation}
use lexicon_mcp.Activation.Parse.{parse_activation}
use lexicon_mcp.Activation.Named.{compute_activation_id-id_re}
use lexicon_mcp.Activation.Identity.{built_id}
use lexicon_mcp.Store.{Entry}
use lexicon_mcp.Install.{Root, file_name, active_activation}
use lexicon_mcp.Install.Write.{InstallReport, install}
use lexicon_mcp.Install.Success.{install_of}
use lexicon_mcp.Install.ReadBack.{Applied-stale}

-- Where a record of the id that was built stands already and can be read, an install that returns
-- leaves the records as they are: active then is the earlier record, with what was requested and
-- served when that was written, while the report gives what the new selection serves.
pub install_stale :
    (K : Codec) (fetch : Component → Result (Option (Entry K.Bytes))) (m : DatasetManifest K.Bytes)
    (languages : Option (List String)) (wanted : List String) (strict : Bool) (now later : String)
    (s : Selection) (a b : Activation) (r t : Root K.Bytes) (report : InstallReport) (raw : K.Bytes)
    → resolve m languages wanted strict ≡ ok s
    → build_activation K m s languages wanted now ≡ ok a
    → lookup (file_name a.activation_id) r.activation_files ≡ some (some raw)
    → parse_activation K raw ≡ ok b
    → b.activation_id ≡ a.activation_id
    → install K fetch m languages wanted strict now later r ≡ (ok report, t)
    → (t.activation_files ≡ r.activation_files)
      × (active_activation K t ≡ ok (some b))
      × (report.effective ≡ sorted_items a.effective)
install_stale K fetch m languages wanted strict now later s a b r t report raw resolved built there
      parsed named installed =
    let applied =
      install_of K fetch m languages wanted strict now later s a r t report resolved built
        installed in
    let safe : id_re a.activation_id ≡ true =
      ap id_re (built_id K m s languages wanted now a built)
      ∙ compute_activation_id-id_re K m.dataset_version m.sha256 _ in
    Applied-stale K fetch m a b later r t report raw applied safe there parsed named
