-- ===== src/Install/ReadBack.antt =====
-- What is active behind an install.
use lexicon_mcp.Prelude.{
  String, true, Option, none, some, ◌≡◌, refl, ap, ◌∙◌, ◌==◌, string_eq, nat_eq, lookup,
  lookup-insert, Result, ok, string_le, arith, Bool-cases, inl, inr, beq_refl,
}
use lexicon_mcp.Json.{Fields, str, obj, get, sort_keys}
use lexicon_mcp.Codec.{Codec}
use lexicon_mcp.Text.{id_re}
use lexicon_mcp.Manifest.{Component, DatasetManifest}
use lexicon_mcp.Manifest.Scalars.{safe_identifier}
use lexicon_mcp.Activation.{Activation}
use lexicon_mcp.Activation.Parse.{parse_activation, is_two}
use lexicon_mcp.Activation.Build.{sorted_items, to_dict}
use lexicon_mcp.Activation.RoundTrip.{IsRecord, read_back, parse_activation-to_dict}
use lexicon_mcp.Store.{Entry}
use lexicon_mcp.Install.{
  Root, read_json, read_pointer, active_id, activation_path, file_name, read_activation,
  active_activation,
}
use lexicon_mcp.Install.Write.{InstallReport, pointer_value}
use lexicon_mcp.Install.Atomic.{fetch_each-SameActive}
use lexicon_mcp.Install.Success.{with_record, Applied}

module _ (K : Codec) where
  open K use {Bytes, dumps}

  -- The pointer as it is read back: it names the activation, in the current schema.
  pointer_fields :
      (a : Activation) (previous : Option String) (now : String)
      → (fs : Fields) × (sort_keys (pointer_value K a previous now) ≡ obj fs)
        × (get "activation_id" fs ≡ str a.activation_id)
        × (is_two (get "schema_version" fs) ≡ true)
  unfolding sort_keys string_le
  pointer_fields a none now = (_, refl, refl, refl)
  pointer_fields a (some j) now = elim (Bool-cases (j == "")) [
    | inl blank ↦ rw blank (_, refl, refl, refl)
    | inr given ↦ elim (Bool-cases (j == a.activation_id)) [
      | inl same ↦ rw (given, same) (_, refl, refl, refl)
      | inr other ↦ rw (given, other) (_, refl, refl, refl)
    ]
  ]

  read_pointer_lem :
      (r : Root Bytes) (a : Activation) (previous : Option String) (now : String)
      → r.pointer ≡ some (dumps (pointer_value K a previous now))
      → (fs : Fields) × (read_pointer K r ≡ ok (some fs))
        × (get "activation_id" fs ≡ str a.activation_id)
        × (is_two (get "schema_version" fs) ≡ true)
  unfolding read_pointer
  read_pointer_lem r a previous now h =
      let (fs, e, named, two) = pointer_fields a previous now in
      (
        fs,
        ap (λ p. read_pointer K (record r { pointer = p })) h
            ∙ rw (K.loads-dumps (pointer_value K a previous now), e, read_json),
        named,
        two,
      )

  -- The pointer names the activation that was written.
  pub active_id_lem :
      (r : Root Bytes) (a : Activation) (previous : Option String) (now : String)
      → r.pointer ≡ some (dumps (pointer_value K a previous now))
      → active_id K r ≡ ok (some a.activation_id)
  unfolding active_id
  active_id_lem r a previous now h =
      let (fs, read, named, two) = read_pointer_lem r a previous now h in rw (read, two, named)

  pub read_activation_lem :
      (r : Root Bytes) (a : Activation) (raw : Bytes) (b : Activation)
      → id_re a.activation_id ≡ true
      → lookup (file_name a.activation_id) r.activation_files ≡ some (some raw)
      → parse_activation K raw ≡ ok b
      → b.activation_id ≡ a.activation_id
      → read_activation K r a.activation_id ≡ ok b
  unfolding read_activation activation_path safe_identifier
  read_activation_lem r a raw b safe found parsed named =
      rw (safe, found, parsed, named, beq_refl a.activation_id)

  pub active_activation_lem :
      (r : Root Bytes) (a : Activation) (previous : Option String) (now : String) (b : Activation)
      → r.pointer ≡ some (dumps (pointer_value K a previous now))
      → read_activation K r a.activation_id ≡ ok b
      → active_activation K r ≡ ok (some b)
  unfolding active_activation
  active_activation_lem r a previous now b h k =
      let (fs, read, named, _) = read_pointer_lem r a previous now h in rw (read, named, k)

  module _ (fetch : Component → Result (Option (Entry Bytes))) where
    record_behind :
        (m : DatasetManifest Bytes) (a : Activation) (now : String) (r t : Root Bytes)
        (report : InstallReport)
        → Applied K fetch m a now r report t
        → lookup (file_name a.activation_id) r.activation_files ≡ none
        → lookup (file_name a.activation_id) t.activation_files ≡ some (some (dumps (to_dict a)))
    record_behind m a now r t report h fresh =
        let same = fetch_each-SameActive K fetch m h.missing r in
        let path = file_name a.activation_id in
        let kept : h.between.activation_files ≡ r.activation_files =
          ground (arith, h.staged, same.records) in
        let new : lookup path h.between.activation_files ≡ none = ap (lookup path) kept ∙ fresh in
        ap (lookup path) h.records
        ∙ rw (new, with_record)
            (lookup-insert path path (some (dumps (to_dict a))) h.between.activation_files
              ∙ rw (beq_refl path))

    -- Behind an install whose record was not there, the active record is the one that was built,
    -- as `json` reads it back.
    pub Applied-active :
        (m : DatasetManifest Bytes) (a : Activation) (now : String) (r t : Root Bytes)
        (report : InstallReport)
        → Applied K fetch m a now r report t
        → IsRecord a
        → lookup (file_name a.activation_id) r.activation_files ≡ none
        → active_activation K t ≡ ok (some (read_back a))
    Applied-active m a now r t report h valid fresh =
        active_activation_lem t a h.previous now (read_back a) h.pointer (
          read_activation_lem t a (dumps (to_dict a)) (read_back a) valid.id_safe
            (record_behind m a now r t report h fresh) (parse_activation-to_dict K a valid) refl)

    -- Where a record of the same id stands already, the records stay as they are: what is active
    -- then is the earlier record, with what was requested and served when that was written.
    pub Applied-stale :
        (m : DatasetManifest Bytes) (a b : Activation) (now : String) (r t : Root Bytes)
        (report : InstallReport) (raw : Bytes)
        → Applied K fetch m a now r report t
        → id_re a.activation_id ≡ true
        → lookup (file_name a.activation_id) r.activation_files ≡ some (some raw)
        → parse_activation K raw ≡ ok b
        → b.activation_id ≡ a.activation_id
        → (t.activation_files ≡ r.activation_files)
          × (active_activation K t ≡ ok (some b))
          × (report.effective ≡ sorted_items a.effective)
    Applied-stale m a b now r t report raw h safe old parsed named =
        let same = fetch_each-SameActive K fetch m h.missing r in
        let path = file_name a.activation_id in
        let kept : h.between.activation_files ≡ r.activation_files =
          ground (arith, h.staged, same.records) in
        let there : lookup path h.between.activation_files ≡ some (some raw) =
          ap (lookup path) kept ∙ old in
        let files : t.activation_files ≡ r.activation_files =
          h.records ∙ rw (there, with_record) kept in
        (
          files,
          active_activation_lem t a h.previous now b h.pointer
              (read_activation_lem t a raw b safe (ap (lookup path) files ∙ old) parsed named),
          ap (λ (p : InstallReport). p.effective) h.reported,
        )
