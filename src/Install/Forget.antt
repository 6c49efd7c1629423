-- ===== src/Install/Forget.antt =====
-- `forget` and `activate`: which records can be dropped, and which can be made active.
use lexicon_mcp.Prelude.{
  String, Bool, true, false, List, [], ◌∷◌, Option, none, some, ◌≡◌, refl, ap, sym, ◌∙◌, subst,
  lookup, erase, lookup-erase, ok, err, lifecycle_error, arith, Bool-cases, inl, inr, Result-cases,
  >>=-eq-ok, ◌>>=◌, ◌==◌, string_eq, eq_iff, beq_refl, raise_if, require,
}
use text.Mathlib.TextLemmas.{append_cancel_right}
use lexicon_mcp.Text.{id_re}
use lexicon_mcp.Json.{Fields, str, get}
use lexicon_mcp.Codec.{Codec}
use lexicon_mcp.Manifest.Scalars.{safe_identifier}
use lexicon_mcp.Activation.{Activation}
use lexicon_mcp.Activation.Parse.{parse_activation}
use lexicon_mcp.Install.{
  Root, Problem, read_file, file_name, activation_path, read_pointer, id_of_pointer, active_id,
  read_activation, active_activation, VerifyReport, is_clean, verify_installed, verify_components,
}
use lexicon_mcp.Install.Exec.{pure, ◌>>◌, continue-eq-ok, unlocked}
use lexicon_mcp.Install.Write.{same_id, is_present, forget, activate, pointer_value, write_pointer}
use lexicon_mcp.Install.ReadBack.{active_activation_lem}

module _ (K : Codec) where
  open K use {Bytes, dumps}

  id_of_pointer-eq-some :
      (p : Option Fields) (i : String)
      → id_of_pointer K p ≡ some i
      → (fs : Fields) × (p ≡ some fs) × (get "activation_id" fs ≡ str i)
  id_of_pointer-eq-some none i h = cc
  id_of_pointer-eq-some (some fs) i h = (fs, refl, ground (arith, h))

  -- The active id is the one whose record `active_activation` reads.
  active_reads :
      (r : Root Bytes) (i : String)
      → active_id K r ≡ ok (some i)
      → active_activation K r ≡ (read_activation K r i >>= λ a. ok (some a))
  unfolding active_id active_activation
  active_reads r i h =
      let (p, read, named) = >>=-eq-ok (read_pointer K r) (λ p. ok (id_of_pointer K p)) h in
      let (fs, e, at) = id_of_pointer-eq-some p i (ground (arith, named)) in rw (read, e, at) refl

  file_name-other : (i j : String) → (i == j) ≡ false → (file_name i == file_name j) ≡ false
  file_name-other i j h = elim (Bool-cases (file_name i == file_name j)) [
    | inr other ↦ other
    | inl same ↦ ground (
      arith,
      eq_iff i j,
      append_cancel_right i j ".json" ((eq_iff (file_name i) (file_name j)).0 same),
    )
  ]

  read_activation-erase :
      (r : Root Bytes) (i j : String)
      → (j == i) ≡ false
      → read_activation K (record r { activation_files = erase (file_name j) r.activation_files }) i
        ≡ read_activation K r i
  unfolding read_activation activation_path safe_identifier
  read_activation-erase r i j h = elim (Bool-cases (id_re i)) [
    | inr bad ↦ rw (bad, read_activation) refl
    | inl safe ↦
        rw
          (
            safe,
            lookup-erase (file_name j) (file_name i) r.activation_files,
            file_name-other j i h,
            read_activation,
          )
          refl
  ]

  read_activation_gone :
      (r : Root Bytes) (j : String)
      → id_re j ≡ true
      → read_activation K (record r { activation_files = erase (file_name j) r.activation_files }) j
        ≡ err lifecycle_error
  unfolding read_activation activation_path safe_identifier
  read_activation_gone r j safe =
      rw
        (
          safe,
          lookup-erase (file_name j) (file_name j) r.activation_files,
          beq_refl (file_name j),
          read_activation,
        )
        refl

  active_activation-erase :
      (r : Root Bytes) (i j : String)
      → active_id K r ≡ ok (some i)
      → (i == j) ≡ false
      → active_activation K (record r { activation_files = erase (file_name j) r.activation_files })
        ≡ active_activation K r
  unfolding active_id read_pointer
  active_activation-erase r i j h other =
      active_reads (record r { activation_files = erase (file_name j) r.activation_files }) i h
      ∙ ap (λ x. x >>= λ a. ok (some a))
          (read_activation-erase r i j (ground (arith, other, eq_iff i j, eq_iff j i)))
      ∙ sym (active_reads r i h)

  activation_path-eq-ok :
      (j path : String) → activation_path j ≡ ok path → (id_re j ≡ true) × (file_name j ≡ path)
  unfolding activation_path safe_identifier
  activation_path-eq-ok j path h = ground (arith, h)

  -- A record that was forgotten while another is active is gone; the store, what is active and
  -- every other record are as they were.
  pub forget_keeps :
      (r t : Root Bytes) (i j k : String)
      → forget K j r ≡ (ok k, t)
      → active_id K r ≡ ok (some i)
      → (k ≡ j)
        × (t.store ≡ r.store)
        × (active_activation K t ≡ active_activation K r)
        × (read_activation K t j ≡ err lifecycle_error)
        × ((l : String) → (j == l) ≡ false → read_activation K t l ≡ read_activation K r l)
  unfolding forget
  forget_keeps r t i j k h active =
      let (was, read, h1) = continue-eq-ok (active_id K r) _ r (unlocked r.locked r t _ h) in
      let (_, spared, h2) = continue-eq-ok (raise_if (same_id was j) lifecycle_error) _ r h1 in
      let (path, named, h3) = continue-eq-ok (activation_path j) _ r h2 in
      let (_, present, h4) =
        continue-eq-ok (require (is_present (lookup path r.activation_files)) lifecycle_error) _ r
          h3 in
      let (safe, at) = activation_path-eq-ok j path named in
      let other : (i == j) ≡ false = ground (arith, read, active, spared) in
      let after : record r { activation_files = erase (file_name j) r.activation_files } ≡ t =
        ap (λ f. record r { activation_files = erase f r.activation_files }) at
        ∙ ap (λ q. q.1) h4 in
      subst
        (λ (u : Root Bytes).
          (k ≡ j)
          × (u.store ≡ r.store)
          × (active_activation K u ≡ active_activation K r)
          × (read_activation K u j ≡ err lifecycle_error)
          × ((l : String) → (j == l) ≡ false → read_activation K u l ≡ read_activation K r l))
        after
        (
          ground (arith, h4),
          refl,
          active_activation-erase r i j active other,
          read_activation_gone r j safe,
          λ l. read_activation-erase r l j,
        )

  read_activation-id :
      (r : Root Bytes) (i : String) (a : Activation)
      → read_activation K r i ≡ ok a
      → a.activation_id ≡ i
  unfolding read_activation
  read_activation-id r i a h =
      let (path, _, h1) = >>=-eq-ok (activation_path i) _ h in
      let (raw, _, h2) = >>=-eq-ok (read_file K (lookup path r.activation_files)) _ h1 in
      let (b, _, h3) = >>=-eq-ok (parse_activation K raw) _ h2 in
      ground (arith, h3, eq_iff b.activation_id i)

  -- Only an empty list of problems is clean.
  damaged_nil :
      (damaged : List (String × Problem))
      → elim damaged as (λ _. Bool) [ [] ↦ true | _ ↦ false ] ≡ true
      → damaged ≡ []
  damaged_nil [] h = refl
  damaged_nil (d ∷ ds) h = cc

  verified_clean :
      (r : Root Bytes) (i : String) (a : Activation) (report : VerifyReport)
      → read_activation K r i ≡ ok a
      → verify_installed K r (some i) ≡ ok report
      → is_clean report ≡ true
      → verify_components K r.store a.components ≡ ok []
  unfolding verify_installed
  verified_clean r i a report h k clean =
      elim (Result-cases (verify_components K r.store a.components)) [
        | inr (e, bad) ↦ absurd (ground (arith, h, k, bad))
        | inl (damaged, e) ↦ e ∙ ap ok (damaged_nil damaged (ground (arith, h, k, e, clean)))
      ]

  write_pointer_lem :
      (a : Activation) (was : Option String) (now : String) (r t : Root Bytes) (j : String)
      (previous : Option String)
      → ◌>>◌ {B = String × Option String}
          (write_pointer K a was now)
          (pure (a.activation_id, was))
          r
        ≡ (ok (j, previous), t)
      → (t.pointer ≡ some (dumps (pointer_value K a was now)))
        × (t.activation_files ≡ r.activation_files)
        × (t.store ≡ r.store)
        × (j ≡ a.activation_id)
  unfolding write_pointer
  write_pointer_lem a was now r t j previous h = ground (arith, h)

  read_activation_frame :
      (r t : Root Bytes) (i : String)
      → t.activation_files ≡ r.activation_files
      → read_activation K t i ≡ read_activation K r i
  unfolding read_activation
  read_activation_frame r t i h =
      ap (λ f. read_activation K (record r { activation_files = f }) i) h

  -- An activation that returns has read the record of that id and found all of its components
  -- present and undamaged; that record is active then, and the records and the store stay.
  pub activate_lem :
      (r t : Root Bytes) (i now j : String) (previous : Option String)
      → activate K i now r ≡ (ok (j, previous), t)
      → (a : Activation) × (read_activation K r i ≡ ok a)
        × (j ≡ i)
        × (verify_components K r.store a.components ≡ ok [])
        × (active_activation K t ≡ ok (some a))
        × (t.activation_files ≡ r.activation_files)
        × (t.store ≡ r.store)
  unfolding activate
  activate_lem r t i now j previous h =
      let (a, read, h1) = continue-eq-ok (read_activation K r i) _ r (unlocked r.locked r t _ h) in
      let (report, verified, h2) = continue-eq-ok (verify_installed K r (some i)) _ r h1 in
      let (_, clean, h3) = continue-eq-ok (require (is_clean report) lifecycle_error) _ r h2 in
      let (was, _, h4) = continue-eq-ok (active_id K r) _ r h3 in
      let (pointer, files, store, named) = write_pointer_lem a was now r t j previous h4 in
      let same = read_activation-id r i a read in
      let there : read_activation K t a.activation_id ≡ ok a =
        ap (read_activation K t) same ∙ read_activation_frame r t i files ∙ read in
      (
        a,
        read,
        named ∙ same,
        verified_clean r i a report read verified (ground (arith, clean)),
        active_activation_lem K t a was now a pointer there,
        files,
        store,
      )
