-- ===== src/Install/Unmoved.antt =====
-- What a failure leaves of the pointer and of the records of a data root.
use lexicon_mcp.Prelude.{
  String, false, Option, none, some, ◌≡◌, refl, ◌==◌, string_eq, ok, Error, os_error, Dict, lookup,
  insert, lookup-insert, ap, ◌∙◌, arith, ◌⊎◌, inl, inr, Bool-cases, Option-cases, Result-cases, err,
  sym,
}
use lexicon_mcp.Prelude.{>>=-eq-ok as result-eq-ok}
use lexicon_mcp.Codec.{Codec}
use lexicon_mcp.Activation.{Activation}
use lexicon_mcp.Json.{Value, str, get}
use lexicon_mcp.Activation.Build.{to_dict}
use lexicon_mcp.Install.{
  Root, Target, read_pointed, activation_path, read_pointer, read_activation, active_activation,
}

module _ (K : Codec) where
  open K use {Bytes, dumps}

  -- The system refused the write of the pointer, behind that of a record that was not there.
  pub record LeftBehind (files : Dict (Option Bytes)) (e : Error) (t : Root Bytes) : Type 0 where
    pub refused : (e ≡ os_error) × (t.writable Target.pointer_file ≡ false)
    pub name : String
    pub written : Activation
    pub absent : lookup name files ≡ none
    pub added : t.activation_files ≡ insert name (some (dumps (to_dict written))) files

  -- What a failure leaves of a pointer and of records: the pointer as it was, and the records as
  -- they were, or with a new one, where it was the write of the pointer that failed.
  pub record Unmoved (pointer : Option Bytes) (files : Dict (Option Bytes)) (e : Error)
      (t : Root Bytes) : Type 0 where
    pub same_pointer : t.pointer ≡ pointer
    pub records : (t.activation_files ≡ files) ⊎ LeftBehind files e t

  abbrev pub UnmovedFrom : Root Bytes → Error → Root Bytes → Type 0
  UnmovedFrom r e t = Unmoved r.pointer r.activation_files e t

  pub unmoved : (r : Root Bytes) (e : Error) → UnmovedFrom r e r
  unmoved r e = record { same_pointer = refl; records = inl refl }

  -- The selection that was active stays so, unless none could be read in the first place.
  abbrev pub StaysActive : Root Bytes → Root Bytes → Type 0
  StaysActive r t =
      (active_activation K t ≡ active_activation K r)
      ⊎ (e : Error) × (active_activation K r ≡ err e)

  read_kept :
      (r t : Root Bytes) (i : String) (a : Activation)
      → ((n : String) (f : Option Bytes)
          → lookup n r.activation_files ≡ some f
          → lookup n t.activation_files ≡ some f)
      → read_activation K r i ≡ ok a
      → read_activation K t i ≡ ok a
  unfolding read_activation
  read_kept r t i a kept h =
      let (path, good, h1) = result-eq-ok (activation_path i) _ h in
      elim (Option-cases (lookup path r.activation_files)) [
        | inl absent ↦ absurd (ground (arith, rw absent at h1))
        | inr (f, there) ↦ rw (good, kept path f there) (rw there at h1)
      ]

  records_kept :
      (files : Dict (Option Bytes)) (e : Error) (t : Root Bytes)
      → (t.activation_files ≡ files) ⊎ LeftBehind files e t
      → (n : String) (f : Option Bytes) → lookup n files ≡ some f
      → lookup n t.activation_files ≡ some f
  records_kept files e t (inl same) n f there = ap (lookup n) same ∙ there
  records_kept files e t (inr left) n f there =
      ap (lookup n) left.added
      ∙ lookup-insert left.name n _ files
      ∙ elim (Bool-cases (left.name == n)) [
        | inr other ↦ rw other there
        | inl same ↦ absurd (
            ground (
              arith,
              ap (λ k. lookup k files) ((string_eq.beq_iff left.name n).0 same),
              left.absent,
              there,
            ))
      ]

  pointed_kept :
      (r t : Root Bytes) (v : Value) (found : Option Activation)
      → ((n : String) (f : Option Bytes)
          → lookup n r.activation_files ≡ some f
          → lookup n t.activation_files ≡ some f)
      → read_pointed K r v ≡ ok found
      → read_pointed K t v ≡ ok found
  pointed_kept r t (str i) found kept h =
      let (a, read, h1) = result-eq-ok (read_activation K r i) _ h in
      rw (read_kept r t i a kept read) h1
  pointed_kept r t _ found kept h = cc

  active_kept :
      (r : Root Bytes) (e : Error) (t : Root Bytes)
      → UnmovedFrom r e t
      → (found : Option Activation) → active_activation K r ≡ ok found
      → active_activation K t ≡ ok found
  unfolding active_activation read_pointer
  active_kept r e t u found h =
      let (p, read, h1) = result-eq-ok (read_pointer K r) _ h in
      let again : read_pointer K t ≡ ok p =
        ap (λ q. read_pointer K (record r { pointer = q })) u.same_pointer ∙ read in
      elim (Option-cases p) [
        | inl missing ↦ rw (again, missing) (rw missing at h1)
        | inr (fs, there) ↦
            rw (again, there)
              (pointed_kept r t (get "activation_id" fs) found
                (records_kept r.activation_files e t u.records) (rw there at h1))
      ]

  pub active_of_Unmoved :
      (r : Root Bytes) (e : Error) (t : Root Bytes) → UnmovedFrom r e t → StaysActive r t
  active_of_Unmoved r e t u = elim (Result-cases (active_activation K r)) [
    | inl (found, was) ↦ inl (active_kept r e t u found was ∙ sym was)
    | inr (f, bad) ↦ inr (f, bad)
  ]
