-- ===== src/Install/Write.antt =====
-- The operations of `ComponentLifecycle` that write. The clock enters as the texts that
-- `_utc_now` returns, and the download as the function `fetch`, which stages a component.
use lexicon_mcp.Prelude.{
  ℕ, ◌+◌, ◌-◌, ◌*◌, ◌/◌, max, String, Bool, true, false, not, ◌&&◌, List, [], ◌∷◌, Option, none,
  some, ◌==◌, string_eq, contains, append_all_new, distinct, sorted, string_ord, filter, sum_by,
  length, ltb, Dict, insert, erase, lookup, Result, ok, err, lifecycle_error, space_error, os_error,
  lock_busy, if◌then◌else◌, require, raise_if,
}
use lexicon_mcp.Json.{Value, str, obj, object}
use lexicon_mcp.Codec.{Codec}
use lexicon_mcp.Manifest.{Component, DatasetManifest, component}
use lexicon_mcp.Manifest.Scalars.{safe_identifier}
use lexicon_mcp.Selection.{Selection, resolve}
use lexicon_mcp.Activation.{ActivationComponent, Activation, digests, installed_size}
use lexicon_mcp.Activation.Build.{nat, sorted_items, to_dict, build_activation}
use lexicon_mcp.Store.{Entry, Store, verify, adopt, prune}
use lexicon_mcp.Install.{
  Root, Target, activation_path, file_name, active_id, read_activation, active_activation,
  activations, is_clean, verify_installed,
}
use lexicon_mcp.Install.Exec.{Exec, pure, lift, ask, ◌>>=◌, ◌>>◌}

pub record InstallReport : Type 0 where
  pub unchanged : Bool
  pub activation_id : String
  pub dataset_version : String
  pub components : ℕ
  pub components_fetched : List String
  pub components_reused : ℕ
  pub installed_size : ℕ
  pub effective : Dict (List String)
  pub unavailable : List (Dict String)
  pub previous_activation : Option String

abbrev pub same_id : Option String → String → Bool
same_id none i = false
same_id (some j) i = j == i

-- `if previous and previous != activation_id`
abbrev pub previous_entry : Option String → String → Dict Value
previous_entry none i = []
previous_entry (some j) i =
    if j == "" then [] else if j == i then [] else ("previous_activation", str j) ∷ []

abbrev pub margin : ℕ → ℕ
margin required = max (64 * 1024 * 1024) (required / 20)

abbrev pub enough : ℕ → Option ℕ → Result (Unit {0})
enough required none = err space_error
enough required (some free) = raise_if (ltb free (required + margin required)) space_error

abbrev pub or_default {ℓ} : {A : Type ℓ} → Option A → A → A
or_default none d = d
or_default (some a) d = a

-- `active.requested_languages or manifest.languages`: an empty tuple counts as absent
abbrev pub current_languages : Option (List String) → List String → List String
current_languages none languages = languages
current_languages (some []) languages = languages
current_languages (some (l ∷ ls)) languages = l ∷ ls

abbrev pub is_empty : List String → Bool
is_empty [] = true
is_empty _ = false

abbrev pub is_none {ℓ} : {A : Type ℓ} → Option A → Bool
is_none none = true
is_none (some a) = false

-- The set after `update(add)` and `difference_update(remove)`, sorted.
unfoldable pub amended : Activation → List String → List String → List String → List String
amended active languages add remove = sorted (
    filter (λ l. not (contains remove l))
      (append_all_new (distinct (current_languages active.requested_languages languages)) add))

-- The digests of every record that can be read.
abbrev pub all_digests : List Activation → List String → List String
all_digests [] keep = keep
all_digests (a ∷ rest) keep = all_digests rest (append_all_new keep (digests a))

abbrev pub is_present {ℓ} : {A : Type ℓ} → Option A → Bool
is_present none = false
is_present (some a) = true

module _ (K : Codec) where
  open K use {Bytes, dumps, same_bytes}

  -- `with InstallationLock(...)`: the lock is free again behind the block, also if it raises.
  abbrev pub with_lock {ℓ} :
      {A : Type ℓ} → (Root Bytes → Result A × Root Bytes) → Root Bytes → Result A × Root Bytes
  with_lock body r = if r.locked then (err lock_busy, r) else body r

  abbrev pub pointer_value : Activation → Option String → String → Value
  pointer_value a previous now = obj (
      object (
        ("schema_version", nat 2)
        ∷ ("activation_id", str a.activation_id)
        ∷ ("dataset_version", str a.dataset_version)
        ∷ ("activated_at", str now)
        ∷ previous_entry previous a.activation_id))

  -- A write beside the file and a rename over it: the file is the new one, or an error of the
  -- system leaves it as it was.
  abbrev pub put : Target → (Root Bytes → Root Bytes) → Exec (Root Bytes) (Unit {0})
  put target written r = if r.writable target then (ok tt, written r) else (err os_error, r)

  abbrev pub set_pointer : Value → Root Bytes → Root Bytes
  set_pointer v r = record r { pointer = some (dumps v) }

  abbrev pub set_record : String → Activation → Root Bytes → Root Bytes
  set_record path a r = record r {
    activation_files = insert path (some (dumps (to_dict a))) r.activation_files;
  }

  abbrev pub set_manifest : String → Bytes → Root Bytes → Root Bytes
  set_manifest path raw r = record r { manifests = insert path raw r.manifests }

  unfoldable pub write_pointer : Activation → Option String → String → Exec (Root Bytes) (Unit {0})
  write_pointer a previous now =
      put Target.pointer_file (set_pointer (pointer_value a previous now))

  -- A record with that name is left as it is.
  abbrev pub put_record : Activation → String → Exec (Root Bytes) (Unit {0})
  put_record a path r = elim (lookup path r.activation_files) [
    | some old ↦ (ok tt, r)
    | none ↦ put (Target.record_file path) (set_record path a) r
  ]

  unfoldable pub write_activation : Activation → Exec (Root Bytes) (Unit {0})
  write_activation a = do path ← lift (activation_path a.activation_id); put_record a path

  -- `path.is_file() and path.read_bytes() == manifest.raw`
  abbrev pub is_retained : Option Bytes → Bytes → Bool
  is_retained none raw = false
  is_retained (some old) raw = same_bytes old raw

  abbrev pub put_manifest : Bytes → String → Exec (Root Bytes) (Unit {0})
  put_manifest raw path r =
      if is_retained (lookup path r.manifests) raw
      then (ok tt, r)
      else put (Target.manifest_file path) (set_manifest path raw) r

  unfoldable pub retain_manifest : DatasetManifest Bytes → Exec (Root Bytes) (Unit {0})
  retain_manifest m = do
    version ← lift (safe_identifier (str m.dataset_version))
    put_manifest m.raw (file_name version)

  unfoldable pub preflight : ℕ → Exec (Root Bytes) (Unit {0})
  preflight required = ask (λ r. enough required r.free)

  -- The components that the store lacks, or holds damaged.
  unfoldable pub missing_components :
      Store Bytes → List ActivationComponent → Result (List ActivationComponent)
  missing_components s [] = ok []
  missing_components s (c ∷ cs) = elim (verify K s c.sha256) [
    | err e ↦ err e
    | ok intact ↦ elim (missing_components s cs) [
      | err e ↦ err e
      | ok rest ↦ ok (if intact then rest else c ∷ rest)
    ]
  ]

  unfoldable pub adopt_in : Option (Entry Bytes) → String → Exec (Root Bytes) (Unit {0})
  adopt_in staged digest r = elim (adopt K r.store staged digest) [
    | ok s ↦ (ok tt, record r { store = s })
    | err e ↦ (err e, r)
  ]

  module _ (fetch : Component → Result (Option (Entry Bytes))) where
    unfoldable pub fetch_each :
        DatasetManifest Bytes → List ActivationComponent → Exec (Root Bytes) (List String)
    fetch_each m [] = pure []
    fetch_each m (c ∷ cs) =
        let rest = fetch_each m cs in
        do
          wanted ← lift (component m c.id)
          staged ← lift (fetch wanted)
          adopt_in staged c.sha256
          fetched ← rest
          pure (c.id ∷ fetched)

    abbrev pub report_of : Activation → Option String → List String → InstallReport
    report_of a previous fetched = record {
      unchanged = same_id previous a.activation_id;
      activation_id = a.activation_id;
      dataset_version = a.dataset_version;
      components = length a.components;
      components_fetched = fetched;
      components_reused = length a.components - length fetched;
      installed_size = installed_size a;
      effective = sorted_items a.effective;
      unavailable = a.unavailable;
      previous_activation = previous;
    }

    -- The body of the `with` block of `_apply`.
    unfoldable pub apply_activation :
        DatasetManifest Bytes → Activation → String → Exec (Root Bytes) InstallReport
    apply_activation m a now = do
      missing ← ask (λ r. missing_components r.store a.components)
      preflight (sum_by (λ c. c.size) missing)
      fetched ← fetch_each m missing
      previous ← ask (active_id K)
      retain_manifest m
      write_activation a
      write_pointer a previous now
      pure (report_of a previous fetched)

    -- `_apply`, with the time of the record and that of the pointer
    unfoldable pub apply :
        DatasetManifest Bytes
        → Selection
        → Option (List String)
        → List String
        → String
        → String
        → Exec (Root Bytes) InstallReport
    apply m s requested_languages requested_capabilities created_at activated_at = do
      a ← lift (build_activation K m s requested_languages requested_capabilities created_at)
      with_lock (apply_activation m a activated_at)

    unfoldable pub install :
        DatasetManifest Bytes
        → Option (List String)
        → List String
        → Bool
        → String
        → String
        → Exec (Root Bytes) InstallReport
    install m languages capabilities strict created_at activated_at = do
      s ← lift (resolve m languages capabilities strict)
      apply m s languages capabilities created_at activated_at

    abbrev pub amend_active :
        DatasetManifest Bytes
        → List String
        → List String
        → Option (List String)
        → Bool
        → String
        → String
        → Option Activation
        → Exec (Root Bytes) InstallReport
    amend_active m add remove capabilities strict created_at activated_at none =
        lift (err lifecycle_error)
    amend_active m add remove capabilities strict created_at activated_at (some active) =
        let wanted = or_default capabilities active.requested_capabilities in
        let current = amended active m.languages add remove in
        do
          lift (require (m.sha256 == active.manifest_sha256) lifecycle_error)
          lift (raise_if (is_none active.requested_languages && not (is_empty add)) lifecycle_error)
          lift (raise_if (is_empty current) lifecycle_error)
          s ← lift (resolve m (some current) wanted strict)
          apply m s (some current) wanted created_at activated_at

    -- `_amend`; the active record is read before the lock is taken
    unfoldable pub amend :
        DatasetManifest Bytes
        → List String
        → List String
        → Option (List String)
        → Bool
        → String
        → String
        → Exec (Root Bytes) InstallReport
    amend m add remove capabilities strict created_at activated_at = do
      active ← ask (active_activation K)
      amend_active m add remove capabilities strict created_at activated_at active

  unfoldable pub activate : String → String → Exec (Root Bytes) (String × Option String)
  activate activation_id now = with_lock do
    a ← ask (λ r. read_activation K r activation_id)
    report ← ask (λ r. verify_installed K r (some activation_id))
    lift (require (is_clean report) lifecycle_error)
    previous ← ask (active_id K)
    write_pointer a previous now
    pure (a.activation_id, previous)

  abbrev pub prune_store : List String → Exec (Root Bytes) (List String)
  prune_store keep r = let (out, s) = prune keep r.store in (out, record r { store = s })

  -- What was removed, and how many digests are kept.
  unfoldable pub prune_root : Exec (Root Bytes) (List String × ℕ)
  prune_root = with_lock do
    all ← ask (activations K)
    removed ← prune_store (all_digests all [])
    pure (removed, length (all_digests all []))

  unfoldable pub forget : String → Exec (Root Bytes) String
  forget activation_id = with_lock do
    active ← ask (active_id K)
    lift (raise_if (same_id active activation_id) lifecycle_error)
    path ← lift (activation_path activation_id)
    ask (λ r. require (is_present (lookup path r.activation_files)) lifecycle_error)
    λ r. (ok activation_id, record r { activation_files = erase path r.activation_files })
