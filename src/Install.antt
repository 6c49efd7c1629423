-- ===== src/Install.antt =====
-- data/component_lifecycle.py: the state of a data root, and the reads of `ComponentLifecycle`.
-- The operations that write are in Install/Write, the proofs in the other modules below.
pub mod Exec
pub mod Write
pub mod Unmoved
pub mod Commit
pub mod Atomic
pub mod Success
pub mod ReadBack
pub mod Integrity
pub mod Verified
pub mod Stale
pub mod Damaged
pub mod Retention
pub mod Forget
use Prim.Native.String.{◌++◌ as ◌<>◌}
use lexicon_mcp.Prelude.{
  ℕ, String, Bool, true, false, not, List, [], ◌∷◌, ◌++◌, Option, none, some, ◌==◌, string_eq,
  sorted, string_ord, filter, code, nat_eq, Dict, keys, lookup, length, Result, ok, err, Error,
  lifecycle_error, activation_error, os_error, if◌then◌else◌, ◌>>=◌, ◌>>◌, require,
}
use lexicon_mcp.Json.{Value, Fields, str, obj, get}
use lexicon_mcp.Codec.{Codec}
use lexicon_mcp.Manifest.Scalars.{safe_identifier}
use lexicon_mcp.Activation.{ActivationComponent, Activation}
use lexicon_mcp.Activation.Parse.{is_two, parse_activation}
use lexicon_mcp.Store.{Store, store_contains, verify}

-- The files that the operations write: `current.json`, and by name those of activations/ and
-- manifests/.
pub data Target : Type 0 where
  pointer_file : Target
  record_file manifest_file : String → Target

-- `current.json`, the files of activations/ and manifests/ by name, the component store, whether
-- another process holds the lock, the free space of the volume, if it can be told, and whether the
-- system lets a file be written. An activation file that cannot be read has no bytes.
pub record Root (B : Type 0) : Type 0 where
  pub pointer : Option B
  pub activation_files : Dict (Option B)
  pub manifests : Dict B
  pub store : Store B
  pub locked : Bool
  pub free : Option ℕ
  pub writable : Target → Bool

-- The file name of an id, if the id is safe.
abbrev pub file_name : String → String
file_name i = i <> ".json"

unfoldable pub activation_path : String → Result String
activation_path activation_id = do i ← safe_identifier (str activation_id); ok (file_name i)

pub data Problem : Type 0 where
  missing mismatch : Problem

pub record VerifyReport : Type 0 where
  pub activation_id : String
  pub components_checked : ℕ
  pub damaged : List (String × Problem)

-- `report["ok"]`
abbrev pub is_clean : VerifyReport → Bool
is_clean r = elim r.damaged [ [] ↦ true | _ ↦ false ]

-- What the pattern `*.json` selects.
unfoldable pub is_json : String → Bool
is_json String.[] = false
is_json (String.◌∷◌ c s) = let rest = is_json s in if s == "json" then code c == b'.' else rest

module _ (K : Codec) where
  open K use {Bytes, loads}

  -- `_read_json`: an object
  abbrev pub read_json : Bytes → Result Fields
  read_json raw = elim (loads raw) [ some (obj fs) ↦ ok fs | _ ↦ err lifecycle_error ]

  unfoldable pub read_pointer : Root Bytes → Result (Option Fields)
  read_pointer r = elim r.pointer [
    | none ↦ ok none
    | some raw ↦ do fs ← read_json raw; ok (some fs)
  ]

  abbrev pub id_of_pointer : Option Fields → Option String
  id_of_pointer none = none
  id_of_pointer (some fs) =
      if is_two (get "schema_version" fs)
      then elim (get "activation_id" fs) [ str i ↦ some i | _ ↦ none ]
      else none

  unfoldable pub active_id : Root Bytes → Result (Option String)
  active_id r = do p ← read_pointer r; ok (id_of_pointer p)

  abbrev pub read_file : Option (Option Bytes) → Result Bytes
  read_file (some (some raw)) = ok raw
  read_file _ = err lifecycle_error

  unfoldable pub read_activation : Root Bytes → String → Result Activation
  read_activation r activation_id = do
    path ← activation_path activation_id
    raw ← read_file (lookup path r.activation_files)
    a ← parse_activation K raw
    require (a.activation_id == activation_id) lifecycle_error
    ok a

  abbrev pub read_pointed : Root Bytes → Value → Result (Option Activation)
  read_pointed r (str i) = do a ← read_activation r i; ok (some a)
  read_pointed r _ = err lifecycle_error

  unfoldable pub active_activation : Root Bytes → Result (Option Activation)
  active_activation r = do
    p ← read_pointer r
    elim p [ none ↦ ok none | some fs ↦ read_pointed r (get "activation_id" fs) ]

  -- What the loop of `activations` does with a record: `none` where it goes on to the next.
  abbrev pub listed : Option (Option Bytes) → Result (Option Activation)
  listed (some (some raw)) = elim (parse_activation K raw) [
    | ok a ↦ ok (some a)
    | err Error.activation_error ↦ ok none
    | err e ↦ err e
  ]
  listed _ = ok none

  abbrev pub add_listed : Option Activation → List Activation → List Activation
  add_listed none rest = rest
  add_listed (some a) rest = a ∷ rest

  unfoldable pub list_activations : Root Bytes → List String → Result (List Activation)
  list_activations r [] = ok []
  list_activations r (n ∷ ns) = do
    found ← listed (lookup n r.activation_files)
    rest ← list_activations r ns
    ok (add_listed found rest)

  unfoldable pub activations : Root Bytes → Result (List Activation)
  unfolding is_json
  activations r = list_activations r (sorted (filter is_json (keys r.activation_files)))

  abbrev pub problem : ActivationComponent → Bool → Bool → List (String × Problem)
  problem c false intact = (c.id, missing) ∷ []
  problem c true false = (c.id, mismatch) ∷ []
  problem c true true = []

  unfoldable pub verify_components :
      Store Bytes → List ActivationComponent → Result (List (String × Problem))
  verify_components s [] = ok []
  verify_components s (c ∷ cs) = do
    present ← store_contains s c.sha256
    intact ← verify K s c.sha256
    rest ← verify_components s cs
    ok (problem c present intact ++ rest)

  abbrev pub chosen : Root Bytes → Option String → Result (Option Activation)
  chosen r none = active_activation r
  chosen r (some i) = do a ← read_activation r i; ok (some a)

  abbrev pub verify_chosen : Root Bytes → Option Activation → Result VerifyReport
  verify_chosen r none = err lifecycle_error
  verify_chosen r (some a) = do
    damaged ← verify_components r.store a.components
    ok (record {
      activation_id = a.activation_id;
      components_checked = length a.components;
      damaged = damaged;
    })

  unfoldable pub verify_installed : Root Bytes → Option String → Result VerifyReport
  verify_installed r activation_id = do a ← chosen r activation_id; verify_chosen r a
