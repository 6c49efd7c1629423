-- ===== src/Activation.antt =====
-- data/activation.py: the record of what an install has resolved, and the reads that verification
-- and the router make of it. Building, writing and parsing are in the modules below.
pub mod Build
pub mod Parse
pub mod Sorted
pub mod RoundTrip
pub mod Identity
pub mod Named
pub mod Recorded
pub mod Accepted
use lexicon_mcp.Prelude.{
  ℕ, String, Bool, ◌&&◌, List, [], ◌∷◌, Option, none, some, ◌==◌, string_eq, find, contains,
  append_all_new, distinct, sorted, string_ord, sum_by, map, Dict, Result, ok, err,
  activation_error, index_error, if◌then◌else◌, ◌>>=◌,
}
use lexicon_mcp.Json.{Value, str}
use lexicon_mcp.Manifest.Scalars.{normalize_language}

pub record ActivationComponent : Type 0 where
  pub id : String
  pub sha256 : String
  pub path : String
  pub size : ℕ

pub record ActivationPack : Type 0 where
  pub id : String
  pub capability : String
  pub languages : List String
  pub components : List String

pub record Activation : Type 0 where
  pub schema_version : ℕ
  pub activation_id : String
  pub dataset_version : String
  pub manifest_sha256 : String
  pub created_at : String
  pub requested_languages : Option (List String)
  pub requested_capabilities : List String
  pub effective : Dict (List String)
  pub unavailable : List (Dict String)
  pub components : List ActivationComponent
  pub packs : List ActivationPack

abbrev pub component_by_id : String → List ActivationComponent → Result ActivationComponent
component_by_id i [] = err activation_error
component_by_id i (c ∷ cs) = if c.id == i then ok c else component_by_id i cs

unfoldable pub component : Activation → String → Result ActivationComponent
component a i = component_by_id i a.components

-- `pack.components[0]`
abbrev pub first_component : List String → Result String
first_component [] = err index_error
first_component (i ∷ is) = ok i

abbrev pub pack_serves : String → String → ActivationPack → Bool
pack_serves capability language p = p.capability == capability && contains p.languages language

abbrev pub serving : Activation → Option ActivationPack → Result (Option ActivationComponent)
serving a none = ok none
serving a (some p) = do i ← first_component p.components; c ← component a i; ok (some c)

-- `none` says that the language is not installed.
unfoldable pub component_for : Activation → String → String → Result (Option ActivationComponent)
component_for a capability language = do
  tag ← normalize_language (str language)
  serving a (find (pack_serves capability tag) a.packs)

unfoldable pub digests : Activation → List String
digests a = distinct (map (λ c. c.sha256) a.components)

abbrev pub union_languages : String → List ActivationPack → List String → List String
union_languages capability [] seen = seen
union_languages capability (p ∷ ps) seen =
    union_languages capability ps
      (if p.capability == capability then append_all_new seen p.languages else seen)

unfoldable pub installed_languages : Activation → String → List String
installed_languages a capability = sorted (union_languages capability a.packs [])

unfoldable pub installed_size : Activation → ℕ
installed_size a = sum_by (λ c. c.size) a.components
