-- ===== src/Manifest.antt =====
-- data/manifest.py: the records of a release manifest, and the reads that the installer makes.
-- The parsers and the proofs are in the modules below.
pub mod Cases
pub mod Scalars
pub mod Paths
pub mod SafePaths
pub mod Integrity
pub mod Components
pub mod Parse
pub mod Tags
pub mod Packs
pub mod Claims
pub mod Routing
pub mod Payloads
pub mod Checked
pub mod Origins
pub mod Accepted
use lexicon_mcp.Prelude.{
  ℕ, String, Bool, true, false, ◌&&◌, List, [], ◌∷◌, Option, none, some, ◌==◌, string_eq, filter,
  find, contains, append_all_new, sorted, string_ord, Result, ok, err, key_error, if◌then◌else◌,
}
use lexicon_mcp.Json.{Fields}

pub record Release : Type 0 where
  pub repository : String
  pub tag : String
  pub immutable : Bool
  pub base_url : Option String

pub record Source : Type 0 where
  pub id : String
  pub name : String
  pub url : String
  pub revision : String
  pub retrieved_at : String
  pub sha256 : String
  pub size : ℕ
  pub row_count : Option ℕ
  pub row_digest : Option String
  pub license : String
  pub license_url : Option String

pub record Part : Type 0 where
  pub name : Option String
  pub url : Option String
  pub size : ℕ
  pub sha256 : String
  pub offset : ℕ

-- The parts of a `PurePosixPath`.
abbrev pub PosixPath : Type 0
PosixPath = List String

pub record Component : Type 0 where
  pub id : String
  pub artifact_type : String
  pub path : PosixPath
  pub compression : String
  pub compressed_size : ℕ
  pub compressed_sha256 : String
  pub final_size : ℕ
  pub final_sha256 : String
  pub parts : List Part
  pub sources : List String
  pub integrity : Fields

pub record Pack : Type 0 where
  pub id : String
  pub capability : String
  pub languages : List String
  pub components : List String
  pub required : Bool

pub record SourceDataset : Type 0 where
  pub dataset_version : String
  pub manifest_sha256 : String

-- `B` stands for `bytes`.
pub record DatasetManifest (B : Type 0) : Type 0 where
  pub schema_version : ℕ
  pub dataset_version : String
  pub profile : String
  pub languages : List String
  pub release : Release
  pub created_at : String
  pub transformation_commit : String
  pub sources : List Source
  pub components : List Component
  pub raw : B
  pub sha256 : String
  pub packs : List Pack
  pub source_dataset : Option SourceDataset

-- `item.id == component_id`, over the components in order
abbrev pub component_by_id : String → List Component → Result Component
component_by_id i [] = err key_error
component_by_id i (c ∷ cs) = if c.id == i then ok c else component_by_id i cs

-- `pack.capability == capability and language in pack.languages`
abbrev pub serves : String → String → Pack → Bool
serves capability language p = p.capability == capability && contains p.languages language

abbrev pub union_languages : String → List Pack → List String → List String
union_languages capability [] seen = seen
union_languages capability (p ∷ ps) seen =
    union_languages capability ps
      (if p.capability == capability then append_all_new seen p.languages else seen)

module _ {B : Type 0} where
  unfoldable pub component : DatasetManifest B → String → Result Component
  component m i = component_by_id i m.components

  unfoldable pub packs_for : DatasetManifest B → String → List Pack
  packs_for m capability = filter (λ p. p.capability == capability) m.packs

  unfoldable pub required_packs : DatasetManifest B → List Pack
  required_packs m = filter (λ p. p.required) m.packs

  unfoldable pub languages_for : DatasetManifest B → String → List String
  languages_for m capability = sorted (union_languages capability m.packs [])

  unfoldable pub pack_for : DatasetManifest B → String → String → Option Pack
  pack_for m capability language = find (serves capability language) m.packs
