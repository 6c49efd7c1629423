-- ===== src/Selection.antt =====
-- data/selection.py: a request for languages and capabilities, resolved to components.
-- The proofs are in the modules below.
pub mod Loops
pub mod Coverage
pub mod Components
pub mod Total
pub mod Strict
pub mod Packs
pub mod Closed
use lexicon_mcp.Prelude.{
  ℕ, ◌+◌, String, Bool, true, false, ◌&&◌, not, List, [], ◌∷◌, ◌++◌, Option, none, some, ◌==◌, Eq,
  string_eq, bool_eq, list_eq, ltb, all, filter, contains, append_new, append_all_new, sorted,
  string_ord, Dict, insert, Result, ok, err, selection_error, if◌then◌else◌, ◌>>=◌, ◌>>◌, require,
  raise_if, ◌≡◌, ◌↔◌, arith,
}
use lexicon_mcp.Json.{Value, str}
use lexicon_mcp.Manifest.{
  Component, Pack, DatasetManifest, component, required_packs, languages_for, pack_for,
}
use lexicon_mcp.Manifest.Scalars.{normalize_language}

abbrev pub requestable_capabilities : List String
requestable_capabilities = "lexical" ∷ "semantic" ∷ "pronunciation" ∷ "wordplay" ∷ []

-- The contract strings are the names of these constructors, in lower case.
pub data Reason : Type 0 where
  language_not_in_dataset capability_not_available_for_language : Reason

pub record Unavailable : Type 0 where
  pub capability : String
  pub language : String
  pub reason : Reason

abbrev pub reason_beq : Reason → Reason → Bool
reason_beq Reason.language_not_in_dataset Reason.language_not_in_dataset = true
reason_beq Reason.capability_not_available_for_language
      Reason.capability_not_available_for_language =
    true
reason_beq _ _ = false

pub reason_beq_iff : (a b : Reason) → (reason_beq a b ≡ true) ↔ (a ≡ b)
reason_beq_iff a b = ground arith

instance abbrev pub reason_eq : Eq Reason
reason_eq = record { beq = reason_beq; beq_iff = reason_beq_iff }

abbrev pub unavailable_beq : Unavailable → Unavailable → Bool
unavailable_beq u v =
    u.capability == v.capability && (u.language == v.language && u.reason == v.reason)

pub unavailable_beq_iff : (u v : Unavailable) → (unavailable_beq u v ≡ true) ↔ (u ≡ v)
unavailable_beq_iff u v = ground (
  arith,
  string_eq.beq_iff u.capability v.capability,
  string_eq.beq_iff u.language v.language,
  reason_beq_iff u.reason v.reason,
)

instance abbrev pub unavailable_eq : Eq Unavailable
unavailable_eq = record { beq = unavailable_beq; beq_iff = unavailable_beq_iff }

pub record Selection : Type 0 where
  pub components : List String
  pub packs : List String
  pub effective : Dict (List String)
  pub unavailable : List Unavailable
  pub compressed_size : ℕ
  pub installed_size : ℕ

-- Dataclass equality.
abbrev pub pack_beq : Pack → Pack → Bool
pack_beq p q =
    p.id == q.id
    && (p.capability == q.capability
        && (p.languages == q.languages
            && (p.components == q.components && p.required == q.required)))

pub pack_beq_iff : (p q : Pack) → (pack_beq p q ≡ true) ↔ (p ≡ q)
pack_beq_iff p q = ground (
  arith,
  eq_iff p.id q.id,
  eq_iff p.capability q.capability,
  tags_iff p.languages q.languages,
  tags_iff p.components q.components,
  bool_eq.beq_iff p.required q.required,
)
  where
    eq_iff : (a b : String) → ((a == b) ≡ true) ↔ (a ≡ b)
    eq_iff = string_eq.beq_iff

    tags_iff : (a b : List String) → ((a == b) ≡ true) ↔ (a ≡ b)
    tags_iff = list_eq.beq_iff

instance abbrev pub pack_eq : Eq Pack
pack_eq = record { beq = pack_beq; beq_iff = pack_beq_iff }

-- A tag that is no language tag is refused; the others are normalized, each kept once.
unfoldable pub normalized_tags : List String → List String → Result (List String)
normalized_tags [] seen = ok seen
normalized_tags (l ∷ ls) seen = elim (normalize_language (str l)) [
  | ok tag ↦ normalized_tags ls (append_new seen tag)
  | err e ↦ err selection_error
]

-- `None`, which asks for every language, stays `None`.
unfoldable pub normalized_request : Option (List String) → Result (Option (List String))
normalized_request none = ok none
normalized_request (some languages) = do seen ← normalized_tags languages []; ok (some seen)

-- `requested is not None and strict and missing`
abbrev pub refused : Bool → List String → Option (List String) → Bool
refused strict known none = false
refused strict known (some requested) = strict && not (all (contains known) requested)

-- The variables of the loop over the capabilities.
pub record Gathered : Type 0 where
  pub selected : List Pack
  pub effective : Dict (List String)
  pub unavailable : List Unavailable

module _ {B : Type 0} (manifest : DatasetManifest B) where
  unfoldable pub wanted : Option (List String) → String → List String
  wanted none capability = languages_for manifest capability
  wanted (some requested) capability = requested

  abbrev pub reason_for : String → Reason
  reason_for language =
      if contains manifest.languages language
      then Reason.capability_not_available_for_language
      else Reason.language_not_in_dataset

  -- The loop over the languages of one capability: the packs, what is missing, what is covered.
  unfoldable pub cover :
      String
      → List String
      → List Pack
      → List Unavailable
      → List String
      → List Pack × List Unavailable × List String
  cover capability [] selected unavailable covered = (selected, unavailable, covered)
  cover capability (l ∷ ls) selected unavailable covered = elim (pack_for manifest capability l) [
    | none ↦
        cover capability ls selected
          (unavailable
            ++ record { capability = capability; language = l; reason = reason_for l } ∷ [])
          covered
    | some pack ↦ cover capability ls (append_new selected pack) unavailable (covered ++ l ∷ [])
  ]

  unfoldable pub gather : Option (List String) → List String → Gathered → Gathered
  gather requested [] g = g
  gather requested (c ∷ cs) g =
      let (selected, unavailable, covered) =
        cover c (wanted requested c) g.selected g.unavailable [] in
      gather requested cs (record {
        selected = selected;
        effective = insert c (sorted covered) g.effective;
        unavailable = unavailable;
      })

  -- A component that several packs share is counted once.
  abbrev pub component_ids : List Pack → List String → List String
  component_ids [] ids = ids
  component_ids (p ∷ ps) ids = component_ids ps (append_all_new ids p.components)

  -- The compressed and the installed size; a pack may name a component that the manifest lacks.
  unfoldable pub sizes : List String → ℕ → ℕ → Result (ℕ × ℕ)
  sizes [] compressed installed = ok (compressed, installed)
  sizes (i ∷ is) compressed installed = elim (component manifest i) [
    | ok c ↦ sizes is (compressed + c.compressed_size) (installed + c.final_size)
    | err e ↦ err selection_error
  ]

  abbrev pub pack_names : List Pack → List String
  pack_names [] = []
  pack_names (p ∷ ps) = p.id ∷ pack_names ps

  unfoldable pub finish : Gathered → Result Selection
  finish g = do
    let ids = component_ids g.selected []
    (compressed, installed) ← sizes ids 0 0
    ok (record {
      components = sorted ids;
      packs = sorted (pack_names g.selected);
      effective = g.effective;
      unavailable = g.unavailable;
      compressed_size = compressed;
      installed_size = installed;
    })

  unfoldable pub gathered : Option (List String) → List String → Gathered
  gathered requested capabilities =
      gather requested capabilities
        (record { selected = required_packs manifest; effective = []; unavailable = [] })

  unfoldable pub resolve : Option (List String) → List String → Bool → Result Selection
  resolve languages capabilities strict = do
    raise_if (ltb manifest.schema_version 2) selection_error
    require (all (contains requestable_capabilities) capabilities) selection_error
    requested ← normalized_request languages
    raise_if (refused strict manifest.languages requested) selection_error
    finish (gathered requested capabilities)
