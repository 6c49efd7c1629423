-- ===== src/Router.antt =====
-- runtime/router.py: which pack serves a language, and the connections that are held open.
-- SQLite enters as the functions `connects`, which opens a file, and `catalogue`, which reads the
-- language catalogue behind a connection. A connection is a number; a closed one is not used again.
pub mod Queue
pub mod Cache
pub mod Reasons
pub mod Recency
pub mod Traversal
use lexicon_mcp.Prelude.{
  ℕ, suc, ◌+◌, String, Bool, true, false, ◌&&◌, List, [], ◌∷◌, ◌++◌, Option, none, some, ◌==◌,
  string_eq, ltb, length, Dict, lookup, insert, erase, Result, ok, err, Error, router_error,
  if◌then◌else◌, find,
}
use lexicon_mcp.Json.{str}
use lexicon_mcp.Manifest.Scalars.{normalize_language}
use lexicon_mcp.Activation.{
  ActivationComponent, ActivationPack, Activation, component, first_component, component_for,
}
use lexicon_mcp.Store.{Store, open_path}
use lexicon_mcp.Install.Exec.{Exec, pure, lift, ◌>>=◌}

-- The contract strings are the names of these constructors.
pub data Availability : Type 0 where
  installed language_not_installed capability_not_installed not_available_upstream : Availability
  unknown_language : Availability

pub record Answer : Type 0 where
  pub capability : String
  pub language : String
  pub installed : Bool
  pub reason : Availability

pub record LanguageCoverage : Type 0 where
  pub language : String
  pub term_count : ℕ
  pub entry_count : ℕ
  pub sense_count : ℕ
  pub translation_count : ℕ
  pub relation_count : ℕ
  pub has_semantic : Bool
  pub has_pronunciation : Bool
  pub has_wordplay : Bool

unfoldable pub offers : LanguageCoverage → String → Bool
offers c capability =
    if capability == "lexical"
    then true
    else if capability == "semantic"
    then c.has_semantic
    else if capability == "pronunciation"
    then c.has_pronunciation
    else if capability == "wordplay"
    then c.has_wordplay
    else false

-- `_open`, the longest unused first; how many connections were made; those that were closed; and
-- the catalogue, once it is read.
pub record Connections : Type 0 where
  pub opened : Dict ℕ
  pub made : ℕ
  pub closed : List ℕ
  pub coverage : Option (Dict LanguageCoverage)

-- `while len(self._open) > self.max_open_packs`
unfoldable pub evict : ℕ → Dict ℕ → List ℕ → Dict ℕ × List ℕ
evict limit [] closed = ([], closed)
evict limit ((k, h) ∷ os) closed =
    let rest = evict limit os (closed ++ h ∷ []) in
    if ltb limit (suc (length os)) then rest else ((k, h) ∷ os, closed)

-- `move_to_end`
abbrev pub move_to_end : String → ℕ → Dict ℕ → Dict ℕ
move_to_end k h os = erase k os ++ (k, h) ∷ []

unfoldable pub new_router : ℕ → Result Connections
new_router max_open_packs =
    if ltb max_open_packs 1
    then err router_error
    else ok (record { opened = []; made = 0; closed = []; coverage = none })

abbrev pub coverage_of : List LanguageCoverage → Dict LanguageCoverage → Dict LanguageCoverage
coverage_of [] d = d
coverage_of (c ∷ cs) d = coverage_of cs (insert c.language c d)

abbrev pub answer : String → String → Availability → Answer
answer capability language reason = record {
  capability = capability;
  language = language;
  installed = elim reason [ Availability.installed ↦ true | _ ↦ false ];
  reason = reason;
}

module _ {B : Type 0} (activation : Activation) (store : Store B) (max_open_packs : ℕ)
    (connects : String → Result (Unit {0})) (catalogue : ℕ → Result (List LanguageCoverage)) where
  -- A connection that was made, after the ones over the limit are closed.
  unfoldable pub keep_open : String → Exec Connections ℕ
  keep_open digest s =
      let (opened, closed) = evict max_open_packs (s.opened ++ (digest, s.made) ∷ []) s.closed in
      (ok s.made, record s { opened = opened; closed = closed; made = suc s.made })

  unfoldable pub connect : ActivationComponent → Exec Connections ℕ
  connect c s = elim (lookup c.sha256 s.opened) [
    | some h ↦ (ok h, record s { opened = move_to_end c.sha256 h s.opened })
    | none ↦
        (do path ← lift (open_path store c.sha256); _ ← lift (connects path); keep_open c.sha256) s
  ]

  abbrev pub is_core : ActivationPack → Bool
  is_core p = p.capability == "core"

  unfoldable pub core_component : Result ActivationComponent
  core_component = elim (find is_core activation.packs) [
    | some p ↦ elim (first_component p.components) [ ok i ↦ component activation i | err e ↦ err e ]
    | none ↦ err router_error
  ]

  unfoldable pub load_coverage : Exec Connections (Dict LanguageCoverage)
  load_coverage = do
    core ← lift core_component
    h ← connect core
    rows ← lift (catalogue h)
    pure (coverage_of rows [])

  -- The property, which reads the catalogue once.
  unfoldable pub read_coverage : Exec Connections (Dict LanguageCoverage)
  read_coverage s = elim s.coverage [
    | some d ↦ (ok d, s)
    | none ↦ (do d ← load_coverage; λ t. (ok d, record t { coverage = some d })) s
  ]

  -- By whether the words of the language are installed.
  abbrev pub without : Option ActivationComponent → Availability
  without none = Availability.language_not_installed
  without (some c) = Availability.capability_not_installed

  -- Why nothing serves the language, by what the corpus has for it.
  abbrev pub explain : String → String → Option LanguageCoverage → Result Availability
  explain capability tag none = ok Availability.unknown_language
  explain capability tag (some known) =
      if offers known capability
      then elim (component_for activation "lexical" tag) [
        | ok lexical ↦ ok (without lexical)
        | err e ↦ err e
      ]
      else ok Availability.not_available_upstream

  abbrev pub availability_of :
      String → String → Option ActivationComponent → Exec Connections Answer
  availability_of capability tag (some c) = pure (answer capability tag Availability.installed)
  availability_of capability tag none = do
    d ← read_coverage
    reason ← lift (explain capability tag (lookup tag d))
    pure (answer capability tag reason)

  unfoldable pub availability : String → String → Exec Connections Answer
  availability capability language = elim (normalize_language (str language)) [
    | err e ↦ pure (answer capability language Availability.unknown_language)
    | ok tag ↦ do
      found ← lift (component_for activation capability tag)
      availability_of capability tag found
  ]

  abbrev pub connection_to : Option ActivationComponent → Exec Connections (Option ℕ)
  connection_to none = pure none
  connection_to (some c) = do h ← connect c; pure (some h)

  unfoldable pub connection_for : String → String → Exec Connections (Option ℕ)
  connection_for capability language = do
    tag ← lift (normalize_language (str language))
    found ← lift (component_for activation capability tag)
    connection_to found

  abbrev pub handles : Dict ℕ → List ℕ
  handles [] = []
  handles ((k, h) ∷ os) = handles os ++ h ∷ []

  -- `popitem()` takes the newest first.
  unfoldable pub close : Connections → Connections
  close s = record s { opened = []; closed = s.closed ++ handles s.opened; coverage = none }
