-- ===== src/Manifest/Accepted.antt =====
-- What `parse_manifest` guarantees of a manifest that it accepts.
use lexicon_mcp.Prelude.{
  ℕ, String, Bool, true, false, ◌||◌, not, ◌==◌, bool_eq, nat_eq, string_eq, list_eq, List, [], ◌∷◌,
  ◌++◌, some, find, contains, contains-append_all_new, append_all_new, append_all_new-IsDistinct,
  IsDistinct, sorted, IsSorted, sorted-IsSorted, contains-sorted, sorted-IsDistinct, string_ord, ok,
  manifest_error, if◌then◌else◌, ◌≡◌, refl, ap, sym, ◌∙◌, subst, OnOk, >>=-eq-ok, require-eq-ok,
  raise_if-eq-ok, arith, Bool-cases, inl, inr,
}
use lexicon_mcp.Json.{Value, Fields, get, has_key}
use lexicon_mcp.Text.{id_re}
use lexicon_mcp.Codec.{Codec}
use lexicon_mcp.Manifest.{Pack, DatasetManifest, serves, pack_for}
use lexicon_mcp.Manifest.Scalars.{safe_identifier, string_value, parse_language_tags}
use lexicon_mcp.Manifest.Tags.{safe_identifier-eq-ok}
use lexicon_mcp.Manifest.Components.{optional, parse_sources, parse_components}
use lexicon_mcp.Manifest.Origins.{source_ids_of, parse_sources-IsDistinct, parse_release_lem}
use lexicon_mcp.Manifest.Checked.{ids_of, ComponentsOk, parse_components-ComponentsOk}
use lexicon_mcp.Manifest.Packs.{parse_packs}
use lexicon_mcp.Manifest.Claims.{PacksOk, parse_packs-PacksOk}
use lexicon_mcp.Manifest.Routing.{find-serves}
use lexicon_mcp.Manifest.Parse.{
  parse_release, parse_source_dataset, schema_number, commit_value, Body, parse_profile,
  languages_of, or_nothing, parse_capabilities, root_object, parse_manifest,
}

-- Whether some pack serves the language.
abbrev pub is_spoken : List Pack → String → Bool
is_spoken [] l = false
is_spoken (p ∷ ps) l = contains p.languages l || is_spoken ps l

-- The languages are exactly those that some pack serves, in order and each once.
pub record LanguagesOk (packs : List Pack) (languages : List String) : Type 0 where
  pub spoken : (l : String) → contains languages l ≡ is_spoken packs l
  pub ordered : IsSorted languages
  pub once : IsDistinct languages

pub record ManifestOk (K : Codec) (m : DatasetManifest K.Bytes) : Type 0 where
  pub schema : (m.schema_version == 1 || m.schema_version == 2) ≡ true
  pub version_safe : id_re m.dataset_version ≡ true
  pub tag : m.release.tag ≡ m.dataset_version
  pub immutable : m.release.immutable ≡ true
  pub digest : m.sha256 ≡ K.sha256 m.raw
  pub sources_once : IsDistinct (source_ids_of m.sources)
  pub components : ComponentsOk (source_ids_of m.sources) m.components
  pub packs : (m.schema_version == 1) ≡ false → PacksOk (ids_of m.components) m.packs
  pub languages : (m.schema_version == 1) ≡ false → LanguagesOk m.packs m.languages
  pub no_packs : (m.schema_version == 1) ≡ true → m.packs ≡ []

contains-languages_of :
    (ps : List Pack) (seen : List String) (l : String)
    → contains (languages_of ps seen) l ≡ (contains seen l || is_spoken ps l)
contains-languages_of [] seen l = ground arith
contains-languages_of (p ∷ ps) seen l = ground (
  arith,
  contains-languages_of ps (append_all_new seen p.languages) l,
  contains-append_all_new p.languages seen l,
)

languages_of-IsDistinct :
    (ps : List Pack) (seen : List String) → IsDistinct seen → IsDistinct (languages_of ps seen)
languages_of-IsDistinct [] seen d = d
languages_of-IsDistinct (p ∷ ps) seen d =
    languages_of-IsDistinct ps (append_all_new seen p.languages)
      (append_all_new-IsDistinct p.languages seen d)

languages_of-LanguagesOk : (ps : List Pack) → LanguagesOk ps (sorted (languages_of ps []))
languages_of-LanguagesOk ps = record {
  spoken = λ l. contains-sorted l (languages_of ps []) ∙ contains-languages_of ps [] l;
  ordered = sorted-IsSorted (languages_of ps []);
  once = sorted-IsDistinct (languages_of ps []) (languages_of-IsDistinct ps [] tt);
}

-- The two schemas, told apart by whether the body is that of schema 1.
record BodyOk (is_old : Bool) (component_ids : List String) (b : Body) : Type 0 where
  packs : is_old ≡ false → PacksOk component_ids b.packs
  languages : is_old ≡ false → LanguagesOk b.packs b.languages
  no_packs : is_old ≡ true → b.packs ≡ []

parse_capabilities-BodyOk :
    (fs : Fields) (ids : List String) (b : Body)
    → parse_capabilities fs ids ≡ ok b
    → BodyOk false ids b
unfolding parse_capabilities
parse_capabilities-BodyOk fs ids b h =
    let (_, h1) = raise_if-eq-ok (has_key "profile" fs) manifest_error _ h in
    let (_, h2) = raise_if-eq-ok (has_key "languages" fs) manifest_error _ h1 in
    let (packs, read, h3) = >>=-eq-ok (parse_packs (get "packs" fs) ids) _ h2 in
    let (_, _, h4) = >>=-eq-ok (parse_source_dataset (get "source_dataset" fs)) _ h3 in
    subst (OnOk (BodyOk false ids)) h4 (record {
      packs = λ _. parse_packs-PacksOk (get "packs" fs) ids packs read;
      languages = λ _. languages_of-LanguagesOk packs;
      no_packs = λ old. absurd cc;
    })

parse_profile-BodyOk :
    (fs : Fields) (ids : List String) (b : Body) → parse_profile fs ≡ ok b → BodyOk true ids b
unfolding parse_profile
parse_profile-BodyOk fs ids b h =
    let (profile, _, h1) = >>=-eq-ok (string_value (get "profile" fs)) _ h in
    let (_, h2) = require-eq-ok (profile == "full" || profile == "english") manifest_error _ h1 in
    let (tags, _, h3) =
      >>=-eq-ok (optional (parse_language_tags false) (get "languages" fs)) _ h2 in
    let (_, h4) =
      require-eq-ok (not (profile == "english") || or_nothing tags == "en" ∷ []) manifest_error _
        h3 in
    subst (OnOk (BodyOk true ids)) h4
      (record { packs = λ new. absurd cc; languages = λ new. absurd cc; no_packs = λ _. refl })

body-BodyOk :
    (is_old : Bool) (fs : Fields) (ids : List String) (b : Body)
    → (if is_old then parse_profile fs else parse_capabilities fs ids) ≡ ok b
    → BodyOk is_old ids b
body-BodyOk true fs ids b h = parse_profile-BodyOk fs ids b h
body-BodyOk false fs ids b h = parse_capabilities-BodyOk fs ids b h

schema_number_lem : (v : Value) (n : ℕ) → schema_number v ≡ ok n → (n == 1 || n == 2) ≡ true
unfolding schema_number
schema_number_lem v n h = ground (arith, h)

-- The manifest is the trust boundary: what the parser accepts has a safe version that is also its
-- tag, says that it is immutable, carries the digest of its own bytes, and has distinct sources
-- and well-formed components; in schema 2 its packs are well formed and its languages are exactly
-- those that the packs serve, in order, and in schema 1 it has no packs.
pub parse_manifest-ManifestOk :
    (K : Codec) (raw : K.Bytes) (m : DatasetManifest K.Bytes)
    → parse_manifest K raw ≡ ok m
    → ManifestOk K m
unfolding parse_manifest
parse_manifest-ManifestOk K raw m h =
    let (fs, _, h1) = >>=-eq-ok (root_object K (K.loads raw)) _ h in
    let (schema, one_or_two, h2) = >>=-eq-ok (schema_number (get "schema_version" fs)) _ h1 in
    let (version, safe, h3) = >>=-eq-ok (safe_identifier (get "dataset_version" fs)) _ h2 in
    let (release, released, h4) = >>=-eq-ok (parse_release (get "release" fs) version) _ h3 in
    let (sources, sourced, h5) = >>=-eq-ok (parse_sources (get "sources" fs)) _ h4 in
    let (components, listed, h6) =
      >>=-eq-ok (parse_components (get "components" fs) (source_ids_of sources)) _ h5 in
    let (commit, _, h7) = >>=-eq-ok (commit_value (get "transformation_commit" fs)) _ h6 in
    let (body, read, h8) =
      >>=-eq-ok
        (if schema == 1 then parse_profile fs else parse_capabilities fs (ids_of components)) _
        h7 in
    let (created, _, h9) = >>=-eq-ok (string_value (get "created_at" fs)) _ h8 in
    let (tag, immutable) = parse_release_lem (get "release" fs) version release released in
    let good = body-BodyOk (schema == 1) fs (ids_of components) body read in
    subst (OnOk (ManifestOk K)) h9 (record {
      schema = schema_number_lem (get "schema_version" fs) schema one_or_two;
      version_safe = (safe_identifier-eq-ok (get "dataset_version" fs) version safe).1;
      tag = tag;
      immutable = immutable;
      digest = refl;
      sources_once = parse_sources-IsDistinct (get "sources" fs) sources sourced;
      components =
          parse_components-ComponentsOk (get "components" fs) (source_ids_of sources) components
            listed;
      packs = good.packs;
      languages = good.languages;
      no_packs = good.no_packs;
    })

cons_at : (before after : List Pack) (p : Pack) → [] ≡ before ++ p ∷ after → ⊥
cons_at [] after p h = cc
cons_at (q ∷ before) after p h = cc

-- Wherever a pack stands in an accepted manifest, `pack_for` finds it, and no other, for each
-- capability and language that it serves.
pub parse_manifest-pack_for :
    (K : Codec) (raw : K.Bytes) (m : DatasetManifest K.Bytes) (before after : List Pack) (p : Pack)
    (capability language : String)
    → parse_manifest K raw ≡ ok m
    → m.packs ≡ before ++ p ∷ after
    → serves capability language p ≡ true
    → pack_for m capability language ≡ some p
unfolding pack_for
parse_manifest-pack_for K raw m before after p c l h e s =
    elim (Bool-cases (m.schema_version == 1)) [
      | inl old ↦
          absurd
            (cons_at before after p (sym ((parse_manifest-ManifestOk K raw m h).no_packs old) ∙ e))
      | inr new ↦
          ap (find (serves c l)) e
          ∙ find-serves (ids_of m.components) before after p c l
              (subst (PacksOk (ids_of m.components)) e
                ((parse_manifest-ManifestOk K raw m h).packs new))
              s
    ]
