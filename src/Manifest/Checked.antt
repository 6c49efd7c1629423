-- ===== src/Manifest/Checked.antt =====
-- What `_parse_sources` and `_parse_components` guarantee of what they accept.
use lexicon_mcp.Prelude.{
  String, Bool, true, false, ◌==◌, bool_eq, nat_eq, string_eq, list_eq, List, [], ◌∷◌, ◌++◌, map,
  all, contains, append_new, append_new-IsDistinct, IsDistinct, IsDistinct-snoc, ok, manifest_error,
  ◌≡◌, refl, ap, ap₂, sym, ◌∙◌, subst, OnOk, >>=-eq-ok, require-eq-ok, raise_if-eq-ok, arith,
  Bool-cases, inl, inr,
}
use lexicon_mcp.Json.{Value, get, as_object, as_nonempty}
use lexicon_mcp.Text.{id_re, sha256_re}
use lexicon_mcp.Manifest.{PosixPath, Component}
use lexicon_mcp.Manifest.Scalars.{safe_identifier, string_value}
use lexicon_mcp.Manifest.Claims.{all-append}
use lexicon_mcp.Manifest.Payloads.{Contiguous, parse_payload-PayloadOk}
use lexicon_mcp.Manifest.Tags.{safe_identifier-eq-ok}
use lexicon_mcp.Manifest.Paths.{safe_relative_path, path_text}
use lexicon_mcp.Manifest.SafePaths.{safe_relative_path-eq-ok}
use lexicon_mcp.Manifest.Integrity.{parse_integrity}
use lexicon_mcp.Manifest.Components.{
  parse_source_refs, compressions, ComponentState, suffix_matches, parse_payload, parse_component,
  parse_component_list, parse_components,
}

pub record ComponentOk (source_ids : List String) (c : Component) : Type 0 where
  pub id_safe : id_re c.id ≡ true
  pub inside : contains c.path ".." ≡ false
  pub path_named : (path_text c.path == "") ≡ false
  pub known_compression : contains compressions c.compression ≡ true
  pub compressed_digest : sha256_re c.compressed_sha256 ≡ true
  pub final_digest : sha256_re c.final_sha256 ≡ true
  pub parts_contiguous : Contiguous 0 c.parts c.compressed_size
  pub uncompressed :
      (c.compression == "none") ≡ true
      → (c.compressed_size ≡ c.final_size) × (c.compressed_sha256 ≡ c.final_sha256)
  pub sources_known : all (contains source_ids) c.sources ≡ true
  pub sources_once : IsDistinct c.sources
  pub suffix_agrees : suffix_matches c.artifact_type c.path ≡ true

all-append_new :
    (p : String → Bool) (xs : List String) (x : String)
    → all p xs ≡ true
    → p x ≡ true
    → all p (append_new xs x) ≡ true
all-append_new p xs x h k = elim (Bool-cases (contains xs x)) [
  | inl old ↦ rw old h
  | inr new ↦ rw new (all-append p xs (x ∷ []) ∙ ground (arith, h, k))
]

parse_source_refs_lem :
    (ids : List String) (vs : List Value) (acc out : List String)
    → all (contains ids) acc ≡ true
    → IsDistinct acc
    → parse_source_refs ids vs acc ≡ ok out
    → (all (contains ids) out ≡ true) × IsDistinct out
unfolding parse_source_refs
parse_source_refs_lem ids [] acc out k d h =
    subst (OnOk (λ (q : List String). (all (contains ids) q ≡ true) × IsDistinct q)) h (k, d)
parse_source_refs_lem ids (v ∷ vs) acc out k d h =
    let (i, _, h1) = >>=-eq-ok (safe_identifier v) _ h in
    let (known, h2) = require-eq-ok (contains ids i) manifest_error _ h1 in
    parse_source_refs_lem ids vs (append_new acc i) out
      (all-append_new (contains ids) acc i k known) (append_new-IsDistinct acc i d) h2

parse_component-ComponentOk :
    (source_ids : List String) (v : Value) (s : ComponentState) (c : Component)
    → parse_component source_ids v s ≡ ok c
    → ComponentOk source_ids c
      × (contains s.seen_ids c.id ≡ false)
      × (contains s.seen_paths c.path ≡ false)
unfolding parse_component
parse_component-ComponentOk source_ids v s c h =
    let (item, _, h1) = >>=-eq-ok (as_object manifest_error v) _ h in
    let (id, safe, h2) = >>=-eq-ok (safe_identifier (get "id" item)) _ h1 in
    let (new, h3) = raise_if-eq-ok (contains s.seen_ids id) manifest_error _ h2 in
    let (path, relative, h4) = >>=-eq-ok (safe_relative_path (get "path" item)) _ h3 in
    let (new_path, h5) = raise_if-eq-ok (contains s.seen_paths path) manifest_error _ h4 in
    let (payload, stored, h6) = >>=-eq-ok (parse_payload item) _ h5 in
    let (raw_refs, _, h7) = >>=-eq-ok (as_nonempty manifest_error (get "sources" item)) _ h6 in
    let (refs, sourced, h8) = >>=-eq-ok (parse_source_refs source_ids raw_refs []) _ h7 in
    let (artifact_type, _, h9) = >>=-eq-ok (string_value (get "artifact_type" item)) _ h8 in
    let (agrees, h10) = require-eq-ok (suffix_matches artifact_type path) manifest_error _ h9 in
    let (_, _, h11) = >>=-eq-ok (parse_integrity (get "integrity" item) artifact_type) _ h10 in
    let (refs_known, refs_once) =
      parse_source_refs_lem source_ids raw_refs [] refs refl tt sourced in
    let kept = parse_payload-PayloadOk item payload stored in
    subst
      (OnOk (λ (c : Component).
        ComponentOk source_ids c
        × (contains s.seen_ids c.id ≡ false)
        × (contains s.seen_paths c.path ≡ false)))
      h11
      (
        record {
          id_safe = (safe_identifier-eq-ok (get "id" item) id safe).1;
          inside = (safe_relative_path-eq-ok (get "path" item) path relative).0;
          path_named = (safe_relative_path-eq-ok (get "path" item) path relative).1;
          known_compression = kept.known;
          compressed_digest = kept.compressed_digest;
          final_digest = kept.final_digest;
          parts_contiguous = kept.contiguous;
          uncompressed = kept.uncompressed;
          sources_known = refs_known;
          sources_once = refs_once;
          suffix_agrees = agrees;
        },
        new,
        new_path,
      )

abbrev pub AllComponents : List String → List Component → Type 0
AllComponents source_ids [] = Unit
AllComponents source_ids (c ∷ cs) = ComponentOk source_ids c × AllComponents source_ids cs

abbrev pub ids_of : List Component → List String
ids_of = map (λ c. c.id)

abbrev pub paths_of : List Component → List PosixPath
paths_of = map (λ c. c.path)

pub record ComponentsOk (source_ids : List String) (cs : List Component) : Type 0 where
  pub each : AllComponents source_ids cs
  pub ids_once : IsDistinct (ids_of cs)
  pub paths_once : IsDistinct (paths_of cs)

pub map-snoc {ℓ κ} :
    {A : Type ℓ} {B : Type κ} (f : A → B) (xs : List A) (x : A)
    → map f (xs ++ x ∷ []) ≡ map f xs ++ f x ∷ []
map-snoc f [] x = refl
map-snoc f (y ∷ xs) x = ap (◌∷◌ (f y)) (map-snoc f xs x)

AllComponents-snoc :
    (ids : List String) (cs : List Component) (c : Component)
    → AllComponents ids cs
    → ComponentOk ids c
    → AllComponents ids (cs ++ c ∷ [])
AllComponents-snoc ids [] c h k = (k, tt)
AllComponents-snoc ids (d ∷ cs) c h k = (h.0, AllComponents-snoc ids cs c h.1 k)

parse_component_list-ComponentsOk :
    (ids : List String) (vs : List Value) (cs out : List Component)
    → ComponentsOk ids cs
    → parse_component_list ids vs
        (record { parsed = cs; seen_ids = ids_of cs; seen_paths = paths_of cs })
      ≡ ok out
    → ComponentsOk ids out
unfolding parse_component_list
parse_component_list-ComponentsOk ids [] cs out k h = subst (OnOk (ComponentsOk ids)) h k
parse_component_list-ComponentsOk ids (v ∷ vs) cs out k h =
    let s : ComponentState = record {
      parsed = cs;
      seen_ids = ids_of cs;
      seen_paths = paths_of cs;
    } in
    let (c, read, h1) = >>=-eq-ok (parse_component ids v s) _ h in
    let (good, new, new_path) = parse_component-ComponentOk ids v s c read in
    let ids_eq : ids_of (cs ++ c ∷ []) ≡ ids_of cs ++ c.id ∷ [] = map-snoc (λ c. c.id) cs c in
    let paths_eq : paths_of (cs ++ c ∷ []) ≡ paths_of cs ++ c.path ∷ [] =
      map-snoc (λ c. c.path) cs c in
    parse_component_list-ComponentsOk ids vs (cs ++ c ∷ []) out
      (record {
        each = AllComponents-snoc ids cs c k.each good;
        ids_once = subst IsDistinct (sym ids_eq) (IsDistinct-snoc (ids_of cs) c.id k.ids_once new);
        paths_once =
            subst IsDistinct (sym paths_eq)
              (IsDistinct-snoc (paths_of cs) c.path k.paths_once new_path);
      })
      (subst
        (λ (q : List String × List PosixPath).
          parse_component_list ids vs
            (record { parsed = cs ++ c ∷ []; seen_ids = q.0; seen_paths = q.1 })
          ≡ ok out)
        (ap₂ (λ a b. (a, b)) (sym ids_eq) (sym paths_eq)) h1)

-- The components that the parser accepts have distinct ids and paths; the parts of each fill its
-- compressed size without a gap, its path stays inside the root, its digests are SHA-256, a
-- component that is not compressed has one size and one digest, and its sources are known.
pub parse_components-ComponentsOk :
    (v : Value) (ids : List String) (cs : List Component)
    → parse_components v ids ≡ ok cs
    → ComponentsOk ids cs
unfolding parse_components
parse_components-ComponentsOk v ids cs h =
    let (vs, _, h1) = >>=-eq-ok (as_nonempty manifest_error v) _ h in
    parse_component_list-ComponentsOk ids vs [] cs
      (record { each = tt; ids_once = tt; paths_once = tt }) h1
