-- ===== src/Manifest/Origins.antt =====
-- What `_parse_sources` and `_parse_release` guarantee.
use lexicon_mcp.Prelude.{
  String, true, false, ◌&&◌, ◌||◌, ◌==◌, bool_eq, nat_eq, string_eq, list_eq, eq_iff, List, [], ◌∷◌,
  ◌++◌, map, all, length, contains, IsDistinct, IsDistinct-snoc, string_ord, ok, manifest_error,
  ◌≡◌, refl, sym, subst, OnOk, >>=-eq-ok, require-eq-ok, raise_if-eq-ok,
}
use lexicon_mcp.Json.{Value, get, as_object, as_nonempty}
use lexicon_mcp.Text.{id_re}
use lexicon_mcp.Manifest.{Release, Source}
use lexicon_mcp.Manifest.Scalars.{safe_identifier, string_value, size_value, sha256_value}
use lexicon_mcp.Manifest.Paths.{starts_with, split}
use lexicon_mcp.Manifest.Components.{
  optional, is_given, http_value, parse_source, parse_source_list, parse_sources,
}
use lexicon_mcp.Manifest.Checked.{map-snoc}
use lexicon_mcp.Manifest.Parse.{is_true, parse_release}

parse_source-new :
    (seen : List String) (v : Value) (s : Source)
    → parse_source seen v ≡ ok s
    → contains seen s.id ≡ false
unfolding parse_source
parse_source-new seen v s h =
    let (item, _, h1) = >>=-eq-ok (as_object manifest_error v) _ h in
    let (id, _, h2) = >>=-eq-ok (safe_identifier (get "id" item)) _ h1 in
    let (new, h3) = raise_if-eq-ok (contains seen id) manifest_error _ h2 in
    let (_, _, h4) = >>=-eq-ok (optional string_value (get "license_url" item)) _ h3 in
    let (count, _, h5) = >>=-eq-ok (optional size_value (get "row_count" item)) _ h4 in
    let (digest, _, h6) = >>=-eq-ok (optional sha256_value (get "row_digest" item)) _ h5 in
    let (_, h7) = require-eq-ok (is_given count == is_given digest) manifest_error _ h6 in
    let (_, _, h8) = >>=-eq-ok (string_value (get "name" item)) _ h7 in
    let (_, _, h9) = >>=-eq-ok (string_value (get "url" item)) _ h8 in
    let (_, _, h10) = >>=-eq-ok (string_value (get "revision" item)) _ h9 in
    let (_, _, h11) = >>=-eq-ok (string_value (get "retrieved_at" item)) _ h10 in
    let (_, _, h12) = >>=-eq-ok (sha256_value (get "sha256" item)) _ h11 in
    let (_, _, h13) = >>=-eq-ok (size_value (get "size" item)) _ h12 in
    let (_, _, h14) = >>=-eq-ok (string_value (get "license" item)) _ h13 in
    subst (OnOk (λ (s : Source). contains seen s.id ≡ false)) h14 new

abbrev pub source_ids_of : List Source → List String
source_ids_of = map (λ s. s.id)

parse_source_list-IsDistinct :
    (vs : List Value) (ss out : List Source)
    → IsDistinct (source_ids_of ss)
    → parse_source_list vs (source_ids_of ss) ss ≡ ok out
    → IsDistinct (source_ids_of out)
unfolding parse_source_list
parse_source_list-IsDistinct [] ss out d h = subst (OnOk (λ l. IsDistinct (source_ids_of l))) h d
parse_source_list-IsDistinct (v ∷ vs) ss out d h =
    let seen = source_ids_of ss in
    let (s, read, h1) = >>=-eq-ok (parse_source seen v) _ h in
    let e : source_ids_of (ss ++ s ∷ []) ≡ seen ++ s.id ∷ [] = map-snoc (λ s. s.id) ss s in
    parse_source_list-IsDistinct vs (ss ++ s ∷ []) out
      (subst IsDistinct (sym e) (IsDistinct-snoc seen s.id d (parse_source-new seen v s read)))
      (subst (λ l. parse_source_list vs l (ss ++ s ∷ []) ≡ ok out) (sym e) h1)

pub parse_sources-IsDistinct :
    (v : Value) (ss : List Source) → parse_sources v ≡ ok ss → IsDistinct (source_ids_of ss)
unfolding parse_sources
parse_sources-IsDistinct v ss h =
    let (vs, _, h1) = >>=-eq-ok (as_nonempty manifest_error v) _ h in
    parse_source_list-IsDistinct vs [] ss tt h1

pub parse_release_lem :
    (v : Value) (version : String) (r : Release)
    → parse_release v version ≡ ok r
    → (r.tag ≡ version) × (r.immutable ≡ true)
unfolding parse_release
parse_release_lem v version r h =
    let (fs, _, h1) = >>=-eq-ok (as_object manifest_error v) _ h in
    let (repository, _, h2) = >>=-eq-ok (string_value (get "repository" fs)) _ h1 in
    let (_, h3) =
      raise_if-eq-ok (starts_with repository "http://" || starts_with repository "https://")
        manifest_error _ h2 in
    let (_, h4) =
      require-eq-ok (length (split b'/' repository) == 2 && all id_re (split b'/' repository))
        manifest_error _ h3 in
    let (tag, _, h5) = >>=-eq-ok (safe_identifier (get "tag" fs)) _ h4 in
    let (same, h6) = require-eq-ok (tag == version) manifest_error _ h5 in
    let (_, h7) = require-eq-ok (is_true (get "immutable" fs)) manifest_error _ h6 in
    let (_, _, h8) = >>=-eq-ok (optional http_value (get "base_url" fs)) _ h7 in
    subst (OnOk (λ (r : Release). (r.tag ≡ version) × (r.immutable ≡ true))) h8
      ((eq_iff tag version).0 same, refl)
