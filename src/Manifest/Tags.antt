-- ===== src/Manifest/Tags.antt =====
-- What the checks of identifiers and of language tags guarantee.
use lexicon_mcp.Prelude.{
  String, Bool, true, false, List, [], ◌∷◌, ◌++◌, ◌≡◌, ok, manifest_error, contains, string_eq,
  arith, OnOk, subst, >>=-eq-ok, require-eq-ok, raise_if-eq-ok,
}
use lexicon_mcp.Json.{Value, Fields, null, bool, int, float, str, arr, obj}
use lexicon_mcp.Text.{id_re, sha256_re}
use lexicon_mcp.Manifest.Scalars.{
  safe_identifier, sha256_value, normalize_language, normalize_language_idem, parse_tags, tag_array,
  parse_language_tags,
}
use lexicon_mcp.Manifest.Packs.{parse_pack_languages}

-- Tags in the one form that manifests store.
abbrev pub AreNormal : List String → Type 0
AreNormal [] = Unit
AreNormal (l ∷ ls) = (normalize_language (str l) ≡ ok l) × AreNormal ls

pub safe_identifier-eq-ok :
    (v : Value) (i : String) → safe_identifier v ≡ ok i → (v ≡ str i) × (id_re i ≡ true)
unfolding safe_identifier
safe_identifier-eq-ok (str s) i h = ground arith
safe_identifier-eq-ok null i h = cc
safe_identifier-eq-ok (bool b) i h = cc
safe_identifier-eq-ok (int n) i h = cc
safe_identifier-eq-ok (float x) i h = cc
safe_identifier-eq-ok (arr vs) i h = cc
safe_identifier-eq-ok (obj fs) i h = cc

pub sha256_value-eq-ok : (v : Value) (d : String) → sha256_value v ≡ ok d → sha256_re d ≡ true
unfolding sha256_value
sha256_value-eq-ok (str s) d h = ground arith
sha256_value-eq-ok null d h = cc
sha256_value-eq-ok (bool b) d h = cc
sha256_value-eq-ok (int n) d h = cc
sha256_value-eq-ok (float x) d h = cc
sha256_value-eq-ok (arr vs) d h = cc
sha256_value-eq-ok (obj fs) d h = cc

AreNormal-snoc :
    (ls : List String) (l : String)
    → AreNormal ls
    → normalize_language (str l) ≡ ok l
    → AreNormal (ls ++ l ∷ [])
AreNormal-snoc [] l h k = (k, tt)
AreNormal-snoc (m ∷ ls) l h k = (h.0, AreNormal-snoc ls l h.1 k)

parse_tags-AreNormal :
    (vs : List Value) (acc out : List String)
    → AreNormal acc
    → parse_tags vs acc ≡ ok out
    → AreNormal out
unfolding parse_tags
parse_tags-AreNormal [] acc out k h = subst (OnOk AreNormal) h k
parse_tags-AreNormal (v ∷ vs) acc out k h =
    let (t, e, h1) = >>=-eq-ok (normalize_language v) _ h in
    let (_, h2) = raise_if-eq-ok (contains acc t) manifest_error _ h1 in
    parse_tags-AreNormal vs (acc ++ t ∷ []) out
      (AreNormal-snoc acc t k (normalize_language_idem v t e)) h2

pub parse_language_tags-AreNormal :
    (allow_empty : Bool) (v : Value) (out : List String)
    → parse_language_tags allow_empty v ≡ ok out
    → AreNormal out
unfolding parse_language_tags
parse_language_tags-AreNormal allow_empty v out h =
    let (vs, _, h1) = >>=-eq-ok (tag_array allow_empty v) _ h in
    parse_tags-AreNormal vs [] out tt h1

pub parse_pack_languages-AreNormal :
    (item : Fields) (is_core required : Bool) (out : List String)
    → parse_pack_languages item is_core required ≡ ok out
    → AreNormal out
unfolding parse_pack_languages
parse_pack_languages-AreNormal item true required out h =
    let (_, h1) = require-eq-ok required manifest_error _ h in
    parse_language_tags-AreNormal true _ out h1
parse_pack_languages-AreNormal item false required out h =
    parse_language_tags-AreNormal false _ out h
