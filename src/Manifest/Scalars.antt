-- ===== src/Manifest/Scalars.antt =====
-- The checks of single values in data/manifest.py.
use lexicon_mcp.Prelude.{
  ℕ, String, code, Bool, true, false, ◌&&◌, ◌||◌, leb, ◌==◌, nat_eq, List, [], ◌∷◌, ◌++◌, ◌≡◌,
  arith, Result, ok, err, manifest_error, if◌then◌else◌, ◌>>=◌, ◌>>◌, raise_if, contains, string_eq,
}
use lexicon_mcp.Json.{Value, pos, null, bool, int, float, str, arr, obj, nil, cons, values}
use lexicon_mcp.Text.{id_re, sha256_re, language_re, lower}
use lexicon_mcp.Text.Lower.{lower_idem, language_re-lower}

-- The code points that `str.strip` drops.
abbrev pub is_space : ℕ → Bool
is_space c =
    (leb 9 c && leb c 13)
    || ((leb 28 c && leb c 32)
        || (c == 133
            || (c == 160
                || (c == 5760
                    || ((leb 8192 c && leb c 8202)
                        || (c == 8232
                            || (c == 8233 || (c == 8239 || (c == 8287 || c == 12288)))))))))

-- `not value.strip()`
unfoldable pub is_blank : String → Bool
is_blank String.[] = true
is_blank (String.◌∷◌ c s) = is_space (code c) && is_blank s

-- `safe_version` makes the same check
unfoldable pub safe_identifier : Value → Result String
safe_identifier (str s) = if id_re s then ok s else err manifest_error
safe_identifier _ = err manifest_error

unfoldable pub string_value : Value → Result String
string_value (str s) = if is_blank s then err manifest_error else ok s
string_value _ = err manifest_error

unfoldable pub size_value : Value → Result ℕ
size_value (int (pos n)) = ok n
size_value _ = err manifest_error

unfoldable pub is_sha256 : Value → Bool
is_sha256 (str s) = sha256_re s
is_sha256 _ = false

unfoldable pub sha256_value : Value → Result String
sha256_value (str s) = if sha256_re s then ok s else err manifest_error
sha256_value _ = err manifest_error

-- The pattern admits no underscore, so the `replace` in the source changes nothing.
unfoldable pub normalize_language : Value → Result String
normalize_language (str s) = if language_re s then ok (lower s) else err manifest_error
normalize_language _ = err manifest_error

-- A normalized tag normalizes to itself.
pub normalize_language_idem :
    (v : Value) (t : String) → normalize_language v ≡ ok t → normalize_language (str t) ≡ ok t
unfolding normalize_language
normalize_language_idem (str s) t h = ground (arith, language_re-lower s, lower_idem s)
normalize_language_idem null t h = cc
normalize_language_idem (bool b) t h = cc
normalize_language_idem (int n) t h = cc
normalize_language_idem (float x) t h = cc
normalize_language_idem (arr vs) t h = cc
normalize_language_idem (obj fs) t h = cc

-- The loop of `_parse_language_tags`: no tag stands twice.
unfoldable pub parse_tags : List Value → List String → Result (List String)
parse_tags [] parsed = ok parsed
parse_tags (v ∷ vs) parsed =
    let rest = λ (t : String). parse_tags vs (parsed ++ t ∷ []) in
    do t ← normalize_language v; raise_if (contains parsed t) manifest_error; rest t

-- The array that a tag list must be, empty only where that is allowed.
abbrev pub tag_array : Bool → Value → Result (List Value)
tag_array allow_empty (arr nil) = if allow_empty then ok [] else err manifest_error
tag_array allow_empty (arr (cons v vs)) = ok (v ∷ values vs)
tag_array allow_empty _ = err manifest_error

unfoldable pub parse_language_tags : Bool → Value → Result (List String)
unfolding parse_tags
parse_language_tags allow_empty v = do vs ← tag_array allow_empty v; parse_tags vs []
