-- ===== src/Manifest/SafePaths.antt =====
-- What `safe_relative_path` guarantees of the paths that it accepts.
use Prim.Native.String.{◌++◌ as ◌<>◌}
use lexicon_mcp.Prelude.{
  String, false, ◌||◌, not, ◌==◌, string_eq, eq_iff, List, [], ◌∷◌, filter, contains, ok,
  manifest_error, ◌≡◌, refl, ◌∙◌, subst, OnOk, arith, raise_if-eq-ok, Bool-cases, inl, inr, sym,
}
use text.Mathlib.TextLemmas.{cons≢nil, cons-append}
use lexicon_mcp.Json.{Value, null, bool, int, float, str, arr, obj}
use lexicon_mcp.Manifest.{PosixPath}
use lexicon_mcp.Manifest.Paths.{
  has_char, split, posix_path, is_absolute, safe_relative_path, path_text,
}

kept_nonempty :
    (ps : List String) → contains (filter (λ p. not (p == "" || p == ".")) ps) "" ≡ false
kept_nonempty [] = refl
kept_nonempty (p ∷ ps) = ground (arith, kept_nonempty ps)

append_nonempty : (p t : String) → (p == "") ≡ false → ((p <> t) == "") ≡ false
append_nonempty String.[] t h = absurd cc
append_nonempty (String.◌∷◌ c s) t h = elim (Bool-cases ((String.◌∷◌ c s <> t) == "")) [
  | inr named ↦ named
  | inl empty ↦
      absurd (cons≢nil (sym (cons-append c s t) ∙ (eq_iff (String.◌∷◌ c s <> t) "").0 empty))
]

path_text-named : (p : PosixPath) → contains p "" ≡ false → (path_text p == "") ≡ false
path_text-named [] h = refl
path_text-named (p ∷ []) h = ground arith
path_text-named (p ∷ q ∷ ps) h = append_nonempty p ("/" <> path_text (q ∷ ps)) (ground arith)

posix_path-named : (s : String) → (path_text (posix_path s) == "") ≡ false
unfolding posix_path
posix_path-named s = path_text-named (posix_path s) (kept_nonempty (split b'/' s))

-- The path does not climb, and its text is not empty.
pub safe_relative_path-eq-ok :
    (v : Value) (p : PosixPath)
    → safe_relative_path v ≡ ok p
    → (contains p ".." ≡ false) × ((path_text p == "") ≡ false)
unfolding safe_relative_path
safe_relative_path-eq-ok (str s) p h =
    let (_, h1) =
      raise_if-eq-ok (s == "" || (has_char b'\\' s || has_char 0 s)) manifest_error _ h in
    let (_, h2) = raise_if-eq-ok (has_char b':' s) manifest_error _ h1 in
    let (inside, h3) =
      raise_if-eq-ok (is_absolute s || contains (posix_path s) "..") manifest_error _ h2 in
    subst (OnOk (λ q. (contains q ".." ≡ false) × ((path_text q == "") ≡ false))) h3
      (ground (arith, inside), posix_path-named s)
safe_relative_path-eq-ok null p h = cc
safe_relative_path-eq-ok (bool b) p h = cc
safe_relative_path-eq-ok (int n) p h = cc
safe_relative_path-eq-ok (float x) p h = cc
safe_relative_path-eq-ok (arr vs) p h = cc
safe_relative_path-eq-ok (obj fs) p h = cc
