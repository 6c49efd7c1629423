-- ===== src/Manifest/Cases.antt =====
-- `normalize_language`: the text it gives for a language tag.
use lexicon_mcp.Prelude.{
  ℕ, ◌+◌, String, Char, code, Bool, true, false, ◌&&◌, ◌||◌, not, ◌==◌, nat_eq, ◌≡◌, ◌↔◌, refl, ap₂,
  subst, arith, Char-path, ok, Bool-cases, inl, inr,
}
use lexicon_mcp.Json.{str}
use lexicon_mcp.Text.{is_upper, language_re, lower_char, lower}
use lexicon_mcp.Text.Lower.{code-lower_char}
use lexicon_mcp.Manifest.Scalars.{normalize_language}

-- The same character, or the other case of an ASCII letter.
abbrev pub is_same_letter : ℕ → ℕ → Bool
is_same_letter c d = c == d || ((is_upper c && d == c + 32) || (is_upper d && c == d + 32))

abbrev pub differ_in_case : String → String → Bool
differ_in_case String.[] String.[] = true
differ_in_case String.[] (String.◌∷◌ d t) = false
differ_in_case (String.◌∷◌ c s) String.[] = false
differ_in_case (String.◌∷◌ c s) (String.◌∷◌ d t) =
    is_same_letter (code c) (code d) && differ_in_case s t

-- No character is an upper-case ASCII letter.
abbrev pub has_no_upper : String → Bool
has_no_upper String.[] = true
has_no_upper (String.◌∷◌ c s) = not (is_upper (code c)) && has_no_upper s

same_letter-lower_char : (c : Char) → is_same_letter (code c) (code (lower_char c)) ≡ true
same_letter-lower_char c = ground (arith, code-lower_char c)

no_upper-lower_char : (c : Char) → not (is_upper (code (lower_char c))) ≡ true
no_upper-lower_char c = ground (arith, code-lower_char c)

lower_char_only :
    (c d : Char)
    → is_same_letter (code c) (code d) ≡ true
    → not (is_upper (code d)) ≡ true
    → lower_char c ≡ d
lower_char_only c d same low = Char-path _ _ (ground (arith, code-lower_char c, same, low))

lower-differ_in_case : (s : String) → differ_in_case s (lower s) ≡ true
unfolding lower
lower-differ_in_case String.[] = refl
lower-differ_in_case (String.◌∷◌ c s) = rw (same_letter-lower_char c, lower-differ_in_case s)

lower-has_no_upper : (s : String) → has_no_upper (lower s) ≡ true
unfolding lower
lower-has_no_upper String.[] = refl
lower-has_no_upper (String.◌∷◌ c s) = rw (no_upper-lower_char c, lower-has_no_upper s)

lower_only : (s t : String) → differ_in_case s t ≡ true → has_no_upper t ≡ true → lower s ≡ t
unfolding lower
lower_only String.[] String.[] same low = refl
lower_only String.[] (String.◌∷◌ d t) same low = cc
lower_only (String.◌∷◌ c s) String.[] same low = cc
lower_only (String.◌∷◌ c s) (String.◌∷◌ d t) same low =
    ap₂ String.◌∷◌ (lower_char_only c d (ground (arith, same)) (ground (arith, low)))
      (lower_only s t (ground (arith, same)) (ground (arith, low)))

normalize-valid :
    (s t : String) → normalize_language (str s) ≡ ok t → (language_re s ≡ true) × (lower s ≡ t)
unfolding normalize_language
normalize-valid s t e = elim (Bool-cases (language_re s)) [
  | inl valid ↦ (valid, ground arith)
  | inr invalid ↦ ground arith
]

normalize-of :
    (s t : String) → language_re s ≡ true → lower s ≡ t → normalize_language (str s) ≡ ok t
unfolding normalize_language
normalize-of s t valid e = rw (valid, e)

-- A text is normalized exactly if it matches the pattern of a language tag, and its result is the
-- one text that differs from it in the case of ASCII letters only and has no upper-case one.
pub normalize_language_lem :
    (s t : String)
    → (normalize_language (str s) ≡ ok t)
      ↔ ((language_re s ≡ true) × (differ_in_case s t ≡ true) × (has_no_upper t ≡ true))
normalize_language_lem s t = (
  λ e.
      let (valid, same) = normalize-valid s t e in
      (
        valid,
        subst (λ x. differ_in_case s x ≡ true) same (lower-differ_in_case s),
        subst (λ x. has_no_upper x ≡ true) same (lower-has_no_upper s),
      ),
  λ (valid, same, low). normalize-of s t valid (lower_only s t same low),
)
