-- ===== src/Text.antt =====
-- The regular expressions and string checks of data/manifest.py, on code points.
pub mod Lower
use lexicon_mcp.Prelude.{
  ℕ, zero, suc, ◌+◌, ◌-◌, String, Char, code, Bool, true, false, ◌&&◌, ◌||◌, leb, ◌==◌, nat_eq,
  if◌then◌else◌,
}

abbrev pub is_upper : ℕ → Bool
is_upper c = leb b'A' c && leb c b'Z'

abbrev pub is_lower : ℕ → Bool
is_lower c = leb b'a' c && leb c b'z'

abbrev pub is_digit : ℕ → Bool
is_digit c = leb b'0' c && leb c b'9'

-- [A-Za-z]
abbrev pub is_letter : ℕ → Bool
is_letter c = is_upper c || is_lower c

-- [A-Za-z0-9]
abbrev pub is_alnum : ℕ → Bool
is_alnum c = is_letter c || is_digit c

-- [A-Za-z0-9._-]
abbrev pub is_id_char : ℕ → Bool
is_id_char c = is_alnum c || (c == b'.' || (c == b'_' || c == b'-'))

-- [0-9a-f]
abbrev pub is_hex : ℕ → Bool
is_hex c = is_digit c || (leb b'a' c && leb c b'f')

-- `text[:n]`
unfoldable pub take_chars : ℕ → String → String
take_chars zero s = String.[]
take_chars (suc n) String.[] = String.[]
take_chars (suc n) (String.◌∷◌ c s) = String.◌∷◌ c (take_chars n s)

-- Exactly `n` characters of a class, and at most `n`.
unfoldable pub run_of : (ℕ → Bool) → ℕ → String → Bool
run_of p zero String.[] = true
run_of p zero (String.◌∷◌ c s) = false
run_of p (suc n) String.[] = false
run_of p (suc n) (String.◌∷◌ c s) = p (code c) && run_of p n s

unfoldable pub up_to : (ℕ → Bool) → ℕ → String → Bool
up_to p n String.[] = true
up_to p zero (String.◌∷◌ c s) = false
up_to p (suc n) (String.◌∷◌ c s) = p (code c) && up_to p n s

-- ^[0-9a-f]{64}$
unfoldable pub sha256_re : String → Bool
unfolding run_of
sha256_re s = run_of is_hex 64 s

-- ^[0-9a-f]{40}$
unfoldable pub commit_re : String → Bool
unfolding run_of
commit_re s = run_of is_hex 40 s

-- ^[A-Za-z0-9][A-Za-z0-9._-]{0,127}$
unfoldable pub id_re : String → Bool
unfolding up_to
id_re String.[] = false
id_re (String.◌∷◌ c s) = is_alnum (code c) && up_to is_id_char 127 s

-- The subtags behind the first: (-[A-Za-z0-9]{1,8})*, `n` characters into a subtag.
unfoldable pub subtags : ℕ → String → Bool
subtags n String.[] = leb 1 n && leb n 8
subtags n (String.◌∷◌ c s) =
    let same = subtags (n + 1) s in
    let next = leb 1 n && (leb n 8 && subtags 0 s) in
    if is_alnum (code c) then same else if code c == b'-' then next else false

-- ^[A-Za-z]{2,8}(?:-[A-Za-z0-9]{1,8})*$, `n` letters into the first subtag
unfoldable pub language_from : ℕ → String → Bool
unfolding subtags
language_from n String.[] = leb 2 n && leb n 8
language_from n (String.◌∷◌ c s) =
    if is_letter (code c)
    then language_from (n + 1) s
    else if code c == b'-'
    then leb 2 n && (leb n 8 && subtags 0 s)
    else false

unfoldable pub language_re : String → Bool
unfolding language_from
language_re s = language_from 0 s

abbrev alphabet : String
alphabet = "abcdefghijklmnopqrstuvwxyz"

-- The character at a place of a text, or `d`.
abbrev pub char_or : String → ℕ → Char → Char
char_or String.[] i d = d
char_or (String.◌∷◌ c s) zero d = c
char_or (String.◌∷◌ c s) (suc i) d = char_or s i d

pub lower_char : Char → Char
lower_char c = if is_upper (code c) then char_or alphabet (code c - b'A') c else c

-- `str.lower` of ASCII text
unfoldable pub lower : String → String
unfolding lower_char
lower String.[] = String.[]
lower (String.◌∷◌ c s) = String.◌∷◌ (lower_char c) (lower s)
