-- ===== src/Manifest/Paths.antt =====
-- `safe_relative_path` of data/manifest.py, and what it takes from `PurePosixPath`.
use Prim.Native.String.{◌++◌ as ◌<>◌}
use lexicon_mcp.Prelude.{
  ℕ, String, Char, code, Bool, true, false, ◌&&◌, ◌||◌, not, ◌==◌, nat_eq, string_eq, List, [], ◌∷◌,
  Option, none, some, filter, contains, Result, ok, err, manifest_error, if◌then◌else◌, ◌>>◌,
  raise_if,
}
use lexicon_mcp.Json.{Value, str}
use lexicon_mcp.Manifest.{PosixPath}

abbrev pub has_char : ℕ → String → Bool
has_char n String.[] = false
has_char n (String.◌∷◌ c s) = code c == n || has_char n s

-- `text.startswith(prefix)`
unfoldable pub starts_with : String → String → Bool
starts_with s String.[] = true
starts_with String.[] (String.◌∷◌ d p) = false
starts_with (String.◌∷◌ c s) (String.◌∷◌ d p) = code c == code d && starts_with s p

-- A character put before the first piece.
abbrev pub add_char : Char → List String → List String
add_char c [] = String.◌∷◌ c String.[] ∷ []
add_char c (p ∷ ps) = String.◌∷◌ c p ∷ ps

-- `text.split(separator)`, for a single character
unfoldable pub split : ℕ → String → List String
split n String.[] = "" ∷ []
split n (String.◌∷◌ c s) =
    let rest = split n s in if code c == n then "" ∷ rest else add_char c rest

-- The parts of `PurePosixPath(value)`: empty pieces and single dots are dropped.
unfoldable pub posix_path : String → PosixPath
unfolding split
posix_path s = filter (λ p. not (p == "" || p == ".")) (split b'/' s)

-- `path.is_absolute()`
abbrev pub is_absolute : String → Bool
is_absolute String.[] = false
is_absolute (String.◌∷◌ c s) = code c == b'/'

unfoldable pub safe_relative_path : Value → Result PosixPath
safe_relative_path (str s) = do
  raise_if (s == "" || (has_char b'\\' s || has_char 0 s)) manifest_error
  raise_if (has_char b':' s) manifest_error
  raise_if (is_absolute s || contains (posix_path s) "..") manifest_error
  ok (posix_path s)
safe_relative_path _ = err manifest_error

-- `str(path)`
abbrev pub path_text : PosixPath → String
path_text [] = "."
path_text (p ∷ []) = p
path_text (p ∷ q ∷ ps) = p <> ("/" <> path_text (q ∷ ps))

-- The text from its last dot on, if it has a dot.
abbrev pub from_last_dot : String → Option String
from_last_dot String.[] = none
from_last_dot (String.◌∷◌ c s) = elim (from_last_dot s) [
  | some t ↦ some t
  | none ↦ if code c == b'.' then some (String.◌∷◌ c s) else none
]

abbrev pub last_part : PosixPath → String
last_part [] = ""
last_part (p ∷ []) = p
last_part (p ∷ q ∷ ps) = last_part (q ∷ ps)

-- `path.suffix`: a dot at the start of the name or at its end begins no suffix.
abbrev pub suffix_of : String → String
suffix_of String.[] = ""
suffix_of (String.◌∷◌ c s) = elim (from_last_dot s) [
  | none ↦ ""
  | some t ↦ if t == "." then "" else t
]

unfoldable pub suffix : PosixPath → String
suffix p = suffix_of (last_part p)
