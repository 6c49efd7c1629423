-- ===== src/Pipeline/Numbers.antt =====
-- The format `:03d`, by which bundles are numbered: a number as its decimal digits, the last digit
-- first, counted up from no digits.
use Prim.Native.String.{◌++◌ as ◌<>◌}
use lexicon_mcp.Prelude.{ℕ, zero, suc, String, List, [], ◌∷◌, ◌==◌, nat_eq, if◌then◌else◌}
use lexicon_mcp.Text.{char_or}

unfoldable pub next_digits : List ℕ → List ℕ
next_digits [] = 1 ∷ []
next_digits (d ∷ ds) = if d == 9 then 0 ∷ next_digits ds else suc d ∷ ds

unfoldable pub digits : ℕ → List ℕ
unfolding next_digits
digits zero = []
digits (suc n) = next_digits (digits n)

-- Zeros in front of fewer than `width` digits.
unfoldable pub pad : ℕ → List ℕ → List ℕ
pad zero ds = ds
pad (suc width) [] = 0 ∷ pad width []
pad (suc width) (d ∷ ds) = d ∷ pad width ds

abbrev pub digit_text : ℕ → String
digit_text d = String.◌∷◌ (char_or "0123456789" d "0") String.[]

unfoldable pub text_of : List ℕ → String
text_of [] = String.[]
text_of (d ∷ ds) = text_of ds <> digit_text d

-- f"{n:03d}"
unfoldable pub three_digits : ℕ → String
unfolding digits pad text_of
three_digits n = text_of (pad 3 (digits n))
