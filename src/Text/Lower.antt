-- ===== src/Text/Lower.antt =====
-- `lower` on the texts that the language pattern accepts.
use lexicon_mcp.Prelude.{
  ℕ, zero, suc, ◌+◌, ◌-◌, ◌<◌, String, Char, code, ◌≡◌, refl, ap₂, ◌∙◌, Bool, true, ◌&&◌, ◌==◌,
  nat_eq, if◌then◌else◌, arith, Char-path, Bool-cases, inl, inr,
}
use lexicon_mcp.Text.{
  is_upper, is_letter, is_alnum, subtags, language_from, language_re, char_or, alphabet, lower_char,
  lower,
}

all_below : ℕ → (ℕ → Bool) → Bool
all_below zero p = true
all_below (suc n) p = p n && all_below n p

all_below_sound : (n : ℕ) (p : ℕ → Bool) (i : ℕ) → all_below n p ≡ true → i < n → p i ≡ true
unfolding all_below
all_below_sound zero p i h lt = absurd (omega arith)
all_below_sound (suc n) p i h lt = ground (arith, all_below_sound n p i)

alphabet_table : (d : Char) → all_below 26 (λ i. code (char_or alphabet i d) == b'a' + i) ≡ true
unfolding all_below
alphabet_table d = refl

code-alphabet : (i : ℕ) (d : Char) → i < 26 → code (char_or alphabet i d) ≡ b'a' + i
code-alphabet i d h =
    (nat_eq.beq_iff _ _).0
      (all_below_sound 26 (λ j. code (char_or alphabet j d) == b'a' + j) i (alphabet_table d) h)

pub code-lower_char :
    (c : Char) → code (lower_char c) ≡ (if is_upper (code c) then code c + 32 else code c)
unfolding lower_char
code-lower_char c = elim (Bool-cases (is_upper (code c))) [
  | inl up ↦ rw up (code-alphabet (code c - b'A') c (ground (arith, up)) ∙ ground (arith, up))
  | inr low ↦ rw low
]

lower_char_idem : (c : Char) → lower_char (lower_char c) ≡ lower_char c
lower_char_idem c =
    Char-path _ _ (ground (arith, code-lower_char (lower_char c), code-lower_char c))

-- Lowering a lowered text changes nothing.
pub lower_idem : (s : String) → lower (lower s) ≡ lower s
unfolding lower
lower_idem String.[] = refl
lower_idem (String.◌∷◌ c s) = ap₂ String.◌∷◌ (lower_char_idem c) (lower_idem s)

-- What the patterns ask of a character does not depend on its case.
is_letter-lower_char : (c : Char) → is_letter (code (lower_char c)) ≡ is_letter (code c)
is_letter-lower_char c = ground (arith, code-lower_char c)

is_alnum-lower_char : (c : Char) → is_alnum (code (lower_char c)) ≡ is_alnum (code c)
is_alnum-lower_char c = ground (arith, code-lower_char c)

dash-lower_char : (c : Char) → (code (lower_char c) == b'-') ≡ (code c == b'-')
dash-lower_char c = ground (arith, code-lower_char c)

subtags-lower : (s : String) (n : ℕ) → subtags n (lower s) ≡ subtags n s
unfolding subtags lower
subtags-lower String.[] n = refl
subtags-lower (String.◌∷◌ c s) n =
    rw (is_alnum-lower_char c, dash-lower_char c, subtags-lower s (n + 1), subtags-lower s 0)

language_from-lower : (s : String) (n : ℕ) → language_from n (lower s) ≡ language_from n s
unfolding language_from lower
language_from-lower String.[] n = refl
language_from-lower (String.◌∷◌ c s) n =
    rw (is_letter-lower_char c, dash-lower_char c, language_from-lower s (n + 1), subtags-lower s 0)

-- A lowered text matches the language pattern exactly if the text does.
pub language_re-lower : (s : String) → language_re (lower s) ≡ language_re s
unfolding language_re
language_re-lower s = language_from-lower s 0
