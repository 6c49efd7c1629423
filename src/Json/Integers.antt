-- ===== src/Json/Integers.antt =====
-- The order of Python's integers.
use lexicon_mcp.Prelude.{Bool, true, false, leb, ◌≡◌, refl, ◌⊎◌, inl, inr, arith}
use lexicon_mcp.Json.{ℤ, pos, negsuc}

-- a ≤ b
abbrev pub int_leb : ℤ → ℤ → Bool
int_leb (pos a) (pos b) = leb a b
int_leb (pos a) (negsuc b) = false
int_leb (negsuc a) (pos b) = true
int_leb (negsuc a) (negsuc b) = leb b a

pub int_leb_total : (a b : ℤ) → (int_leb a b ≡ true) ⊎ (int_leb b a ≡ true)
int_leb_total (pos a) (pos b) = ground arith
int_leb_total (pos a) (negsuc b) = inr refl
int_leb_total (negsuc a) (pos b) = inl refl
int_leb_total (negsuc a) (negsuc b) = ground arith

pub int_leb_antisym : (a b : ℤ) → int_leb a b ≡ true → int_leb b a ≡ true → a ≡ b
int_leb_antisym (pos a) (pos b) h k = ground arith
int_leb_antisym (pos a) (negsuc b) h k = cc
int_leb_antisym (negsuc a) (pos b) h k = cc
int_leb_antisym (negsuc a) (negsuc b) h k = ground arith

pub int_leb_trans : (a b c : ℤ) → int_leb a b ≡ true → int_leb b c ≡ true → int_leb a c ≡ true
int_leb_trans (pos a) (pos b) (pos c) h k = ground arith
int_leb_trans (pos a) (pos b) (negsuc c) h k = cc
int_leb_trans (pos a) (negsuc b) c h k = cc
int_leb_trans (negsuc a) (pos b) (pos c) h k = refl
int_leb_trans (negsuc a) (pos b) (negsuc c) h k = cc
int_leb_trans (negsuc a) (negsuc b) (pos c) h k = refl
int_leb_trans (negsuc a) (negsuc b) (negsuc c) h k = ground arith
