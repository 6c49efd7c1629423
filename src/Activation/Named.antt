-- ===== src/Activation/Named.antt =====
-- The activation id is a safe identifier: it is the first half of a digest.
use lexicon_mcp.Prelude.{ℕ, zero, suc, ◌≤◌, String, code, true, ◌≡◌, refl, arith, List, nat_eq}
use lexicon_mcp.Text.{is_alnum, is_id_char, is_hex, run_of, up_to, id_re, sha256_re, take_chars}
use lexicon_mcp.Codec.{Codec}
use lexicon_mcp.Activation.Build.{compute_activation_id}

hex_is_alnum : (c : ℕ) → is_hex c ≡ true → is_alnum c ≡ true
hex_is_alnum c h = ground arith

hex_is_id_char : (c : ℕ) → is_hex c ≡ true → is_id_char c ≡ true
hex_is_id_char c h = ground (arith, hex_is_alnum c h)

take_chars-up_to :
    (k n m : ℕ) (s : String)
    → k ≤ n
    → run_of is_hex m s ≡ true
    → up_to is_id_char n (take_chars k s) ≡ true
unfolding up_to take_chars run_of
take_chars-up_to zero zero m s l h = refl
take_chars-up_to zero (suc n) m s l h = refl
take_chars-up_to (suc k) zero m s l h = absurd (omega (arith, l))
take_chars-up_to (suc k) (suc n) m String.[] l h = refl
take_chars-up_to (suc k) (suc n) zero (String.◌∷◌ c s) l h = cc
take_chars-up_to (suc k) (suc n) (suc m) (String.◌∷◌ c s) l h =
    ground (arith, hex_is_id_char (code c), take_chars-up_to k n m s (omega (arith, l)))

take_chars-id_re :
    (k : ℕ) (s : String) → k ≤ 127 → sha256_re s ≡ true → id_re (take_chars (suc k) s) ≡ true
unfolding sha256_re id_re take_chars run_of
take_chars-id_re k String.[] l h = cc
take_chars-id_re k (String.◌∷◌ c s) l h =
    ground (arith, hex_is_alnum (code c), take_chars-up_to k 127 63 s l)

pub compute_activation_id-id_re :
    (K : Codec) (version digest : String) (component_digests : List String)
    → id_re (compute_activation_id K version digest component_digests) ≡ true
unfolding compute_activation_id
compute_activation_id-id_re K version digest ds =
    take_chars-id_re 31 _ (omega arith) (K.sha256-digest _)
