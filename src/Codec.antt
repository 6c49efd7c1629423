-- ===== src/Codec.antt =====
-- What the data layer takes from `hashlib`, `json` and `str`, over an abstract type of bytes.
use lexicon_mcp.Prelude.{ℕ, String, ◌≡◌, ◌↔◌, Bool, true, Option, some}
use lexicon_mcp.Json.{Value, sort_keys}
use lexicon_mcp.Text.{sha256_re}

pub record Codec : Type 1 where
  pub Bytes : Type 0
  -- `str.encode`
  pub encode : String → Bytes
  -- `json.loads`, with `none` for bytes that are no JSON
  pub loads : Bytes → Option Value
  -- `json.dumps(…, sort_keys=True).encode()`
  pub dumps : Value → Bytes
  -- `hashlib.sha256(…).hexdigest()`
  pub sha256 : Bytes → String
  -- `str` of a value that is no string
  pub text_of : Value → String
  -- `len` of bytes, as `stat` gives it for a file
  pub size : Bytes → ℕ
  -- whether two files hold the same
  pub same_bytes : Bytes → Bytes → Bool
  pub loads-dumps : (v : Value) → loads (dumps v) ≡ some (sort_keys v)
  pub sha256-digest : (b : Bytes) → sha256_re (sha256 b) ≡ true
  pub same_bytes_iff : (a b : Bytes) → (same_bytes a b ≡ true) ↔ (a ≡ b)
