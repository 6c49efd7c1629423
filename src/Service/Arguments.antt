-- ===== src/Service/Arguments.antt =====
-- runtime/service.py and runtime/normalization.py: the checks of the numbers that a caller gives.
-- An argument is a value of JSON; Python's bool is no integer here.
use lexicon_mcp.Prelude.{
  ℕ, ◌*◌, ◌≤◌, ◌&&◌, leb, min, max, Result, ok, err, value_error, ◌>>=◌, ◌>>◌, raise_if, require,
  require-eq-ok, raise_if-eq-ok, ok-injective, >>=-eq-ok, ltb, ◌≡◌, arith,
}
use lexicon_mcp.Json.{Value, int, pos}

abbrev pub as_natural : Value → Result ℕ
as_natural (int (pos n)) = ok n
as_natural _ = err value_error

-- A negative integer is below every minimum that is used.
unfoldable pub validate_bounded_integer : Value → ℕ → ℕ → Result ℕ
validate_bounded_integer value minimum maximum = do
  n ← as_natural value
  require (leb minimum n && leb n maximum) value_error
  ok n

abbrev pub max_query_budget : ℕ
max_query_budget = 100

unfoldable pub validate_fixed_budget : Value → Result ℕ
unfolding validate_bounded_integer
validate_fixed_budget value = validate_bounded_integer value 0 max_query_budget

unfoldable pub validate_allocation : Value → ℕ → Result ℕ
unfolding validate_bounded_integer
validate_allocation value limit = do
  n ← validate_bounded_integer value 0 max_query_budget
  raise_if (ltb limit n) value_error
  ok n

-- `validate_limit`, with `MAX_LIMIT`
unfoldable pub validate_limit : Value → Result ℕ
unfolding validate_bounded_integer
validate_limit value = validate_bounded_integer value 1 100

unfoldable pub relation_scan_limit : ℕ → ℕ
relation_scan_limit limit = min 512 (max 256 (limit * 8))

pub validate_bounded_integer_lem :
    (value : Value) (minimum maximum n : ℕ)
    → validate_bounded_integer value minimum maximum ≡ ok n
    → (minimum ≤ n) × (n ≤ maximum)
unfolding validate_bounded_integer
validate_bounded_integer_lem value minimum maximum n h =
    let (m, _, h1) = >>=-eq-ok (as_natural value) _ h in
    let (within, h2) = require-eq-ok (leb minimum m && leb m maximum) value_error (ok m) h1 in
    let same : m ≡ n = ok-injective h2 in
    (ground (arith, within, same), ground (arith, within, same))

pub validate_limit_lem : (value : Value) (n : ℕ) → validate_limit value ≡ ok n → (1 ≤ n) × (n ≤ 100)
unfolding validate_limit
validate_limit_lem value n h = validate_bounded_integer_lem value 1 100 n h

pub validate_allocation_lem :
    (value : Value) (limit n : ℕ) → validate_allocation value limit ≡ ok n → n ≤ limit
unfolding validate_allocation
validate_allocation_lem value limit n h =
    let (m, _, h1) = >>=-eq-ok (validate_bounded_integer value 0 max_query_budget) _ h in
    let (within, h2) = raise_if-eq-ok (ltb limit m) value_error (ok m) h1 in
    let same : m ≡ n = ok-injective h2 in ground (arith, within, same)
