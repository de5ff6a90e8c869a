-- ===== src/Observation/Patterns.antt =====
-- packages/receipt-lifecycle/src/observation.ts: the readers of single values, and the regular expressions as
-- tests of code points.
use samurai_sushi.Common.{
  ℕ, Bool, true, false, ◌&&◌, ◌||◌, String, Option, none, some, List, [], ◌∷◌, length, all, leb,
  ltb, ◌==◌, Result, ok, err, ◌>>=◌, ◌>>◌, guard, observation_invalid,
}
use samurai_sushi.Json.{nat, neg_zero, Json, null, num, str, Fields}
use samurai_sushi.Json.Bounds.{js_length}
use samurai_sushi.Json.Shape.{plain_object, exact_keys}
use samurai_sushi.Json.Canonical.{max_safe_integer}
use samurai_sushi.Commands.Patterns.{codes, is_hex, is_alnum, times, matches}
use samurai_sushi.Observation.Finality.{is_base58}

abbrev pub exact_record : List String → Json → Result Fields
exact_record expected value = plain_object observation_invalid value >>= λ row.
    exact_keys observation_invalid row expected >> ok row

-- `text`; the pattern is a test of the code points.
abbrev pub text : ℕ → (List ℕ → Bool) → Option Json → Result String
text maximum pattern (some (str s)) =
    guard (ltb 0 (js_length s) && leb (js_length s) maximum && pattern (codes s))
      observation_invalid
    >> ok s
text maximum pattern _ = err observation_invalid

-- `natural`; -0 is a safe integer that is not negative, and behaves as 0 from there on.
abbrev pub natural : Option Json → Result ℕ
natural (some (num (nat n))) = guard (leb n max_safe_integer) observation_invalid >> ok n
natural (some (num neg_zero)) = ok 0
natural _ = err observation_invalid

-- A reader of a value that may be `null`.
abbrev pub nullable {ℓ} : {A : Type ℓ} → (Option Json → Result A) → Option Json → Result (Option A)
nullable read (some null) = ok none
nullable read value = read value >>= λ a. ok (some a)

abbrev pub is : ℕ → ℕ → Bool
is expected c = c == expected

abbrev pub is_prefix_digit : ℕ → Bool
is_prefix_digit c = leb b'1' c && leb c b'4'

abbrev pub block_hash_pattern : List ℕ → Bool
block_hash_pattern cs = leb 16 (length cs) && leb (length cs) 96 && all is_base58 cs

abbrev pub hex32_pattern : List ℕ → Bool
hex32_pattern cs = matches (times 64 is_hex []) cs

abbrev pub account_pattern : List ℕ → Bool
account_pattern cs = matches (is b't' ∷ is b'z' ∷ is_prefix_digit ∷ times 33 is_base58 []) cs

abbrev pub contract_pattern : List ℕ → Bool
contract_pattern cs = matches (is b'K' ∷ is b'T' ∷ is b'1' ∷ times 33 is_base58 []) cs

abbrev pub chain_pattern : List ℕ → Bool
chain_pattern cs = matches (is b'N' ∷ is b'e' ∷ is b't' ∷ times 12 is_base58 []) cs

abbrev pub operation_pattern : List ℕ → Bool
operation_pattern cs = matches (is b'o' ∷ times 50 is_base58 []) cs

abbrev pub is_digit : ℕ → Bool
is_digit c = leb b'0' c && leb c b'9'

abbrev pub is_upper : ℕ → Bool
is_upper c = leb b'A' c && leb c b'Z'

-- `/^[A-Z][A-Z0-9_]{0,63}$/`.
abbrev pub failure_pattern : List ℕ → Bool
failure_pattern [] = false
failure_pattern (c ∷ cs) =
    is_upper c && leb (length cs) 63 && all (λ d. is_upper d || is_digit d || d == b'_') cs

abbrev pub observation_id_pattern : List ℕ → Bool
observation_id_pattern cs =
    leb 1 (length cs)
    && leb (length cs) 128
    && all (λ c. is_alnum c || c == b'.' || c == b'_' || c == b':' || c == b'-') cs

abbrev pub is_lower_alnum : ℕ → Bool
is_lower_alnum c = (leb b'a' c && leb c b'z') || is_digit c

-- The last character is alphanumeric, those before it may also be separators.
abbrev pub version_rest : List ℕ → Bool
version_rest [] = true
version_rest (c ∷ []) = is_lower_alnum c
version_rest (c ∷ cs) = (is_lower_alnum c || c == b'.' || c == b'_' || c == b'-') && version_rest cs

abbrev pub version_pattern : List ℕ → Bool
version_pattern [] = false
version_pattern (c ∷ cs) = is_lower_alnum c && version_rest cs
