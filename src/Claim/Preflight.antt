-- ===== src/Claim/Preflight.antt =====
-- packages/domain/src/claim-protocol.ts: `preflight`, which walks an unknown value before it is encoded, and
-- `detachedObject`. Every failure is the same error, so that the tests of one node stand together.
use samurai_sushi.Common.{
  ℕ, zero, suc, ◌+◌, Bool, true, false, ◌&&◌, String, List, [], ◌∷◌, ◌++◌, length, leb, Result, ok,
  err, ◌>>=◌, ◌>>◌, guard, invalid_claim_protocol,
}
use samurai_sushi.Json.{
  nat, neg, neg_zero, fraction, infinite, JsNumber, Json, num, str, arr, obj, Fields, end, field,
  list_of, keys,
}
use samurai_sushi.Json.Unicode.{utf16, assert_valid_unicode}
use samurai_sushi.Json.Canonical.{canonicalize, max_safe_integer}
use samurai_sushi.Json.Text.{canonical_json}
use samurai_sushi.Json.Shape.{plain_object}
use samurai_sushi.Claim.{Platform}

abbrev pub max_protocol_bytes : ℕ
max_protocol_bytes = 65536

abbrev max_string_bytes : ℕ
max_string_bytes = 49152

abbrev max_nodes : ℕ
max_nodes = 1024

abbrev max_depth : ℕ
max_depth = 32

abbrev max_object_properties : ℕ
max_object_properties = 128

abbrev max_array_length : ℕ
max_array_length = 256

abbrev accepted : Result (Unit {0}) → Bool
accepted (ok done) = true
accepted (err e) = false

-- `assertUnicode`, whose loop is the one of `assertValidUnicode`.
unfoldable pub is_unicode : String → Bool
unfolding assert_valid_unicode
is_unicode s = accepted (assert_valid_unicode (utf16 s))

-- `-(n + 1)` is safe when `n + 1` is.
abbrev integer_fits : JsNumber → Bool
integer_fits (nat n) = leb n max_safe_integer
integer_fits (neg n) = leb (n + 1) max_safe_integer
integer_fits neg_zero = false
integer_fits (fraction s) = false
integer_fits infinite = false

abbrev names_fit : List String → Bool
names_fit [] = true
names_fit (s ∷ ss) = is_unicode s && names_fit ss

-- The names of an array are its indices and its length.
abbrev node_fits : Json → Bool
node_fits (str s) = is_unicode s
node_fits (num n) = integer_fits n
node_fits (arr js) =
    leb (length (list_of js) + 1) max_object_properties
    && leb (length (list_of js)) max_array_length
node_fits (obj fs) = leb (length (keys fs)) max_object_properties && names_fit (keys fs)
node_fits _ = true

abbrev values_of : Fields → List Json
values_of end = []
values_of (field k j fs) = j ∷ values_of fs

abbrev pub children_of : Json → List Json
children_of (arr js) = list_of js
children_of (obj fs) = values_of fs
children_of _ = []

abbrev frames : ℕ → List Json → List (Json × ℕ)
frames depth [] = []
frames depth (j ∷ js) = (j, depth) ∷ frames depth js

module _ (platform : Platform) where
  abbrev pub byte_length : String → ℕ
  byte_length s = length (platform.utf8 s)

  abbrev names_bytes : List String → ℕ
  names_bytes [] = 0
  names_bytes (s ∷ ss) = byte_length s + names_bytes ss

  -- The bytes that a node adds to the count, which only grows.
  abbrev node_bytes : Json → ℕ
  node_bytes (str s) = byte_length s
  node_bytes (obj fs) = names_bytes (keys fs)
  node_bytes _ = 0

  -- The loop; the first argument is how many more nodes the count allows, the second the bytes so far. The
  -- first child is on top of the stack.
  unfoldable pub walk_protocol : ℕ → ℕ → List (Json × ℕ) → Bool
  unfolding is_unicode
  walk_protocol budget bytes [] = true
  walk_protocol zero bytes (_ ∷ _) = false
  walk_protocol (suc budget) bytes ((j, depth) ∷ stack) =
      leb depth max_depth
      && node_fits j
      && leb (bytes + node_bytes j) max_string_bytes
      && walk_protocol budget (bytes + node_bytes j) (frames (depth + 1) (children_of j) ++ stack)

  unfoldable pub preflight : Json → Result (Unit {0})
  unfolding walk_protocol
  preflight input = guard (walk_protocol max_nodes 0 ((input, 0) ∷ [])) invalid_claim_protocol

  -- Any failure of the encoder becomes the protocol's.
  abbrev as_protocol_error {ℓ} : {A : Type ℓ} → Result A → Result A
  as_protocol_error (err e) = err invalid_claim_protocol
  as_protocol_error (ok value) = ok value

  unfoldable pub detached_object : Json → Result Fields
  unfolding preflight
  detached_object input = do
    preflight input
    encoded ← as_protocol_error (canonical_json input)
    guard (leb (byte_length encoded) max_protocol_bytes) invalid_claim_protocol
    detached ← as_protocol_error (canonicalize input)
    plain_object invalid_claim_protocol detached
