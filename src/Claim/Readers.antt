-- ===== src/Claim/Readers.antt =====
-- packages/domain/src/claim-protocol.ts: the readers of single fields.
use Prim.Native.Char.{code}
use samurai_sushi.Common.{
  ℕ, zero, suc, ◌+◌, ◌%◌, Bool, true, false, not, ◌&&◌, ◌||◌, String, Option, some, List, [], ◌∷◌,
  length, all, leb, ◌==◌, str_eq, Result, ok, err, ◌>>=◌, ◌>>◌, guard, reject, from_option,
  invalid_claim_protocol, if◌then◌else◌,
}
use samurai_sushi.Json.{Json, obj, Fields, end, field, keys}
use samurai_sushi.Json.Bounds.{js_length}
use samurai_sushi.Json.Text.{◌+++◌}
use samurai_sushi.Json.Shape.{read_nat, read_str}
use samurai_sushi.Commands.Patterns.{
  codes, is_alnum, times, matches, is_uuid_v4, is_uuid_shape, is_base64url, is_content_version,
}
use samurai_sushi.Observation.Finality.{is_base58}
use samurai_sushi.Claim.{Platform, OriginUrl, Cosmetic}

abbrev max_cosmetic_selections : ℕ
max_cosmetic_selections = 64

abbrev pub matching : (String → Bool) → Option Json → Result String
matching test value = do
  s ← read_str invalid_claim_protocol value
  guard (test s) invalid_claim_protocol
  ok s

abbrev pub nonnegative_revision : Option Json → Result ℕ
nonnegative_revision value = read_nat invalid_claim_protocol value

abbrev is_url_char : ℕ → Bool
is_url_char c = is_alnum c || c == b'_' || c == b'-'

-- `/^[A-Za-z0-9_-]{43}$/`.
unfoldable pub is_base64url_32 : String → Bool
is_base64url_32 s = matches (times 43 is_url_char []) (codes s)

abbrev replaced : (from : ℕ) (to : String) → String → String
replaced from to String.[] = ""
replaced from to (String.◌∷◌ c s) =
    let rest = replaced from to s in if code c == from then to +++ rest else String.◌∷◌ c rest

-- `value.replaceAll("-", "+").replaceAll("_", "/")`, and back.
abbrev to_standard : String → String
to_standard s = replaced b'_' "/" (replaced b'-' "+" s)

abbrev to_url : String → String
to_url s = replaced b'/' "_" (replaced b'+' "-" s)

abbrev is_empty : String → Bool
is_empty String.[] = true
is_empty (String.◌∷◌ c s) = false

-- `replace(/=+$/u, "")`.
abbrev without_padding : String → String
without_padding String.[] = ""
without_padding (String.◌∷◌ c s) =
    let rest = without_padding s in
    if code c == b'=' && is_empty rest then "" else String.◌∷◌ c rest

-- `"===".slice((length + 3) % 4)`.
abbrev padding_of : ℕ → String
padding_of zero = "==="
padding_of (suc zero) = "=="
padding_of (suc (suc zero)) = "="
padding_of _ = ""

abbrev padding : String → String
padding s = padding_of ((js_length s + 3) % 4)

abbrev is_idempotency_text : String → Bool
is_idempotency_text s =
    not ((is_uuid_shape s && not (is_uuid_v4 s)) || (not (is_uuid_v4 s) && not (is_base64url s)))

abbrev pub is_secure : OriginUrl → Bool
is_secure url = str_eq url.protocol "https:"

abbrev pub is_loopback : OriginUrl → Bool
is_loopback url =
    str_eq url.protocol "http:"
    && (str_eq url.hostname "localhost" || str_eq url.hostname "127.0.0.1")

abbrev pub is_bare : OriginUrl → Bool
is_bare url =
    str_eq url.username ""
    && str_eq url.password ""
    && str_eq url.pathname "/"
    && str_eq url.search ""
    && str_eq url.hash ""

module _ (platform : Platform) where
  -- The bytes of an unpadded base64url text, if they encode to the same text again.
  abbrev pub canonical_base64url : (padded : String) (value : String) → Result (List ℕ)
  canonical_base64url padded value = do
    bytes ← from_option (platform.atob padded) invalid_claim_protocol
    guard (str_eq (without_padding (to_url (platform.btoa bytes))) value) invalid_claim_protocol
    ok bytes

  abbrev at_least_16_bytes : String → Result (Unit {0})
  at_least_16_bytes s = canonical_base64url (to_standard s +++ padding s) s >>= λ bytes.
      guard (leb 16 (length bytes)) invalid_claim_protocol

  unfoldable pub idempotency_key : Option Json → Result String
  unfolding is_uuid_v4 is_uuid_shape is_base64url
  idempotency_key value = do
    s ← matching is_idempotency_text value
    (if is_uuid_v4 s then ok tt else at_least_16_bytes s)
    ok s

  unfoldable pub base64url_32 : Option Json → Result String
  unfolding is_base64url_32
  base64url_32 value = do
    s ← matching is_base64url_32 value
    bytes ← canonical_base64url (to_standard s +++ "=") s
    guard (length bytes == 32) invalid_claim_protocol
    ok s

  -- A time that is written the way `toISOString` writes it; the time comes with the text.
  unfoldable pub exact_utc_milliseconds : Option Json → Result (String × ℕ)
  exact_utc_milliseconds value = do
    s ← read_str invalid_claim_protocol value
    t ← from_option (platform.parse_time s) invalid_claim_protocol
    guard (str_eq (platform.to_iso_string t) s) invalid_claim_protocol
    ok (s, t)

  unfoldable pub canonical_origin : Option Json → Result String
  canonical_origin value = do
    s ← read_str invalid_claim_protocol value
    url ← from_option (platform.parse_url s) invalid_claim_protocol
    guard ((is_secure url || is_loopback url) && is_bare url && str_eq url.origin s)
        invalid_claim_protocol
    ok s

abbrev pub content_version : Option Json → Result String
content_version value = matching is_content_version value

abbrev is_lower : ℕ → Bool
is_lower c = leb b'a' c && leb c b'z'

abbrev is_lower_alnum : ℕ → Bool
is_lower_alnum c = is_lower c || (leb b'0' c && leb c b'9')

-- The rest of `/^[a-z][a-z0-9]*(?:-[a-z0-9]+)*$/`; the flag says that a character must follow, after a dash.
abbrev cosmetic_rest : Bool → List ℕ → Bool
cosmetic_rest true [] = false
cosmetic_rest false [] = true
cosmetic_rest true (c ∷ cs) = is_lower_alnum c && cosmetic_rest false cs
cosmetic_rest false (c ∷ cs) = (is_lower_alnum c || c == b'-') && cosmetic_rest (c == b'-') cs

abbrev cosmetic_codes : List ℕ → Bool
cosmetic_codes [] = false
cosmetic_codes (c ∷ cs) = is_lower c && cosmetic_rest false cs

unfoldable pub is_cosmetic_identifier : String → Bool
is_cosmetic_identifier s = leb (js_length s) 64 && cosmetic_codes (codes s)

abbrev is_reserved : String → Bool
is_reserved s = str_eq s "__proto__" || str_eq s "constructor" || str_eq s "prototype"

abbrev read_cosmetic : String → Json → Result Cosmetic
read_cosmetic key value = do
  reject (is_reserved key || not (is_cosmetic_identifier key)) invalid_claim_protocol
  option ← matching is_cosmetic_identifier (some value)
  ok (record { key = key; option = option })

abbrev read_cosmetics : Fields → Result (List Cosmetic)
read_cosmetics end = ok []
read_cosmetics (field key value fs) =
    read_cosmetic key value >>= λ first. read_cosmetics fs >>= λ rest. ok (first ∷ rest)

unfoldable pub cosmetics : Option Json → Result (List Cosmetic)
unfolding is_cosmetic_identifier
cosmetics (some (obj fs)) =
    guard (leb (length (keys fs)) max_cosmetic_selections) invalid_claim_protocol
    >> read_cosmetics fs
cosmetics _ = err invalid_claim_protocol

abbrev is_account_digit : ℕ → Bool
is_account_digit c = leb b'1' c && leb c b'4'

unfoldable pub is_chain_id : String → Bool
is_chain_id s =
    matches ((λ c. c == b'N') ∷ (λ c. c == b'e') ∷ (λ c. c == b't') ∷ times 12 is_base58 [])
      (codes s)

unfoldable pub is_account : String → Bool
is_account s =
    matches ((λ c. c == b't') ∷ (λ c. c == b'z') ∷ is_account_digit ∷ times 33 is_base58 [])
      (codes s)

-- `/^[A-Za-z0-9][A-Za-z0-9_-]{15,127}$/`.
abbrev player_codes : List ℕ → Bool
player_codes [] = false
player_codes (c ∷ cs) =
    is_alnum c && leb 15 (length cs) && leb (length cs) 127 && all is_url_char cs

unfoldable pub is_player_id : String → Bool
is_player_id s = player_codes (codes s)
