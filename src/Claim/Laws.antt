-- ===== src/Claim/Laws.antt =====
-- What the bytes of packages/domain/src/claim-protocol.ts say of the payload that they carry.
use samurai_sushi.Common.{
  ℕ, ◌/◌, ◌%◌, ◌≤◌, ◌≡◌, refl, sym, ap, ◌∙◌, ◌⊎◌, String, some, List, [], ◌∷◌, ◌++◌, length, leb,
  leb→le, le→leb, str_eq, eq_iff, Result, ok, >>=-eq-ok, >>-eq-ok, guard, guard-eq-ok, from_option,
  from_option-some, ok_injective, subst, arith, invalid_claim_protocol,
}
use samurai_sushi.Json.{Json}
use samurai_sushi.Json.Text.{canonical_json}
use samurai_sushi.Receipt.Pack.Numbers.{u32, read_u32, read_u32-u32}
use samurai_sushi.Claim.{Platform}
use samurai_sushi.Claim.Preflight.{max_protocol_bytes}
use samurai_sushi.Claim.Parse.{parse_claim_challenge}
use samurai_sushi.Claim.Bytes.{
  challenge, challenge_json, canonical_payload_bytes, wallet_signing_bytes, parse_canonical_bytes,
}

u32_fits : (n : ℕ) → n ≤ 65536 → (size : List ℕ) × (u32 n ≡ some size)
unfolding u32
u32_fits n h = (
  n / 16777216 ∷ n / 65536 % 256 ∷ n / 256 % 256 ∷ n % 256 ∷ [],
  rw (le→leb n 4294967295 (omega arith)) refl,
)

module _ (platform : Platform) where
  challenge_bytes_short :
      (input : Json) {body : List ℕ}
      → canonical_payload_bytes platform challenge input ≡ ok body
      → length body ≤ 65536
  unfolding canonical_payload_bytes
  challenge_bytes_short input h =
      let (parsed, _, h1) = >>=-eq-ok (parse_claim_challenge platform input) _ h in
      let (text, _, h2) = >>=-eq-ok (canonical_json (challenge_json parsed)) _ h1 in
      let (fits, h3) =
        >>-eq-ok
          (guard (leb (length (platform.utf8 text)) max_protocol_bytes) invalid_claim_protocol) _
          h2 in
      subst (λ bytes. length bytes ≤ 65536) (ok_injective h3)
        (leb→le (length (platform.utf8 text)) max_protocol_bytes (guard-eq-ok _ _ fits))

  -- For a challenge that has canonical bytes, the bytes that a wallet signs exist: they are 5 and 1, then the
  -- length and those bytes, and reading the length gives it back with exactly those bytes.
  pub wallet_signing_bytes-read_u32 :
      (input : Json) {body : List ℕ}
      → canonical_payload_bytes platform challenge input ≡ ok body
      → (rest : List ℕ) × (wallet_signing_bytes platform input ≡ ok (5 ∷ 1 ∷ rest))
        × (read_u32 rest ≡ some (length body, body))
  unfolding wallet_signing_bytes
  wallet_signing_bytes-read_u32 input {body} h =
      let (size, sized) = u32_fits (length body) (challenge_bytes_short input h) in
      (size ++ body, rw h (rw sized refl), read_u32-u32 (length body) body sized)

  -- The bytes of a text, with or without the byte order mark that `TextDecoder` drops.
  abbrev pub Written : List ℕ → String → Type 0
  Written bytes text = (bytes ≡ platform.utf8 text) ⊎ (bytes ≡ 239 ∷ 187 ∷ 191 ∷ platform.utf8 text)

  module _ {Parsed : Type 0} (parser : Json → Result Parsed) (print : Parsed → Json) where
    canonical_text :
        (bytes : List ℕ) {parsed : Parsed}
        → parse_canonical_bytes platform parser print bytes ≡ ok parsed
        → (text : String) × (platform.decode_utf8 bytes ≡ some text)
          × (canonical_json (print parsed) ≡ ok text)
    unfolding parse_canonical_bytes
    canonical_text bytes h =
        let (_, h1) =
          >>-eq-ok (guard (leb (length bytes) max_protocol_bytes) invalid_claim_protocol) _ h in
        let (text, decoded, h2) =
          >>=-eq-ok (from_option (platform.decode_utf8 bytes) invalid_claim_protocol) _ h1 in
        let (input, _, h3) =
          >>=-eq-ok (from_option (platform.parse_json text) invalid_claim_protocol) _ h2 in
        let (parsed, _, h4) = >>=-eq-ok (parser input) _ h3 in
        let (canonical, printed, h5) = >>=-eq-ok (canonical_json (print parsed)) _ h4 in
        let (same, h6) = >>-eq-ok (guard (str_eq canonical text) invalid_claim_protocol) _ h5 in
        let agreed = guard-eq-ok (str_eq canonical text) invalid_claim_protocol same in
        let equal : canonical ≡ text = ground (arith, eq_iff canonical text) in
        (
          text,
          from_option-some _ _ decoded,
          ap (λ p. canonical_json (print p)) (sym (ok_injective h6)) ∙ printed ∙ ap ok equal,
        )

    -- Where the decoder gives only the text that its bytes encode, after a byte order mark or without one, two
    -- byte strings that are accepted as canonical with the same result encode the same text, each with or
    -- without the mark: the encoding of a payload is unique up to a leading mark.
    pub parse_canonical_bytes-Written :
        ((bytes : List ℕ) (text : String)
          → platform.decode_utf8 bytes ≡ some text
          → Written bytes text)
        → (first second : List ℕ) {parsed : Parsed}
        → parse_canonical_bytes platform parser print first ≡ ok parsed
        → parse_canonical_bytes platform parser print second ≡ ok parsed
        → (text : String) × (canonical_json (print parsed) ≡ ok text)
          × Written first text
          × Written second text
    parse_canonical_bytes-Written decodes first second h k =
        let (text, decoded, printed) = canonical_text first h in
        let (other, decoded_too, printed_too) = canonical_text second k in
        let same : other ≡ text = ok_injective (sym printed_too ∙ printed) in
        (
          text,
          printed,
          decodes first text decoded,
          subst (Written second) same (decodes second other decoded_too),
        )
