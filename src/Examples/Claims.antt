-- ===== src/Examples/Claims.antt =====
-- The claim protocol over a sample platform: a challenge and its bytes, and the bytes of a deletion.
use samurai_sushi.Common.{
  ℕ, ◌≡◌, refl, ap, ◌∙◌, inl, inr, Bool, true, false, ◌&&◌, and-true, Bool-cases, String, none,
  some, List, [], ◌∷◌, length, ◌==◌, ==→eq, str_eq, Result, ok, if_true, if_false, if◌then◌else◌,
}
use samurai_sushi.Json.Unicode.{assert_valid_unicode}
use samurai_sushi.Json.Canonical.{canonicalize}
use samurai_sushi.Json.Text.{canonical_json}
use samurai_sushi.Commands.Patterns.{codes, is_uuid_v4, is_uuid_shape, is_base64url, is_sha256}
use samurai_sushi.Receipt.Pack.Numbers.{read_u32}
use samurai_sushi.Claim.{Platform, OriginUrl, ClaimChallenge, PlayerDeletionIntent}
use samurai_sushi.Claim.Preflight.{is_unicode, walk_protocol, preflight, detached_object}
use samurai_sushi.Claim.Readers.{
  is_base64url_32, idempotency_key, base64url_32, exact_utc_milliseconds, canonical_origin,
  is_chain_id, is_account,
}
use samurai_sushi.Claim.Parse.{parse_claim_challenge, parse_player_deletion_intent}
use samurai_sushi.Claim.Bytes.{
  challenge, player_deletion, player_deletion_json, challenge_json, canonical_payload_bytes,
  hash_preimage, wallet_signing_bytes, parse_canonical_bytes,
}
use samurai_sushi.Claim.Laws.{wallet_signing_bytes-read_u32, Written, parse_canonical_bytes-Written}
use samurai_sushi.Claim.Domains.{hash_preimage-kind, Promises, parse_claim_challenge-Promises}

abbrev nonce : String
nonce = "AAAAAAAAAAAAAAAAAAAAAAAAAAAAAAAAAAAAAAAAAAA"

abbrev issued : String
issued = "2026-01-01T00:00:00.000Z"

abbrev expires : String
expires = "2026-01-01T00:05:00.000Z"

abbrev key : String
key = "018f47fe-347b-4dac-8f45-a6f3f43b0001"

abbrev deletion : PlayerDeletionIntent
deletion = record { delete_claim_id = key; idempotency_key = key }

abbrev text_or : String → Result String → String
text_or s (ok t) = t
text_or s _ = s

abbrev deletion_text : String
deletion_text =
    "{\"deleteClaimId\":\"018f47fe-347b-4dac-8f45-a6f3f43b0001\",\"idempotencyKey\":\"018f47fe-347b-4dac-8f45-a6f3f43b0001\"}"

abbrev same_codes : List ℕ → List ℕ → Bool
same_codes [] [] = true
same_codes (a ∷ as') (b ∷ bs) = a == b && same_codes as' bs
same_codes _ _ = false

same_codes-eq : (a b : List ℕ) → same_codes a b ≡ true → a ≡ b
same_codes-eq [] [] h = refl
same_codes-eq [] (b ∷ bs) h = cc
same_codes-eq (a ∷ as') [] h = cc
same_codes-eq (a ∷ as') (b ∷ bs) h =
    let (first, rest) = and-true (a == b) (same_codes as' bs) h in
    let head : a ≡ b = ==→eq a b first in let tail : as' ≡ bs = same_codes-eq as' bs rest in cc

abbrev marked : List ℕ
marked = 239 ∷ 187 ∷ 191 ∷ codes deletion_text

abbrev zeros : List ℕ
zeros =
    0 ∷ 0 ∷ 0 ∷ 0 ∷ 0 ∷ 0 ∷ 0 ∷ 0 ∷ 0 ∷ 0 ∷ 0 ∷ 0 ∷ 0 ∷ 0 ∷ 0 ∷ 0 ∷ 0 ∷ 0 ∷ 0 ∷ 0 ∷ 0 ∷ 0 ∷ 0 ∷ 0
    ∷ 0 ∷ 0 ∷ 0 ∷ 0 ∷ 0 ∷ 0 ∷ 0 ∷ 0 ∷ []

abbrev url : OriginUrl
url = record {
  protocol = "https:";
  hostname = "example.test";
  username = "";
  password = "";
  pathname = "/";
  search = "";
  hash = "";
  origin = "https://example.test";
}

abbrev platform : Platform
platform = record {
  utf8 = codes;
  decode_utf8 = λ bytes.
      if same_codes bytes (codes deletion_text)
      then some deletion_text
      else (if same_codes bytes marked then some deletion_text else none);
  parse_json = λ s. some (player_deletion_json deletion);
  atob = λ s. some zeros;
  btoa = λ bytes. "AAAAAAAAAAAAAAAAAAAAAAAAAAAAAAAAAAAAAAAAAAA=";
  parse_url = λ s. some url;
  parse_time = λ s. some (if str_eq s issued then 0 else 300000);
  to_iso_string = λ t. if t == 0 then issued else expires;
  sha256_hex = λ bytes. "";
}

abbrev sample : ClaimChallenge
sample = record {
  origin = "https://example.test";
  chain_id = "Net111111111111";
  account = "tz1111111111111111111111111111111111";
  claim_intent_hash = "sha256:0000000000000000000000000000000000000000000000000000000000000000";
  nonce = nonce;
  issued_at = issued;
  expires_at = expires;
}

unfoldable protocol : Unit {0}
unfolding parse_claim_challenge parse_player_deletion_intent detached_object preflight walk_protocol
    is_unicode assert_valid_unicode canonicalize canonical_json is_base64url_32 idempotency_key
    base64url_32 exact_utc_milliseconds canonical_origin is_chain_id is_account is_sha256 is_uuid_v4
    is_uuid_shape is_base64url canonical_payload_bytes hash_preimage parse_canonical_bytes
protocol = tt

parsed : parse_claim_challenge platform (challenge_json sample) ≡ ok sample
unfolding protocol
parsed = refl

parse_claim_challenge-Promises_example : Promises platform sample
parse_claim_challenge-Promises_example =
    parse_claim_challenge-Promises platform (challenge_json sample) parsed

abbrev bytes_or : Result (List ℕ) → List ℕ
bytes_or (ok bytes) = bytes
bytes_or _ = []

abbrev body : List ℕ
body = bytes_or (canonical_payload_bytes platform challenge (challenge_json sample))

has_bytes : canonical_payload_bytes platform challenge (challenge_json sample) ≡ ok body
unfolding protocol
has_bytes = refl

wallet_signing_bytes-read_u32_example :
    (rest : List ℕ) × (wallet_signing_bytes platform (challenge_json sample) ≡ ok (5 ∷ 1 ∷ rest))
    × (read_u32 rest ≡ some (length body, body))
wallet_signing_bytes-read_u32_example =
    wallet_signing_bytes-read_u32 platform (challenge_json sample) has_bytes

abbrev preimage : List ℕ
preimage = bytes_or (hash_preimage platform player_deletion (player_deletion_json deletion))

has_preimage : hash_preimage platform player_deletion (player_deletion_json deletion) ≡ ok preimage
unfolding protocol
has_preimage = refl

hash_preimage-kind_example : player_deletion ≡ player_deletion
hash_preimage-kind_example =
    hash_preimage-kind platform (λ s h. refl) player_deletion player_deletion
      (player_deletion_json deletion) (player_deletion_json deletion) has_preimage has_preimage

one_text : {s t : String} → some s ≡ some t → s ≡ t
one_text h = cc

no_text : {t : String} → none ≡ some t → ⊥
no_text h = cc

decodes :
    (bytes : List ℕ) (text : String)
    → platform.decode_utf8 bytes ≡ some text
    → Written platform bytes text
decodes bytes text h = elim (Bool-cases (same_codes bytes (codes deletion_text))) [
  | inl e ↦
      inl (same_codes-eq bytes (codes deletion_text) e ∙ ap codes (one_text (if_true _ _ e h)))
  | inr e ↦
      (let h1 = if_false _ _ e h in
        elim (Bool-cases (same_codes bytes marked)) [
          | inl f ↦ inr (
              same_codes-eq bytes marked f
              ∙ ap (λ s. 239 ∷ 187 ∷ 191 ∷ codes s) (one_text (if_true _ _ f h1)))
          | inr f ↦ absurd (no_text (if_false _ _ f h1))
        ])
]

deletion_read :
    parse_canonical_bytes platform
      (parse_player_deletion_intent platform)
      player_deletion_json
      (codes deletion_text)
    ≡ ok deletion
unfolding protocol
deletion_read = refl

-- The byte order mark in front does not hinder the reading.
marked_read :
    parse_canonical_bytes platform
      (parse_player_deletion_intent platform)
      player_deletion_json
      marked
    ≡ ok deletion
unfolding protocol
marked_read = refl

parse_canonical_bytes-Written_example :
    (text : String) × (canonical_json (player_deletion_json deletion) ≡ ok text)
    × Written platform (codes deletion_text) text
    × Written platform marked text
parse_canonical_bytes-Written_example =
    parse_canonical_bytes-Written platform (parse_player_deletion_intent platform)
      player_deletion_json decodes (codes deletion_text) marked deletion_read marked_read
