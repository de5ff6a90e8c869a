-- ===== src/Claim/Bytes.antt =====
-- packages/domain/src/claim-protocol.ts: the canonical bytes of a payload, the bytes that a wallet signs, the
-- preimages of the hashes, and the parsers of canonical bytes.
use samurai_sushi.Common.{
  ℕ, true, false, String, List, [], ◌∷◌, ◌++◌, length, leb, str_eq, Result, ok, ◌>>=◌, ◌>>◌, guard,
  from_option, invalid_claim_protocol,
}
use samurai_sushi.Json.{nat, Json, num, bool, str, obj, Fields, field, end}
use samurai_sushi.Json.Text.{canonical_json, ◌+++◌}
use samurai_sushi.Receipt.Pack.Numbers.{u32}
use samurai_sushi.Claim.{
  Platform, Cosmetic, ClaimCommon, ClaimIntent, create_player, existing_player,
  SessionRecoveryIntent, PlayerDeletionIntent, ClaimChallenge,
}
use samurai_sushi.Claim.Preflight.{max_protocol_bytes}
use samurai_sushi.Claim.Parse.{
  challenge_domain, parse_claim_intent, parse_claim_session_recovery_intent,
  parse_player_deletion_intent, parse_claim_challenge,
}

abbrev cosmetic_fields : List Cosmetic → Fields
cosmetic_fields [] = end
cosmetic_fields (c ∷ cs) = field c.key (str c.option) (cosmetic_fields cs)

abbrev common_fields : ClaimCommon → Fields → Fields
common_fields c rest = field "claimId" (str c.claim_id) (
    field "guestClaimCommitment" (str c.guest_claim_commitment) (
      field "guestRevision" (num (nat c.guest_revision)) (
        field "idempotencyKey" (str c.idempotency_key) (
          field "contentVersion" (str c.content_version)
            (field "cosmeticSelections" (obj (cosmetic_fields c.cosmetic_selections)) rest)))))

-- The objects that the parsers return.
abbrev pub claim_intent_json : ClaimIntent → Json
claim_intent_json (create_player common) =
    obj (common_fields common (field "createPlayer" (bool true) end))
claim_intent_json (existing_player common target_player_id player_revision) = obj (
    common_fields common (
      field "targetPlayerId" (str target_player_id) (
        field "createPlayer" (bool false)
          (field "playerRevision" (num (nat player_revision)) end))))

abbrev pub session_recovery_json : SessionRecoveryIntent → Json
session_recovery_json i = obj (
    field "recoverClaimId" (str i.recover_claim_id)
      (field "idempotencyKey" (str i.idempotency_key) end))

abbrev pub player_deletion_json : PlayerDeletionIntent → Json
player_deletion_json i = obj (
    field "deleteClaimId" (str i.delete_claim_id)
      (field "idempotencyKey" (str i.idempotency_key) end))

abbrev pub challenge_json : ClaimChallenge → Json
challenge_json c = obj (
    field "domain" (str challenge_domain) (
      field "schemaVersion" (num (nat 1)) (
        field "origin" (str c.origin) (
          field "chainId" (str c.chain_id) (
            field "account" (str c.account) (
              field "claimIntentHash" (str c.claim_intent_hash) (
                field "nonce" (str c.nonce) (
                  field "issuedAt" (str c.issued_at)
                    (field "expiresAt" (str c.expires_at) end)))))))))

-- The four payloads, each with the domain of its hash.
pub data Payload : Type 0 where
  intent session_recovery player_deletion challenge : Payload

abbrev pub hash_domain : Payload → String
hash_domain intent = "samurai-sushi:claim-intent:v1\n"
hash_domain session_recovery = "samurai-sushi:claim-session-recovery-intent:v1\n"
hash_domain player_deletion = "samurai-sushi:player-deletion-intent:v1\n"
hash_domain challenge = "samurai-sushi:claim-challenge-hash:v1\n"

-- Four bytes, the highest first; `setUint32` writes any length that fits.
abbrev pub length_bytes : List ℕ → Result (List ℕ)
length_bytes bytes = from_option (u32 (length bytes)) invalid_claim_protocol

module _ (platform : Platform) where
  abbrev pub canonical_bytes : Json → Result (List ℕ)
  canonical_bytes value = do
    text ← canonical_json value
    guard (leb (length (platform.utf8 text)) max_protocol_bytes) invalid_claim_protocol
    ok (platform.utf8 text)

  -- `canonicalClaimIntentBytes` and its three kin.
  unfoldable pub canonical_payload_bytes : Payload → Json → Result (List ℕ)
  unfolding parse_claim_intent parse_claim_session_recovery_intent parse_player_deletion_intent
      parse_claim_challenge
  canonical_payload_bytes intent input =
      parse_claim_intent platform input >>= λ parsed. canonical_bytes (claim_intent_json parsed)
  canonical_payload_bytes session_recovery input =
      parse_claim_session_recovery_intent platform input >>= λ parsed.
      canonical_bytes (session_recovery_json parsed)
  canonical_payload_bytes player_deletion input =
      parse_player_deletion_intent platform input >>= λ parsed.
      canonical_bytes (player_deletion_json parsed)
  canonical_payload_bytes challenge input =
      parse_claim_challenge platform input >>= λ parsed. canonical_bytes (challenge_json parsed)

  unfoldable pub wallet_signing_bytes : Json → Result (List ℕ)
  unfolding canonical_payload_bytes
  wallet_signing_bytes input = do
    body ← canonical_payload_bytes challenge input
    size ← length_bytes body
    ok (5 ∷ 1 ∷ size ++ body)

  abbrev pub concat_domain : String → List ℕ → List ℕ
  concat_domain domain bytes = platform.utf8 domain ++ bytes

  -- `claimIntentHashPreimage` and its three kin.
  unfoldable pub hash_preimage : Payload → Json → Result (List ℕ)
  unfolding canonical_payload_bytes
  hash_preimage payload input = canonical_payload_bytes payload input >>= λ bytes.
      ok (concat_domain (hash_domain payload) bytes)

  -- `hashClaimIntent` and its three kin.
  unfoldable pub hash_payload : Payload → Json → Result String
  unfolding hash_preimage
  hash_payload payload input =
      hash_preimage payload input >>= λ preimage. ok ("sha256:" +++ platform.sha256_hex preimage)

  module _ {Parsed : Type 0} (parser : Json → Result Parsed) (print : Parsed → Json) where
    -- `parseCanonicalBytes`; `print` is the object that the parser's result is.
    unfoldable pub parse_canonical_bytes : List ℕ → Result Parsed
    parse_canonical_bytes bytes = do
      guard (leb (length bytes) max_protocol_bytes) invalid_claim_protocol
      text ← from_option (platform.decode_utf8 bytes) invalid_claim_protocol
      input ← from_option (platform.parse_json text) invalid_claim_protocol
      parsed ← parser input
      canonical ← canonical_json (print parsed)
      guard (str_eq canonical text) invalid_claim_protocol
      ok parsed

  unfoldable pub parse_canonical_claim_intent_bytes : List ℕ → Result ClaimIntent
  unfolding parse_canonical_bytes
  parse_canonical_claim_intent_bytes =
      parse_canonical_bytes (parse_claim_intent platform) claim_intent_json

  unfoldable pub parse_canonical_claim_session_recovery_intent_bytes :
      List ℕ → Result SessionRecoveryIntent
  unfolding parse_canonical_bytes
  parse_canonical_claim_session_recovery_intent_bytes =
      parse_canonical_bytes (parse_claim_session_recovery_intent platform) session_recovery_json

  unfoldable pub parse_canonical_player_deletion_intent_bytes : List ℕ → Result PlayerDeletionIntent
  unfolding parse_canonical_bytes
  parse_canonical_player_deletion_intent_bytes =
      parse_canonical_bytes (parse_player_deletion_intent platform) player_deletion_json

  unfoldable pub parse_canonical_claim_challenge_bytes : List ℕ → Result ClaimChallenge
  unfolding parse_canonical_bytes
  parse_canonical_claim_challenge_bytes =
      parse_canonical_bytes (parse_claim_challenge platform) challenge_json
