-- ===== src/Claim/Parse.antt =====
-- packages/domain/src/claim-protocol.ts: the parsers of the three intents and of the challenge.
use samurai_sushi.Common.{
  ℕ, ◌+◌, Bool, ◌&&◌, String, Option, some, List, [], ◌∷◌, ◌==◌, Result, ok, err, ◌>>=◌, ◌>>◌,
  guard, invalid_claim_protocol, if◌then◌else◌,
}
use samurai_sushi.Json.{Json, bool, Fields, get}
use samurai_sushi.Json.Shape.{exact_keys, is_str, is_nat}
use samurai_sushi.Commands.Patterns.{is_uuid_v4, is_sha256}
use samurai_sushi.Claim.{
  Platform, ClaimCommon, ClaimIntent, create_player, existing_player, SessionRecoveryIntent,
  PlayerDeletionIntent, ClaimChallenge,
}
use samurai_sushi.Claim.Preflight.{detached_object}
use samurai_sushi.Claim.Readers.{
  matching, nonnegative_revision, idempotency_key, base64url_32, exact_utc_milliseconds,
  canonical_origin, content_version, cosmetics, is_chain_id, is_account, is_player_id,
}

abbrev pub challenge_domain : String
challenge_domain = "samurai-sushi:guest-claim:v1"

abbrev pub challenge_lifetime_ms : ℕ
challenge_lifetime_ms = 300000

abbrev read_bool : Option Json → Result Bool
read_bool (some (bool b)) = ok b
read_bool _ = err invalid_claim_protocol

abbrev create_keys : List String
create_keys =
    "claimId" ∷ "guestClaimCommitment" ∷ "createPlayer" ∷ "guestRevision" ∷ "idempotencyKey"
    ∷ "contentVersion" ∷ "cosmeticSelections" ∷ []

abbrev existing_keys : List String
existing_keys =
    "claimId" ∷ "guestClaimCommitment" ∷ "targetPlayerId" ∷ "createPlayer" ∷ "guestRevision"
    ∷ "playerRevision" ∷ "idempotencyKey" ∷ "contentVersion" ∷ "cosmeticSelections" ∷ []

abbrev pub challenge_keys : List String
challenge_keys =
    "domain" ∷ "schemaVersion" ∷ "origin" ∷ "chainId" ∷ "account" ∷ "claimIntentHash" ∷ "nonce"
    ∷ "issuedAt" ∷ "expiresAt" ∷ []

module _ (platform : Platform) where
  abbrev read_common : Fields → Result ClaimCommon
  read_common intent = do
    claim_id ← matching is_uuid_v4 (get intent "claimId")
    guest_claim_commitment ← base64url_32 platform (get intent "guestClaimCommitment")
    guest_revision ← nonnegative_revision (get intent "guestRevision")
    key ← idempotency_key platform (get intent "idempotencyKey")
    version ← content_version (get intent "contentVersion")
    cosmetic_selections ← cosmetics (get intent "cosmeticSelections")
    ok (record {
      claim_id = claim_id;
      guest_claim_commitment = guest_claim_commitment;
      guest_revision = guest_revision;
      idempotency_key = key;
      content_version = version;
      cosmetic_selections = cosmetic_selections;
    })

  abbrev read_target : Fields → ClaimCommon → Result ClaimIntent
  read_target intent common = do
    target_player_id ← matching is_player_id (get intent "targetPlayerId")
    player_revision ← nonnegative_revision (get intent "playerRevision")
    ok (existing_player common target_player_id player_revision)

  unfoldable pub parse_claim_intent : Json → Result ClaimIntent
  unfolding detached_object idempotency_key base64url_32 cosmetics is_player_id
  parse_claim_intent input = do
    intent ← detached_object platform input
    creates ← read_bool (get intent "createPlayer")
    exact_keys invalid_claim_protocol intent (if creates then create_keys else existing_keys)
    common ← read_common intent
    if creates then ok (create_player common) else read_target intent common

  unfoldable pub parse_claim_session_recovery_intent : Json → Result SessionRecoveryIntent
  unfolding detached_object idempotency_key
  parse_claim_session_recovery_intent input = do
    intent ← detached_object platform input
    exact_keys invalid_claim_protocol intent ("recoverClaimId" ∷ "idempotencyKey" ∷ [])
    recover_claim_id ← matching is_uuid_v4 (get intent "recoverClaimId")
    key ← idempotency_key platform (get intent "idempotencyKey")
    ok (record { recover_claim_id = recover_claim_id; idempotency_key = key })

  unfoldable pub parse_player_deletion_intent : Json → Result PlayerDeletionIntent
  unfolding detached_object idempotency_key
  parse_player_deletion_intent input = do
    intent ← detached_object platform input
    exact_keys invalid_claim_protocol intent ("deleteClaimId" ∷ "idempotencyKey" ∷ [])
    delete_claim_id ← matching is_uuid_v4 (get intent "deleteClaimId")
    key ← idempotency_key platform (get intent "idempotencyKey")
    ok (record { delete_claim_id = delete_claim_id; idempotency_key = key })

  unfoldable pub parse_claim_challenge : Json → Result ClaimChallenge
  unfolding detached_object base64url_32 exact_utc_milliseconds canonical_origin is_chain_id
      is_account is_sha256
  parse_claim_challenge input = do
    challenge ← detached_object platform input
    exact_keys invalid_claim_protocol challenge challenge_keys
    guard
        (is_str (get challenge "domain") challenge_domain
          && is_nat (get challenge "schemaVersion") 1)
        invalid_claim_protocol
    chain_id ← matching is_chain_id (get challenge "chainId")
    account ← matching is_account (get challenge "account")
    claim_intent_hash ← matching is_sha256 (get challenge "claimIntentHash")
    issued ← exact_utc_milliseconds platform (get challenge "issuedAt")
    expires ← exact_utc_milliseconds platform (get challenge "expiresAt")
    guard (expires.1 == issued.1 + challenge_lifetime_ms) invalid_claim_protocol
    origin ← canonical_origin platform (get challenge "origin")
    nonce ← base64url_32 platform (get challenge "nonce")
    ok (record {
      origin = origin;
      chain_id = chain_id;
      account = account;
      claim_intent_hash = claim_intent_hash;
      nonce = nonce;
      issued_at = issued.0;
      expires_at = expires.0;
    })
