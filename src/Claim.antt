-- ===== src/Claim.antt =====
-- packages/domain/src/claim-protocol.ts: the payloads by which a guest's progress is claimed by an account,
-- and what the code takes from the platform.
pub mod Preflight
pub mod Readers
pub mod Parse
pub mod Bytes
pub mod Laws
pub mod Domains
use samurai_sushi.Common.{ℕ, Bool, String, Option, List}
use samurai_sushi.Json.{Json}

-- The parts of a parsed URL that the code reads.
pub record OriginUrl : Type 0 where
  pub protocol : String
  pub hostname : String
  pub username : String
  pub password : String
  pub pathname : String
  pub search : String
  pub hash : String
  pub origin : String

-- `TextEncoder`, `TextDecoder`, `JSON.parse`, `atob`, `btoa`, `URL`, `Date` and `crypto.subtle`; `none` where
-- the call throws, or where a date is NaN. A time is a count of milliseconds from the first time that a
-- `Date` holds.
pub record Platform : Type 0 where
  pub utf8 : String → List ℕ
  pub decode_utf8 : List ℕ → Option String
  pub parse_json : String → Option Json
  pub atob : String → Option (List ℕ)
  pub btoa : List ℕ → String
  pub parse_url : String → Option OriginUrl
  pub parse_time : String → Option ℕ
  pub to_iso_string : ℕ → String
  pub sha256_hex : List ℕ → String

pub record Cosmetic : Type 0 where
  pub key : String
  pub option : String

-- What both claim intents have.
pub record ClaimCommon : Type 0 where
  pub claim_id : String
  pub guest_claim_commitment : String
  pub guest_revision : ℕ
  pub idempotency_key : String
  pub content_version : String
  pub cosmetic_selections : List Cosmetic

pub data ClaimIntent : Type 0 where
  create_player : ClaimCommon → ClaimIntent
  existing_player : ClaimCommon → (target_player_id : String) → (player_revision : ℕ) → ClaimIntent

pub record SessionRecoveryIntent : Type 0 where
  pub recover_claim_id : String
  pub idempotency_key : String

pub record PlayerDeletionIntent : Type 0 where
  pub delete_claim_id : String
  pub idempotency_key : String

pub record ClaimChallenge : Type 0 where
  pub origin : String
  pub chain_id : String
  pub account : String
  pub claim_intent_hash : String
  pub nonce : String
  pub issued_at : String
  pub expires_at : String
