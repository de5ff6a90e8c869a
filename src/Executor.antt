-- ===== src/Executor.antt =====
-- packages/persistence/src/command-executor.ts, canonical-decision.ts, domain-adapter.ts and the queries of
-- repositories.ts that it makes: the rows of the database that a guest's command reads and writes. A time is
-- a count of milliseconds; the bytes of a hash stand as the text `sha256:…` that they are written as.
pub mod Decision
pub mod Session
pub mod Bounds
pub mod Rows
pub mod Execute
pub mod Responses
pub mod Answered
pub mod Opened
pub mod Inversion
pub mod Once
pub mod Counts
use samurai_sushi.Common.{ℕ, String, Option, List}
use samurai_sushi.Json.{Json}
use samurai_sushi.Outbox.{Delivery}

pub data Slot : Type 0 where
  current predecessor : Slot

-- `VersionedDigest`: a digest of the resume secret under one key.
pub record VersionedDigest : Type 0 where
  pub key_version : ℕ
  pub key_identity : String
  pub digest : String

-- A row of `guest_resume_digests`.
pub record DigestRow : Type 0 where
  pub guest_session_id : String
  pub slot : Slot
  pub key_version : ℕ
  pub key_identity : String
  pub digest : String
  pub valid_until : Option ℕ

-- A row of `guest_sessions`.
pub record SessionRow : Type 0 where
  pub id : String
  pub last_seen_at : ℕ
  pub expires_at : ℕ
  pub rotate_after : ℕ

-- A row of `guest_progress`.
pub record Progress : Type 0 where
  pub guest_session_id : String
  pub revision : ℕ
  pub content_version : String
  pub checkpoint_schema_version : ℕ
  pub checkpoint : Json
  pub updated_at : ℕ

-- A row of `command_receipts`.
pub record CommandReceipt : Type 0 where
  pub guest_session_id : String
  pub idempotency_key : String
  pub command_name : String
  pub expected_revision : ℕ
  pub content_version : String
  pub payload_hash : String
  pub response_schema_version : ℕ
  pub response_payload : Json
  pub result_hash : String
  pub committed_revision : ℕ
  pub created_at : ℕ
  pub expires_at : ℕ

-- A row of `domain_events`.
pub record EventRow : Type 0 where
  pub event_id : String
  pub guest_session_id : String
  pub event_type : String
  pub schema_version : ℕ
  pub payload : Json
  pub committed_revision : ℕ
  pub created_at : ℕ

pub record Store : Type 0 where
  pub digests : List DigestRow
  pub sessions : List SessionRow
  pub progress : List Progress
  pub receipts : List CommandReceipt
  pub events : List EventRow
  pub deliveries : List Delivery

pub data ExecutionDisposition : Type 0 where
  committed replayed : ExecutionDisposition

pub record ExecutionResult : Type 0 where
  pub disposition : ExecutionDisposition
  pub response_schema_version : ℕ
  pub response : Json
  pub result_hash : String
  pub committed_revision : ℕ

-- The store that a transaction commits, and what it returns.
pub record Execution : Type 0 where
  pub store : Store
  pub result : ExecutionResult
