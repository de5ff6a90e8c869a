-- ===== src/Observation.antt =====
-- packages/receipt-lifecycle/src/observation.ts: what an observer reports of an operation on the
-- chain, the durable state of an attempt, and the finality policy.
pub mod Finality
pub mod Patterns
pub mod Read
pub mod Compare
pub mod Reduce
pub mod Steps
pub mod Laws
pub mod Evidence
pub mod Ancestry
pub mod Finalized
use samurai_sushi.Common.{ℕ, Bool, true, false, String, Option, none, some, List, str_eq, ◌==◌}
use samurai_sushi.Receipt.Lifecycle.{AttemptState}

pub data Observer : Type 0 where
  fake_rpc fake_indexer : Observer

-- `OPERATION_OBSERVATION_DISPOSITIONS`.
pub data Disposition : Type 0 where
  pending included failed dropped reorged : Disposition

pub record OperationIdentity : Type 0 where
  pub chain_id : String
  pub operation_hash : String
  pub source_account : String
  pub contract_address : String
  pub deployment_manifest_hash : String

pub record ProofBlock : Type 0 where
  pub level : ℕ
  pub block_hash : String
  pub predecessor_hash : Option String

pub record ReceiptEventRow : Type 0 where
  pub owner : String
  pub contract_address : String
  pub service_commitment : String
  pub content_version : String
  pub nonce : String
  pub payload_hash : String
  pub deployment_manifest_hash : String

pub record OperationObservation : Type 0 where
  pub identity : OperationIdentity
  pub observer : Observer
  pub source_observation_id : String
  pub source_sequence : ℕ
  pub disposition : Disposition
  pub head_level : ℕ
  pub head_block_hash : String
  pub included_block_hash : Option String
  pub included_level : Option ℕ
  pub operation_index : Option ℕ
  pub failure_code : Option String
  pub canonical_chain_proof : Option (List ProofBlock)
  pub receipt_event : Option ReceiptEventRow

-- `AttemptObservationState`.
pub record AttemptView : Type 0 where
  pub identity : OperationIdentity
  pub state : AttemptState
  pub last_rpc_source_sequence : Option ℕ
  pub last_indexer_source_sequence : Option ℕ
  pub last_head_level : Option ℕ
  pub last_head_block_hash : Option String
  pub canonical_block_hash : Option String
  pub canonical_block_level : Option ℕ
  pub included_operation_index : Option ℕ
  pub confirmations : ℕ

pub data Outcome : Type 0 where
  duplicate stale hint attempt_contradiction apply finalized_contradiction : Outcome

-- `ObservationDecision`; a field that the variant does not have is `none`.
pub record ObservationDecision : Type 0 where
  pub outcome : Outcome
  pub next : AttemptView
  pub observation : Option OperationObservation
  pub transitions : List AttemptState
  pub policy_evidence : Option String

abbrev pub is_included : Disposition → Bool
is_included Disposition.included = true
is_included _ = false

abbrev pub is_reorged : Disposition → Bool
is_reorged Disposition.reorged = true
is_reorged _ = false

-- `option === value`.
abbrev pub is_level : Option ℕ → ℕ → Bool
is_level none n = false
is_level (some m) n = m == n

abbrev pub is_hash : Option String → String → Bool
is_hash none s = false
is_hash (some t) s = str_eq t s

abbrev pub is_null {ℓ} : {A : Type ℓ} → Option A → Bool
is_null none = true
is_null (some a) = false

abbrev pub last_block : ProofBlock → List ProofBlock → ProofBlock
last_block first List.[] = first
last_block first (List.◌∷◌ block rest) = last_block block rest
