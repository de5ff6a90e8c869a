-- ===== src/Observation/Compare.antt =====
-- packages/receipt-lifecycle/src/observation.ts: how an observation compares with the durable view of
-- its attempt.
use samurai_sushi.Common.{
  ℕ, ◌-◌, Bool, true, false, not, ◌&&◌, ◌||◌, String, Option, none, some, List, [], ◌∷◌, get_elem?,
  leb, ltb, ◌==◌, str_eq, if◌then◌else◌,
}
use samurai_sushi.Receipt.Lifecycle.{AttemptState}
use samurai_sushi.Observation.{
  Observer, fake_rpc, fake_indexer, OperationIdentity, ProofBlock, OperationObservation,
  AttemptView, is_included, is_level, is_hash, is_null, last_block,
}
use samurai_sushi.Observation.Read.{linked}

abbrev pub same_identity : OperationIdentity → OperationIdentity → Bool
same_identity a b =
    str_eq a.chain_id b.chain_id
    && str_eq a.operation_hash b.operation_hash
    && str_eq a.source_account b.source_account
    && str_eq a.contract_address b.contract_address
    && str_eq a.deployment_manifest_hash b.deployment_manifest_hash

-- `a === b` for values of which the first is known to be there.
abbrev pub same_level : Option ℕ → Option ℕ → Bool
same_level (some a) b = is_level b a
same_level none b = false

abbrev pub same_hash : Option String → Option String → Bool
same_hash (some a) b = is_hash b a
same_hash none b = false

abbrev pub same_canonical_inclusion : AttemptView → OperationObservation → Bool
same_canonical_inclusion current o =
    same_level current.canonical_block_level o.included_level
    && same_hash current.canonical_block_hash o.included_block_hash
    && same_level current.included_operation_index o.operation_index

abbrev pub block_is : ℕ → String → Option ProofBlock → Bool
block_is level hash none = false
block_is level hash (some block) = block.level == level && str_eq block.block_hash hash

-- The block at a place of the proof, where a place before the first holds none.
abbrev pub block_at : Option (List ProofBlock) → (level base : ℕ) → Option ProofBlock
block_at none level base = none
block_at (some proof) level base = if ltb level base then none else get_elem? proof (level - base)

abbrev pub continues_from : Option ℕ → Option String → Option ℕ → OperationObservation → Bool
continues_from (some level) (some hash) (some base) o =
    not (ltb o.head_level level)
    && block_is level hash (block_at o.canonical_chain_proof level base)
continues_from _ _ _ o = false

abbrev pub proof_continues_durable_head : AttemptView → OperationObservation → Bool
proof_continues_durable_head current o =
    continues_from current.last_head_level current.last_head_block_hash
      current.canonical_block_level o

abbrev pub last_sequence : Observer → AttemptView → Option ℕ
last_sequence fake_rpc current = current.last_rpc_source_sequence
last_sequence fake_indexer current = current.last_indexer_source_sequence

abbrev pub precedes : ℕ → Option ℕ → Bool
precedes n none = false
precedes n (some last) = ltb n last

abbrev pub is_finalized : AttemptState → Bool
is_finalized AttemptState.finalized = true
is_finalized _ = false

-- `["INCLUDED", "CONFIRMED", "FINALIZED"].includes(state)`.
abbrev pub on_chain : AttemptState → Bool
on_chain AttemptState.included = true
on_chain AttemptState.confirmed = true
on_chain AttemptState.finalized = true
on_chain _ = false

-- `current.lastHeadLevel ?? 0`.
abbrev pub level_or_zero : Option ℕ → ℕ
level_or_zero none = 0
level_or_zero (some n) = n

-- An inclusion that an attempt on the chain cannot have.
abbrev pub contradicts_inclusion : AttemptView → OperationObservation → Bool
contradicts_inclusion current o =
    not (same_canonical_inclusion current o)
    || (leb (level_or_zero current.last_head_level) o.head_level
        && not (proof_continues_durable_head current o))
    || (is_finalized current.state && precedes o.head_level current.last_head_level)

abbrev pub head_conflicts : AttemptView → OperationObservation → Bool
head_conflicts current o =
    is_level current.last_head_level o.head_level
    && not (is_null current.last_head_block_hash)
    && not (is_hash current.last_head_block_hash o.head_block_hash)

abbrev pub contradicts : AttemptView → OperationObservation → Bool
contradicts current o =
    (is_finalized current.state && not (is_included o.disposition))
    || (is_included o.disposition && on_chain current.state && contradicts_inclusion current o)

abbrev pub replaced_proof_fits : AttemptView → OperationObservation → List ProofBlock → Bool
replaced_proof_fits current o [] = false
replaced_proof_fits current o (first ∷ rest) =
    is_level current.canonical_block_level first.level
    && not (is_hash current.canonical_block_hash first.block_hash)
    && is_null first.predecessor_hash
    && (last_block first rest).level == o.head_level
    && str_eq (last_block first rest).block_hash o.head_block_hash
    && linked first rest

abbrev pub optional_proof_fits :
    AttemptView → OperationObservation → Option (List ProofBlock) → Bool
optional_proof_fits current o none = false
optional_proof_fits current o (some proof) = replaced_proof_fits current o proof

abbrev pub reorg_fits : AttemptView → OperationObservation → Bool
reorg_fits current o =
    same_level current.canonical_block_level o.included_level
    && same_hash current.canonical_block_hash o.included_block_hash
    && optional_proof_fits current o o.canonical_chain_proof
