-- ===== src/Observation/Read.antt =====
-- packages/receipt-lifecycle/src/observation.ts: `normalizeOperationObservation`, which reads an unknown
-- value as an observation. The tests stand in the source's order.
use samurai_sushi.Common.{
  ℕ, ◌+◌, ◌-◌, Bool, true, false, not, ◌&&◌, ◌||◌, String, Option, none, some, List, [], ◌∷◌,
  length, leb, ltb, ◌==◌, differ, Result, ok, err, ◌>>=◌, ◌>>◌, guard, reject, sequence, map,
  observation_invalid, if◌then◌else◌,
}
use samurai_sushi.Json.{Json, arr, get, list_of}
use samurai_sushi.Json.Shape.{is_str}
use samurai_sushi.Observation.{
  Observer, fake_rpc, fake_indexer, Disposition, ProofBlock, ReceiptEventRow, OperationObservation,
  is_included, is_reorged, is_level, is_hash, is_null, last_block,
}
use samurai_sushi.Observation.Patterns.{
  exact_record, text, natural, nullable, block_hash_pattern, hex32_pattern, account_pattern,
  contract_pattern, chain_pattern, operation_pattern, failure_pattern, observation_id_pattern,
  version_pattern,
}

abbrev observation_keys : List String
observation_keys =
    "canonicalChainProof" ∷ "chainId" ∷ "contractAddress" ∷ "deploymentManifestHash" ∷ "disposition"
    ∷ "failureCode" ∷ "headBlockHash" ∷ "headLevel" ∷ "includedBlockHash" ∷ "includedLevel"
    ∷ "observer" ∷ "operationHash" ∷ "operationIndex" ∷ "receiptEvent" ∷ "sourceAccount"
    ∷ "sourceObservationId" ∷ "sourceSequence" ∷ []

abbrev receipt_event_keys : List String
receipt_event_keys =
    "contentVersion" ∷ "contractAddress" ∷ "deploymentManifestHash" ∷ "nonce" ∷ "owner"
    ∷ "payloadHash" ∷ "serviceCommitment" ∷ []

abbrev proof_block_keys : List String
proof_block_keys = "blockHash" ∷ "level" ∷ "predecessorHash" ∷ []

abbrev read_observer : Option Json → Result Observer
read_observer v =
    if is_str v "fake-rpc"
    then ok fake_rpc
    else (if is_str v "fake-indexer" then ok fake_indexer else err observation_invalid)

abbrev read_disposition : Option Json → Result Disposition
read_disposition v =
    if is_str v "PENDING"
    then ok Disposition.pending
    else (if is_str v "INCLUDED"
        then ok Disposition.included
        else (if is_str v "FAILED"
            then ok Disposition.failed
            else (if is_str v "DROPPED"
                then ok Disposition.dropped
                else (if is_str v "REORGED"
                    then ok Disposition.reorged
                    else err observation_invalid))))

abbrev pub inclusion_bearing : Disposition → Bool
inclusion_bearing d = is_included d || is_reorged d

abbrev pub failure_bearing : Disposition → Bool
failure_bearing Disposition.failed = true
failure_bearing Disposition.dropped = true
failure_bearing _ = false

abbrev read_event : Option Json → Result ReceiptEventRow
read_event none = err observation_invalid
read_event (some value) = do
  event ← exact_record receipt_event_keys value
  owner ← text 128 account_pattern (get event "owner")
  contract_address ← text 128 contract_pattern (get event "contractAddress")
  service_commitment ← text 64 hex32_pattern (get event "serviceCommitment")
  content_version ← text 128 version_pattern (get event "contentVersion")
  nonce ← text 64 hex32_pattern (get event "nonce")
  payload_hash ← text 64 hex32_pattern (get event "payloadHash")
  deployment_manifest_hash ← text 64 hex32_pattern (get event "deploymentManifestHash")
  ok (record {
    owner = owner;
    contract_address = contract_address;
    service_commitment = service_commitment;
    content_version = content_version;
    nonce = nonce;
    payload_hash = payload_hash;
    deployment_manifest_hash = deployment_manifest_hash;
  })

abbrev read_block : Json → Result ProofBlock
read_block value = do
  block ← exact_record proof_block_keys value
  level ← natural (get block "level")
  block_hash ← text 128 block_hash_pattern (get block "blockHash")
  predecessor_hash ← nullable (text 128 block_hash_pattern) (get block "predecessorHash")
  ok (record { level = level; block_hash = block_hash; predecessor_hash = predecessor_hash })

abbrev read_proof : Option Json → Result (List ProofBlock)
read_proof (some (arr items)) =
    guard (leb 1 (length (list_of items)) && leb (length (list_of items)) 64) observation_invalid
    >> sequence (map read_block (list_of items))
read_proof _ = err observation_invalid

-- Each block after `previous` is one level above it and names it as its predecessor.
abbrev pub linked : ProofBlock → List ProofBlock → Bool
linked previous [] = true
linked previous (block ∷ rest) =
    block.level == previous.level + 1
    && is_hash block.predecessor_hash previous.block_hash
    && linked block rest

abbrev first_hash_fits : Disposition → Option String → ProofBlock → Bool
first_hash_fits d included_hash first =
    if is_included d
    then is_hash included_hash first.block_hash
    else not (is_hash included_hash first.block_hash)

abbrev proof_length_fits : ℕ → Option ℕ → ℕ → Bool
proof_length_fits count none head_level = false
proof_length_fits count (some level) head_level = count == head_level - level + 1

-- The proof runs from the level of inclusion to the head.
abbrev pub proof_fits :
    Disposition → Option String → Option ℕ → ℕ → Option Json → List ProofBlock → Bool
proof_fits d included_hash included_level head_level head_hash [] = false
proof_fits d included_hash included_level head_level head_hash (first ∷ rest) =
    proof_length_fits (length (first ∷ rest)) included_level head_level
    && is_level included_level first.level
    && is_null first.predecessor_hash
    && first_hash_fits d included_hash first
    && (last_block first rest).level == head_level
    && is_str head_hash (last_block first rest).block_hash
    && linked first rest

abbrev proof_consistent :
    Disposition → Option String → Option ℕ → ℕ → Option Json → Option (List ProofBlock) → Bool
proof_consistent d included_hash included_level head_level head_hash none = true
proof_consistent d included_hash included_level head_level head_hash (some proof) =
    proof_fits d included_hash included_level head_level head_hash proof

abbrev head_precedes : ℕ → Option ℕ → Bool
head_precedes head_level none = false
head_precedes head_level (some level) = ltb head_level level

abbrev pub is_rpc : Observer → Bool
is_rpc fake_rpc = true
is_rpc fake_indexer = false

unfoldable pub normalize_operation_observation : Json → Result OperationObservation
normalize_operation_observation value = do
  row ← exact_record observation_keys value
  observer ← read_observer (get row "observer")
  disposition ← read_disposition (get row "disposition")
  included_block_hash ← nullable (text 128 block_hash_pattern) (get row "includedBlockHash")
  included_level ← nullable natural (get row "includedLevel")
  operation_index ← nullable natural (get row "operationIndex")
  reject
      (differ (inclusion_bearing disposition) (
        not (is_null included_block_hash)
        && not (is_null included_level)
        && not (is_null operation_index)))
      observation_invalid
  failure_code ← nullable (text 128 failure_pattern) (get row "failureCode")
  reject (differ (failure_bearing disposition) (not (is_null failure_code))) observation_invalid
  head_level ← natural (get row "headLevel")
  reject (head_precedes head_level included_level) observation_invalid
  receipt_event ← nullable read_event (get row "receiptEvent")
  reject (differ (is_included disposition) (not (is_null receipt_event))) observation_invalid
  proof ← nullable read_proof (get row "canonicalChainProof")
  reject (differ (is_rpc observer && inclusion_bearing disposition) (not (is_null proof)))
      observation_invalid
  guard
      (proof_consistent disposition included_block_hash included_level head_level
        (get row "headBlockHash") proof)
      observation_invalid
  source_observation_id ← text 128 observation_id_pattern (get row "sourceObservationId")
  source_sequence ← natural (get row "sourceSequence")
  chain_id ← text 128 chain_pattern (get row "chainId")
  operation_hash ← text 128 operation_pattern (get row "operationHash")
  source_account ← text 128 account_pattern (get row "sourceAccount")
  contract_address ← text 128 contract_pattern (get row "contractAddress")
  deployment_manifest_hash ← text 64 hex32_pattern (get row "deploymentManifestHash")
  head_block_hash ← text 128 block_hash_pattern (get row "headBlockHash")
  ok (record {
    identity = record {
      chain_id = chain_id;
      operation_hash = operation_hash;
      source_account = source_account;
      contract_address = contract_address;
      deployment_manifest_hash = deployment_manifest_hash;
    };
    observer = observer;
    source_observation_id = source_observation_id;
    source_sequence = source_sequence;
    disposition = disposition;
    head_level = head_level;
    head_block_hash = head_block_hash;
    included_block_hash = included_block_hash;
    included_level = included_level;
    operation_index = operation_index;
    failure_code = failure_code;
    canonical_chain_proof = proof;
    receipt_event = receipt_event;
  })
