-- ===== src/Examples/Chain.antt =====
-- Observations of an operation at concrete inputs: an inclusion that finalizes a submitted attempt, and a
-- later report that contradicts it.
use samurai_sushi.Common.{
  ℕ, ◌≡◌, refl, true, String, none, some, [], ◌∷◌, ok, err, Result,
  observation_sequence_contradiction,
}
use samurai_sushi.Json.{Json, nat, num, null, str, arr, obj, Fields, end, field, nil, cons}
use samurai_sushi.Receipt.Lifecycle.{AttemptState, assert_attempt_transition}
use samurai_sushi.Observation.{
  OperationIdentity, AttemptView, ObservationDecision, finalized_contradiction,
}
use samurai_sushi.Observation.Finality.{
  is_block_hash, receipt_finality_policy, FinalityEvidence, FinalityDecision,
  evaluate_receipt_finality_policy, evidence_text,
}
use samurai_sushi.Observation.Read.{normalize_operation_observation}
use samurai_sushi.Observation.Reduce.{
  push_when, promote, evaluate, apply_included, apply_observation, reduce_head, reduce_rpc,
  reduce_normalized, reduce_operation_observation,
}
use samurai_sushi.Observation.Compare.{is_finalized}
use samurai_sushi.Observation.Steps.{is_taken}
use samurai_sushi.Observation.Ancestry.{Spans, Counts, evaluate_receipt_finality_policy-Spans}
use samurai_sushi.Observation.Laws.{
  AttemptRun, reduce_operation_observation-AttemptRun, Advances,
  reduce_operation_observation-Advances,
}
use samurai_sushi.Observation.Finalized.{SameInclusion, finalized_is_kept, taken_once}
use samurai_sushi.Observation.Evidence.{Evidenced, finalized-Evidenced}

abbrev included_hash : String
included_hash = "BKincuded11111111"

abbrev head_hash : String
head_hash = "BKhead11111111111"

abbrev chain_id : String
chain_id = "Net111111111111"

abbrev operation_hash : String
operation_hash = "o11111111111111111111111111111111111111111111111111"

abbrev account : String
account = "tz1111111111111111111111111111111111"

abbrev contract : String
contract = "KT1111111111111111111111111111111111"

abbrev hash32 : String
hash32 = "0000000000000000000000000000000000000000000000000000000000000000"

abbrev identity : OperationIdentity
identity = record {
  chain_id = chain_id;
  operation_hash = operation_hash;
  source_account = account;
  contract_address = contract;
  deployment_manifest_hash = hash32;
}

-- An observation by the RPC whose head is at level 8, with the rest of its fields.
abbrev report : (sequence : ℕ) (disposition : String) → Fields → Json
report sequence disposition rest = obj (
    field "observer" (str "fake-rpc") (
      field "sourceObservationId" (str "a") (
        field "sourceSequence" (num (nat sequence)) (
          field "disposition" (str disposition) (
            field "chainId" (str chain_id) (
              field "operationHash" (str operation_hash) (
                field "sourceAccount" (str account) (
                  field "contractAddress" (str contract) (
                    field "deploymentManifestHash" (str hash32) (
                      field "headLevel" (num (nat 8)) (
                        field "headBlockHash" (str head_hash)
                          (field "failureCode" null rest))))))))))))

abbrev event_json : Json
event_json = obj (
    field "owner" (str account) (
      field "contractAddress" (str contract) (
        field "serviceCommitment" (str hash32) (
          field "contentVersion" (str "v1") (
            field "nonce" (str hash32) (
              field "payloadHash" (str hash32)
                (field "deploymentManifestHash" (str hash32) end)))))))

abbrev proof_json : Json
proof_json = arr (
    cons
      (obj (
        field "level" (num (nat 7))
          (field "blockHash" (str included_hash) (field "predecessorHash" (null) end))))
      (cons
        (obj (
          field "level" (num (nat 8))
            (field "blockHash" (str head_hash) (field "predecessorHash" (str included_hash) end))))
        nil))

abbrev inclusion : Json
inclusion = report 1 "INCLUDED" (
    field "includedBlockHash" (str included_hash) (
      field "includedLevel" (num (nat 7)) (
        field "operationIndex" (num (nat 0))
          (field "receiptEvent" event_json (field "canonicalChainProof" proof_json end)))))

abbrev disappearance : Json
disappearance = report 2 "PENDING" (
    field "includedBlockHash" null (
      field "includedLevel" null (
        field "operationIndex" null
          (field "receiptEvent" null (field "canonicalChainProof" null end)))))

abbrev submitted_view : AttemptView
submitted_view = record {
  identity = identity;
  state = AttemptState.submitted;
  last_rpc_source_sequence = none;
  last_indexer_source_sequence = none;
  last_head_level = none;
  last_head_block_hash = none;
  canonical_block_hash = none;
  canonical_block_level = none;
  included_operation_index = none;
  confirmations = 0;
}

abbrev finalized_view : AttemptView
finalized_view = record submitted_view {
  state = AttemptState.finalized;
  last_rpc_source_sequence = some 1;
  last_head_level = some 8;
  last_head_block_hash = some head_hash;
  canonical_block_hash = some included_hash;
  canonical_block_level = some 7;
  included_operation_index = some 0;
  confirmations = 2;
}

abbrev decision_of : Result ObservationDecision → ObservationDecision
decision_of (ok d) = d
decision_of (err e) = record {
  outcome = finalized_contradiction;
  next = submitted_view;
  observation = none;
  transitions = [];
  policy_evidence = none;
}

unfoldable reducer : Unit {0}
unfolding reduce_operation_observation reduce_normalized reduce_rpc reduce_head apply_observation
    apply_included evaluate promote push_when evaluate_receipt_finality_policy
    normalize_operation_observation is_block_hash assert_attempt_transition
reducer = tt

abbrev first : ObservationDecision
first = decision_of (reduce_operation_observation submitted_view inclusion receipt_finality_policy)

applied : reduce_operation_observation submitted_view inclusion receipt_finality_policy ≡ ok first
unfolding reducer
applied = refl

finalized_at_once : first.next ≡ finalized_view
unfolding reducer
finalized_at_once = refl

reduce_operation_observation-AttemptRun_example :
    AttemptRun submitted_view.state first.transitions first.next.state
reduce_operation_observation-AttemptRun_example =
    reduce_operation_observation-AttemptRun submitted_view inclusion receipt_finality_policy applied

reduce_operation_observation-Advances_example : Advances submitted_view first.next
reduce_operation_observation-Advances_example =
    reduce_operation_observation-Advances submitted_view inclusion receipt_finality_policy applied

finalized_state : is_finalized first.next.state ≡ true
unfolding reducer
finalized_state = refl

finalized-Evidenced_example : Evidenced inclusion first.next
finalized-Evidenced_example =
    finalized-Evidenced submitted_view inclusion receipt_finality_policy applied refl
      finalized_state

taken : is_taken first.outcome ≡ true
unfolding reducer
taken = refl

taken_once_example :
    reduce_operation_observation first.next inclusion receipt_finality_policy
    ≡ err observation_sequence_contradiction
taken_once_example = taken_once submitted_view inclusion receipt_finality_policy applied taken

abbrev second : ObservationDecision
second =
    decision_of (reduce_operation_observation finalized_view disappearance receipt_finality_policy)

contradicted :
    reduce_operation_observation finalized_view disappearance receipt_finality_policy ≡ ok second
unfolding reducer
contradicted = refl

test_contradicted : second.outcome ≡ finalized_contradiction
unfolding reducer
test_contradicted = refl

finalized_is_kept_example : SameInclusion finalized_view second.next
finalized_is_kept_example =
    finalized_is_kept finalized_view disappearance receipt_finality_policy refl contradicted

abbrev evidence : FinalityEvidence
evidence = record {
  included_level = 7;
  included_block_hash = included_hash;
  head_level = 8;
  head_block_hash = head_hash;
  proof =
      record { level = 7; block_hash = included_hash; predecessor_hash = none }
      ∷ record { level = 8; block_hash = head_hash; predecessor_hash = some included_hash }
      ∷ [];
}

abbrev finality : FinalityDecision
finality = record {
  confirmations = 2;
  confirmed = true;
  finalized = true;
  evidence = evidence_text receipt_finality_policy evidence;
}

evaluated : evaluate_receipt_finality_policy receipt_finality_policy evidence ≡ ok finality
unfolding reducer
evaluated = refl

evaluate_receipt_finality_policy-Spans_example : Spans evidence × Counts evidence finality
evaluate_receipt_finality_policy-Spans_example =
    evaluate_receipt_finality_policy-Spans receipt_finality_policy evidence evaluated
