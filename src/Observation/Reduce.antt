-- ===== src/Observation/Reduce.antt =====
-- packages/receipt-lifecycle/src/observation.ts: `reduceOperationObservation`, which turns the durable
-- view of an attempt and an observation into a decision.
use samurai_sushi.Common.{
  Bool, true, false, ◌&&◌, String, Option, none, some, List, [], ◌∷◌, ◌++◌, ◌==◌, Result, ok, err,
  ◌>>=◌, ◌>>◌, guard, from_option, observation_identity_mismatch,
  observation_sequence_contradiction, observation_head_contradiction, finality_invalid,
  attempt_transition_illegal, if◌then◌else◌,
}
use samurai_sushi.Json.{Json}
use samurai_sushi.Receipt.Lifecycle.{
  TransitionError, AttemptState, attempt_place, assert_attempt_transition,
}
use samurai_sushi.Observation.{
  fake_rpc, fake_indexer, Disposition, OperationObservation, AttemptView, ObservationDecision,
  stale, hint, attempt_contradiction, apply, finalized_contradiction, is_level,
}
use samurai_sushi.Observation.Finality.{FinalityDecision, evaluate_receipt_finality_policy}
use samurai_sushi.Observation.Read.{normalize_operation_observation}
use samurai_sushi.Observation.Compare.{
  same_identity, last_sequence, precedes, is_finalized, head_conflicts, contradicts, reorg_fits,
}

abbrev pub decide_stale : AttemptView → ObservationDecision
decide_stale current = record {
  outcome = stale;
  next = current;
  observation = none;
  transitions = [];
  policy_evidence = none;
}

abbrev pub decide_hint : AttemptView → OperationObservation → ObservationDecision
decide_hint current o = record {
  outcome = hint;
  next = record current { last_indexer_source_sequence = some o.source_sequence };
  observation = some o;
  transitions = [];
  policy_evidence = none;
}

abbrev pub decide_attempt_contradiction : AttemptView → OperationObservation → ObservationDecision
decide_attempt_contradiction current o = record {
  outcome = attempt_contradiction;
  next = current;
  observation = some o;
  transitions = [];
  policy_evidence = none;
}

abbrev pub decide_contradiction : AttemptView → OperationObservation → ObservationDecision
decide_contradiction current o = record {
  outcome = if is_finalized current.state then finalized_contradiction else attempt_contradiction;
  next = current;
  observation = some o;
  transitions = [];
  policy_evidence = none;
}

-- `base`.
abbrev pub moved_head : AttemptView → OperationObservation → AttemptView
moved_head current o = record current {
  last_rpc_source_sequence = some o.source_sequence;
  last_head_level = some o.head_level;
  last_head_block_hash = some o.head_block_hash;
}

-- What the assertion throws.
abbrev pub legal : Option TransitionError → Result (Unit {0})
legal none = ok tt
legal (some e) = err attempt_transition_illegal

abbrev pub check_transition : AttemptState → AttemptState → Result (Unit {0})
check_transition from to = legal (assert_attempt_transition from to)

-- The state reached so far, with the transitions that led to it.
pub record Progress : Type 0 where
  pub from : AttemptState
  pub transitions : List AttemptState

-- `if (flag && from === expected) { assertAttemptTransition(from, to); transitions.push(to); from = to; }`.
unfoldable pub push_when : Bool → AttemptState → AttemptState → Progress → Result Progress
push_when flag expected to p =
    if flag && attempt_place p.from == attempt_place expected
    then (check_transition p.from to
        >> ok (record { from = to; transitions = p.transitions ++ to ∷ [] }))
    else ok p

abbrev pub accepts_inclusion : AttemptState → Bool
accepts_inclusion AttemptState.submitted = true
accepts_inclusion AttemptState.reorged = true
accepts_inclusion _ = false

abbrev pub refuses_inclusion : AttemptState → Bool
refuses_inclusion AttemptState.replaced = true
refuses_inclusion AttemptState.failed = true
refuses_inclusion AttemptState.dropped = true
refuses_inclusion _ = false

unfoldable pub promote : FinalityDecision → AttemptState → Result Progress
unfolding push_when
promote policy from =
    push_when (accepts_inclusion from) from AttemptState.included
      (record { from = from; transitions = [] })
    >>= λ p. push_when policy.confirmed AttemptState.included AttemptState.confirmed p >>= λ q.
        push_when policy.finalized AttemptState.confirmed AttemptState.finalized q

abbrev pub apply_pending : AttemptView → OperationObservation → ObservationDecision
apply_pending current o = record {
  outcome = apply;
  next = moved_head current o;
  observation = some o;
  transitions = [];
  policy_evidence = none;
}

abbrev pub included_decision :
    AttemptView → OperationObservation → FinalityDecision → Progress → ObservationDecision
included_decision current o policy p = record {
  outcome = apply;
  next = record (moved_head current o) {
    state = p.from;
    canonical_block_hash = o.included_block_hash;
    canonical_block_level = o.included_level;
    included_operation_index = o.operation_index;
    confirmations = policy.confirmations;
  };
  observation = some o;
  transitions = p.transitions;
  policy_evidence = some policy.evidence;
}

-- A normalized inclusion by the RPC has its block, its level and its proof; without them the policy
-- refuses the evidence.
unfoldable pub evaluate : String → OperationObservation → Result FinalityDecision
unfolding evaluate_receipt_finality_policy
evaluate policy_id o = do
  included_level ← from_option o.included_level finality_invalid
  included_block_hash ← from_option o.included_block_hash finality_invalid
  proof ← from_option o.canonical_chain_proof finality_invalid
  evaluate_receipt_finality_policy policy_id (record {
    included_level = included_level;
    included_block_hash = included_block_hash;
    head_level = o.head_level;
    head_block_hash = o.head_block_hash;
    proof = proof;
  })

unfoldable pub apply_included :
    AttemptView → OperationObservation → String → Result ObservationDecision
unfolding evaluate promote
apply_included current o policy_id = evaluate policy_id o >>= λ policy.
    if refuses_inclusion current.state
    then ok (decide_attempt_contradiction current o)
    else (promote policy current.state >>= λ p. ok (included_decision current o policy p))

abbrev pub lost_decision : AttemptView → OperationObservation → AttemptState → ObservationDecision
lost_decision current o target = record {
  outcome = apply;
  next = record (moved_head current o) {
    state = target;
    canonical_block_hash = none;
    canonical_block_level = none;
    included_operation_index = none;
    confirmations = 0;
  };
  observation = some o;
  transitions = target ∷ [];
  policy_evidence = none;
}

abbrev pub apply_lost :
    AttemptView → OperationObservation → AttemptState → Result ObservationDecision
apply_lost current o target =
    check_transition current.state target >> ok (lost_decision current o target)

unfoldable pub apply_observation :
    Disposition → AttemptView → OperationObservation → String → Result ObservationDecision
unfolding apply_included
apply_observation Disposition.pending current o policy_id = ok (apply_pending current o)
apply_observation Disposition.included current o policy_id = apply_included current o policy_id
apply_observation Disposition.failed current o policy_id = apply_lost current o AttemptState.failed
apply_observation Disposition.dropped current o policy_id =
    apply_lost current o AttemptState.dropped
apply_observation Disposition.reorged current o policy_id =
    if reorg_fits current o
    then apply_lost current o AttemptState.reorged
    else ok (decide_attempt_contradiction current o)

-- What follows the tests of a report by the RPC against a finalized or included attempt.
unfoldable pub reduce_head :
    AttemptView → OperationObservation → String → Result ObservationDecision
unfolding apply_observation
reduce_head current o policy_id =
    if precedes o.head_level current.last_head_level
    then ok (decide_stale current)
    else (if head_conflicts current o
        then err observation_head_contradiction
        else apply_observation o.disposition current o policy_id)

unfoldable pub reduce_rpc : AttemptView → OperationObservation → String → Result ObservationDecision
unfolding reduce_head
reduce_rpc current o policy_id =
    if contradicts current o
    then ok (decide_contradiction current o)
    else reduce_head current o policy_id

unfoldable pub reduce_normalized :
    AttemptView → OperationObservation → String → Result ObservationDecision
unfolding reduce_rpc
reduce_normalized current o policy_id =
    let last = last_sequence o.observer current in
    if precedes o.source_sequence last
    then ok (decide_stale current)
    else (if is_level last o.source_sequence
        then err observation_sequence_contradiction
        else elim o.observer [
          | fake_indexer ↦ ok (decide_hint current o)
          | fake_rpc ↦ reduce_rpc current o policy_id
        ])

unfoldable pub reduce_operation_observation :
    AttemptView → Json → String → Result ObservationDecision
unfolding reduce_normalized normalize_operation_observation
reduce_operation_observation current input policy_id =
    normalize_operation_observation input >>= λ o.
    guard (same_identity current.identity o.identity) observation_identity_mismatch
    >> reduce_normalized current o policy_id
