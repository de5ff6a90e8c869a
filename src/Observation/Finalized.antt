-- ===== src/Observation/Finalized.antt =====
-- What packages/receipt-lifecycle/src/observation.ts keeps of a finalized attempt, and what a repeated
-- observation gives.
use samurai_sushi.Common.{
  ℕ, ◌≡◌, refl, sym, ap, ◌∙◌, Bool, true, false, ◌&&◌, ◌||◌, not, and-true, Option, none, some,
  ==-self, String, ok, err, arith, eq_iff, true_not_false, observation_sequence_contradiction,
  ==→eq,
}
use samurai_sushi.Json.{Json}
use samurai_sushi.Receipt.Lifecycle.{AttemptState}
use samurai_sushi.Observation.{OperationObservation, AttemptView, ObservationDecision, is_included}
use samurai_sushi.Observation.Finality.{FinalityDecision}
use samurai_sushi.Observation.Read.{normalize_operation_observation}
use samurai_sushi.Observation.Compare.{
  precedes, is_finalized, same_level, same_hash, same_canonical_inclusion, same_identity, on_chain,
  last_sequence,
}
use samurai_sushi.Observation.Reduce.{
  Progress, included_decision, push_when, promote, reduce_normalized, reduce_operation_observation,
}
use samurai_sushi.Observation.Steps.{Applied, Step, reduce-Step, is_taken}

-- The state and the inclusion that an attempt was finalized with.
pub record SameInclusion (a b : AttemptView) : Type 0 where
  pub state : a.state ≡ b.state
  pub block_hash : a.canonical_block_hash ≡ b.canonical_block_hash
  pub block_level : a.canonical_block_level ≡ b.canonical_block_level
  pub operation_index : a.included_operation_index ≡ b.included_operation_index

SameInclusion-refl : (a : AttemptView) → SameInclusion a a
SameInclusion-refl a = record {
  state = refl;
  block_hash = refl;
  block_level = refl;
  operation_index = refl;
}

same_level-eq : (a b : Option ℕ) → same_level a b ≡ true → a ≡ b
same_level-eq none b h = cc
same_level-eq (some n) none h = cc
same_level-eq (some n) (some m) h = ap some (sym (==→eq m n h))

same_hash-eq : (a b : Option String) → same_hash a b ≡ true → a ≡ b
same_hash-eq none b h = cc
same_hash-eq (some s) none h = cc
same_hash-eq (some s) (some t) h = ground (arith, eq_iff t s)

-- A decision that a finalized attempt does not contradict is of an inclusion, and of the same one.
uncontradicted :
    (finalized included onchain same other late : Bool)
    → ((finalized && not included) || (included && onchain && (not same || other || late))) ≡ false
    → finalized ≡ true
    → onchain ≡ true
    → (included ≡ true) × (same ≡ true)
uncontradicted finalized included onchain same other late h f c = ground arith

promoted_finalized :
    (c f : Bool) (n : ℕ) (t : String) {p : Progress}
    → promote
        (record { confirmations = n; confirmed = c; finalized = f; evidence = t })
        AttemptState.finalized
      ≡ ok p
    → p.from ≡ AttemptState.finalized
unfolding promote push_when
promoted_finalized true true n t h = cc
promoted_finalized true false n t h = cc
promoted_finalized false true n t h = cc
promoted_finalized false false n t h = cc

module _ (current : AttemptView) (o : OperationObservation) (policy_id : String) where
  kept_inclusion :
      (policy : FinalityDecision) {p : Progress} {d : ObservationDecision}
      → current.state ≡ AttemptState.finalized
      → promote policy current.state ≡ ok p
      → same_canonical_inclusion current o ≡ true
      → d ≡ included_decision current o policy p
      → SameInclusion current d.next
  kept_inclusion policy state promoted same e =
      let (left, index) = and-true _ _ same in
      let (level, hash) = and-true _ _ left in
      let kept =
        promoted_finalized policy.confirmed policy.finalized policy.confirmations policy.evidence
          (ap (promote policy) (sym state) ∙ promoted) in
      rw e (record {
        state = state ∙ sym kept;
        block_hash = same_hash-eq current.canonical_block_hash o.included_block_hash hash;
        block_level = same_level-eq current.canonical_block_level o.included_level level;
        operation_index = same_level-eq current.included_operation_index o.operation_index index;
      })

  kept_by :
      {d : ObservationDecision}
      → current.state ≡ AttemptState.finalized
      → Step current o policy_id d
      → SameInclusion current d.next
  kept_by state (Step.unmoved same _ _) = rw same (SameInclusion-refl current)
  kept_by state (Step.hinted _ _ e) =
      rw e (record { state = refl; block_hash = refl; block_level = refl; operation_index = refl })
  kept_by state (Step.moved _ _ _ consistent _ applied) =
      let (inclusion, same) =
        uncontradicted (is_finalized current.state) (is_included o.disposition)
          (on_chain current.state) (same_canonical_inclusion current o) _ _ consistent
          (rw state refl) (rw state refl) in
      elim applied [
        | Applied.pending other _ ↦ absurd (true_not_false (sym inclusion ∙ other))
        | Applied.included policy p _ promoted _ e ↦ kept_inclusion policy state promoted same e
        | Applied.lost _ _ _ other _ ↦ absurd (true_not_false (sym inclusion ∙ other))
      ]

-- Whatever is observed, an attempt that is finalized stays finalized, and keeps the block, the level and
-- the index of its inclusion.
pub finalized_is_kept :
    (current : AttemptView) (input : Json) (policy_id : String) {d : ObservationDecision}
    → current.state ≡ AttemptState.finalized
    → reduce_operation_observation current input policy_id ≡ ok d
    → SameInclusion current d.next
finalized_is_kept current input policy_id state h =
    let (o, _, _, step) = reduce-Step current input policy_id h in
    kept_by current o policy_id state step

precedes_self : (n : ℕ) → precedes n (some n) ≡ false
precedes_self n = ground arith

recorded_sequence :
    (current : AttemptView) (o : OperationObservation) (policy_id : String)
    {d : ObservationDecision}
    → is_taken d.outcome ≡ true
    → Step current o policy_id d
    → (last_sequence o.observer d.next ≡ some o.source_sequence)
      × (d.next.identity ≡ current.identity)
recorded_sequence current o policy_id taken (Step.unmoved _ _ other) =
    absurd (true_not_false (sym taken ∙ other))
recorded_sequence current o policy_id taken (Step.hinted indexer _ e) =
    (rw indexer (rw e refl), rw e refl)
recorded_sequence current o policy_id taken (Step.moved rpc _ _ _ _ (Applied.pending _ e)) =
    (rw rpc (rw e refl), rw e refl)
recorded_sequence current o policy_id taken
      (Step.moved rpc _ _ _ _ (Applied.included _ _ _ _ _ e)) =
    (rw rpc (rw e refl), rw e refl)
recorded_sequence current o policy_id taken (Step.moved rpc _ _ _ _ (Applied.lost _ _ _ _ e)) =
    (rw rpc (rw e refl), rw e refl)

refused_again :
    (next : AttemptView) (o : OperationObservation) (policy_id : String)
    → last_sequence o.observer next ≡ some o.source_sequence
    → reduce_normalized next o policy_id ≡ err observation_sequence_contradiction
unfolding reduce_normalized
refused_again next o policy_id e =
    rw e (rw (precedes_self o.source_sequence) (rw (==-self o.source_sequence) refl))

repeated :
    (next : AttemptView) (o : OperationObservation) (input : Json) (policy_id : String)
    → normalize_operation_observation input ≡ ok o
    → same_identity next.identity o.identity ≡ true
    → last_sequence o.observer next ≡ some o.source_sequence
    → reduce_operation_observation next input policy_id ≡ err observation_sequence_contradiction
unfolding reduce_operation_observation
repeated next o input policy_id normalized same sequence =
    rw normalized (rw same (refused_again next o policy_id sequence))

-- An observation that was applied or noted as a hint is refused when it is reduced again on the view
-- that it left: its sequence number contradicts the history.
pub taken_once :
    (current : AttemptView) (input : Json) (policy_id : String) {d : ObservationDecision}
    → reduce_operation_observation current input policy_id ≡ ok d
    → is_taken d.outcome ≡ true
    → reduce_operation_observation d.next input policy_id ≡ err observation_sequence_contradiction
taken_once current input policy_id {d} h taken =
    let (o, normalized, same, step) = reduce-Step current input policy_id h in
    let (sequence, identity) = recorded_sequence current o policy_id taken step in
    repeated d.next o input policy_id normalized
      (ap (λ i. same_identity i o.identity) identity ∙ same) sequence

pub unfinished :
    (c : Bool) (n : ℕ) (t : String) (s : AttemptState) {p : Progress}
    → promote (record { confirmations = n; confirmed = c; finalized = false; evidence = t }) s
      ≡ ok p
    → is_finalized s ≡ false
    → is_finalized p.from ≡ false
unfolding promote push_when
unfinished c n t s h e = ground arith
