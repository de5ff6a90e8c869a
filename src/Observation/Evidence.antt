-- ===== src/Observation/Evidence.antt =====
-- What an attempt's way into the finalized state rests on in
-- packages/receipt-lifecycle/src/observation.ts.
use samurai_sushi.Common.{
  ◌≤◌, ◌≡◌, refl, sym, ap, ◌∙◌, inl, inr, true, false, Bool-cases, true_not_false, some, length,
  String, ok, >>=-eq-ok, from_option, from_option-some, leb→le, finality_invalid,
}
use samurai_sushi.Json.{Json}
use samurai_sushi.Receipt.Lifecycle.{AttemptState}
use samurai_sushi.Observation.{OperationObservation, AttemptView, ObservationDecision}
use samurai_sushi.Observation.Finality.{FinalityDecision, FinalityEvidence}
use samurai_sushi.Observation.Read.{normalize_operation_observation}
use samurai_sushi.Observation.Compare.{is_finalized}
use samurai_sushi.Observation.Reduce.{
  Progress, promote, evaluate, included_decision, reduce_operation_observation,
}
use samurai_sushi.Observation.Steps.{Applied, Step, reduce-Step}
use samurai_sushi.Observation.Ancestry.{Spans, evaluate_receipt_finality_policy-Spans}
use samurai_sushi.Observation.Finalized.{unfinished}

-- The observation that an input is, and the proof that it offers: at least two blocks from its inclusion to its
-- head without a gap, which the view records.
pub record Evidenced (input : Json) (view : AttemptView) : Type 0 where
  pub observation : OperationObservation
  pub normalized : normalize_operation_observation input ≡ ok observation
  pub evidence : FinalityEvidence
  pub offered : observation.canonical_chain_proof ≡ some evidence.proof
  pub included_level : observation.included_level ≡ some evidence.included_level
  pub included_hash : observation.included_block_hash ≡ some evidence.included_block_hash
  pub observed_level : observation.head_level ≡ evidence.head_level
  pub observed_hash : observation.head_block_hash ≡ evidence.head_block_hash
  pub level : view.canonical_block_level ≡ some evidence.included_level
  pub hash : view.canonical_block_hash ≡ some evidence.included_block_hash
  pub head_level : view.last_head_level ≡ some evidence.head_level
  pub head_hash : view.last_head_block_hash ≡ some evidence.head_block_hash
  pub spans : Spans evidence
  pub two_blocks : 2 ≤ length evidence.proof
  pub confirmations : view.confirmations ≡ length evidence.proof

is_final :
    (policy : FinalityDecision) (s : AttemptState) {p : Progress}
    → promote policy s ≡ ok p
    → is_finalized s ≡ false
    → is_finalized p.from ≡ true
    → policy.finalized ≡ true
is_final policy s {p} h before after = elim (Bool-cases policy.finalized) [
  | inl e ↦ e
  | inr e ↦
      (let same : policy ≡ record {
        confirmations = policy.confirmations;
        confirmed = policy.confirmed;
        finalized = false;
        evidence = policy.evidence;
      } =
          ap (λ f. record policy { finalized = f }) e in
        absurd (
          true_not_false (
            sym after
            ∙ unfinished policy.confirmed policy.confirmations policy.evidence s
                (sym (ap (λ q. promote q s) same) ∙ h) before)))
]

module _ (current : AttemptView) (input : Json) (o : OperationObservation) (policy_id : String)
    (normalized : normalize_operation_observation input ≡ ok o) where
  included_decision-Evidenced :
      (policy : FinalityDecision) {p : Progress} {d : ObservationDecision}
      → evaluate policy_id o ≡ ok policy
      → policy.finalized ≡ true
      → d ≡ included_decision current o policy p
      → Evidenced input d.next
  unfolding evaluate
  included_decision-Evidenced policy h final e =
      let (level, level_ok, h1) = >>=-eq-ok (from_option o.included_level finality_invalid) _ h in
      let (hash, hash_ok, h2) =
        >>=-eq-ok (from_option o.included_block_hash finality_invalid) _ h1 in
      let (proof, proof_ok, h3) =
        >>=-eq-ok (from_option o.canonical_chain_proof finality_invalid) _ h2 in
      let evidence : FinalityEvidence = record {
        included_level = level;
        included_block_hash = hash;
        head_level = o.head_level;
        head_block_hash = o.head_block_hash;
        proof = proof;
      } in
      let (spans, (count, _, decided)) =
        evaluate_receipt_finality_policy-Spans policy_id evidence h3 in
      rw e (record {
        observation = o;
        normalized = normalized;
        evidence = evidence;
        offered = from_option-some _ _ proof_ok;
        included_level = from_option-some _ _ level_ok;
        included_hash = from_option-some _ _ hash_ok;
        observed_level = refl;
        observed_hash = refl;
        level = from_option-some _ _ level_ok;
        hash = from_option-some _ _ hash_ok;
        head_level = refl;
        head_hash = refl;
        spans = spans;
        two_blocks = leb→le 2 (length proof) (sym decided ∙ final);
        confirmations = count;
      })

  Step-Evidenced :
      {d : ObservationDecision}
      → Step current o policy_id d
      → is_finalized current.state ≡ false
      → is_finalized d.next.state ≡ true
      → Evidenced input d.next
  Step-Evidenced (Step.unmoved same _ _) before after =
      absurd (true_not_false (sym after ∙ ap (λ v. is_finalized v.state) same ∙ before))
  Step-Evidenced (Step.hinted _ _ e) before after =
      absurd (true_not_false (sym after ∙ ap (λ d. is_finalized d.next.state) e ∙ before))
  Step-Evidenced (Step.moved _ _ _ _ _ (Applied.pending _ e)) before after =
      absurd (true_not_false (sym after ∙ ap (λ d. is_finalized d.next.state) e ∙ before))
  Step-Evidenced (Step.moved _ _ _ _ _ (Applied.included policy p evaluated promoted _ e)) before
        after =
      let final =
        is_final policy current.state promoted before
          (ap (λ d. is_finalized d.next.state) (sym e) ∙ after) in
      included_decision-Evidenced policy evaluated final e
  Step-Evidenced (Step.moved _ _ _ _ _ (Applied.lost target _ other _ e)) before after =
      absurd (true_not_false (sym after ∙ ap (λ d. is_finalized d.next.state) e ∙ other))

-- An attempt becomes finalized only by an observation whose own chain proof has at least two blocks and runs
-- without a gap from the observed inclusion to the observed head; both are recorded, and the confirmations are
-- the blocks of that proof.
pub finalized-Evidenced :
    (current : AttemptView) (input : Json) (policy_id : String) {d : ObservationDecision}
    → reduce_operation_observation current input policy_id ≡ ok d
    → is_finalized current.state ≡ false
    → is_finalized d.next.state ≡ true
    → Evidenced input d.next
finalized-Evidenced current input policy_id h before after =
    let (o, normalized, _, step) = reduce-Step current input policy_id h in
    Step-Evidenced current input o policy_id normalized step before after
