-- ===== src/Observation/Steps.antt =====
-- What a decision of `reduceOperationObservation` (packages/receipt-lifecycle/src/observation.ts) does, as
-- a step relation between the durable view, the observation and the decision.
use samurai_sushi.Common.{
  ◌≡◌, refl, ◌⊎◌, inl, inr, Bool, true, false, Bool-cases, String, [], Result, ok, err, >>=-eq-ok,
  >>-eq-ok, if_true, if_false, if◌then◌else◌, err_not_ok, guard, guard-eq-ok,
  observation_sequence_contradiction, observation_identity_mismatch,
}
use samurai_sushi.Json.{Json}
use samurai_sushi.Receipt.Lifecycle.{AttemptState}
use samurai_sushi.Observation.{
  Observer, fake_rpc, fake_indexer, Disposition, OperationObservation, AttemptView,
  ObservationDecision, Outcome, hint, apply, is_level, is_included,
}
use samurai_sushi.Observation.Finality.{FinalityDecision}
use samurai_sushi.Observation.Read.{normalize_operation_observation}
use samurai_sushi.Observation.Compare.{
  same_identity, is_finalized, last_sequence, precedes, contradicts, reorg_fits, head_conflicts,
}
use samurai_sushi.Observation.Reduce.{
  Progress, decide_stale, decide_hint, decide_attempt_contradiction, decide_contradiction,
  apply_pending, included_decision, lost_decision, check_transition, evaluate, promote,
  refuses_inclusion, apply_included, apply_lost, apply_observation, reduce_head, reduce_rpc,
  reduce_normalized, reduce_operation_observation,
}

-- The observation is recorded as a source's latest.
abbrev pub is_taken : Outcome → Bool
is_taken hint = true
is_taken apply = true
is_taken _ = false

module _ (current : AttemptView) (o : OperationObservation) (policy_id : String) where
  -- What an applied observation makes of the view.
  pub data Applied (d : ObservationDecision) : Type 0 where
    pending : is_included o.disposition ≡ false → d ≡ apply_pending current o → Applied d
    included :
        (policy : FinalityDecision) (p : Progress)
        → evaluate policy_id o ≡ ok policy
        → promote policy current.state ≡ ok p
        → o.disposition ≡ Disposition.included
        → d ≡ included_decision current o policy p
        → Applied d
    lost :
        (target : AttemptState)
        → check_transition current.state target ≡ ok tt
        → is_finalized target ≡ false
        → is_included o.disposition ≡ false
        → d ≡ lost_decision current o target
        → Applied d

  pub data Step (d : ObservationDecision) : Type 0 where
    unmoved : d.next ≡ current → d.transitions ≡ [] → is_taken d.outcome ≡ false → Step d
    hinted :
        o.observer ≡ fake_indexer
        → precedes o.source_sequence current.last_indexer_source_sequence ≡ false
        → d ≡ decide_hint current o
        → Step d
    moved :
        o.observer ≡ fake_rpc
        → precedes o.source_sequence current.last_rpc_source_sequence ≡ false
        → is_level current.last_rpc_source_sequence o.source_sequence ≡ false
        → contradicts current o ≡ false
        → precedes o.head_level current.last_head_level ≡ false
        → Applied d
        → Step d

  ok_inj : {a b : ObservationDecision} → Result.ok a ≡ ok b → b ≡ a
  ok_inj h = cc

  apply_included-Applied :
      {d : ObservationDecision}
      → apply_included current o policy_id ≡ ok d
      → o.disposition ≡ Disposition.included
      → Applied d ⊎ (d ≡ decide_attempt_contradiction current o)
  unfolding apply_included
  apply_included-Applied h e =
      let (policy, evaluated, h1) = >>=-eq-ok (evaluate policy_id o) _ h in
      elim (Bool-cases (refuses_inclusion current.state)) [
        | inl refused ↦ inr (ok_inj (if_true _ _ refused h1))
        | inr taken ↦
            (let (p, promoted, h2) =
                >>=-eq-ok (promote policy current.state) _ (if_false _ _ taken h1) in
              inl (included policy p evaluated promoted e (ok_inj h2)))
      ]

  apply_lost-Applied :
      (target : AttemptState) {d : ObservationDecision}
      → apply_lost current o target ≡ ok d
      → is_finalized target ≡ false
      → is_included o.disposition ≡ false
      → Applied d
  apply_lost-Applied target h e other =
      let (passed, h1) = >>-eq-ok (check_transition current.state target) _ h in
      lost target passed e other (ok_inj h1)

  apply_observation-Applied :
      (given : Disposition) {d : ObservationDecision}
      → apply_observation given current o policy_id ≡ ok d
      → o.disposition ≡ given
      → Applied d ⊎ (d ≡ decide_attempt_contradiction current o)
  unfolding apply_observation
  apply_observation-Applied Disposition.pending h e = inl (pending (rw e refl) (ok_inj h))
  apply_observation-Applied Disposition.included h e = apply_included-Applied h e
  apply_observation-Applied Disposition.failed h e =
      inl (apply_lost-Applied AttemptState.failed h refl (rw e refl))
  apply_observation-Applied Disposition.dropped h e =
      inl (apply_lost-Applied AttemptState.dropped h refl (rw e refl))
  apply_observation-Applied Disposition.reorged h e = elim (Bool-cases (reorg_fits current o)) [
    | inl fits ↦ inl (apply_lost-Applied AttemptState.reorged (if_true _ _ fits h) refl (rw e refl))
    | inr other ↦ inr (ok_inj (if_false _ _ other h))
  ]

  left_alone :
      {d e : ObservationDecision}
      → d ≡ e
      → e.next ≡ current
      → e.transitions ≡ []
      → is_taken e.outcome ≡ false
      → Step d
  left_alone same next none other = rw same (unmoved next none other)

  contradiction-is_taken : is_taken (decide_contradiction current o).outcome ≡ false
  contradiction-is_taken = elim (Bool-cases (is_finalized current.state)) [
    | inl e ↦ rw e refl
    | inr e ↦ rw e refl
  ]

  reduce_rpc-Step :
      {d : ObservationDecision}
      → o.observer ≡ fake_rpc
      → precedes o.source_sequence current.last_rpc_source_sequence ≡ false
      → is_level current.last_rpc_source_sequence o.source_sequence ≡ false
      → reduce_rpc current o policy_id ≡ ok d
      → Step d
  unfolding reduce_rpc reduce_head
  reduce_rpc-Step rpc later other h = elim (Bool-cases (contradicts current o)) [
    | inl bad ↦ left_alone (ok_inj (if_true _ _ bad h)) refl refl contradiction-is_taken
    | inr good ↦
        (let h1 = if_false _ _ good h in
          elim (Bool-cases (precedes o.head_level current.last_head_level)) [
            | inl behind ↦ left_alone (ok_inj (if_true _ _ behind h1)) refl refl refl
            | inr ahead ↦
                (let h2 = if_false _ _ ahead h1 in
                  elim (Bool-cases (head_conflicts current o)) [
                    | inl clash ↦ absurd (err_not_ok (if_true _ _ clash h2))
                    | inr clear ↦
                        elim (apply_observation-Applied o.disposition (if_false _ _ clear h2)
                          refl) [
                            | inl applied ↦ moved rpc later other good ahead applied
                            | inr refused ↦ left_alone refused refl refl refl
                          ]
                  ])
          ])
  ]

  fresh :
      (given : Observer) {d : ObservationDecision}
      → (elim given [
        | fake_indexer ↦ ok (decide_hint current o)
        | fake_rpc ↦ reduce_rpc current o policy_id
      ])
        ≡ ok d
      → o.observer ≡ given
      → precedes o.source_sequence (last_sequence given current) ≡ false
      → is_level (last_sequence given current) o.source_sequence ≡ false
      → Step d
  fresh fake_rpc h e later new = reduce_rpc-Step e later new h
  fresh fake_indexer h e later new = hinted e later (ok_inj h)

  by_observer :
      (given : Observer) {d : ObservationDecision}
      → (if precedes o.source_sequence (last_sequence given current)
          then ok (decide_stale current)
          else (if is_level (last_sequence given current) o.source_sequence
              then err observation_sequence_contradiction
              else elim given [
                | fake_indexer ↦ ok (decide_hint current o)
                | fake_rpc ↦ reduce_rpc current o policy_id
              ]))
        ≡ ok d
      → o.observer ≡ given
      → Step d
  by_observer given h e =
      elim (Bool-cases (precedes o.source_sequence (last_sequence given current))) [
        | inl before ↦ left_alone (ok_inj (if_true _ _ before h)) refl refl refl
        | inr later ↦ elim (Bool-cases (is_level (last_sequence given current) o.source_sequence)) [
          | inl again ↦ absurd (err_not_ok (if_true _ _ again (if_false _ _ later h)))
          | inr new ↦ fresh given (if_false _ _ new (if_false _ _ later h)) e later new
        ]
      ]

  -- Every decision on a normalized observation is a step of the relation.
  pub reduce_normalized-Step :
      {d : ObservationDecision} → reduce_normalized current o policy_id ≡ ok d → Step d
  unfolding reduce_normalized
  reduce_normalized-Step h = by_observer o.observer h refl

-- A decision is a step on the observation that the input normalizes to, which is of the attempt's own
-- operation.
pub reduce-Step :
    (current : AttemptView) (input : Json) (policy_id : String) {d : ObservationDecision}
    → reduce_operation_observation current input policy_id ≡ ok d
    → (o : OperationObservation) × (normalize_operation_observation input ≡ ok o)
      × (same_identity current.identity o.identity ≡ true)
      × Step current o policy_id d
unfolding reduce_operation_observation
reduce-Step current input policy_id h =
    let (o, normalized, h1) = >>=-eq-ok (normalize_operation_observation input) _ h in
    let (same, h2) =
      >>-eq-ok (guard (same_identity current.identity o.identity) observation_identity_mismatch) _
        h1 in
    (o, normalized, guard-eq-ok _ _ same, reduce_normalized-Step current o policy_id h2)
