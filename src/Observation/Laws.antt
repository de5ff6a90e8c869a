-- ===== src/Observation/Laws.antt =====
-- What `reduceOperationObservation` of packages/receipt-lifecycle/src/observation.ts keeps of an attempt.
use samurai_sushi.Common.{
  ℕ, ◌≤◌, ◌≡◌, refl, inl, inr, Bool, false, ◌&&◌, Bool-cases, Option, none, some, List, [], ◌∷◌,
  ◌++◌, ◌==◌, Result, ok, >>=-eq-ok, >>-eq-ok, if_true, if_false, arith, String,
}
use samurai_sushi.Json.{Json}
use samurai_sushi.Receipt.Lifecycle.{
  TransitionError, AttemptState, attempt_place, assert_attempt_transition,
}
use samurai_sushi.Observation.{OperationObservation, AttemptView, ObservationDecision}
use samurai_sushi.Observation.Finality.{FinalityDecision}
use samurai_sushi.Observation.Compare.{precedes}
use samurai_sushi.Observation.Reduce.{
  Progress, accepts_inclusion, legal, moved_head, check_transition, push_when, promote,
  reduce_operation_observation,
}
use samurai_sushi.Observation.Steps.{Applied, Step, reduce-Step}

-- Transitions that the assertion lets through, one after another.
pub data AttemptRun : AttemptState → List AttemptState → AttemptState → Type 0 where
  done : {s : AttemptState} → AttemptRun s [] s
  next :
      {s t u : AttemptState} {ts : List AttemptState}
      → assert_attempt_transition s t ≡ none
      → AttemptRun t ts u
      → AttemptRun s (t ∷ ts) u

one_more :
    {s t u : AttemptState} {ts : List AttemptState}
    → AttemptRun s ts t
    → assert_attempt_transition t u ≡ none
    → AttemptRun s (ts ++ u ∷ []) u
one_more AttemptRun.done e = AttemptRun.next e AttemptRun.done
one_more (AttemptRun.next h run) e = AttemptRun.next h (one_more run e)

passes : (tested : Option TransitionError) → legal tested ≡ ok tt → tested ≡ none
passes none h = refl
passes (some e) h = cc

check_transition-ok :
    (s t : AttemptState) → check_transition s t ≡ ok tt → assert_attempt_transition s t ≡ none
check_transition-ok s t h = passes (assert_attempt_transition s t) h

ok_Progress : {p q : Progress} → Result.ok p ≡ ok q → q ≡ p
ok_Progress h = cc

push_when-AttemptRun :
    (flag : Bool) (expected to : AttemptState) (p : Progress) {q : Progress} {s : AttemptState}
    → push_when flag expected to p ≡ ok q
    → AttemptRun s p.transitions p.from
    → AttemptRun s q.transitions q.from
unfolding push_when
push_when-AttemptRun flag expected to p h run =
    elim (Bool-cases (flag && attempt_place p.from == attempt_place expected)) [
      | inl taken ↦
          (let (passed, h1) = >>-eq-ok (check_transition p.from to) _ (if_true _ _ taken h) in
            rw (ok_Progress h1) (one_more run (check_transition-ok p.from to passed)))
      | inr other ↦ rw (ok_Progress (if_false _ _ other h)) run
    ]

promote-AttemptRun :
    (policy : FinalityDecision) (s : AttemptState) {p : Progress}
    → promote policy s ≡ ok p
    → AttemptRun s p.transitions p.from
unfolding promote
promote-AttemptRun policy s h =
    let start : Progress = record { from = s; transitions = [] } in
    let (p1, h1, more) =
      >>=-eq-ok (push_when (accepts_inclusion s) s AttemptState.included start) _ h in
    let (p2, h2, h3) =
      >>=-eq-ok (push_when policy.confirmed AttemptState.included AttemptState.confirmed p1) _
        more in
    let run1 =
      push_when-AttemptRun (accepts_inclusion s) s AttemptState.included start h1 AttemptRun.done in
    let run2 =
      push_when-AttemptRun policy.confirmed AttemptState.included AttemptState.confirmed p1 h2
        run1 in
    push_when-AttemptRun policy.finalized AttemptState.confirmed AttemptState.finalized p2 h3 run2

transitions_of :
    (current : AttemptView) (o : OperationObservation) (policy_id : String)
    {d : ObservationDecision}
    → Step current o policy_id d
    → AttemptRun current.state d.transitions d.next.state
transitions_of current o policy_id (Step.unmoved same empty _) = rw empty (rw same AttemptRun.done)
transitions_of current o policy_id (Step.hinted _ _ e) = rw e AttemptRun.done
transitions_of current o policy_id (Step.moved _ _ _ _ _ (Applied.pending _ e)) =
    rw e AttemptRun.done
transitions_of current o policy_id
      (Step.moved _ _ _ _ _ (Applied.included policy p _ promoted _ e)) =
    rw e (promote-AttemptRun policy current.state promoted)
transitions_of current o policy_id (Step.moved _ _ _ _ _ (Applied.lost target passed _ _ e)) =
    rw e (AttemptRun.next (check_transition-ok current.state target passed) AttemptRun.done)

-- Whatever an observation does to an attempt, the transitions that its decision lists are a run of the
-- transition table from the attempt's state to the decision's.
pub reduce_operation_observation-AttemptRun :
    (current : AttemptView) (input : Json) (policy_id : String) {d : ObservationDecision}
    → reduce_operation_observation current input policy_id ≡ ok d
    → AttemptRun current.state d.transitions d.next.state
reduce_operation_observation-AttemptRun current input policy_id h =
    let (o, _, _, step) = reduce-Step current input policy_id h in
    transitions_of current o policy_id step

-- A number that is known is followed by one that is not smaller.
abbrev pub NotBefore : Option ℕ → Option ℕ → Type 0
NotBefore none later = Unit
NotBefore (some n) none = ⊥
NotBefore (some n) (some m) = n ≤ m

NotBefore-refl : (n : Option ℕ) → NotBefore n n
NotBefore-refl none = tt
NotBefore-refl (some n) = omega arith

precedes-NotBefore : (m : ℕ) (n : Option ℕ) → precedes m n ≡ false → NotBefore n (some m)
precedes-NotBefore m none h = tt
precedes-NotBefore m (some n) h = ground arith

-- The coordinates of an attempt: each source's sequence and the level of the head.
abbrev pub Advances : AttemptView → AttemptView → Type 0
Advances a b =
    (a.identity ≡ b.identity)
    × NotBefore a.last_rpc_source_sequence b.last_rpc_source_sequence
    × NotBefore a.last_indexer_source_sequence b.last_indexer_source_sequence
    × NotBefore a.last_head_level b.last_head_level

Advances-refl : (a : AttemptView) → Advances a a
Advances-refl a = (refl, NotBefore-refl _, NotBefore-refl _, NotBefore-refl _)

coordinates_of :
    (current : AttemptView) (o : OperationObservation) (policy_id : String)
    {d : ObservationDecision}
    → Step current o policy_id d
    → Advances current d.next
coordinates_of current o policy_id (Step.unmoved same _ _) = rw same (Advances-refl current)
coordinates_of current o policy_id (Step.hinted _ later e) =
    rw e (refl, NotBefore-refl _, precedes-NotBefore _ _ later, NotBefore-refl _)
coordinates_of current o policy_id (Step.moved _ later _ _ ahead applied) =
    let moves : Advances current (moved_head current o) =
      (refl, precedes-NotBefore _ _ later, NotBefore-refl _, precedes-NotBefore _ _ ahead) in
    elim applied [
      | Applied.pending _ e ↦ rw e moves
      | Applied.included policy p _ _ _ e ↦ rw e moves
      | Applied.lost target _ _ _ e ↦ rw e moves
    ]

-- A decision keeps the operation's identity, and neither source's sequence nor the level of the head
-- goes back.
pub reduce_operation_observation-Advances :
    (current : AttemptView) (input : Json) (policy_id : String) {d : ObservationDecision}
    → reduce_operation_observation current input policy_id ≡ ok d
    → Advances current d.next
reduce_operation_observation-Advances current input policy_id h =
    let (o, _, _, step) = reduce-Step current input policy_id h in
    coordinates_of current o policy_id step
