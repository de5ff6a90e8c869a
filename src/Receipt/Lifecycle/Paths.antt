-- ===== src/Receipt/Lifecycle/Paths.antt =====
-- What the transition tables allow, as paths.
use samurai_sushi.Common.{
  ℕ, ◌≡◌, refl, ap, ◌||◌, ◌≢◌, ◌⊎◌, ◌↔◌, inl, inr, Bool, true, false, Option, none, some, arith,
  ◌≤◌,
}
use samurai_sushi.Receipt.Lifecycle.{
  IntentState, cancelled, rejected, expired, AttemptState, assert_intent_transition,
  assert_attempt_transition, assert_expiry_transition,
}

-- Sequences of intent transitions that the assertion lets through.
pub data IntentPath : IntentState → IntentState → Type 0 where
  here : {s : IntentState} → IntentPath s s
  next :
      {s t u : IntentState} → assert_intent_transition s t ≡ none → IntentPath t u → IntentPath s u

-- A submitted intent is on the chain's side: it has been signed.
abbrev pub is_signed : IntentState → Bool
is_signed IntentState.submitted = true
is_signed IntentState.included = true
is_signed IntentState.confirmed = true
is_signed IntentState.finalized = true
is_signed IntentState.reorged = true
is_signed _ = false

abbrev pub is_final : IntentState → Bool
is_final IntentState.finalized = true
is_final cancelled = true
is_final rejected = true
is_final expired = true
is_final _ = false

signed_step :
    (s t : IntentState)
    → assert_intent_transition s t ≡ none
    → is_signed s ≡ true
    → is_signed t ≡ true
unfolding assert_intent_transition
signed_step s t e h = ground arith

-- Once submitted, an intent stays among the signed states: it is never expired, cancelled or
-- rejected any more.
pub signed_stays : {s t : IntentState} → IntentPath s t → is_signed s ≡ true → is_signed t ≡ true
signed_stays IntentPath.here h = h
signed_stays (IntentPath.next {s} {t} e p) h = signed_stays p (signed_step s t e h)

final_stuck : (s t : IntentState) → assert_intent_transition s t ≡ none → is_final s ≡ false
unfolding assert_intent_transition
final_stuck s t e = ground arith

-- Nothing leaves a final state.
pub final_stays : {s t : IntentState} → IntentPath s t → is_final s ≡ true → t ≡ s
final_stays IntentPath.here h = refl
final_stays (IntentPath.next {s} {t} e p) h = let left = final_stuck s t e in cc

into_finalized :
    (s t : IntentState)
    → assert_intent_transition s t ≡ none
    → t ≡ IntentState.finalized
    → s ≡ IntentState.confirmed
unfolding assert_intent_transition
into_finalized s t e h = ground arith

finalized-cases : (s : IntentState) → (s ≡ IntentState.finalized) ⊎ (s ≢ IntentState.finalized)
finalized-cases IntentState.finalized = inl refl
finalized-cases _ = inr (λ e. cc)

abbrev is_confirmed : IntentState → Bool
is_confirmed IntentState.confirmed = true
is_confirmed _ = false

-- The path goes through the confirmed state.
abbrev pub visits_confirmed : {s t : IntentState} → IntentPath s t → Bool
visits_confirmed (IntentPath.here {s}) = is_confirmed s
visits_confirmed (IntentPath.next {s} _ p) = is_confirmed s || visits_confirmed p

or_here : (a b : Bool) → a ≡ true → (a || b) ≡ true
or_here a b h = ground arith

or_later : (a b : Bool) → b ≡ true → (a || b) ≡ true
or_later a b h = ground arith

-- Every path of allowed intent transitions that leads from a state that is not finalized to the finalized
-- one goes through the confirmed state.
pub finalized_was_confirmed :
    {s t : IntentState} (path : IntentPath s t)
    → s ≢ IntentState.finalized
    → t ≡ IntentState.finalized
    → visits_confirmed path ≡ true
finalized_was_confirmed IntentPath.here h e = absurd (h e)
finalized_was_confirmed (IntentPath.next {s} {t} a p) h e = elim (finalized-cases t) [
  | inl last ↦
      or_here (is_confirmed s) (visits_confirmed p) (ap is_confirmed (into_finalized s t a last))
  | inr more ↦ or_later (is_confirmed s) (visits_confirmed p) (finalized_was_confirmed p more e)
]

-- The intent state of an attempt that is on the chain.
abbrev pub chain_state : AttemptState → Option IntentState
chain_state AttemptState.submitted = some IntentState.submitted
chain_state AttemptState.included = some IntentState.included
chain_state AttemptState.confirmed = some IntentState.confirmed
chain_state AttemptState.finalized = some IntentState.finalized
chain_state AttemptState.reorged = some IntentState.reorged
chain_state _ = none

-- The two tables agree on the chain's states: an attempt moves between two of them exactly where the
-- intent may.
pub tables_agree :
    (a b : AttemptState) {s t : IntentState}
    → chain_state a ≡ some s
    → chain_state b ≡ some t
    → (assert_attempt_transition a b ≡ none) ↔ (assert_intent_transition s t ≡ none)
unfolding assert_attempt_transition assert_intent_transition
tables_agree a b p q = ground arith

-- The expiry assertion passes exactly for an unsigned intent, at a time and a boundary that are both
-- read, with the time at or after the boundary; the table then lets the intent expire.
pub expiry_iff :
    (from : IntentState) (now expiry : Option ℕ)
    → (assert_expiry_transition from now expiry ≡ none) ↔ (
        (assert_intent_transition from expired ≡ none)
        × ((n : ℕ) × (e : ℕ) × (now ≡ some n) × (expiry ≡ some e) × (e ≤ n)))
unfolding assert_expiry_transition assert_intent_transition
expiry_iff from now expiry = ground arith
