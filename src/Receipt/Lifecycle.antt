-- ===== src/Receipt/Lifecycle.antt =====
-- packages/receipt-lifecycle/src/state-machine.ts: the states of a receipt intent and of an operation
-- attempt, and the assertions on their transitions.
pub mod Paths
use samurai_sushi.Common.{
  ℕ, Bool, true, false, not, ◌&&◌, ◌||◌, String, Option, none, some, List, [], ◌∷◌, any, ◌==◌, ltb,
}

pub data IntentState : Type 0 where
  draft reviewed awaiting_signature submitted included confirmed : IntentState
  finalized cancelled rejected expired reorged : IntentState

pub data AttemptState : Type 0 where
  submitted included confirmed finalized failed dropped replaced reorged : AttemptState

-- `INTENT_TRANSITIONS`.
abbrev pub intent_transitions : IntentState → List IntentState
intent_transitions draft = reviewed ∷ expired ∷ []
intent_transitions reviewed = awaiting_signature ∷ expired ∷ []
intent_transitions awaiting_signature = IntentState.submitted ∷ cancelled ∷ rejected ∷ expired ∷ []
intent_transitions IntentState.submitted = IntentState.included ∷ []
intent_transitions IntentState.included = IntentState.confirmed ∷ IntentState.reorged ∷ []
intent_transitions IntentState.confirmed = IntentState.finalized ∷ IntentState.reorged ∷ []
intent_transitions IntentState.finalized = []
intent_transitions cancelled = []
intent_transitions rejected = []
intent_transitions expired = []
intent_transitions IntentState.reorged = IntentState.included ∷ []

-- `ATTEMPT_TRANSITIONS`.
abbrev pub attempt_transitions : AttemptState → List AttemptState
attempt_transitions AttemptState.submitted =
    AttemptState.included ∷ failed ∷ dropped ∷ replaced ∷ []
attempt_transitions AttemptState.included =
    AttemptState.confirmed ∷ failed ∷ AttemptState.reorged ∷ []
attempt_transitions AttemptState.confirmed = AttemptState.finalized ∷ AttemptState.reorged ∷ []
attempt_transitions AttemptState.finalized = []
attempt_transitions failed = []
attempt_transitions dropped = []
attempt_transitions replaced = []
attempt_transitions AttemptState.reorged = AttemptState.included ∷ dropped ∷ []

-- The place of a state in `RECEIPT_INTENT_STATES` and in `OPERATION_ATTEMPT_STATES`, by which states
-- are compared.
abbrev pub intent_place : IntentState → ℕ
intent_place draft = 0
intent_place reviewed = 1
intent_place awaiting_signature = 2
intent_place IntentState.submitted = 3
intent_place IntentState.included = 4
intent_place IntentState.confirmed = 5
intent_place IntentState.finalized = 6
intent_place cancelled = 7
intent_place rejected = 8
intent_place expired = 9
intent_place IntentState.reorged = 10

abbrev pub attempt_place : AttemptState → ℕ
attempt_place AttemptState.submitted = 0
attempt_place AttemptState.included = 1
attempt_place AttemptState.confirmed = 2
attempt_place AttemptState.finalized = 3
attempt_place failed = 4
attempt_place dropped = 5
attempt_place replaced = 6
attempt_place AttemptState.reorged = 7

pub data TransitionError : Type 0 where
  illegal_intent_transition illegal_attempt_transition : TransitionError

-- An assertion returns nothing, or throws.
unfoldable pub assert_intent_transition : IntentState → IntentState → Option TransitionError
assert_intent_transition from to =
    elim (any (λ s. intent_place s == intent_place to) (intent_transitions from)) [
      | true ↦ none
      | false ↦ some illegal_intent_transition
    ]

unfoldable pub assert_attempt_transition : AttemptState → AttemptState → Option TransitionError
assert_attempt_transition from to =
    elim (any (λ s. attempt_place s == attempt_place to) (attempt_transitions from)) [
      | true ↦ none
      | false ↦ some illegal_attempt_transition
    ]

-- `["DRAFT", "REVIEWED", "AWAITING_SIGNATURE"].includes(from)`.
abbrev pub can_expire : IntentState → Bool
can_expire draft = true
can_expire reviewed = true
can_expire awaiting_signature = true
can_expire _ = false

-- A time as `Date.parse` gives it, from the year 1970 on; `none` is NaN.
abbrev reached : Option ℕ → Option ℕ → Bool
reached (some now) (some expiry) = not (ltb now expiry)
reached _ _ = false

unfoldable pub assert_expiry_transition : IntentState → Option ℕ → Option ℕ → Option TransitionError
assert_expiry_transition from now expiry = elim (can_expire from && reached now expiry) [
  | true ↦ none
  | false ↦ some illegal_intent_transition
]
