-- ===== src/Service/Reduce.antt =====
-- packages/domain/src/evening-service.ts: `buildDecision`, `nextCheckpoint`, `reduceEveningService`
-- and `rebaseEveningServiceCheckpointForClaim`.
use samurai_sushi.Common.{
  ℕ, ◌+◌, Bool, true, false, not, ◌&&◌, ◌||◌, String, Option, none, some, List, [], ◌∷◌, ◌++◌,
  includes, str_eq, leb, ◌==◌, Result, ok, ◌>>=◌, ◌>>◌, guard, reject, from_option,
  invalid_service_state, if◌then◌else◌,
}
use samurai_sushi.Json.{Json}
use samurai_sushi.Json.Canonical.{max_safe_integer}
use samurai_sushi.Json.Shape.{sort_texts}
use samurai_sushi.Commands.{CommandEnvelope, validate_command_envelope}
use samurai_sushi.Service.{OutcomeClass, Checkpoint, Decision, first_evening_content_version}
use samurai_sushi.Service.Texts.{parse_command}
use samurai_sushi.Service.Components.{conserved_components}
use samurai_sushi.Service.Invariants.{is_settled, is_abandoned}
use samurai_sushi.Service.Decode.{decode_checkpoint, detach}
use samurai_sushi.Service.Encode.{checkpoint_json}
use samurai_sushi.Service.Steps.{Move, corrected, moved, step}

unfoldable pub build_decision :
    Checkpoint
    → CommandEnvelope
    → Bool
    → String
    → Bool
    → List String
    → Option OutcomeClass
    → Decision
build_decision c command accepted feedback settled_now unlocked outcome = record {
  checkpoint = c;
  event = record {
    event_ref = command.idempotency_key;
    transitioned = accepted;
    command_name = command.command_name;
    phase = c.phase;
    revision = c.revision;
    generation = c.generation;
    feedback_ref = feedback;
    settled_now = settled_now;
    unlocked_now = unlocked;
    outcome_class = outcome;
  };
  response = record {
    accepted = accepted;
    checkpoint = c;
    feedback_ref = feedback;
    corrective_cue_id = if accepted then none else some feedback;
    settled_now = settled_now;
    unlocked_now = unlocked;
    outcome_class = outcome;
  };
}

-- `correction`.
unfoldable pub correction : Checkpoint → CommandEnvelope → String → Decision
unfolding build_decision
correction c command cue = build_decision c command false cue false [] none

-- The object that is decoded again; `changed` is `{ ...current, ...changes }`, and no change names
-- the revision or the components.
unfoldable pub candidate : Checkpoint → Checkpoint
candidate changed = record changed {
  components = conserved_components changed.orders;
  revision = changed.revision + 1;
}

unfoldable pub next_checkpoint : Checkpoint → Result Checkpoint
unfolding candidate
next_checkpoint changed = decode_checkpoint (checkpoint_json (candidate changed))

-- The end of each case: `correction(…)`, or `buildDecision(nextCheckpoint(…), …)`.
unfoldable pub conclude : Checkpoint → CommandEnvelope → Move → Result Decision
unfolding correction build_decision next_checkpoint
conclude c command (corrected cue) = ok (correction c command cue)
conclude c command (moved changed feedback settled_now unlocked outcome) =
    next_checkpoint changed >>= λ next.
    ok (build_decision next command true feedback settled_now unlocked outcome)

-- Whether the service is over for this command.
abbrev pub is_complete : Checkpoint → String → Bool
is_complete c name =
    (is_settled c.phase || is_abandoned c.phase)
    && not (is_abandoned c.phase && str_eq name "service.start-new")

-- The command does not fit the checkpoint's revision or the content version, or the revision cannot
-- grow.
unfoldable pub mismatched : Checkpoint → CommandEnvelope → Bool
mismatched c command =
    not (command.expected_revision == c.revision)
    || c.revision == max_safe_integer
    || not (str_eq command.content_version first_evening_content_version)

-- The `switch` on the command's name.
unfoldable pub dispatch : Checkpoint → CommandEnvelope → Result Decision
dispatch c command = do
  name ← from_option (parse_command command.command_name) invalid_service_state
  move ← step c name command.payload
  conclude c command move

-- The reducer on a decoded checkpoint and a validated command.
unfoldable pub reduce_decoded : Checkpoint → CommandEnvelope → Result Decision
reduce_decoded c command = do
  reject (mismatched c command) invalid_service_state
  if is_complete c command.command_name
      then ok (correction c command "cue.service.complete")
      else dispatch c command

module _ (sha256_hex : String → String) where
  unfoldable pub reduce_evening_service : Json → Json → Result Decision
  reduce_evening_service checkpoint_input command_input = do
    c ← decode_checkpoint checkpoint_input
    detached ← detach command_input
    command ← validate_command_envelope sha256_hex detached
    reduce_decoded c command

-- `[...new Set(texts)]`: the first occurrence of each text.
abbrev pub dedup_from : List String → List String → List String
dedup_from seen [] = []
dedup_from seen (s ∷ ss) =
    let rest = dedup_from (s ∷ seen) ss in
    let skipped = dedup_from seen ss in if includes seen s then skipped else s ∷ rest

abbrev player_unlocks : Option Checkpoint → List String
player_unlocks none = []
player_unlocks (some p) = p.unlocks

abbrev decode_player : Option Json → Result (Option Checkpoint)
decode_player none = ok none
decode_player (some j) = decode_checkpoint j >>= λ p. ok (some p)

-- `null` for the player is `none`; the committed revision is a natural number.
unfoldable pub rebase_checkpoint_for_claim : Json → Option Json → ℕ → Result Checkpoint
rebase_checkpoint_for_claim guest_input player_input committed = do
  guest ← decode_checkpoint guest_input
  player ← decode_player player_input
  guard (leb committed max_safe_integer) invalid_service_state
  decode_checkpoint (
      checkpoint_json (record guest {
        revision = committed;
        unlocks = sort_texts (dedup_from [] (player_unlocks player ++ guest.unlocks));
      }))
