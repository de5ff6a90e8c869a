-- ===== src/Examples/Evening.antt =====
-- The first evening service at concrete inputs: its first command, its last one, a refused one and
-- one after its end.
use samurai_sushi.Common.{
  ℕ, ◌≡◌, refl, true, false, String, none, some, List, [], ◌∷◌, length, includes, Result, ok, err,
}
use samurai_sushi.Json.{Json, nat, num, str, obj, Fields, end, field}
use samurai_sushi.Service.{
  open_, closing, settled, served, Checkpoint, Decision, OrderDefinition, OrderCheckpoint,
  indigo_rim, first_evening_content_version, salmon_sashimi_unlock_id,
}
use samurai_sushi.Service.Components.{create_initial_checkpoint, conserved_components}
use samurai_sushi.Service.Definition.{
  ceramicist_kappa_order, fishmonger_tamago_order, courier_salmon_order,
}
use samurai_sushi.Service.Decode.{decode_checkpoint}
use samurai_sushi.Service.Encode.{checkpoint_json}
use samurai_sushi.Service.Reduce.{correction, reduce_decoded, reduce_evening_service}
use samurai_sushi.Service.Outcomes.{
  Accepted, IsFinished, acceptance_advances, settlement_complete, settled_absorbs,
  refusal_changes_nothing, decode_settled-IsFinished,
}
use samurai_sushi.Commands.{CommandEnvelope, validate_command_envelope}
use samurai_sushi.Commands.Patterns.{
  is_command_name, is_content_version, is_sha256, is_subject_id, is_uuid_shape, is_uuid_v4,
}
use samurai_sushi.Json.Text.{canonical_json}
use samurai_sushi.Examples.Shift.{reducer, command_at, zeros}
use samurai_sushi.Service.Invariants.{assert_invariants}
use samurai_sushi.Service.RoundTrip.{decode_checkpoint-checkpoint_json}
use samurai_sushi.Service.Conservation.{AllBalanced, decode-AllBalanced}
use samurai_sushi.Service.Moves.{Follows, step-Follows}
use samurai_sushi.Service.Steps.{step, moved}
use samurai_sushi.Service.{start}
use samurai_sushi.Commands.{guest, StoredResult, assert_retry_matches, same_subject}
use samurai_sushi.Commands.Retry.{Repeats, assert_retry_matches-Repeats}

-- A hash function for the examples.
abbrev pub zero_hash : String → String
zero_hash text = "0000000000000000000000000000000000000000000000000000000000000000"

abbrev pub guest_json : Json
guest_json =
    obj (field "kind" (str "guest") (field "guestSessionId" (str "guest-service-fixture-0001") end))

abbrev pub command_json : ℕ → String → Fields → Json
command_json revision name payload = obj (
    field "schemaVersion" (num (nat 1)) (
      field "commandName" (str name) (
        field "subject" guest_json (
          field "idempotencyKey" (str "018f47fe-347b-4dac-8f45-a6f3f43b0001") (
            field "expectedRevision" (num (nat revision)) (
              field "contentVersion" (str first_evening_content_version)
                (field "payload" (obj payload) (field "payloadHash" (str zeros) end))))))))

abbrev pub decision_or : Decision → Result Decision → Decision
decision_or d (ok e) = e
decision_or d (err code) = d

abbrev pub decided : Checkpoint → String → Fields → Decision
decided c name payload =
    let command = command_at c name payload in
    decision_or (correction c command "") (reduce_decoded c command)

abbrev pub served_order : OrderDefinition → OrderCheckpoint
served_order def = record {
  id = def.id;
  state = served;
  step_index = length def.steps;
  plate_feedback_ref = some def.plate_feedback_ref;
  serve_feedback_ref = some def.serve_feedback_ref;
}

abbrev pub served_orders : List OrderCheckpoint
served_orders =
    served_order ceramicist_kappa_order
    ∷ served_order fishmonger_tamago_order
    ∷ served_order courier_salmon_order
    ∷ []

-- All served and the ledger closed.
abbrev pub last_call : Checkpoint
last_call = record {
  revision = 40;
  generation = 0;
  phase = closing;
  rice_beat_index = 3;
  presentation_choice = some indigo_rim;
  restoration_choice = none;
  active_order_index = 3;
  orders = served_orders;
  components = conserved_components served_orders;
  story_flags =
      "ceramicist-first-service-served" ∷ "fishmonger-first-service-served"
      ∷ "courier-first-service-served" ∷ [];
  unlocks = [];
}

abbrev pub restoration : Fields
restoration = field "choice" (str "mend-counter-stool") end

abbrev pub settled_evening : Decision
settled_evening = decided last_call "service.choose-restoration" restoration

abbrev pub evening_end : Checkpoint
evening_end = settled_evening.checkpoint

-- Unfolds what the validation of a command computes with.
unfoldable pub envelope : Unit {0}
unfolding conserved_components reduce_evening_service validate_command_envelope is_command_name
    is_content_version is_sha256 canonical_json is_subject_id is_uuid_shape is_uuid_v4
envelope = tt

test_settled : evening_end.phase ≡ settled
unfolding reducer conserved_components
test_settled = refl

opening :
    reduce_evening_service zero_hash
      (checkpoint_json create_initial_checkpoint)
      (command_json 0 "service.start" end)
    ≡ ok (decided create_initial_checkpoint "service.start" end)
unfolding reducer envelope
opening = refl

-- The four runs and the hypotheses on them.
refused :
    reduce_evening_service zero_hash
      (checkpoint_json create_initial_checkpoint)
      (command_json 0 "service.close-ledger" end)
    ≡ ok (decided create_initial_checkpoint "service.close-ledger" end)
unfolding reducer envelope
refused = refl

restoring :
    reduce_evening_service zero_hash
      (checkpoint_json last_call)
      (command_json 40 "service.choose-restoration" restoration)
    ≡ ok settled_evening
unfolding reducer envelope
restoring = refl

too_late :
    reduce_evening_service zero_hash
      (checkpoint_json evening_end)
      (command_json 41 "service.start" end)
    ≡ ok (decided evening_end "service.start" end)
unfolding reducer envelope
too_late = refl

opening_accepted : (decided create_initial_checkpoint "service.start" end).response.accepted ≡ true
unfolding reducer envelope
opening_accepted = refl

refused_not_accepted :
    (decided create_initial_checkpoint "service.close-ledger" end).response.accepted ≡ false
unfolding reducer envelope
refused_not_accepted = refl

settled_reported : settled_evening.response.settled_now ≡ true
unfolding reducer envelope
settled_reported = refl

decoded_start :
    decode_checkpoint (checkpoint_json create_initial_checkpoint) ≡ ok create_initial_checkpoint
unfolding reducer envelope
decoded_start = refl

decoded_call : decode_checkpoint (checkpoint_json last_call) ≡ ok last_call
unfolding reducer envelope
decoded_call = refl

decoded_end : decode_checkpoint (checkpoint_json evening_end) ≡ ok evening_end
unfolding reducer envelope
decoded_end = refl

unlocked_end : includes evening_end.unlocks salmon_sashimi_unlock_id ≡ true
unfolding reducer envelope
unlocked_end = refl

acceptance_advances_example :
    Accepted
      (checkpoint_json create_initial_checkpoint)
      (decided create_initial_checkpoint "service.start" end)
acceptance_advances_example =
    acceptance_advances zero_hash (checkpoint_json create_initial_checkpoint)
      (command_json 0 "service.start" end) opening opening_accepted

settlement_complete_example :
    (before : Checkpoint) × (decode_checkpoint (checkpoint_json last_call) ≡ ok before)
    × (before.phase ≡ closing)
    × IsFinished settled_evening.checkpoint
settlement_complete_example =
    settlement_complete zero_hash (checkpoint_json last_call)
      (command_json 40 "service.choose-restoration" restoration) restoring settled_reported

settled_absorbs_example :
    ((decided evening_end "service.start" end).checkpoint ≡ evening_end)
    × ((decided evening_end "service.start" end).response.accepted ≡ false)
    × ((decided evening_end "service.start" end).response.feedback_ref ≡ "cue.service.complete")
settled_absorbs_example =
    settled_absorbs zero_hash (checkpoint_json evening_end) (command_json 41 "service.start" end)
      evening_end too_late decoded_end test_settled

refusal_changes_nothing_example :
    (decode_checkpoint (checkpoint_json create_initial_checkpoint)
      ≡ ok (decided create_initial_checkpoint "service.close-ledger" end).checkpoint)
    × ((decided create_initial_checkpoint "service.close-ledger" end).response.checkpoint
        ≡ (decided create_initial_checkpoint "service.close-ledger" end).checkpoint)
    × ((decided create_initial_checkpoint "service.close-ledger" end).response.settled_now ≡ false)
    × ((decided create_initial_checkpoint "service.close-ledger" end).response.unlocked_now ≡ [])
    × ((decided create_initial_checkpoint "service.close-ledger" end).response.corrective_cue_id
        ≡ some (decided create_initial_checkpoint "service.close-ledger" end).response.feedback_ref)
refusal_changes_nothing_example =
    refusal_changes_nothing zero_hash (checkpoint_json create_initial_checkpoint)
      (command_json 0 "service.close-ledger" end) refused refused_not_accepted

decode_settled-IsFinished_example : IsFinished evening_end
decode_settled-IsFinished_example =
    decode_settled-IsFinished (checkpoint_json evening_end) evening_end decoded_end test_settled

decode_checkpoint-checkpoint_json_example :
    (create_initial_checkpoint ≡ create_initial_checkpoint)
    × (assert_invariants create_initial_checkpoint ≡ ok tt)
decode_checkpoint-checkpoint_json_example =
    decode_checkpoint-checkpoint_json create_initial_checkpoint decoded_start

decode-AllBalanced_example :
    (last_call.components ≡ conserved_components last_call.orders)
    × AllBalanced last_call.components
decode-AllBalanced_example = decode-AllBalanced (checkpoint_json last_call) last_call decoded_call

abbrev opened : Checkpoint
opened = record create_initial_checkpoint { phase = open_ }

first_step :
    step create_initial_checkpoint start (obj end)
    ≡ ok (moved opened "feedback.service.opened" false [] none)
unfolding reducer
first_step = refl

step-Follows_example : Follows create_initial_checkpoint opened false []
step-Follows_example = step-Follows create_initial_checkpoint (obj end) start first_step

abbrev stored_start : StoredResult
stored_start = record {
  subject = guest "guest-service-fixture-0001";
  idempotency_key = "018f47fe-347b-4dac-8f45-a6f3f43b0001";
  command_name = "service.start";
  expected_revision = 0;
  content_version = first_evening_content_version;
  payload_hash = zeros;
  committed_revision = 1;
  result_hash = zeros;
  response = record { schema_version = 1; payload = obj end };
}

retried :
    assert_retry_matches zero_hash (command_json 0 "service.start" end) stored_start
    ≡ ok stored_start.response
unfolding reducer envelope assert_retry_matches same_subject
retried = refl

assert_retry_matches-Repeats_example :
    (retry : CommandEnvelope) × (validate_command_envelope zero_hash
        (command_json 0 "service.start" end)
      ≡ ok retry)
    × Repeats retry stored_start
    × (stored_start.response ≡ stored_start.response)
assert_retry_matches-Repeats_example =
    assert_retry_matches-Repeats zero_hash (command_json 0 "service.start" end) stored_start retried
