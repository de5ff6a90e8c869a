-- ===== src/Examples/Shift.antt =====
-- A whole evening: the commands of the happy path, from the first checkpoint to settlement.
use samurai_sushi.Common.{
  ℕ, ◌≡◌, refl, String, Option, none, some, List, [], ◌∷◌, Result, ok, err, ◌>>=◌,
}
use samurai_sushi.Json.{str, obj, Fields, end, field}
use samurai_sushi.Json.Bounds.{assert_bounded_json, node_fits, walk}
use samurai_sushi.Json.Canonical.{canonicalize}
use samurai_sushi.Json.Unicode.{assert_valid_unicode}
use samurai_sushi.Commands.{guest, CommandEnvelope}
use samurai_sushi.Service.{Phase, open_, Checkpoint, first_evening_content_version}
use samurai_sushi.Service.Components.{create_initial_checkpoint, same_rows}
use samurai_sushi.Service.Decode.{
  decode_checkpoint, read_order, read_component, detach, read_checkpoint, read_orders,
  read_components, read_phase, read_choice, read_text_set, read_ref,
}
use samurai_sushi.Service.Texts.{
  parse_command, parse_phase, parse_state, parse_presentation, parse_restoration,
}
use samurai_sushi.Service.Encode.{checkpoint_json}
use samurai_sushi.Service.Invariants.{
  served_count, story_violates, orders_violate, unlocks_violate, settlement_violates,
  presentation_violates, idle_violates, open_violates, closing_violates, assert_invariants,
}
use samurai_sushi.Service.Steps.{beat_allowed, step}
use samurai_sushi.Service.Reduce.{reduce_decoded, mismatched, dispatch, conclude}

-- Unfolds what a run of the reducer computes with.
unfoldable pub reducer : Unit {0}
unfolding reduce_decoded mismatched dispatch conclude parse_command beat_allowed served_count
    story_violates orders_violate unlocks_violate settlement_violates presentation_violates
    idle_violates open_violates closing_violates same_rows detach read_checkpoint read_orders
    read_components read_phase read_choice read_text_set read_ref parse_phase parse_state
    parse_presentation parse_restoration step decode_checkpoint read_order read_component
    checkpoint_json assert_invariants assert_bounded_json node_fits walk canonicalize
    assert_valid_unicode create_initial_checkpoint
reducer = tt

abbrev pub zeros : String
zeros = "sha256:0000000000000000000000000000000000000000000000000000000000000000"

abbrev pub command_at : Checkpoint → String → Fields → CommandEnvelope
command_at c name payload = record {
  command_name = name;
  subject = guest "guest-service-fixture-0001";
  idempotency_key = "018f47fe-347b-4dac-8f45-a6f3f43b0001";
  expected_revision = c.revision;
  content_version = first_evening_content_version;
  payload = obj payload;
  payload_hash = zeros;
}

abbrev run : Checkpoint → List (String × Fields) → Result Checkpoint
run c [] = ok c
run c ((name, payload) ∷ rest) =
    reduce_decoded c (command_at c name payload) >>= λ d. run d.checkpoint rest

abbrev order_id : String → Fields
order_id id = field "orderId" (str id) end

abbrev perform : String → String → String × Fields
perform id step = ("service.perform-step", field "orderId" (str id) (field "stepId" (str step) end))

abbrev evening : List (String × Fields)
evening =
    ("service.start", end)
    ∷ ("service.prepare-rice", field "beat" (str "wash") end)
    ∷ ("service.prepare-rice", field "beat" (str "steam") end)
    ∷ ("service.prepare-rice", field "beat" (str "season") end)
    ∷ ("service.accept-order", order_id "ceramicist-kappa")
    ∷ perform "ceramicist-kappa" "layer-nori"
    ∷ perform "ceramicist-kappa" "portion-rice"
    ∷ perform "ceramicist-kappa" "place-cucumber"
    ∷ perform "ceramicist-kappa" "roll-kappa"
    ∷ perform "ceramicist-kappa" "cut-kappa"
    ∷ (
      "service.choose-presentation",
      field "orderId" (str "ceramicist-kappa") (field "choice" (str "indigo-rim") end),
    )
    ∷ ("service.plate-order", order_id "ceramicist-kappa")
    ∷ ("service.serve-order", order_id "ceramicist-kappa")
    ∷ []

abbrev phase_of : Result Checkpoint → Option (Phase × ℕ × ℕ)
phase_of (ok c) = some (c.phase, c.revision, c.active_order_index)
phase_of (err e) = none

evening_test : phase_of (run create_initial_checkpoint evening) ≡ some (open_, 13, 1)
unfolding reducer
evening_test = refl
