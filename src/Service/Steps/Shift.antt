-- ===== src/Service/Steps/Shift.antt =====
-- packages/domain/src/evening-service.ts: the cases of `reduceEveningService` on the whole evening: its
-- start, the rice, the closing and the abandonment.
use samurai_sushi.Common.{
  ◌+◌, Bool, true, ◌&&◌, ◌||◌, Option, none, some, [], ◌∷◌, get_elem?, includes, ◌==◌, Result, ok,
  ◌>>=◌, ◌>>◌, reject, map, invalid_service_state, if◌then◌else◌,
}
use samurai_sushi.Json.{Json, Fields, get}
use samurai_sushi.Json.Canonical.{max_safe_integer}
use samurai_sushi.Json.Text.{◌+++◌}
use samurai_sushi.Json.Shape.{is_str}
use samurai_sushi.Service.{
  open_, closing, settled, abandoned, RestorationChoice, RiceBeat, Checkpoint,
  salmon_sashimi_unlock_id,
}
use samurai_sushi.Service.Texts.{beat_text, parse_restoration}
use samurai_sushi.Service.Definition.{service_definition}
use samurai_sushi.Service.Components.{offered_orders}
use samurai_sushi.Service.Invariants.{
  is_idle, is_open, is_closing, is_abandoned, is_offered, state_at,
}
use samurai_sushi.Service.Steps.Lookup.{
  Move, corrected, moved, advanced, payload_object, chosen, discard_order,
}

module _ (c : Checkpoint) where
  unfoldable pub start_step : Json → Result Move
  unfolding payload_object
  start_step payload = do
    fields ← payload_object payload []
    ok (
        if is_idle c.phase
        then advanced (record c { phase = open_ }) "feedback.service.opened"
        else corrected "cue.start.invalid")

  unfoldable pub restart : Checkpoint
  restart = record c {
    generation = c.generation + 1;
    phase = open_;
    rice_beat_index = 0;
    presentation_choice = none;
    restoration_choice = none;
    active_order_index = 0;
    orders = offered_orders;
  }

  unfoldable pub start_new_step : Json → Result Move
  unfolding payload_object restart
  start_new_step payload = do
    fields ← payload_object payload []
    if is_abandoned c.phase
        then (reject (c.generation == max_safe_integer) invalid_service_state
            >> ok (advanced restart "feedback.service.new-shift"))
        else ok (corrected "cue.start-new.invalid")

  -- The service awaits this beat, and the payload names it.
  unfoldable pub beat_allowed : Fields → RiceBeat → Bool
  beat_allowed payload expected =
      is_open c.phase
      && c.active_order_index == 0
      && state_at c.orders 0 is_offered
      && is_str (get payload "beat") (beat_text expected)

  unfoldable pub rice_move : Fields → Option RiceBeat → Move
  rice_move payload none = corrected "cue.rice.complete"
  rice_move payload (some expected) =
      if beat_allowed payload expected
      then advanced (record c { rice_beat_index = c.rice_beat_index + 1 })
          ("feedback.rice." +++ beat_text expected +++ ".saved")
      else corrected ("cue.rice.expected." +++ beat_text expected)

  unfoldable pub prepare_rice_step : Json → Result Move
  unfolding payload_object rice_move
  prepare_rice_step payload = do
    fields ← payload_object payload ("beat" ∷ [])
    ok (rice_move fields (get_elem? service_definition.rice_beats c.rice_beat_index))

  unfoldable pub close_ledger_step : Json → Result Move
  unfolding payload_object
  close_ledger_step payload = do
    fields ← payload_object payload []
    ok (
        if is_open c.phase && c.active_order_index == 3
        then advanced (record c { phase = closing }) "feedback.ledger.closed"
        else corrected "cue.ledger.orders-incomplete")

  unfoldable pub restoration_move : Option RestorationChoice → Move
  restoration_move none = corrected "cue.restoration.invalid"
  restoration_move (some choice) =
      let already = includes c.unlocks salmon_sashimi_unlock_id in
      if is_closing c.phase
      then moved
          (record c {
            phase = settled;
            restoration_choice = some choice;
            unlocks = if already then c.unlocks else salmon_sashimi_unlock_id ∷ [];
          })
          "feedback.service.settled" true (if already then [] else salmon_sashimi_unlock_id ∷ [])
          none
      else corrected "cue.restoration.invalid"

  unfoldable pub choose_restoration_step : Json → Result Move
  unfolding payload_object restoration_move parse_restoration
  choose_restoration_step payload = do
    fields ← payload_object payload ("choice" ∷ [])
    ok (restoration_move (chosen parse_restoration (get fields "choice")))

  unfoldable pub abandon_step : Json → Result Move
  unfolding payload_object
  abandon_step payload = do
    fields ← payload_object payload []
    ok (
        if is_open c.phase || is_closing c.phase
        then advanced (record c { phase = abandoned; orders = map discard_order c.orders })
            "feedback.service.abandoned"
        else corrected "cue.abandon.invalid")
