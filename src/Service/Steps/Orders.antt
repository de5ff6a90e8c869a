-- ===== src/Service/Steps/Orders.antt =====
-- packages/domain/src/evening-service.ts: the cases of `reduceEveningService` on one order, from
-- acceptance to service.
use samurai_sushi.Common.{
  ◌+◌, false, ◌&&◌, Option, none, some, [], ◌∷◌, ◌++◌, get_elem?, includes, ◌==◌, Result, ok, ◌>>=◌,
  if◌then◌else◌, length,
}
use samurai_sushi.Json.{Json, Fields, get}
use samurai_sushi.Json.Text.{◌+++◌}
use samurai_sushi.Json.Shape.{is_str}
use samurai_sushi.Service.{
  accepted, preparing, ready_to_plate, plated, served, PresentationChoice, AuthoredStep,
  OrderDefinition, OrderCheckpoint, Checkpoint,
}
use samurai_sushi.Service.Texts.{order_text, presentation_text, parse_presentation}
use samurai_sushi.Service.Invariants.{is_offered, is_ready, is_plated, is_none}
use samurai_sushi.Service.Steps.Lookup.{
  Move, corrected, moved, advanced, payload_object, definition_of, map_active, order_cue,
  named_order, is_startable, chosen,
}

module _ (c : Checkpoint) where
  unfoldable pub accept_move : Option (OrderDefinition × OrderCheckpoint) → Move
  accept_move none =
      corrected (order_cue (definition_of c) "cue.order.accept." "cue.orders.complete")
  accept_move (some (def, order)) =
      advanced (record c { orders = map_active c (λ o. record o { state = accepted }) })
        def.dialogue_ref

  unfoldable pub accept_order_step : Json → Result Move
  unfolding payload_object accept_move
  accept_order_step payload = do
    fields ← payload_object payload ("orderId" ∷ [])
    ok (accept_move (if c.rice_beat_index == 3 then named_order c fields is_offered else none))

  -- The authored step that the order expects.
  unfoldable pub step_move : Fields → OrderDefinition → OrderCheckpoint → Option AuthoredStep → Move
  step_move payload def order none = corrected ("cue.plate.required." +++ order_text def.id)
  step_move payload def order (some expected) =
      if is_str (get payload "stepId") expected.id
      then advanced
          (record c {
            orders = map_active c (λ o. record o {
              state =
                  if order.step_index + 1 == length def.steps then ready_to_plate else preparing;
              step_index = order.step_index + 1;
            });
          })
          expected.prompt_ref
      else corrected expected.corrective_cue_ref

  unfoldable pub perform_move : Fields → Option (OrderDefinition × OrderCheckpoint) → Move
  unfolding step_move
  perform_move payload none =
      corrected (order_cue (definition_of c) "cue.order.expected." "cue.orders.complete")
  perform_move payload (some (def, order)) =
      step_move payload def order (get_elem? def.steps order.step_index)

  unfoldable pub perform_step_step : Json → Result Move
  unfolding payload_object perform_move
  perform_step_step payload = do
    fields ← payload_object payload ("orderId" ∷ "stepId" ∷ [])
    ok (perform_move fields (named_order c fields is_startable))

  unfoldable pub presentation_move :
      Option (OrderDefinition × OrderCheckpoint) → Option PresentationChoice → Move
  presentation_move (some (def, order)) (some choice) =
      if c.active_order_index == 0 && is_none c.presentation_choice
      then advanced (record c { presentation_choice = some choice })
          ("feedback.presentation." +++ presentation_text choice)
      else corrected "cue.presentation.invalid"
  presentation_move _ _ = corrected "cue.presentation.invalid"

  unfoldable pub choose_presentation_step : Json → Result Move
  unfolding payload_object presentation_move parse_presentation
  choose_presentation_step payload = do
    fields ← payload_object payload ("choice" ∷ "orderId" ∷ [])
    ok (
        presentation_move (named_order c fields is_ready)
          (chosen parse_presentation (get fields "choice")))

  unfoldable pub plate_move : Option (OrderDefinition × OrderCheckpoint) → Move
  plate_move none =
      corrected (order_cue (definition_of c) "cue.plate.required." "cue.orders.complete")
  plate_move (some (def, order)) =
      if c.active_order_index == 0 && is_none c.presentation_choice
      then corrected (order_cue (definition_of c) "cue.plate.required." "cue.orders.complete")
      else advanced
          (record c {
            orders = map_active c (λ o. record o {
              state = plated;
              plate_feedback_ref = some def.plate_feedback_ref;
            });
          })
          def.plate_feedback_ref

  unfoldable pub plate_order_step : Json → Result Move
  unfolding payload_object plate_move
  plate_order_step payload = do
    fields ← payload_object payload ("orderId" ∷ [])
    ok (plate_move (named_order c fields is_ready))

  -- The checkpoint after the active order is served.
  unfoldable pub serve_active : OrderDefinition → Checkpoint
  serve_active def = record c {
    orders =
        map_active c
          (λ o. record o { state = served; serve_feedback_ref = some def.serve_feedback_ref });
    active_order_index = c.active_order_index + 1;
    story_flags =
        if includes c.story_flags def.story_flag_id
        then c.story_flags
        else c.story_flags ++ def.story_flag_id ∷ [];
  }

  unfoldable pub serve_move : Option (OrderDefinition × OrderCheckpoint) → Move
  unfolding serve_active
  serve_move none =
      corrected (order_cue (definition_of c) "cue.serve.required." "cue.orders.served")
  serve_move (some (def, order)) =
      moved (serve_active def) def.serve_feedback_ref false [] (some def.outcome_class)

  unfoldable pub serve_order_step : Json → Result Move
  unfolding payload_object serve_move
  serve_order_step payload = do
    fields ← payload_object payload ("orderId" ∷ [])
    ok (serve_move (named_order c fields is_plated))
