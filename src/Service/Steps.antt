-- ===== src/Service/Steps.antt =====
-- packages/domain/src/evening-service.ts: the `switch` in `reduceEveningService`.
mod Lookup
mod Orders
mod Shift
unfoldable pub use Lookup.*
unfoldable pub use Orders.*
unfoldable pub use Shift.*
use samurai_sushi.Common.{
  ℕ, zero, suc, ◌+◌, Bool, true, false, ◌&&◌, ◌||◌, String, Option, none, some, List, [], ◌∷◌, ◌++◌,
  get_elem?, includes, ◌==◌, Result, ok, ◌>>=◌, ◌>>◌, reject, map, invalid_service_state,
  if◌then◌else◌, length,
}
use samurai_sushi.Json.{Json, str, Fields, get}
use samurai_sushi.Json.Canonical.{max_safe_integer}
use samurai_sushi.Json.Text.{◌+++◌}
use samurai_sushi.Json.Shape.{plain_object, exact_keys, is_str}
use samurai_sushi.Service.{
  open_, closing, settled, abandoned, OrderState, accepted, preparing, ready_to_plate, plated,
  served, discarded, OutcomeClass, PresentationChoice, RestorationChoice, RiceBeat, AuthoredStep,
  OrderDefinition, OrderCheckpoint, Checkpoint, CommandName, start, start_new, prepare_rice,
  accept_order, perform_step, choose_presentation, plate_order, serve_order, close_ledger,
  choose_restoration, abandon, salmon_sashimi_unlock_id,
}
use samurai_sushi.Service.Texts.{
  beat_text, order_text, presentation_text, parse_presentation, parse_restoration,
}
use samurai_sushi.Service.Definition.{service_definition}
use samurai_sushi.Service.Components.{offered_orders}
use samurai_sushi.Service.Invariants.{
  is_idle, is_open, is_closing, is_abandoned, is_served, is_offered, is_ready, is_plated, is_none,
  state_at,
}

module _ (c : Checkpoint) where
  unfoldable pub step : CommandName → Json → Result Move
  unfolding start_step start_new_step prepare_rice_step accept_order_step perform_step_step
      choose_presentation_step plate_order_step serve_order_step close_ledger_step
      choose_restoration_step abandon_step
  step start payload = start_step c payload
  step start_new payload = start_new_step c payload
  step prepare_rice payload = prepare_rice_step c payload
  step accept_order payload = accept_order_step c payload
  step perform_step payload = perform_step_step c payload
  step choose_presentation payload = choose_presentation_step c payload
  step plate_order payload = plate_order_step c payload
  step serve_order payload = serve_order_step c payload
  step close_ledger payload = close_ledger_step c payload
  step choose_restoration payload = choose_restoration_step c payload
  step abandon payload = abandon_step c payload
