-- ===== src/Service/Project/View.antt =====
-- packages/domain/src/evening-service.ts: what `projectEveningService` shows for each phase and each
-- state of the active order.
use samurai_sushi.Common.{
  ◌&&◌, String, Option, none, some, List, [], ◌∷◌, map, get_elem?, ltb, ◌==◌, if◌then◌else◌,
}
use samurai_sushi.Json.Text.{◌+++◌}
use samurai_sushi.Service.{
  Phase, idle, open_, closing, settled, abandoned, RiceBeat, AuthoredStep, OrderDefinition,
  OrderCheckpoint, Checkpoint, CommandName, start, start_new, prepare_rice, accept_order,
  perform_step, choose_presentation, plate_order, serve_order, close_ledger, choose_restoration,
  salmon_sashimi_unlock_id,
}
use samurai_sushi.Service.Texts.{
  beat_text, order_text, dish_text, role_text, station_text, presentation_text, restoration_text,
}
use samurai_sushi.Service.Definition.{service_definition}
use samurai_sushi.Service.Invariants.{is_offered, is_ready, is_plated, is_none}
use samurai_sushi.Service.Steps.{definition_of, order_of, is_startable}

-- What the chain of tests chooses: the prompt, the choices, the command, and the references shown.
pub record View : Type 0 where
  pub prompt : String
  pub choices : List String
  pub command : Option CommandName
  pub shown : List String

abbrev pub phase_ref : Phase → String
phase_ref idle = "phase.idle"
phase_ref open_ = "phase.open"
phase_ref closing = "phase.closing"
phase_ref settled = "phase.settled"
phase_ref abandoned = "phase.abandoned"

abbrev pub guest_ref : OrderDefinition → String
guest_ref def = "guest." +++ role_text def.guest_role

abbrev pub dish_ref : OrderDefinition → String
dish_ref def = "dish." +++ dish_text def.dish_id

abbrev start_view : View
start_view = record {
  prompt = service_definition.start_prompt_ref;
  choices = [];
  command = some start;
  shown = [];
}

abbrev close_view : View
close_view = record {
  prompt = service_definition.close_prompt_ref;
  choices = [];
  command = some close_ledger;
  shown = "ledger.first-evening" ∷ [];
}

-- The invariants of a decoded checkpoint rule `none` out, where the source would throw.
abbrev rice_view : Option RiceBeat → View
rice_view none = start_view
rice_view (some beat) = record {
  prompt = service_definition.rice_prompt_refs beat;
  choices = beat_text beat ∷ [];
  command = some prepare_rice;
  shown = ("rice." +++ beat_text beat) ∷ "station.rice-hearth" ∷ [];
}

-- As above, `none` does not occur: an order in preparation has a step left.
abbrev step_view : OrderDefinition → Option AuthoredStep → View
step_view def none = start_view
step_view def (some step) = record {
  prompt = step.prompt_ref;
  choices = step.id ∷ [];
  command = some perform_step;
  shown = dish_ref def ∷ guest_ref def ∷ ("station." +++ station_text step.station) ∷ [];
}

-- The tests on the active order of an open service whose rice is ready.
abbrev order_view : Checkpoint → Option OrderDefinition → Option OrderCheckpoint → View
order_view c (some def) (some order) =
    if is_offered order.state
    then record {
      prompt = def.accept_prompt_ref;
      choices = order_text def.id ∷ [];
      command = some accept_order;
      shown = def.dialogue_ref ∷ dish_ref def ∷ guest_ref def ∷ [];
    }
    else if is_startable order.state
    then step_view def (get_elem? def.steps order.step_index)
    else if is_ready order.state && c.active_order_index == 0 && is_none c.presentation_choice
    then record {
      prompt = "prompt.presentation.choose";
      choices = map presentation_text service_definition.presentation_choices;
      command = some choose_presentation;
      shown = [];
    }
    else if is_ready order.state
    then record {
      prompt = def.plate_prompt_ref;
      choices = order_text def.id ∷ [];
      command = some plate_order;
      shown = [];
    }
    else if is_plated order.state
    then record {
      prompt = "prompt.serve." +++ order_text def.id;
      choices = order_text def.id ∷ [];
      command = some serve_order;
      shown = def.plate_feedback_ref ∷ [];
    }
    else close_view
order_view c _ _ = close_view

abbrev view_in : Phase → Checkpoint → View
view_in idle c = start_view
view_in open_ c =
    if ltb c.rice_beat_index 3
    then rice_view (get_elem? service_definition.rice_beats c.rice_beat_index)
    else order_view c (definition_of c) (order_of c)
view_in closing c = record {
  prompt = service_definition.restoration_prompt_ref;
  choices = map restoration_text service_definition.restoration_choices;
  command = some choose_restoration;
  shown = "ledger.first-evening" ∷ [];
}
view_in settled c = record {
  prompt = service_definition.settled_prompt_ref;
  choices = [];
  command = none;
  shown = "ledger.first-evening" ∷ ("unlock." +++ salmon_sashimi_unlock_id) ∷ [];
}
view_in abandoned c = record {
  prompt = service_definition.abandoned_prompt_ref;
  choices = [];
  command = some start_new;
  shown = [];
}

unfoldable pub view : Checkpoint → View
view c = view_in c.phase c
