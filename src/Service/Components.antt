-- ===== src/Service/Components.antt =====
-- packages/domain/src/evening-service.ts: `conservedComponents`, and the initial checkpoint.
use samurai_sushi.Common.{
  ℕ, ◌+◌, ◌-◌, Bool, true, false, ◌&&◌, none, some, List, [], ◌∷◌, map, take, count, str_eq, ◌==◌,
}
use samurai_sushi.Service.{
  idle, offered, served, discarded, OrderState, ComponentId, AuthoredStep, OrderDefinition,
  OrderCheckpoint, ComponentCheckpoint, Checkpoint,
}
use samurai_sushi.Service.Texts.{component_text}
use samurai_sushi.Service.Definition.{service_definition, component_ids}

-- `step.componentRef === id`.
abbrev pub uses_component : ComponentId → AuthoredStep → Bool
uses_component id step = elim step.component_ref [
  | none ↦ false
  | some c ↦ str_eq (component_text c) (component_text id)
]

-- The four counters of the loop.
pub record Tally : Type 0 where
  pub total : ℕ
  pub placed : ℕ
  pub served : ℕ
  pub discarded : ℕ

abbrev pub add_completed : OrderState → ℕ → ℕ → Tally → Tally
add_completed served steps completed t = record t {
  total = t.total + steps;
  served = t.served + completed;
}
add_completed discarded steps completed t = record t {
  total = t.total + steps;
  discarded = t.discarded + completed;
}
add_completed _ steps completed t = record t {
  total = t.total + steps;
  placed = t.placed + completed;
}

-- One round of the loop over the authored orders.
abbrev pub tally_order : ComponentId → OrderDefinition → OrderCheckpoint → Tally → Tally
tally_order id def order =
    add_completed order.state (count (uses_component id) def.steps)
      (count (uses_component id) (take order.step_index def.steps))

abbrev pub tally_orders : ComponentId → List OrderDefinition → List OrderCheckpoint → Tally → Tally
tally_orders id [] orders t = t
tally_orders id (def ∷ defs) [] t = t
tally_orders id (def ∷ defs) (order ∷ orders) t =
    tally_orders id defs orders (tally_order id def order t)

abbrev pub empty_tally : Tally
empty_tally = record { total = 0; placed = 0; served = 0; discarded = 0 }

abbrev pub component_row : ComponentId → Tally → ComponentCheckpoint
component_row id t = record {
  id = id;
  total = t.total;
  available = t.total - t.placed - t.served - t.discarded;
  placed = t.placed;
  served = t.served;
  discarded = t.discarded;
}

unfoldable pub conserved_components : List OrderCheckpoint → List ComponentCheckpoint
conserved_components orders =
    map (λ id. component_row id (tally_orders id service_definition.orders orders empty_tally))
      component_ids

abbrev pub offered_order : OrderDefinition → OrderCheckpoint
offered_order def = record {
  id = def.id;
  state = offered;
  step_index = 0;
  plate_feedback_ref = none;
  serve_feedback_ref = none;
}

abbrev pub offered_orders : List OrderCheckpoint
offered_orders = map offered_order service_definition.orders

unfoldable pub create_initial_checkpoint : Checkpoint
unfolding conserved_components
create_initial_checkpoint = record {
  revision = 0;
  generation = 0;
  phase = idle;
  rice_beat_index = 0;
  presentation_choice = none;
  restoration_choice = none;
  active_order_index = 0;
  orders = offered_orders;
  components = conserved_components offered_orders;
  story_flags = [];
  unlocks = [];
}

-- `canonicalJson(a) === canonicalJson(b)` on two component rows.
abbrev pub same_row : ComponentCheckpoint → ComponentCheckpoint → Bool
same_row a b =
    str_eq (component_text a.id) (component_text b.id)
    && a.total == b.total
    && a.available == b.available
    && a.placed == b.placed
    && a.served == b.served
    && a.discarded == b.discarded

unfoldable pub same_rows : List ComponentCheckpoint → List ComponentCheckpoint → Bool
same_rows [] [] = true
same_rows (a ∷ as') (b ∷ bs) = same_row a b && same_rows as' bs
same_rows _ _ = false
