-- ===== src/Service/Steps/Lookup.antt =====
-- packages/domain/src/evening-service.ts: what a case of the `switch` in `reduceEveningService` ends in,
-- and the lookups that the cases share.
use samurai_sushi.Common.{
  ℕ, zero, suc, Bool, true, false, ◌&&◌, String, Option, none, some, List, [], ◌∷◌, get_elem?,
  Result, ok, ◌>>=◌, ◌>>◌, invalid_service_state, if◌then◌else◌,
}
use samurai_sushi.Json.{Json, str, Fields, get}
use samurai_sushi.Json.Text.{◌+++◌}
use samurai_sushi.Json.Shape.{plain_object, exact_keys, is_str}
use samurai_sushi.Service.{
  OrderState, accepted, preparing, discarded, OutcomeClass, OrderDefinition, OrderCheckpoint,
  Checkpoint,
}
use samurai_sushi.Service.Texts.{order_text}
use samurai_sushi.Service.Definition.{service_definition}
use samurai_sushi.Service.Invariants.{is_open, is_served}

pub data Move : Type 0 where
  corrected : (cue : String) → Move
  moved :
      (changed : Checkpoint) (feedback : String) (settled_now : Bool) (unlocked : List String)
      (outcome : Option OutcomeClass)
      → Move

-- An accepted command that neither settles nor serves.
abbrev pub advanced : Checkpoint → String → Move
advanced changed feedback = moved changed feedback false [] none

unfoldable pub payload_object : Json → List String → Result Fields
payload_object payload expected = do
  fields ← plain_object invalid_service_state payload
  exact_keys invalid_service_state fields expected
  ok fields

abbrev pub definition_of : Checkpoint → Option OrderDefinition
definition_of c = get_elem? service_definition.orders c.active_order_index

abbrev pub order_of : Checkpoint → Option OrderCheckpoint
order_of c = get_elem? c.orders c.active_order_index

-- `checkpoint.orders.map((item, index) => index === i ? f(item) : item)`.
abbrev pub map_at :
    ℕ → (OrderCheckpoint → OrderCheckpoint) → List OrderCheckpoint → List OrderCheckpoint
map_at i f [] = []
map_at zero f (o ∷ os) = f o ∷ os
map_at (suc i) f (o ∷ os) = o ∷ map_at i f os

abbrev pub map_active : Checkpoint → (OrderCheckpoint → OrderCheckpoint) → List OrderCheckpoint
map_active c f = map_at c.active_order_index f c.orders

-- `${prefix}${definition.id}` if there is an active definition, else the other cue.
abbrev pub order_cue : Option OrderDefinition → String → String → String
order_cue none prefix otherwise = otherwise
order_cue (some def) prefix otherwise = prefix +++ order_text def.id

-- The active definition and order, if the service is open, the payload names the order, and its
-- state passes the test; `none` where the guard `phase !== "OPEN" || !definition || !order || …` holds.
abbrev pub named_order :
    Checkpoint → Fields → (OrderState → Bool) → Option (OrderDefinition × OrderCheckpoint)
named_order c payload test = elim (definition_of c) [
  | none ↦ none
  | some def ↦ elim (order_of c) [
    | none ↦ none
    | some order ↦
        if is_open c.phase && is_str (get payload "orderId") (order_text def.id) && test order.state
        then some (def, order)
        else none
  ]
]

-- `["ACCEPTED", "PREPARING"].includes(order.state)`.
abbrev pub is_startable : OrderState → Bool
is_startable accepted = true
is_startable preparing = true
is_startable _ = false

-- The choice that the payload names, if it is one of the listed ones.
abbrev pub chosen : {A : Type 0} → (String → Option A) → Option Json → Option A
chosen parse (some (str s)) = parse s
chosen parse _ = none

abbrev pub discard_order : OrderCheckpoint → OrderCheckpoint
discard_order o =
    if is_served o.state
    then o
    else record o { state = discarded; plate_feedback_ref = none; serve_feedback_ref = none }
