-- ===== src/Service/Decode.antt =====
-- packages/domain/src/evening-service.ts: `decodeEveningServiceCheckpoint`, and the JSON value that
-- a checkpoint is.
use samurai_sushi.Common.{
  not, ◌&&◌, ◌||◌, String, Option, none, some, List, [], ◌∷◌, length, all_distinct, Result, ok, err,
  ◌>>=◌, ◌>>◌, guard, reject, from_option, invalid_service_state, if◌then◌else◌,
}
use samurai_sushi.Json.{Json, null, str, Items, nil, cons, get}
use samurai_sushi.Json.Canonical.{canonicalize}
use samurai_sushi.Json.Bounds.{assert_bounded_json}
use samurai_sushi.Json.Shape.{
  plain_object, exact_keys, is_str, is_nat, read_nat, read_nat_le, read_str, read_items,
}
use samurai_sushi.Service.{
  Phase, ComponentId, OrderDefinition, OrderCheckpoint, ComponentCheckpoint, Checkpoint,
  first_evening_service_id, first_evening_content_version,
}
use samurai_sushi.Service.Texts.{
  order_text, component_text, parse_phase, parse_state, parse_presentation, parse_restoration,
}
use samurai_sushi.Service.Definition.{service_definition, component_ids}
use samurai_sushi.Service.Invariants.{assert_invariants}

-- The bounded, canonical copy on which the decoder works: `JSON.parse(canonicalJson(input))`.
unfoldable pub detach : Json → Result Json
detach input = assert_bounded_json input >> canonicalize input

abbrev pub legacy_keys : List String
legacy_keys =
    "activeOrderIndex" ∷ "components" ∷ "contentVersion" ∷ "orders" ∷ "phase" ∷ "presentationChoice"
    ∷ "restorationChoice" ∷ "revision" ∷ "riceBeatIndex" ∷ "schemaVersion" ∷ "serviceId"
    ∷ "storyFlags" ∷ "unlocks" ∷ []

abbrev pub checkpoint_keys : List String
checkpoint_keys = "generation" ∷ legacy_keys

unfoldable pub read_phase : Option Json → Result Phase
read_phase v = do
  s ← read_str invalid_service_state v
  from_option (parse_phase s) invalid_service_state

-- `null`, or one of the listed choices.
unfoldable pub read_choice : {A : Type 0} → (String → Option A) → Option Json → Result (Option A)
read_choice parse (some null) = ok none
read_choice parse v = do
  s ← read_str invalid_service_state v
  a ← from_option (parse s) invalid_service_state
  ok (some a)

abbrev pub read_strings : Items → Result (List String)
read_strings nil = ok []
read_strings (cons (str s) js) = read_strings js >>= λ ss. ok (s ∷ ss)
read_strings (cons _ js) = err invalid_service_state

-- An array of distinct texts.
unfoldable pub read_text_set : Option Json → Result (List String)
read_text_set v = do
  js ← read_items invalid_service_state v
  ss ← read_strings js
  guard (all_distinct ss) invalid_service_state
  ok ss

-- `null`, or the authored reference.
unfoldable pub read_ref : String → Option Json → Result (Option String)
read_ref authored (some null) = ok none
read_ref authored v = do guard (is_str v authored) invalid_service_state; ok (some authored)

abbrev pub order_keys : List String
order_keys = "id" ∷ "plateFeedbackRef" ∷ "serveFeedbackRef" ∷ "state" ∷ "stepIndex" ∷ []

unfoldable pub read_order : OrderDefinition → Json → Result OrderCheckpoint
read_order def j = do
  fs ← plain_object invalid_service_state j
  exact_keys invalid_service_state fs order_keys
  guard (is_str (get fs "id") (order_text def.id)) invalid_service_state
  s ← read_str invalid_service_state (get fs "state")
  state ← from_option (parse_state s) invalid_service_state
  step_index ← read_nat_le invalid_service_state (length def.steps) (get fs "stepIndex")
  plate ← read_ref def.plate_feedback_ref (get fs "plateFeedbackRef")
  serve ← read_ref def.serve_feedback_ref (get fs "serveFeedbackRef")
  ok (record {
    id = def.id;
    state = state;
    step_index = step_index;
    plate_feedback_ref = plate;
    serve_feedback_ref = serve;
  })

-- `row.orders.map(…)`, after the test that there is one value for each authored order.
unfoldable pub read_orders : List OrderDefinition → Items → Result (List OrderCheckpoint)
read_orders [] nil = ok []
read_orders (def ∷ defs) (cons j js) = do
  order ← read_order def j
  orders ← read_orders defs js
  ok (order ∷ orders)
read_orders _ _ = err invalid_service_state

abbrev pub component_keys : List String
component_keys = "available" ∷ "discarded" ∷ "id" ∷ "placed" ∷ "served" ∷ "total" ∷ []

unfoldable pub read_component : ComponentId → Json → Result ComponentCheckpoint
read_component id j = do
  fs ← plain_object invalid_service_state j
  exact_keys invalid_service_state fs component_keys
  guard (is_str (get fs "id") (component_text id)) invalid_service_state
  available ← read_nat invalid_service_state (get fs "available")
  discarded ← read_nat invalid_service_state (get fs "discarded")
  placed ← read_nat invalid_service_state (get fs "placed")
  served ← read_nat invalid_service_state (get fs "served")
  total ← read_nat invalid_service_state (get fs "total")
  ok (record {
    id = id;
    total = total;
    available = available;
    placed = placed;
    served = served;
    discarded = discarded;
  })

unfoldable pub read_components : List ComponentId → Items → Result (List ComponentCheckpoint)
read_components [] nil = ok []
read_components (id ∷ ids) (cons j js) = do
  component ← read_component id j
  components ← read_components ids js
  ok (component ∷ components)
read_components _ _ = err invalid_service_state

-- The decoder up to the invariants, on the detached copy.
unfoldable pub read_checkpoint : Json → Result Checkpoint
read_checkpoint detached = do
  row ← plain_object invalid_service_state detached
  let legacy = is_nat (get row "schemaVersion") 1
  exact_keys invalid_service_state row (if legacy then legacy_keys else checkpoint_keys)
  reject
      ((not legacy && not (is_nat (get row "schemaVersion") 2))
        || not (is_str (get row "serviceId") first_evening_service_id)
        || not (is_str (get row "contentVersion") first_evening_content_version))
      invalid_service_state
  revision ← read_nat invalid_service_state (get row "revision")
  generation ← if legacy then ok 0 else read_nat invalid_service_state (get row "generation")
  phase ← read_phase (get row "phase")
  rice ← read_nat_le invalid_service_state 3 (get row "riceBeatIndex")
  active ← read_nat_le invalid_service_state 3 (get row "activeOrderIndex")
  presentation ← read_choice parse_presentation (get row "presentationChoice")
  restoration ← read_choice parse_restoration (get row "restorationChoice")
  unlocks ← read_text_set (get row "unlocks")
  story_flags ← read_text_set (get row "storyFlags")
  order_items ← read_items invalid_service_state (get row "orders")
  orders ← read_orders service_definition.orders order_items
  component_items ← read_items invalid_service_state (get row "components")
  components ← read_components component_ids component_items
  ok (record {
    revision = revision;
    generation = generation;
    phase = phase;
    rice_beat_index = rice;
    presentation_choice = presentation;
    restoration_choice = restoration;
    active_order_index = active;
    orders = orders;
    components = components;
    story_flags = story_flags;
    unlocks = unlocks;
  })

unfoldable pub decode_checkpoint : Json → Result Checkpoint
decode_checkpoint input = do
  detached ← detach input
  decoded ← read_checkpoint detached
  assert_invariants decoded
  ok decoded
