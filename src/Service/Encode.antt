-- ===== src/Service/Encode.antt =====
-- The plain object that a checkpoint is at run time, with its properties in sorted order.
use samurai_sushi.Common.{String, Option, none, some, map}
use samurai_sushi.Json.{nat, Json, null, num, str, arr, obj, end, field, items_of, texts}
use samurai_sushi.Service.{
  OrderCheckpoint, ComponentCheckpoint, Checkpoint, evening_service_schema_version,
  first_evening_service_id, first_evening_content_version,
}
use samurai_sushi.Service.Texts.{
  phase_text, state_text, presentation_text, restoration_text, order_text, component_text,
}

abbrev pub ref_json : Option String → Json
ref_json none = null
ref_json (some s) = str s

abbrev pub choice_json : {A : Type 0} → (A → String) → Option A → Json
choice_json text none = null
choice_json text (some a) = str (text a)

abbrev pub order_json : OrderCheckpoint → Json
order_json o = obj (
    field "id" (str (order_text o.id)) (
      field "plateFeedbackRef" (ref_json o.plate_feedback_ref) (
        field "serveFeedbackRef" (ref_json o.serve_feedback_ref) (
          field "state" (str (state_text o.state))
            (field "stepIndex" (num (nat o.step_index)) end)))))

abbrev pub component_json : ComponentCheckpoint → Json
component_json c = obj (
    field "available" (num (nat c.available)) (
      field "discarded" (num (nat c.discarded)) (
        field "id" (str (component_text c.id)) (
          field "placed" (num (nat c.placed))
            (field "served" (num (nat c.served)) (field "total" (num (nat c.total)) end))))))

unfoldable pub checkpoint_json : Checkpoint → Json
checkpoint_json c = obj (
    field "activeOrderIndex" (num (nat c.active_order_index)) (
      field "components" (arr (items_of (map component_json c.components))) (
        field "contentVersion" (str first_evening_content_version) (
          field "generation" (num (nat c.generation)) (
            field "orders" (arr (items_of (map order_json c.orders))) (
              field "phase" (str (phase_text c.phase)) (
                field "presentationChoice" (choice_json presentation_text c.presentation_choice) (
                  field "restorationChoice" (choice_json restoration_text c.restoration_choice) (
                    field "revision" (num (nat c.revision)) (
                      field "riceBeatIndex" (num (nat c.rice_beat_index)) (
                        field "schemaVersion" (num (nat evening_service_schema_version)) (
                          field "serviceId" (str first_evening_service_id) (
                            field "storyFlags" (arr (texts c.story_flags))
                              (field "unlocks" (arr (texts c.unlocks)) end))))))))))))))
