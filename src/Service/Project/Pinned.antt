-- ===== src/Service/Project/Pinned.antt =====
-- packages/domain/src/evening-service.ts: the pinned service definition as the plain object that the
-- manifest of `projectEveningService` is compared with.
use samurai_sushi.Common.{Option, none, some, map}
use samurai_sushi.Json.{nat, Json, num, str, arr, obj, Fields, end, field, items_of, texts}
use samurai_sushi.Service.{
  AuthoredStep, OrderDefinition, ComponentId, wash, steam, season, evening_service_schema_version,
  first_evening_service_id, first_evening_content_version,
}
use samurai_sushi.Service.Texts.{
  outcome_text, presentation_text, restoration_text, beat_text, order_text, station_text,
  component_text, role_text, dish_text,
}
use samurai_sushi.Service.Definition.{service_definition}

-- An absent component is an absent property.
abbrev component_field : Option ComponentId → Fields
component_field none = end
component_field (some c) = field "componentRef" (str (component_text c)) end

abbrev step_json : AuthoredStep → Json
step_json step = obj (
    field "id" (str step.id) (
      field "station" (str (station_text step.station)) (
        field "action" (str step.action) (
          field "promptRef" (str step.prompt_ref) (
            field "correctiveCueRef" (str step.corrective_cue_ref)
              (component_field step.component_ref))))))

abbrev definition_json : OrderDefinition → Json
definition_json def = obj (
    field "id" (str (order_text def.id)) (
      field "guestRole" (str (role_text def.guest_role)) (
        field "dishId" (str (dish_text def.dish_id)) (
          field "dialogueRef" (str def.dialogue_ref) (
            field "outcomeClass" (str (outcome_text def.outcome_class)) (
              field "acceptPromptRef" (str def.accept_prompt_ref) (
                field "steps" (arr (items_of (map step_json def.steps))) (
                  field "platePromptRef" (str def.plate_prompt_ref) (
                    field "plateFeedbackRef" (str def.plate_feedback_ref) (
                      field "serveFeedbackRef" (str def.serve_feedback_ref) (
                        field "storyFlagId" (str def.story_flag_id) (
                          field "persistentConsequenceRef" (str def.persistent_consequence_ref)
                            end))))))))))))

abbrev rice_prompts_json : Json
rice_prompts_json = obj (
    field "wash" (str (service_definition.rice_prompt_refs wash)) (
      field "steam" (str (service_definition.rice_prompt_refs steam))
        (field "season" (str (service_definition.rice_prompt_refs season)) end)))

unfoldable pub pinned_definition_json : Json
pinned_definition_json = obj (
    field "schemaVersion" (num (nat evening_service_schema_version)) (
      field "id" (str first_evening_service_id) (
        field "contentVersion" (str first_evening_content_version) (
          field "startPromptRef" (str service_definition.start_prompt_ref) (
            field "ricePromptRefs" rice_prompts_json (
              field "closePromptRef" (str service_definition.close_prompt_ref) (
                field "restorationPromptRef" (str service_definition.restoration_prompt_ref) (
                  field "settledPromptRef" (str service_definition.settled_prompt_ref) (
                    field "abandonedPromptRef" (str service_definition.abandoned_prompt_ref) (
                      field "riceBeats" (arr (texts (map beat_text service_definition.rice_beats)))
                        (field "presentationChoices"
                          (arr
                            (texts (map presentation_text service_definition.presentation_choices)))
                          (field "restorationChoices"
                            (arr
                              (texts (map restoration_text service_definition.restoration_choices)))
                            (field "orders"
                              (arr (items_of (map definition_json service_definition.orders)))
                              (field "settlementUnlock" (str service_definition.settlement_unlock)
                                end))))))))))))))
