-- ===== src/Service/Project.antt =====
-- packages/domain/src/evening-service.ts: `projectEveningService`, the view of a checkpoint.
pub mod View
pub mod Pinned
pub mod Laws
use mathlib.Core.Option
use samurai_sushi.Common.{
  Bool, true, false, not, ◌&&◌, String, Option, none, some, List, [], ◌∷◌, ◌++◌, map, get_elem?,
  all, all_distinct, includes, str_eq, ltb, ◌==◌, Result, ok, ◌>>=◌, ◌>>◌, guard,
  invalid_service_state, if◌then◌else◌,
}
use samurai_sushi.Json.{Json, str, arr, obj, end, field, texts}
use samurai_sushi.Json.Text.{◌+++◌, canonical_json}
use samurai_sushi.Json.Bounds.{assert_bounded_json}
use samurai_sushi.Json.Shape.{sort_texts}
use samurai_sushi.Service.{
  Phase, idle, open_, closing, settled, abandoned, RiceBeat, AuthoredStep, OrderDefinition,
  OrderCheckpoint, Checkpoint, CommandName, start, start_new, prepare_rice, accept_order,
  perform_step, choose_presentation, plate_order, serve_order, close_ledger, choose_restoration,
  Disposition, committed, LedgerRow, Projection, first_evening_content_version,
  salmon_sashimi_unlock_id,
}
use samurai_sushi.Service.Texts.{
  beat_text, order_text, dish_text, role_text, station_text, outcome_text, presentation_text,
  restoration_text,
}
use samurai_sushi.Service.Definition.{service_definition}
use samurai_sushi.Service.Invariants.{is_served, is_offered, is_ready, is_plated, is_none}
use samurai_sushi.Service.Decode.{decode_checkpoint}
use samurai_sushi.Service.Steps.{definition_of, order_of, is_startable}
use samurai_sushi.Service.Reduce.{dedup_from}
use samurai_sushi.Service.Project.Pinned.{pinned_definition_json}
use samurai_sushi.Service.Project.View.{phase_ref, guest_ref, dish_ref, view}

-- `item.state === "SERVED" && item.serveFeedbackRef`.
abbrev row_of : OrderDefinition → OrderCheckpoint → Option String → List LedgerRow
row_of def item none = []
row_of def item (some serve_ref) =
    if is_served item.state && not (str_eq serve_ref "")
    then record {
      order_id = def.id;
      guest_ref = guest_ref def;
      dish_ref = dish_ref def;
      outcome_ref = "outcome." +++ outcome_text def.outcome_class;
      plate_feedback_ref = item.plate_feedback_ref;
      serve_feedback_ref = serve_ref;
      story_flag_ref = "story-flag." +++ def.story_flag_id;
      persistent_consequence_ref = def.persistent_consequence_ref;
    }
      ∷ []
    else []

abbrev rows_of : List OrderDefinition → List OrderCheckpoint → List LedgerRow
rows_of (def ∷ defs) (item ∷ items) = row_of def item item.serve_feedback_ref ++ rows_of defs items
rows_of _ _ = []

unfoldable pub ledger_rows : Checkpoint → List LedgerRow
ledger_rows c = rows_of service_definition.orders c.orders

abbrev opt_text : Option String → List String
opt_text none = []
opt_text (some s) = s ∷ []

abbrev row_refs : LedgerRow → List String
row_refs row =
    row.guest_ref ∷ row.dish_ref ∷ row.outcome_ref ∷ opt_text row.plate_feedback_ref
    ++ (row.serve_feedback_ref ∷ row.story_flag_ref ∷ row.persistent_consequence_ref ∷ [])

abbrev rows_refs : List LedgerRow → List String
rows_refs [] = []
rows_refs (r ∷ rs) = row_refs r ++ rows_refs rs

unfoldable pub display_refs : Checkpoint → List String
unfolding view ledger_rows
display_refs c =
    "service.first-evening" ∷ phase_ref c.phase ∷ (view c).shown
    ++ (rows_refs (ledger_rows c)
        ++ (opt_text
              (Option.map (λ p. "presentation." +++ presentation_text p) c.presentation_choice)
            ++ opt_text
                (Option.map (λ r. "restoration." +++ restoration_text r) c.restoration_choice)))

-- The manifest as it arrives; `definition` is the JSON of its service definition.
pub record Manifest : Type 0 where
  pub content_version : String
  pub definition : Json
  pub content_refs : List String

pub record Context : Type 0 where
  pub disposition : Disposition
  pub corrective_cue_id : Option String

abbrev is_empty : List String → Bool
is_empty [] = true
is_empty (s ∷ ss) = false

abbrev join : List String → String
join [] = ""
join (s ∷ []) = s
join (s ∷ ss) = s +++ "|" +++ join ss

abbrev is_committed : Disposition → Bool
is_committed committed = true
is_committed _ = false

-- A cue that is `null` or empty adds no reference.
abbrev pub cue_refs : Option String → List String
cue_refs none = []
cue_refs (some s) = if str_eq s "" then [] else s ∷ []

unfoldable pub assert_projection_manifest : Manifest → Result (Unit {0})
assert_projection_manifest m = do
  assert_bounded_json (
      obj (
        field "contentVersion" (str m.content_version) (
          field "serviceDefinition" m.definition
            (field "contentRefs" (arr (texts m.content_refs)) end))))
  actual ← canonical_json m.definition
  expected ← canonical_json pinned_definition_json
  guard (str_eq m.content_version first_evening_content_version && str_eq actual expected)
      invalid_service_state
  guard
      (not (is_empty m.content_refs)
        && all_distinct m.content_refs
        && str_eq (join (sort_texts m.content_refs)) (join m.content_refs))
      invalid_service_state

unfoldable pub project_evening_service : Json → Manifest → Context → Result Projection
unfolding assert_projection_manifest view display_refs ledger_rows
project_evening_service input m context = do
  c ← decode_checkpoint input
  assert_projection_manifest m
  let shown = display_refs c
  guard
      (all (includes m.content_refs)
        ((view c).prompt ∷ shown ++ cue_refs context.corrective_cue_id))
      invalid_service_state
  ok (record {
    current_prompt_id = (view c).prompt;
    allowed_choice_ids = (view c).choices;
    primary_command = (view c).command;
    corrective_cue_id = context.corrective_cue_id;
    display_refs = dedup_from [] shown;
    ledger_rows = ledger_rows c;
    disposition = context.disposition;
    announce_ceremony = is_committed context.disposition && is_none context.corrective_cue_id;
  })
