-- ===== src/Examples/Display.antt =====
-- The projection of the first checkpoint.
use samurai_sushi.Common.{◌≡◌, refl, ◌↔◌, true, false, none, some, [], ◌∷◌, all, includes, ok}
use samurai_sushi.Json.Text.{canonical_json}
use samurai_sushi.Service.{
  settled, start, query, Checkpoint, Projection, first_evening_content_version,
}
use samurai_sushi.Service.Components.{create_initial_checkpoint}
use samurai_sushi.Service.Decode.{decode_checkpoint}
use samurai_sushi.Service.Encode.{checkpoint_json}
use samurai_sushi.Service.Project.{
  Manifest, Context, display_refs, ledger_rows, assert_projection_manifest, project_evening_service,
}
use samurai_sushi.Service.Project.View.{view}
use samurai_sushi.Service.Project.Pinned.{pinned_definition_json}
use samurai_sushi.Service.Project.Laws.{project_evening_service-shows}
use samurai_sushi.Examples.Shift.{reducer}

abbrev small_manifest : Manifest
small_manifest = record {
  content_version = first_evening_content_version;
  definition = pinned_definition_json;
  content_refs = "phase.idle" ∷ "prompt.service.start" ∷ "service.first-evening" ∷ [];
}

abbrev plain_context : Context
plain_context = record { disposition = query; corrective_cue_id = none }

abbrev first_display : Projection
first_display = record {
  current_prompt_id = "prompt.service.start";
  allowed_choice_ids = [];
  primary_command = some start;
  corrective_cue_id = none;
  display_refs = "service.first-evening" ∷ "phase.idle" ∷ [];
  ledger_rows = [];
  disposition = query;
  announce_ceremony = false;
}

projected :
    project_evening_service (checkpoint_json create_initial_checkpoint) small_manifest plain_context
    ≡ ok first_display
unfolding reducer canonical_json display_refs ledger_rows assert_projection_manifest
    project_evening_service view pinned_definition_json
projected = refl

project_evening_service-shows_example :
    (c : Checkpoint) × (decode_checkpoint (checkpoint_json create_initial_checkpoint) ≡ ok c)
    × (includes small_manifest.content_refs first_display.current_prompt_id ≡ true)
    × (all (includes small_manifest.content_refs) first_display.display_refs ≡ true)
    × ((first_display.primary_command ≡ none) ↔ (c.phase ≡ settled))
project_evening_service-shows_example =
    project_evening_service-shows (checkpoint_json create_initial_checkpoint) small_manifest
      plain_context projected
