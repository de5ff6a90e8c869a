-- ===== src/Service/Definition.antt =====
-- packages/domain/src/evening-service.ts: the authored definition of the first evening service.
use samurai_sushi.Common.{String, none, some, List, [], ◌∷◌}
use samurai_sushi.Service.{
  delighted, content, indigo_rim, sand_speckle, mend_counter_stool, polish_display_shelf,
  refresh_menu_board, RiceBeat, wash, steam, season, ceramicist_kappa, fishmonger_tamago,
  courier_salmon, prep_sashimi_board, rolling_mat, nigiri_counter, ComponentId, cooked_tamago,
  cucumber_strip, nori_sheet, prepared_salmon_topping, prepared_sushi_rice, ceramicist, fishmonger,
  courier, kappa_maki, tamago_nigiri, salmon_nigiri, AuthoredStep, OrderDefinition,
  ServiceDefinition, salmon_sashimi_unlock_id,
}

abbrev pub ceramicist_kappa_steps : List AuthoredStep
ceramicist_kappa_steps =
    record {
      id = "layer-nori";
      station = rolling_mat;
      action = "layer";
      prompt_ref = "prompt.step.ceramicist-kappa.layer-nori";
      corrective_cue_ref = "cue.step.ceramicist-kappa.layer-nori";
      component_ref = some nori_sheet;
    }
    ∷ record {
      id = "portion-rice";
      station = rolling_mat;
      action = "portion";
      prompt_ref = "prompt.step.ceramicist-kappa.portion-rice";
      corrective_cue_ref = "cue.step.ceramicist-kappa.portion-rice";
      component_ref = some prepared_sushi_rice;
    }
    ∷ record {
      id = "place-cucumber";
      station = rolling_mat;
      action = "fill";
      prompt_ref = "prompt.step.ceramicist-kappa.place-cucumber";
      corrective_cue_ref = "cue.step.ceramicist-kappa.place-cucumber";
      component_ref = some cucumber_strip;
    }
    ∷ record {
      id = "roll-kappa";
      station = rolling_mat;
      action = "roll";
      prompt_ref = "prompt.step.ceramicist-kappa.roll-kappa";
      corrective_cue_ref = "cue.step.ceramicist-kappa.roll-kappa";
      component_ref = none;
    }
    ∷ record {
      id = "cut-kappa";
      station = rolling_mat;
      action = "cut";
      prompt_ref = "prompt.step.ceramicist-kappa.cut-kappa";
      corrective_cue_ref = "cue.step.ceramicist-kappa.cut-kappa";
      component_ref = none;
    }
    ∷ []

abbrev pub ceramicist_kappa_order : OrderDefinition
ceramicist_kappa_order = record {
  id = ceramicist_kappa;
  guest_role = ceramicist;
  dish_id = kappa_maki;
  dialogue_ref = "guest.ceramicist.dialogue";
  outcome_class = delighted;
  accept_prompt_ref = "prompt.order.accept.ceramicist-kappa";
  steps = ceramicist_kappa_steps;
  plate_prompt_ref = "prompt.plate.ceramicist-kappa";
  plate_feedback_ref = "feedback.plate.ceramicist-kappa";
  serve_feedback_ref = "feedback.serve.ceramicist-kappa";
  story_flag_id = "ceramicist-first-service-served";
  persistent_consequence_ref = "story.ceramicist.first-service";
}

abbrev pub fishmonger_tamago_steps : List AuthoredStep
fishmonger_tamago_steps =
    record {
      id = "portion-rice";
      station = nigiri_counter;
      action = "portion";
      prompt_ref = "prompt.step.fishmonger-tamago.portion-rice";
      corrective_cue_ref = "cue.step.fishmonger-tamago.portion-rice";
      component_ref = some prepared_sushi_rice;
    }
    ∷ record {
      id = "press-rice";
      station = nigiri_counter;
      action = "press";
      prompt_ref = "prompt.step.fishmonger-tamago.press-rice";
      corrective_cue_ref = "cue.step.fishmonger-tamago.press-rice";
      component_ref = none;
    }
    ∷ record {
      id = "place-tamago";
      station = nigiri_counter;
      action = "layer";
      prompt_ref = "prompt.step.fishmonger-tamago.place-tamago";
      corrective_cue_ref = "cue.step.fishmonger-tamago.place-tamago";
      component_ref = some cooked_tamago;
    }
    ∷ record {
      id = "bind-tamago";
      station = nigiri_counter;
      action = "bind";
      prompt_ref = "prompt.step.fishmonger-tamago.bind-tamago";
      corrective_cue_ref = "cue.step.fishmonger-tamago.bind-tamago";
      component_ref = some nori_sheet;
    }
    ∷ []

abbrev pub fishmonger_tamago_order : OrderDefinition
fishmonger_tamago_order = record {
  id = fishmonger_tamago;
  guest_role = fishmonger;
  dish_id = tamago_nigiri;
  dialogue_ref = "guest.fishmonger.dialogue";
  outcome_class = content;
  accept_prompt_ref = "prompt.order.accept.fishmonger-tamago";
  steps = fishmonger_tamago_steps;
  plate_prompt_ref = "prompt.plate.fishmonger-tamago";
  plate_feedback_ref = "feedback.plate.fishmonger-tamago";
  serve_feedback_ref = "feedback.serve.fishmonger-tamago";
  story_flag_id = "fishmonger-first-service-served";
  persistent_consequence_ref = "story.fishmonger.first-service";
}

abbrev pub courier_salmon_steps : List AuthoredStep
courier_salmon_steps =
    record {
      id = "arrange-salmon";
      station = prep_sashimi_board;
      action = "arrange";
      prompt_ref = "prompt.step.courier-salmon.arrange-salmon";
      corrective_cue_ref = "cue.step.courier-salmon.arrange-salmon";
      component_ref = none;
    }
    ∷ record {
      id = "portion-rice";
      station = nigiri_counter;
      action = "portion";
      prompt_ref = "prompt.step.courier-salmon.portion-rice";
      corrective_cue_ref = "cue.step.courier-salmon.portion-rice";
      component_ref = some prepared_sushi_rice;
    }
    ∷ record {
      id = "press-rice";
      station = nigiri_counter;
      action = "press";
      prompt_ref = "prompt.step.courier-salmon.press-rice";
      corrective_cue_ref = "cue.step.courier-salmon.press-rice";
      component_ref = none;
    }
    ∷ record {
      id = "place-salmon";
      station = nigiri_counter;
      action = "layer";
      prompt_ref = "prompt.step.courier-salmon.place-salmon";
      corrective_cue_ref = "cue.step.courier-salmon.place-salmon";
      component_ref = some prepared_salmon_topping;
    }
    ∷ []

abbrev pub courier_salmon_order : OrderDefinition
courier_salmon_order = record {
  id = courier_salmon;
  guest_role = courier;
  dish_id = salmon_nigiri;
  dialogue_ref = "guest.courier.dialogue";
  outcome_class = content;
  accept_prompt_ref = "prompt.order.accept.courier-salmon";
  steps = courier_salmon_steps;
  plate_prompt_ref = "prompt.plate.courier-salmon";
  plate_feedback_ref = "feedback.plate.courier-salmon";
  serve_feedback_ref = "feedback.serve.courier-salmon";
  story_flag_id = "courier-first-service-served";
  persistent_consequence_ref = "story.courier.first-service";
}

abbrev pub rice_prompt : RiceBeat → String
rice_prompt wash = "prompt.rice.wash"
rice_prompt steam = "prompt.rice.steam"
rice_prompt season = "prompt.rice.season"

abbrev pub service_definition : ServiceDefinition
service_definition = record {
  start_prompt_ref = "prompt.service.start";
  rice_prompt_refs = rice_prompt;
  close_prompt_ref = "prompt.ledger.close";
  restoration_prompt_ref = "prompt.restoration.choose";
  settled_prompt_ref = "prompt.service.settled";
  abandoned_prompt_ref = "prompt.service.abandoned";
  rice_beats = wash ∷ steam ∷ season ∷ [];
  presentation_choices = indigo_rim ∷ sand_speckle ∷ [];
  restoration_choices = mend_counter_stool ∷ polish_display_shelf ∷ refresh_menu_board ∷ [];
  orders = ceramicist_kappa_order ∷ fishmonger_tamago_order ∷ courier_salmon_order ∷ [];
  settlement_unlock = salmon_sashimi_unlock_id;
}

-- `COMPONENT_IDS`.
abbrev pub component_ids : List ComponentId
component_ids =
    cooked_tamago ∷ cucumber_strip ∷ nori_sheet ∷ prepared_salmon_topping ∷ prepared_sushi_rice ∷ []
