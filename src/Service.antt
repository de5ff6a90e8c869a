-- ===== src/Service.antt =====
-- packages/domain/src/evening-service.ts: the types of the first evening service. A union of string
-- literals is an enumeration, with a function that gives its texts.
pub mod Texts
pub mod Definition
pub mod Components
pub mod Invariants
pub mod Holds
pub mod Decode
pub mod Encode
pub mod Steps
pub mod Reduce
pub mod Project
pub mod RoundTrip
pub mod Moves
pub mod Laws
pub mod Outcomes
pub mod Conservation
use samurai_sushi.Common.{ℕ, Bool, String, Option, none, some, List, [], ◌∷◌}

abbrev pub evening_service_schema_version : ℕ
evening_service_schema_version = 2

abbrev pub first_evening_service_id : String
first_evening_service_id = "first-evening-service"

abbrev pub first_evening_content_version : String
first_evening_content_version = "phase-1-evening-service-v1"

abbrev pub salmon_sashimi_unlock_id : String
salmon_sashimi_unlock_id = "atlantic-salmon-sashimi@1"

pub data Phase : Type 0 where
  idle open_ closing settled abandoned : Phase

pub data OrderState : Type 0 where
  offered accepted preparing ready_to_plate plated served : OrderState
  expired failed discarded : OrderState

pub data OutcomeClass : Type 0 where
  delighted content recoverable_concern : OutcomeClass

pub data PresentationChoice : Type 0 where
  indigo_rim sand_speckle : PresentationChoice

pub data RestorationChoice : Type 0 where
  mend_counter_stool polish_display_shelf refresh_menu_board : RestorationChoice

pub data RiceBeat : Type 0 where
  wash steam season : RiceBeat

pub data OrderId : Type 0 where
  ceramicist_kappa fishmonger_tamago courier_salmon : OrderId

pub data Station : Type 0 where
  rice_hearth prep_sashimi_board rolling_mat nigiri_counter : Station

pub data ComponentId : Type 0 where
  cooked_tamago cucumber_strip nori_sheet prepared_salmon_topping prepared_sushi_rice : ComponentId

pub data GuestRole : Type 0 where
  ceramicist fishmonger courier : GuestRole

pub data DishId : Type 0 where
  kappa_maki tamago_nigiri salmon_nigiri : DishId

pub record AuthoredStep : Type 0 where
  pub id : String
  pub station : Station
  pub action : String
  pub prompt_ref : String
  pub corrective_cue_ref : String
  pub component_ref : Option ComponentId

pub record OrderDefinition : Type 0 where
  pub id : OrderId
  pub guest_role : GuestRole
  pub dish_id : DishId
  pub dialogue_ref : String
  pub outcome_class : OutcomeClass
  pub accept_prompt_ref : String
  pub steps : List AuthoredStep
  pub plate_prompt_ref : String
  pub plate_feedback_ref : String
  pub serve_feedback_ref : String
  pub story_flag_id : String
  pub persistent_consequence_ref : String

pub record ServiceDefinition : Type 0 where
  pub start_prompt_ref : String
  pub rice_prompt_refs : RiceBeat → String
  pub close_prompt_ref : String
  pub restoration_prompt_ref : String
  pub settled_prompt_ref : String
  pub abandoned_prompt_ref : String
  pub rice_beats : List RiceBeat
  pub presentation_choices : List PresentationChoice
  pub restoration_choices : List RestorationChoice
  pub orders : List OrderDefinition
  pub settlement_unlock : String

pub record OrderCheckpoint : Type 0 where
  pub id : OrderId
  pub state : OrderState
  pub step_index : ℕ
  pub plate_feedback_ref : Option String
  pub serve_feedback_ref : Option String

pub record ComponentCheckpoint : Type 0 where
  pub id : ComponentId
  pub total : ℕ
  pub available : ℕ
  pub placed : ℕ
  pub served : ℕ
  pub discarded : ℕ

-- The fields `schemaVersion`, `serviceId` and `contentVersion` hold their only value.
pub record Checkpoint : Type 0 where
  pub revision : ℕ
  pub generation : ℕ
  pub phase : Phase
  pub rice_beat_index : ℕ
  pub presentation_choice : Option PresentationChoice
  pub restoration_choice : Option RestorationChoice
  pub active_order_index : ℕ
  pub orders : List OrderCheckpoint
  pub components : List ComponentCheckpoint
  pub story_flags : List String
  pub unlocks : List String

pub data CommandName : Type 0 where
  start start_new prepare_rice accept_order perform_step choose_presentation : CommandName
  plate_order serve_order close_ledger choose_restoration abandon : CommandName

-- `EveningServiceEvent` with its payload; the event's type is `accepted`'s.
pub record Event : Type 0 where
  pub event_ref : String
  pub transitioned : Bool
  pub command_name : String
  pub phase : Phase
  pub revision : ℕ
  pub generation : ℕ
  pub feedback_ref : String
  pub settled_now : Bool
  pub unlocked_now : List String
  pub outcome_class : Option OutcomeClass

pub record Response : Type 0 where
  pub accepted : Bool
  pub checkpoint : Checkpoint
  pub feedback_ref : String
  pub corrective_cue_id : Option String
  pub settled_now : Bool
  pub unlocked_now : List String
  pub outcome_class : Option OutcomeClass

pub record Decision : Type 0 where
  pub checkpoint : Checkpoint
  pub event : Event
  pub response : Response

pub data Disposition : Type 0 where
  query committed replayed restored : Disposition

pub record LedgerRow : Type 0 where
  pub order_id : OrderId
  pub guest_ref : String
  pub dish_ref : String
  pub outcome_ref : String
  pub plate_feedback_ref : Option String
  pub serve_feedback_ref : String
  pub story_flag_ref : String
  pub persistent_consequence_ref : String

pub record Projection : Type 0 where
  pub current_prompt_id : String
  pub allowed_choice_ids : List String
  pub primary_command : Option CommandName
  pub corrective_cue_id : Option String
  pub display_refs : List String
  pub ledger_rows : List LedgerRow
  pub disposition : Disposition
  pub announce_ceremony : Bool
