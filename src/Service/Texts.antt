-- ===== src/Service/Texts.antt =====
-- packages/domain/src/evening-service.ts: the texts of the enumerations, and reading them back.
use samurai_sushi.Common.{String, Option, none, some, str_eq, if◌then◌else◌}
use samurai_sushi.Service.{
  Phase, idle, open_, closing, settled, abandoned, OrderState, offered, accepted, preparing,
  ready_to_plate, plated, served, expired, failed, discarded, OutcomeClass, delighted, content,
  recoverable_concern, PresentationChoice, indigo_rim, sand_speckle, RestorationChoice,
  mend_counter_stool, polish_display_shelf, refresh_menu_board, RiceBeat, wash, steam, season,
  OrderId, ceramicist_kappa, fishmonger_tamago, courier_salmon, Station, rice_hearth,
  prep_sashimi_board, rolling_mat, nigiri_counter, ComponentId, cooked_tamago, cucumber_strip,
  nori_sheet, prepared_salmon_topping, prepared_sushi_rice, GuestRole, ceramicist, fishmonger,
  courier, DishId, kappa_maki, tamago_nigiri, salmon_nigiri, CommandName, start, start_new,
  prepare_rice, accept_order, perform_step, choose_presentation, plate_order, serve_order,
  close_ledger, choose_restoration, abandon,
}

abbrev pub phase_text : Phase → String
phase_text idle = "IDLE"
phase_text open_ = "OPEN"
phase_text closing = "CLOSING"
phase_text settled = "SETTLED"
phase_text abandoned = "ABANDONED"

abbrev pub state_text : OrderState → String
state_text offered = "OFFERED"
state_text accepted = "ACCEPTED"
state_text preparing = "PREPARING"
state_text ready_to_plate = "READY_TO_PLATE"
state_text plated = "PLATED"
state_text served = "SERVED"
state_text expired = "EXPIRED"
state_text failed = "FAILED"
state_text discarded = "DISCARDED"

abbrev pub outcome_text : OutcomeClass → String
outcome_text delighted = "delighted"
outcome_text content = "content"
outcome_text recoverable_concern = "recoverable-concern"

abbrev pub presentation_text : PresentationChoice → String
presentation_text indigo_rim = "indigo-rim"
presentation_text sand_speckle = "sand-speckle"

abbrev pub restoration_text : RestorationChoice → String
restoration_text mend_counter_stool = "mend-counter-stool"
restoration_text polish_display_shelf = "polish-display-shelf"
restoration_text refresh_menu_board = "refresh-menu-board"

abbrev pub beat_text : RiceBeat → String
beat_text wash = "wash"
beat_text steam = "steam"
beat_text season = "season"

abbrev pub order_text : OrderId → String
order_text ceramicist_kappa = "ceramicist-kappa"
order_text fishmonger_tamago = "fishmonger-tamago"
order_text courier_salmon = "courier-salmon"

abbrev pub station_text : Station → String
station_text rice_hearth = "rice-hearth"
station_text prep_sashimi_board = "prep-sashimi-board"
station_text rolling_mat = "rolling-mat"
station_text nigiri_counter = "nigiri-counter"

abbrev pub component_text : ComponentId → String
component_text cooked_tamago = "cooked-tamago"
component_text cucumber_strip = "cucumber-strip"
component_text nori_sheet = "nori-sheet"
component_text prepared_salmon_topping = "prepared-salmon-topping"
component_text prepared_sushi_rice = "prepared-sushi-rice"

abbrev pub role_text : GuestRole → String
role_text ceramicist = "ceramicist"
role_text fishmonger = "fishmonger"
role_text courier = "courier"

abbrev pub dish_text : DishId → String
dish_text kappa_maki = "kappa-maki"
dish_text tamago_nigiri = "tamago-nigiri"
dish_text salmon_nigiri = "salmon-nigiri"

unfoldable pub parse_phase : String → Option Phase
parse_phase s =
    if str_eq s "IDLE"
    then some idle
    else if str_eq s "OPEN"
    then some open_
    else if str_eq s "CLOSING"
    then some closing
    else if str_eq s "SETTLED"
    then some settled
    else if str_eq s "ABANDONED"
    then some abandoned
    else none

unfoldable pub parse_state : String → Option OrderState
parse_state s =
    if str_eq s "OFFERED"
    then some offered
    else if str_eq s "ACCEPTED"
    then some accepted
    else if str_eq s "PREPARING"
    then some preparing
    else if str_eq s "READY_TO_PLATE"
    then some ready_to_plate
    else if str_eq s "PLATED"
    then some plated
    else if str_eq s "SERVED"
    then some served
    else if str_eq s "EXPIRED"
    then some expired
    else if str_eq s "FAILED"
    then some failed
    else if str_eq s "DISCARDED"
    then some discarded
    else none

unfoldable pub parse_presentation : String → Option PresentationChoice
parse_presentation s =
    if str_eq s "indigo-rim"
    then some indigo_rim
    else if str_eq s "sand-speckle"
    then some sand_speckle
    else none

unfoldable pub parse_restoration : String → Option RestorationChoice
parse_restoration s =
    if str_eq s "mend-counter-stool"
    then some mend_counter_stool
    else if str_eq s "polish-display-shelf"
    then some polish_display_shelf
    else if str_eq s "refresh-menu-board"
    then some refresh_menu_board
    else none

-- The cases of the `switch` in `reduceEveningService`.
unfoldable pub parse_command : String → Option CommandName
parse_command s =
    if str_eq s "service.start"
    then some start
    else if str_eq s "service.start-new"
    then some start_new
    else if str_eq s "service.prepare-rice"
    then some prepare_rice
    else if str_eq s "service.accept-order"
    then some accept_order
    else if str_eq s "service.perform-step"
    then some perform_step
    else if str_eq s "service.choose-presentation"
    then some choose_presentation
    else if str_eq s "service.plate-order"
    then some plate_order
    else if str_eq s "service.serve-order"
    then some serve_order
    else if str_eq s "service.close-ledger"
    then some close_ledger
    else if str_eq s "service.choose-restoration"
    then some choose_restoration
    else if str_eq s "service.abandon"
    then some abandon
    else none

abbrev pub command_text : CommandName → String
command_text start = "service.start"
command_text start_new = "service.start-new"
command_text prepare_rice = "service.prepare-rice"
command_text accept_order = "service.accept-order"
command_text perform_step = "service.perform-step"
command_text choose_presentation = "service.choose-presentation"
command_text plate_order = "service.plate-order"
command_text serve_order = "service.serve-order"
command_text close_ledger = "service.close-ledger"
command_text choose_restoration = "service.choose-restoration"
command_text abandon = "service.abandon"
