-- ===== src/Service/Invariants.antt =====
-- packages/domain/src/evening-service.ts: `assertEveningServiceInvariants`, guard by guard. Each
-- guard that fails throws the same failure code.
use samurai_sushi.Common.{
  ℕ, suc, Bool, true, false, not, ◌&&◌, ◌||◌, String, Option, none, some, List, [], ◌∷◌, map,
  length, differ, get_elem?, take, count, any, includes, same_texts, str_eq, ltb, leb, ◌==◌, Result,
  ◌>>◌, reject, invalid_service_state, if◌then◌else◌,
}
use samurai_sushi.Json.Canonical.{max_safe_integer}
use samurai_sushi.Service.{
  Phase, idle, open_, closing, settled, abandoned, OrderState, offered, accepted, preparing,
  ready_to_plate, plated, served, expired, failed, discarded, OrderDefinition, OrderCheckpoint,
  Checkpoint, salmon_sashimi_unlock_id,
}
use samurai_sushi.Service.Definition.{service_definition}
use samurai_sushi.Service.Components.{conserved_components, same_rows}

abbrev pub is_idle : Phase → Bool
is_idle idle = true
is_idle _ = false

abbrev pub is_open : Phase → Bool
is_open open_ = true
is_open _ = false

abbrev pub is_closing : Phase → Bool
is_closing closing = true
is_closing _ = false

abbrev pub is_settled : Phase → Bool
is_settled settled = true
is_settled _ = false

abbrev pub is_abandoned : Phase → Bool
is_abandoned abandoned = true
is_abandoned _ = false

abbrev pub is_served : OrderState → Bool
is_served served = true
is_served _ = false

abbrev pub is_offered : OrderState → Bool
is_offered offered = true
is_offered _ = false

abbrev pub is_preparing : OrderState → Bool
is_preparing preparing = true
is_preparing _ = false

abbrev pub is_discarded : OrderState → Bool
is_discarded discarded = true
is_discarded _ = false

abbrev pub is_ready : OrderState → Bool
is_ready ready_to_plate = true
is_ready _ = false

abbrev pub is_plated : OrderState → Bool
is_plated plated = true
is_plated _ = false

-- `["EXPIRED", "FAILED"]`, `["OFFERED", "ACCEPTED"]`, `["READY_TO_PLATE", "PLATED", "SERVED"]` and
-- `["PLATED", "SERVED"]`.
abbrev pub is_punitive : OrderState → Bool
is_punitive expired = true
is_punitive failed = true
is_punitive _ = false

abbrev pub is_unprepared : OrderState → Bool
is_unprepared offered = true
is_unprepared accepted = true
is_unprepared _ = false

abbrev pub is_prepared : OrderState → Bool
is_prepared s = is_ready s || is_plated s || is_served s

abbrev pub has_plate : OrderState → Bool
has_plate s = is_plated s || is_served s

-- The states that the active order of an open service can have.
abbrev pub is_in_progress : OrderState → Bool
is_in_progress s = is_unprepared s || is_preparing s || is_ready s || is_plated s

abbrev pub ref_is : Option String → String → Bool
ref_is none s = false
ref_is (some r) s = str_eq r s

abbrev pub is_some {ℓ} : {A : Type ℓ} → Option A → Bool
is_some none = false
is_some (some a) = true

abbrev pub is_none {ℓ} : {A : Type ℓ} → Option A → Bool
is_none none = true
is_none (some a) = false

abbrev pub state_at : List OrderCheckpoint → ℕ → (OrderState → Bool) → Bool
state_at orders i p = elim (get_elem? orders i) [ none ↦ false | some o ↦ p o.state ]

unfoldable pub served_count : List OrderCheckpoint → ℕ
served_count orders = count (λ o. is_served o.state) orders

abbrev pub authored_story_flags : List String
authored_story_flags = map (λ d. d.story_flag_id) service_definition.orders

-- The body of the loop over the orders, for the order at `index`.
unfoldable pub order_violates : Checkpoint → ℕ → OrderDefinition → OrderCheckpoint → Bool
order_violates c index def order =
    is_punitive order.state
    || (if is_abandoned c.phase
        then ((ltb index c.active_order_index && not (is_served order.state))
            || (leb c.active_order_index index && not (is_discarded order.state)))
        else ((ltb index c.active_order_index && not (is_served order.state))
            || (ltb c.active_order_index index && not (is_offered order.state))))
    || (is_unprepared order.state && not (order.step_index == 0))
    || (is_preparing order.state
        && (leb order.step_index 0 || leb (length def.steps) order.step_index))
    || (is_prepared order.state && not (order.step_index == length def.steps))
    || differ (has_plate order.state) (ref_is order.plate_feedback_ref def.plate_feedback_ref)
    || differ (is_served order.state) (ref_is order.serve_feedback_ref def.serve_feedback_ref)

unfoldable pub orders_violate : Checkpoint → ℕ → List OrderDefinition → List OrderCheckpoint → Bool
unfolding order_violates
orders_violate c index (def ∷ defs) (order ∷ orders) =
    order_violates c index def order || orders_violate c (suc index) defs orders
orders_violate c index [] _ = false
orders_violate c index (def ∷ defs) [] = false

unfoldable pub story_violates : Checkpoint → Bool
story_violates c =
    not (same_texts c.story_flags (take (length c.story_flags) authored_story_flags))
    || any (λ flag. not (includes c.story_flags flag))
        (take (served_count c.orders) authored_story_flags)

unfoldable pub unlocks_violate : Checkpoint → Bool
unlocks_violate c =
    any (λ unlock. not (str_eq unlock salmon_sashimi_unlock_id)) c.unlocks
    || ltb 1 (length c.unlocks)
    || (is_settled c.phase && not (includes c.unlocks salmon_sashimi_unlock_id))

unfoldable pub settlement_violates : Checkpoint → Bool
settlement_violates c =
    (is_closing c.phase || is_settled c.phase)
      && (not (served_count c.orders == 3) || not (c.active_order_index == 3))
    || (is_settled c.phase
        && (is_none c.restoration_choice
            || not (c.rice_beat_index == 3)
            || is_none c.presentation_choice))
    || (not (is_settled c.phase) && is_some c.restoration_choice)

unfoldable pub idle_violates : Checkpoint → Bool
idle_violates c =
    is_idle c.phase
    && (not (c.generation == 0)
        || not (c.rice_beat_index == 0)
        || not (c.active_order_index == 0)
        || is_some c.presentation_choice
        || not (length c.story_flags == 0)
        || any (λ o. not (is_offered o.state)) c.orders)

unfoldable pub open_violates : Checkpoint → Bool
open_violates c =
    is_open c.phase
    && (c.revision == 0
        || (ltb c.rice_beat_index 3
            && (not (c.active_order_index == 0)
                || is_some c.presentation_choice
                || any (λ o. not (is_offered o.state)) c.orders))
        || (ltb c.active_order_index 3
            && not (state_at c.orders c.active_order_index is_in_progress))
        || (ltb 0 c.active_order_index && is_none c.presentation_choice))

unfoldable pub closing_violates : Checkpoint → Bool
closing_violates c =
    (is_closing c.phase || is_settled c.phase)
    && (not (c.rice_beat_index == 3)
        || is_none c.presentation_choice
        || any (λ o. not (is_served o.state)) c.orders)

unfoldable pub presentation_violates : Checkpoint → Bool
presentation_violates c = is_some c.presentation_choice && not (state_at c.orders 0 is_prepared)

unfoldable pub assert_invariants : Checkpoint → Result (Unit {0})
assert_invariants c = do
  reject (ltb max_safe_integer c.revision) invalid_service_state
  reject (ltb max_safe_integer c.generation) invalid_service_state
  reject (not (served_count c.orders == c.active_order_index)) invalid_service_state
  reject (story_violates c) invalid_service_state
  reject (orders_violate c 0 service_definition.orders c.orders) invalid_service_state
  reject (not (same_rows c.components (conserved_components c.orders))) invalid_service_state
  reject (unlocks_violate c) invalid_service_state
  reject (settlement_violates c) invalid_service_state
  reject (presentation_violates c) invalid_service_state
  reject (idle_violates c) invalid_service_state
  reject (open_violates c) invalid_service_state
  reject (closing_violates c) invalid_service_state
