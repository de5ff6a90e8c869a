-- ===== src/Service/Holds.antt =====
-- The guards of `assertEveningServiceInvariants` as one record of facts, and what they say of a
-- settled checkpoint.
use samurai_sushi.Common.{◌≡◌, arith, true, false, ok, ltb, ◌==◌}
use samurai_sushi.Json.Canonical.{max_safe_integer}
use samurai_sushi.Service.{Checkpoint}
use samurai_sushi.Service.Definition.{service_definition}
use samurai_sushi.Service.Components.{conserved_components, same_rows}
use samurai_sushi.Service.Invariants.{
  served_count, story_violates, orders_violate, unlocks_violate, settlement_violates,
  presentation_violates, idle_violates, open_violates, closing_violates, assert_invariants,
}

-- The guards, one by one.
pub record Holds (c : Checkpoint) : Type 0 where
  pub revision : ltb max_safe_integer c.revision ≡ false
  pub generation : ltb max_safe_integer c.generation ≡ false
  pub served : (served_count c.orders == c.active_order_index) ≡ true
  pub story : story_violates c ≡ false
  pub orders : orders_violate c 0 service_definition.orders c.orders ≡ false
  pub components : same_rows c.components (conserved_components c.orders) ≡ true
  pub unlocks : unlocks_violate c ≡ false
  pub settlement : settlement_violates c ≡ false
  pub presentation : presentation_violates c ≡ false
  pub idle_exact : idle_violates c ≡ false
  pub open_shape : open_violates c ≡ false
  pub closing_shape : closing_violates c ≡ false

pub assert_invariants-Holds : (c : Checkpoint) → assert_invariants c ≡ ok tt → Holds c
unfolding assert_invariants
assert_invariants-Holds c h = ground arith

pub Holds-assert_invariants : (c : Checkpoint) → Holds c → assert_invariants c ≡ ok tt
unfolding assert_invariants
Holds-assert_invariants c h = ground arith
