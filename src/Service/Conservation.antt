-- ===== src/Service/Conservation.antt =====
-- The component ledger: nothing is lost between what is available, placed, served and discarded.
use mathlib.Core.Path.{subst, sym}
use samurai_sushi.Common.{
  ℕ, zero, suc, ◌+◌, ◌≤◌, ◌≡◌, refl, Bool, true, List, [], ◌∷◌, map, count, take, ok, arith,
}
use samurai_sushi.Json.{Json}
use samurai_sushi.Service.{
  served, discarded, OrderState, ComponentId, OrderDefinition, OrderCheckpoint, ComponentCheckpoint,
  Checkpoint,
}
use samurai_sushi.Service.Definition.{service_definition, component_ids}
use samurai_sushi.Service.Components.{
  Tally, uses_component, add_completed, tally_order, tally_orders, empty_tally, component_row,
  conserved_components, same_rows,
}
use samurai_sushi.Service.Decode.{decode_checkpoint}
use samurai_sushi.Service.RoundTrip.{component_text-injective}
use samurai_sushi.Service.Outcomes.{decode_checkpoint-Holds}

count-take {ℓ} :
    {A : Type ℓ} (p : A → Bool) (n : ℕ) (xs : List A) → count p (take n xs) ≤ count p xs
count-take p zero xs = omega arith
count-take p (suc n) [] = omega arith
count-take p (suc n) (x ∷ xs) = ground (arith, count-take p n xs)

-- No more is placed, served and discarded than there is.
abbrev IsCovered : Tally → Type 0
IsCovered t = t.placed + t.served + t.discarded ≤ t.total

add_completed-IsCovered :
    (s : OrderState) (steps completed : ℕ) (t : Tally)
    → completed ≤ steps
    → IsCovered t
    → IsCovered (add_completed s steps completed t)
add_completed-IsCovered served steps completed t h k = omega arith
add_completed-IsCovered discarded steps completed t h k = omega arith
add_completed-IsCovered _ steps completed t h k = omega arith

tally_orders-IsCovered :
    (id : ComponentId) (defs : List OrderDefinition) (orders : List OrderCheckpoint) (t : Tally)
    → IsCovered t
    → IsCovered (tally_orders id defs orders t)
tally_orders-IsCovered id [] orders t h = h
tally_orders-IsCovered id (def ∷ defs) [] t h = h
tally_orders-IsCovered id (def ∷ defs) (order ∷ orders) t h =
    tally_orders-IsCovered id defs orders (tally_order id def order t) (
      add_completed-IsCovered order.state (count (uses_component id) def.steps)
        (count (uses_component id) (take order.step_index def.steps)) t
        (count-take (uses_component id) order.step_index def.steps) h)

abbrev pub IsBalanced : ComponentCheckpoint → Type 0
IsBalanced c = c.available + c.placed + c.served + c.discarded ≡ c.total

abbrev pub AllBalanced : List ComponentCheckpoint → Type 0
AllBalanced [] = Unit
AllBalanced (c ∷ cs) = IsBalanced c × AllBalanced cs

component_row-IsBalanced :
    (id : ComponentId) (t : Tally) → IsCovered t → IsBalanced (component_row id t)
component_row-IsBalanced id t h = omega arith

rows-AllBalanced :
    (ids : List ComponentId) (orders : List OrderCheckpoint)
    → AllBalanced (
        map
          (λ id. component_row id (tally_orders id service_definition.orders orders empty_tally))
          ids)
rows-AllBalanced [] orders = tt
rows-AllBalanced (id ∷ ids) orders = (
  component_row-IsBalanced id (tally_orders id service_definition.orders orders empty_tally)
      (tally_orders-IsCovered id service_definition.orders orders empty_tally (omega arith)),
  rows-AllBalanced ids orders,
)

-- Whatever the orders, each row of the ledger splits its total into what is available, placed,
-- served and discarded.
pub conserved_components-AllBalanced :
    (orders : List OrderCheckpoint) → AllBalanced (conserved_components orders)
unfolding conserved_components
conserved_components-AllBalanced orders = rows-AllBalanced component_ids orders

same_rows-eq : (as' bs : List ComponentCheckpoint) → same_rows as' bs ≡ true → as' ≡ bs
unfolding same_rows
same_rows-eq [] [] h = refl
same_rows-eq (a ∷ as') (b ∷ bs) h =
    ground (arith, component_text-injective a.id b.id, same_rows-eq as' bs)
same_rows-eq [] (b ∷ bs) h = cc
same_rows-eq (a ∷ as') [] h = cc

-- The ledger of every decoded checkpoint is the one that its orders determine, and is balanced.
pub decode-AllBalanced :
    (input : Json) (c : Checkpoint)
    → decode_checkpoint input ≡ ok c
    → (c.components ≡ conserved_components c.orders) × AllBalanced c.components
decode-AllBalanced input c h =
    let same =
      same_rows-eq c.components (conserved_components c.orders)
        (decode_checkpoint-Holds input h).components in
    (same, subst AllBalanced (sym same) (conserved_components-AllBalanced c.orders))
