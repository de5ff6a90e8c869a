-- ===== src/Service/RoundTrip.antt =====
-- The decoder on the object that a checkpoint is: what it accepts is the checkpoint itself.
use samurai_sushi.Common.{
  ◌≡◌, refl, Bool, true, String, Option, none, some, List, [], ◌∷◌, map, ok, err, ◌>>=◌, ◌>>◌,
  >>=-eq-ok, >>-eq-ok, if◌then◌else◌, arith, only-cases, all_distinct, invalid_service_state,
  eq_iff, str_eq,
}
use samurai_sushi.Json.{Json, str, arr, items_of, texts}
use samurai_sushi.Json.Canonical.{canonicalize}
use samurai_sushi.Json.Bounds.{assert_bounded_json}
use samurai_sushi.Service.Invariants.{assert_invariants}
use samurai_sushi.Json.Sorted.{sorted, sorted_items, canonicalize-sorted}
use samurai_sushi.Service.{
  Phase, OrderState, PresentationChoice, RestorationChoice, OrderId, ComponentId, OrderDefinition,
  OrderCheckpoint, ComponentCheckpoint, Checkpoint,
}
use samurai_sushi.Service.Texts.{
  phase_text, state_text, presentation_text, restoration_text, order_text, component_text,
  parse_phase, parse_state, parse_presentation, parse_restoration,
}
use samurai_sushi.Service.Definition.{service_definition, component_ids}
use samurai_sushi.Service.Encode.{
  ref_json, choice_json, order_json, component_json, checkpoint_json,
}
use samurai_sushi.Service.Decode.{
  detach, read_strings, read_ref, read_text_set, read_phase, read_choice, read_order, read_orders,
  read_component, read_components, read_checkpoint, decode_checkpoint,
}

parse-phase_text : (p : Phase) → parse_phase (phase_text p) ≡ some p
unfolding parse_phase
parse-phase_text Phase.idle = refl
parse-phase_text _ = refl

parse-state_text : (s : OrderState) → parse_state (state_text s) ≡ some s
unfolding parse_state
parse-state_text OrderState.offered = refl
parse-state_text _ = refl

order_text-injective : (a b : OrderId) → str_eq (order_text a) (order_text b) ≡ true → a ≡ b
order_text-injective OrderId.ceramicist_kappa OrderId.ceramicist_kappa h = refl
order_text-injective OrderId.fishmonger_tamago OrderId.fishmonger_tamago h = refl
order_text-injective OrderId.courier_salmon OrderId.courier_salmon h = refl
order_text-injective _ _ h = cc

pub component_text-injective :
    (a b : ComponentId) → str_eq (component_text a) (component_text b) ≡ true → a ≡ b
component_text-injective ComponentId.cooked_tamago ComponentId.cooked_tamago h = refl
component_text-injective ComponentId.cucumber_strip ComponentId.cucumber_strip h = refl
component_text-injective ComponentId.nori_sheet ComponentId.nori_sheet h = refl
component_text-injective ComponentId.prepared_salmon_topping ComponentId.prepared_salmon_topping h =
    refl
component_text-injective ComponentId.prepared_sushi_rice ComponentId.prepared_sushi_rice h = refl
component_text-injective _ _ h = cc

-- Whether a reference is missing or the authored one.
abbrev authored : String → Option String → Bool
authored s none = true
authored s (some t) = str_eq t s

read_ref-ref_json :
    (s : String) (r : Option String)
    → read_ref s (some (ref_json r)) ≡ (if authored s r then ok r else err invalid_service_state)
unfolding read_ref
read_ref-ref_json s none = refl
read_ref-ref_json s (some t) = ground (arith, eq_iff t s)

read_order-order_json :
    (def : OrderDefinition) (o : OrderCheckpoint) {o' : OrderCheckpoint}
    → read_order def (order_json o) ≡ ok o'
    → o' ≡ o
unfolding read_order
read_order-order_json def o h = ground (
  arith,
  order_text-injective o.id def.id,
  parse-state_text o.state,
  read_ref-ref_json def.plate_feedback_ref o.plate_feedback_ref,
  read_ref-ref_json def.serve_feedback_ref o.serve_feedback_ref,
)

read_orders-order_json :
    (defs : List OrderDefinition) (os : List OrderCheckpoint) {os' : List OrderCheckpoint}
    → read_orders defs (items_of (map order_json os)) ≡ ok os'
    → os' ≡ os
unfolding read_orders
read_orders-order_json [] [] h = cc
read_orders-order_json (def ∷ defs) (o ∷ os) h =
    let rest = λ (a : OrderCheckpoint).
      read_orders defs (items_of (map order_json os)) >>= λ as'. ok (a ∷ as') in
    let (a, p, h') = >>=-eq-ok (read_order def (order_json o)) rest h in
    let (as', q, e) =
      >>=-eq-ok (read_orders defs (items_of (map order_json os))) (λ as'. ok (a ∷ as')) h' in
    let same = read_order-order_json def o p in
    let same_rest = read_orders-order_json defs os q in cc
read_orders-order_json [] (o ∷ os) h = cc
read_orders-order_json (def ∷ defs) [] h = cc

read_component-component_json :
    (id : ComponentId) (c : ComponentCheckpoint) {c' : ComponentCheckpoint}
    → read_component id (component_json c) ≡ ok c'
    → c' ≡ c
unfolding read_component
read_component-component_json id c h = ground (arith, component_text-injective c.id id)

read_components-component_json :
    (ids : List ComponentId) (cs : List ComponentCheckpoint) {cs' : List ComponentCheckpoint}
    → read_components ids (items_of (map component_json cs)) ≡ ok cs'
    → cs' ≡ cs
unfolding read_components
read_components-component_json [] [] h = cc
read_components-component_json (id ∷ ids) (c ∷ cs) h =
    let rest = λ (a : ComponentCheckpoint).
      read_components ids (items_of (map component_json cs)) >>= λ as'. ok (a ∷ as') in
    let (a, p, h') = >>=-eq-ok (read_component id (component_json c)) rest h in
    let (as', q, e) =
      >>=-eq-ok (read_components ids (items_of (map component_json cs))) (λ as'. ok (a ∷ as')) h' in
    let same = read_component-component_json id c p in
    let same_rest = read_components-component_json ids cs q in cc
read_components-component_json [] (c ∷ cs) h = cc
read_components-component_json (id ∷ ids) [] h = cc

read_strings-texts : (ss : List String) → read_strings (texts ss) ≡ ok ss
read_strings-texts [] = refl
read_strings-texts (s ∷ ss) = rw (read_strings-texts ss)

read_text_set-texts :
    (ss : List String)
    → read_text_set (some (arr (texts ss)))
      ≡ (if all_distinct ss then ok ss else err invalid_service_state)
unfolding read_text_set
read_text_set-texts ss = rw (read_strings-texts ss) (ground arith)

read_phase-phase_text : (p : Phase) → read_phase (some (str (phase_text p))) ≡ ok p
unfolding read_phase
read_phase-phase_text p = rw (parse-phase_text p)

read_presentation :
    (p : Option PresentationChoice)
    → read_choice parse_presentation (some (choice_json presentation_text p)) ≡ ok p
unfolding read_choice parse_presentation
read_presentation none = refl
read_presentation (some PresentationChoice.indigo_rim) = refl
read_presentation (some _) = refl

read_restoration :
    (r : Option RestorationChoice)
    → read_choice parse_restoration (some (choice_json restoration_text r)) ≡ ok r
unfolding read_choice parse_restoration
read_restoration none = refl
read_restoration (some RestorationChoice.mend_counter_stool) = refl
read_restoration (some _) = refl

read_checkpoint-checkpoint_json :
    (c : Checkpoint) {c' : Checkpoint} → read_checkpoint (checkpoint_json c) ≡ ok c' → c' ≡ c
unfolding read_checkpoint checkpoint_json
read_checkpoint-checkpoint_json c h =
    let orders =
      only-cases (read_orders service_definition.orders (items_of (map order_json c.orders)))
        c.orders (λ os. read_orders-order_json service_definition.orders c.orders) in
    let components =
      only-cases (read_components component_ids (items_of (map component_json c.components)))
        c.components (λ cs. read_components-component_json component_ids c.components) in
    ground (
      arith,
      orders,
      components,
      read_text_set-texts c.story_flags,
      read_text_set-texts c.unlocks,
      read_phase-phase_text c.phase,
      read_presentation c.presentation_choice,
      read_restoration c.restoration_choice,
    )

sorted-choice_json :
    {A : Type 0} (text : A → String) (a : Option A) → sorted (choice_json text a) ≡ true
unfolding sorted
sorted-choice_json text none = refl
sorted-choice_json text (some a) = refl

sorted-ref_json : (r : Option String) → sorted (ref_json r) ≡ true
unfolding sorted
sorted-ref_json none = refl
sorted-ref_json (some a) = refl

sorted_items-order_json :
    (os : List OrderCheckpoint) → sorted_items (items_of (map order_json os)) ≡ true
unfolding sorted
sorted_items-order_json [] = refl
sorted_items-order_json (o ∷ os) =
    rw (sorted-ref_json o.plate_feedback_ref, sorted-ref_json o.serve_feedback_ref)
      (sorted_items-order_json os)

sorted_items-component_json :
    (cs : List ComponentCheckpoint) → sorted_items (items_of (map component_json cs)) ≡ true
unfolding sorted
sorted_items-component_json [] = refl
sorted_items-component_json (c ∷ cs) = sorted_items-component_json cs

sorted_items-texts : (ss : List String) → sorted_items (texts ss) ≡ true
unfolding sorted
sorted_items-texts [] = refl
sorted_items-texts (s ∷ ss) = sorted_items-texts ss

sorted-checkpoint_json : (c : Checkpoint) → sorted (checkpoint_json c) ≡ true
unfolding sorted checkpoint_json
sorted-checkpoint_json c = ground (
  arith,
  sorted_items-component_json c.components,
  sorted_items-order_json c.orders,
  sorted-choice_json presentation_text c.presentation_choice,
  sorted-choice_json restoration_text c.restoration_choice,
  sorted_items-texts c.story_flags,
  sorted_items-texts c.unlocks,
)

-- Whatever the decoder returns for the object of a checkpoint is that checkpoint, and it satisfies
-- the decoder's invariants.
pub decode_checkpoint-checkpoint_json :
    (c : Checkpoint) {c' : Checkpoint}
    → decode_checkpoint (checkpoint_json c) ≡ ok c'
    → (c' ≡ c) × (assert_invariants c ≡ ok tt)
unfolding decode_checkpoint detach
decode_checkpoint-checkpoint_json c {c'} h =
    let check = λ (a : Checkpoint). assert_invariants a >> ok a in
    let after = λ (j : Json). read_checkpoint j >>= check in
    let (j, detached, h') = >>=-eq-ok (detach (checkpoint_json c)) after h in
    let (bounded, canonical) =
      >>-eq-ok (assert_bounded_json (checkpoint_json c)) (canonicalize (checkpoint_json c))
        detached in
    let same_json = canonicalize-sorted (checkpoint_json c) (sorted-checkpoint_json c) canonical in
    let (a, was_read, h'') = >>=-eq-ok (read_checkpoint j) check h' in
    let (held, same) = >>-eq-ok (assert_invariants a) (ok a) h'' in
    let same_read = read_checkpoint-checkpoint_json c (rw same_json at was_read) in
    (cc, rw same_read at held)
