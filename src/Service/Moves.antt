-- ===== src/Service/Moves.antt =====
-- What the cases of the reducer's `switch` change, case by case.
use samurai_sushi.Common.{
  ◌+◌, ◌≡◌, refl, Bool, true, false, ◌⊎◌, String, Option, none, some, List, [], ◌∷◌, ◌++◌, includes,
  ◌==◌, get_elem?, ok, arith, >>=-eq-ok, if◌then◌else◌,
}
use samurai_sushi.Json.{Json, Fields, get}
use samurai_sushi.Service.{
  Phase, idle, open_, closing, settled, abandoned, OutcomeClass, Checkpoint, CommandName,
  OrderDefinition, OrderCheckpoint, OrderState, PresentationChoice, RiceBeat, start, start_new,
  prepare_rice, accept_order, perform_step, choose_presentation, plate_order, serve_order,
  close_ledger, choose_restoration, abandon, salmon_sashimi_unlock_id,
}
use samurai_sushi.Service.Texts.{parse_presentation}
use samurai_sushi.Service.Definition.{service_definition}
use samurai_sushi.Service.Invariants.{is_ready, is_offered, is_plated}
use samurai_sushi.Service.Steps.{
  beat_allowed, definition_of, payload_object, is_startable, named_order, chosen, moved, step,
  start_step, start_new_step, restart, abandon_step, accept_move, accept_order_step,
  choose_presentation_step, choose_restoration_step, close_ledger_step, perform_move,
  perform_step_step, plate_move, plate_order_step, prepare_rice_step, presentation_move,
  restoration_move, rice_move, serve_active, serve_move, serve_order_step, step_move,
}

-- The phases that one accepted command joins.
abbrev pub joins : Phase → Phase → Bool
joins idle open_ = true
joins open_ open_ = true
joins open_ closing = true
joins open_ abandoned = true
joins closing settled = true
joins closing abandoned = true
joins abandoned open_ = true
joins _ _ = false

abbrev pub is_phase_settled : Phase → Bool
is_phase_settled settled = true
is_phase_settled _ = false

-- How the changed checkpoint `x` follows `c`.
pub record Follows (c x : Checkpoint) (settled_now : Bool) (unlocked : List String) : Type 0 where
  pub joined : joins c.phase x.phase ≡ true
  pub same_revision : x.revision ≡ c.revision
  pub next_generation :
      (x.generation ≡ c.generation) ⊎ ((x.generation ≡ c.generation + 1) × (c.phase ≡ abandoned))
  pub settles : settled_now ≡ is_phase_settled x.phase
  pub unlocked_now :
      (unlocked ≡ [])
      ⊎ ((unlocked ≡ salmon_sashimi_unlock_id ∷ [])
          × (x.phase ≡ settled)
          × (includes c.unlocks salmon_sashimi_unlock_id ≡ false))
  pub unlocks_kept :
      (x.unlocks ≡ c.unlocks)
      ⊎ ((x.unlocks ≡ salmon_sashimi_unlock_id ∷ [])
          × (includes c.unlocks salmon_sashimi_unlock_id ≡ false)
          × (unlocked ≡ salmon_sashimi_unlock_id ∷ []))
  pub flags_kept :
      (x.story_flags ≡ c.story_flags)
      ⊎ ((def : OrderDefinition) × (definition_of c ≡ some def)
          × (x.story_flags ≡ c.story_flags ++ def.story_flag_id ∷ []))

beat_allowed-open :
    (c : Checkpoint) (fields : Fields) (beat : RiceBeat)
    → beat_allowed c fields beat ≡ true
    → c.phase ≡ open_
unfolding beat_allowed
beat_allowed-open c fields beat h = ground arith

named_order-open :
    (c : Checkpoint) (fields : Fields) (test : OrderState → Bool)
    (r : OrderDefinition × OrderCheckpoint)
    → named_order c fields test ≡ some r
    → (c.phase ≡ open_) × (definition_of c ≡ some r.0)
named_order-open c fields test r h = ground arith

named_if-open :
    (c : Checkpoint) (fields : Fields) (test : OrderState → Bool) (b : Bool)
    (r : OrderDefinition × OrderCheckpoint)
    → (if b then named_order c fields test else none) ≡ some r
    → (c.phase ≡ open_) × (definition_of c ≡ some r.0)
named_if-open c fields test true r h = named_order-open c fields test r h
named_if-open c fields test false r h = cc

module _ (c : Checkpoint) (payload : Json) {x : Checkpoint} {feedback : String} {settled_now : Bool}
    {unlocked : List String} {outcome : Option OutcomeClass} where
  start_step-Follows :
      start_step c payload ≡ ok (moved x feedback settled_now unlocked outcome)
      → Follows c x settled_now unlocked
  unfolding start_step
  start_step-Follows h = ground arith

  start_new_step-Follows :
      start_new_step c payload ≡ ok (moved x feedback settled_now unlocked outcome)
      → Follows c x settled_now unlocked
  unfolding start_new_step restart
  start_new_step-Follows h = ground arith

  rice_move-Follows :
      (fields : Fields) (beat : Option RiceBeat)
      → rice_move c fields beat ≡ moved x feedback settled_now unlocked outcome
      → Follows c x settled_now unlocked
  unfolding rice_move
  rice_move-Follows fields (some beat) h = ground (arith, beat_allowed-open c fields beat)
  rice_move-Follows fields none h = cc

  prepare_rice_step-Follows :
      prepare_rice_step c payload ≡ ok (moved x feedback settled_now unlocked outcome)
      → Follows c x settled_now unlocked
  unfolding prepare_rice_step
  prepare_rice_step-Follows h =
      let beat = get_elem? service_definition.rice_beats c.rice_beat_index in
      let (fields, _, e) =
        >>=-eq-ok (payload_object payload ("beat" ∷ [])) (λ fields. ok (rice_move c fields beat))
          h in
      rice_move-Follows fields beat (cc)

  accept_move-Follows :
      (o : Option (OrderDefinition × OrderCheckpoint))
      → ((r : OrderDefinition × OrderCheckpoint)
          → o ≡ some r
          → (c.phase ≡ open_) × (definition_of c ≡ some r.0))
      → accept_move c o ≡ moved x feedback settled_now unlocked outcome
      → Follows c x settled_now unlocked
  unfolding accept_move
  accept_move-Follows (some r) was_open h = let opened = was_open r refl in ground arith
  accept_move-Follows none was_open h = cc

  accept_order_step-Follows :
      accept_order_step c payload ≡ ok (moved x feedback settled_now unlocked outcome)
      → Follows c x settled_now unlocked
  unfolding accept_order_step
  accept_order_step-Follows h =
      let (fields, _, e) =
        >>=-eq-ok (payload_object payload ("orderId" ∷ []))
          (λ fields. ok (
            accept_move c
              (if c.rice_beat_index == 3 then named_order c fields is_offered else none)))
          h in
      accept_move-Follows (if c.rice_beat_index == 3 then named_order c fields is_offered else none)
        (named_if-open c fields is_offered (c.rice_beat_index == 3)) (cc)

  perform_move-Follows :
      (fields : Fields) (o : Option (OrderDefinition × OrderCheckpoint))
      → ((r : OrderDefinition × OrderCheckpoint)
          → o ≡ some r
          → (c.phase ≡ open_) × (definition_of c ≡ some r.0))
      → perform_move c fields o ≡ moved x feedback settled_now unlocked outcome
      → Follows c x settled_now unlocked
  unfolding perform_move step_move
  perform_move-Follows fields (some r) was_open h = let opened = was_open r refl in ground arith
  perform_move-Follows fields none was_open h = cc

  perform_step_step-Follows :
      perform_step_step c payload ≡ ok (moved x feedback settled_now unlocked outcome)
      → Follows c x settled_now unlocked
  unfolding perform_step_step
  perform_step_step-Follows h =
      let (fields, _, e) =
        >>=-eq-ok (payload_object payload ("orderId" ∷ "stepId" ∷ []))
          (λ fields. ok (perform_move c fields (named_order c fields is_startable))) h in
      perform_move-Follows fields (named_order c fields is_startable)
        (named_order-open c fields is_startable) (cc)

  plate_move-Follows :
      (o : Option (OrderDefinition × OrderCheckpoint))
      → ((r : OrderDefinition × OrderCheckpoint)
          → o ≡ some r
          → (c.phase ≡ open_) × (definition_of c ≡ some r.0))
      → plate_move c o ≡ moved x feedback settled_now unlocked outcome
      → Follows c x settled_now unlocked
  unfolding plate_move
  plate_move-Follows (some r) was_open h = let opened = was_open r refl in ground arith
  plate_move-Follows none was_open h = cc

  plate_order_step-Follows :
      plate_order_step c payload ≡ ok (moved x feedback settled_now unlocked outcome)
      → Follows c x settled_now unlocked
  unfolding plate_order_step
  plate_order_step-Follows h =
      let (fields, _, e) =
        >>=-eq-ok (payload_object payload ("orderId" ∷ []))
          (λ fields. ok (plate_move c (named_order c fields is_ready))) h in
      plate_move-Follows (named_order c fields is_ready) (named_order-open c fields is_ready) (cc)

  serve_move-Follows :
      (o : Option (OrderDefinition × OrderCheckpoint))
      → ((r : OrderDefinition × OrderCheckpoint)
          → o ≡ some r
          → (c.phase ≡ open_) × (definition_of c ≡ some r.0))
      → serve_move c o ≡ moved x feedback settled_now unlocked outcome
      → Follows c x settled_now unlocked
  unfolding serve_move serve_active
  serve_move-Follows (some r) was_open h = let opened = was_open r refl in ground arith
  serve_move-Follows none was_open h = cc

  serve_order_step-Follows :
      serve_order_step c payload ≡ ok (moved x feedback settled_now unlocked outcome)
      → Follows c x settled_now unlocked
  unfolding serve_order_step
  serve_order_step-Follows h =
      let (fields, _, e) =
        >>=-eq-ok (payload_object payload ("orderId" ∷ []))
          (λ fields. ok (serve_move c (named_order c fields is_plated))) h in
      serve_move-Follows (named_order c fields is_plated) (named_order-open c fields is_plated) (cc)

  presentation_move-Follows :
      (o : Option (OrderDefinition × OrderCheckpoint)) (choice : Option PresentationChoice)
      → ((r : OrderDefinition × OrderCheckpoint)
          → o ≡ some r
          → (c.phase ≡ open_) × (definition_of c ≡ some r.0))
      → presentation_move c o choice ≡ moved x feedback settled_now unlocked outcome
      → Follows c x settled_now unlocked
  unfolding presentation_move
  presentation_move-Follows (some r) (some p) was_open h =
      let opened = was_open r refl in ground arith
  presentation_move-Follows (some r) none was_open h = cc
  presentation_move-Follows none p was_open h = cc

  choose_presentation_step-Follows :
      choose_presentation_step c payload ≡ ok (moved x feedback settled_now unlocked outcome)
      → Follows c x settled_now unlocked
  unfolding choose_presentation_step
  choose_presentation_step-Follows h =
      let (fields, _, h') =
        >>=-eq-ok (payload_object payload ("choice" ∷ "orderId" ∷ []))
          (λ fields. ok (
            presentation_move c (named_order c fields is_ready)
              (chosen parse_presentation (get fields "choice"))))
          h in
      presentation_move-Follows (named_order c fields is_ready)
        (chosen parse_presentation (get fields "choice")) (named_order-open c fields is_ready) (cc)

  close_ledger_step-Follows :
      close_ledger_step c payload ≡ ok (moved x feedback settled_now unlocked outcome)
      → Follows c x settled_now unlocked
  unfolding close_ledger_step
  close_ledger_step-Follows h = ground arith

  choose_restoration_step-Follows :
      choose_restoration_step c payload ≡ ok (moved x feedback settled_now unlocked outcome)
      → Follows c x settled_now unlocked
  unfolding choose_restoration_step restoration_move
  choose_restoration_step-Follows h = ground arith

  abandon_step-Follows :
      abandon_step c payload ≡ ok (moved x feedback settled_now unlocked outcome)
      → Follows c x settled_now unlocked
  unfolding abandon_step
  abandon_step-Follows h = ground arith

  -- Each accepted command changes the checkpoint as `Follows` says.
  pub step-Follows :
      (name : CommandName)
      → step c name payload ≡ ok (moved x feedback settled_now unlocked outcome)
      → Follows c x settled_now unlocked
  unfolding step
  step-Follows start h = start_step-Follows h
  step-Follows start_new h = start_new_step-Follows h
  step-Follows prepare_rice h = prepare_rice_step-Follows h
  step-Follows accept_order h = accept_order_step-Follows h
  step-Follows perform_step h = perform_step_step-Follows h
  step-Follows choose_presentation h = choose_presentation_step-Follows h
  step-Follows plate_order h = plate_order_step-Follows h
  step-Follows serve_order h = serve_order_step-Follows h
  step-Follows close_ledger h = close_ledger_step-Follows h
  step-Follows choose_restoration h = choose_restoration_step-Follows h
  step-Follows abandon h = abandon_step-Follows h
