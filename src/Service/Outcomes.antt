-- ===== src/Service/Outcomes.antt =====
-- What `reduceEveningService` promises of each decision that it returns.
use mathlib.Core.Path.{subst}
use samurai_sushi.Common.{
  ◌+◌, ◌≡◌, refl, ap, sym, true, false, not, ◌⊎◌, inl, inr, String, some, List, [], ◌∷◌, ◌++◌,
  includes, str_eq, eq_iff, ok, ◌>>=◌, >>=-eq-ok, any, all, >>-eq-ok, ◌∙◌, reject,
  invalid_service_state, if◌then◌else◌, arith,
}
use samurai_sushi.Json.{Json}
use samurai_sushi.Commands.{CommandEnvelope, validate_command_envelope}
use samurai_sushi.Service.{
  Phase, closing, settled, abandoned, Checkpoint, Decision, OrderCheckpoint, OrderDefinition,
  salmon_sashimi_unlock_id,
}
use samurai_sushi.Service.Invariants.{
  assert_invariants, unlocks_violate, settlement_violates, closing_violates, is_some, is_served,
}
use samurai_sushi.Service.Holds.{Holds, assert_invariants-Holds}
use samurai_sushi.Service.Steps.{definition_of}
use samurai_sushi.Service.Reduce.{
  build_decision, correction, candidate, mismatched, is_complete, dispatch, reduce_decoded,
  reduce_evening_service,
}
use samurai_sushi.Service.Decode.{decode_checkpoint, detach, read_checkpoint}
use samurai_sushi.Service.Moves.{joins, is_phase_settled, step-Follows}
use samurai_sushi.Service.Laws.{reduce_decoded-cases}

-- A checkpoint that the decoder returns satisfies its invariants.
pub decode_checkpoint-Holds :
    (input : Json) {c : Checkpoint} → decode_checkpoint input ≡ ok c → Holds c
unfolding decode_checkpoint
decode_checkpoint-Holds input {c} h =
    let check = λ (a : Checkpoint). assert_invariants a >>= λ _. ok a in
    let (j, _, h') = >>=-eq-ok (detach input) (λ j. read_checkpoint j >>= check) h in
    let (a, _, h'') = >>=-eq-ok (read_checkpoint j) check h' in
    let (held, same) = >>-eq-ok (assert_invariants a) (ok a) h'' in
    assert_invariants-Holds c (let same' : a ≡ c = cc in rw same' at held)

-- The decoded checkpoint and the validated command behind a decision.
pub record Reduced (sha256_hex : String → String) (checkpoint_input command_input : Json)
    (d : Decision) : Type 0 where
  pub before : Checkpoint
  pub command : CommandEnvelope
  pub decoded : decode_checkpoint checkpoint_input ≡ ok before
  pub reduced : reduce_decoded before command ≡ ok d

-- What an accepted decision says of the checkpoint before it.
pub record Accepted (checkpoint_input : Json) (d : Decision) : Type 0 where
  pub before : Checkpoint
  pub decoded : decode_checkpoint checkpoint_input ≡ ok before
  pub next_revision : d.checkpoint.revision ≡ before.revision + 1
  pub joined : joins before.phase d.checkpoint.phase ≡ true
  pub generation :
      (d.checkpoint.generation ≡ before.generation)
      ⊎ ((d.checkpoint.generation ≡ before.generation + 1) × (before.phase ≡ abandoned))
  pub settles : d.response.settled_now ≡ is_phase_settled d.checkpoint.phase
  pub shown : d.response.checkpoint ≡ d.checkpoint
  pub valid : Holds d.checkpoint

phase_of_settles : (p : Phase) → is_phase_settled p ≡ true → p ≡ settled
phase_of_settles settled h = refl
phase_of_settles _ h = cc

settles_from : (p : Phase) → joins p settled ≡ true → p ≡ closing
settles_from closing h = refl
settles_from _ h = cc

all_served :
    (os : List OrderCheckpoint)
    → any (λ o. not (is_served o.state)) os ≡ false
    → all (λ o. is_served o.state) os ≡ true
all_served [] h = refl
all_served (o ∷ os) h = ground (arith, all_served os)

-- A finished evening: every order is served, both choices are made, and the sashimi is unlocked.
pub record IsFinished (c : Checkpoint) : Type 0 where
  pub in_settled : c.phase ≡ settled
  pub active : c.active_order_index ≡ 3
  pub served : all (λ o. is_served o.state) c.orders ≡ true
  pub restored : is_some c.restoration_choice ≡ true
  pub presented : is_some c.presentation_choice ≡ true
  pub unlocked : includes c.unlocks salmon_sashimi_unlock_id ≡ true

settled-IsFinished : (c : Checkpoint) → Holds c → c.phase ≡ settled → IsFinished c
unfolding settlement_violates unlocks_violate closing_violates
settled-IsFinished c h p =
    ground (arith, h.settlement, h.unlocks, h.closing_shape, all_served c.orders)

-- Every checkpoint that the decoder accepts in the settled phase is a finished evening.
pub decode_settled-IsFinished :
    (input : Json) (c : Checkpoint)
    → decode_checkpoint input ≡ ok c
    → c.phase ≡ settled
    → IsFinished c
decode_settled-IsFinished input c h p = settled-IsFinished c (decode_checkpoint-Holds input h) p

only_unlock :
    (c : Checkpoint)
    → Holds c
    → any (λ u. not (str_eq u salmon_sashimi_unlock_id)) c.unlocks ≡ false
unfolding unlocks_violate
only_unlock c h = ground (arith, h.unlocks)

includes_only :
    (us : List String) (s : String)
    → any (λ u. not (str_eq u salmon_sashimi_unlock_id)) us ≡ false
    → includes us s ≡ true
    → (s ≡ salmon_sashimi_unlock_id) × (includes us salmon_sashimi_unlock_id ≡ true)
includes_only [] s only h = cc
includes_only (u ∷ us) s only h =
    ground (arith, eq_iff u s, eq_iff u salmon_sashimi_unlock_id, includes_only us s)

module _ (sha256_hex : String → String) (checkpoint_input command_input : Json) {d : Decision} where
  pub reduce-Reduced :
      reduce_evening_service sha256_hex checkpoint_input command_input ≡ ok d
      → Reduced sha256_hex checkpoint_input command_input d
  unfolding reduce_evening_service
  reduce-Reduced h =
      let last = λ (c : Checkpoint) (command : CommandEnvelope). reduce_decoded c command in
      let validate =
        λ (c : Checkpoint) (j : Json). validate_command_envelope sha256_hex j >>= last c in
      let (c, decoded, h') =
        >>=-eq-ok (decode_checkpoint checkpoint_input) (λ c. detach command_input >>= validate c)
          h in
      let (j, _, h'') = >>=-eq-ok (detach command_input) (validate c) h' in
      let (command, _, reduced) = >>=-eq-ok (validate_command_envelope sha256_hex j) (last c) h'' in
      record { before = c; command = command; decoded = decoded; reduced = reduced }

  -- A refused command leaves the decoded checkpoint as it was, revision included; nothing is settled
  -- or unlocked, and the cue is the feedback.
  pub refusal_changes_nothing :
      reduce_evening_service sha256_hex checkpoint_input command_input ≡ ok d
      → d.response.accepted ≡ false
      → (decode_checkpoint checkpoint_input ≡ ok d.checkpoint)
        × (d.response.checkpoint ≡ d.checkpoint)
        × (d.response.settled_now ≡ false)
        × (d.response.unlocked_now ≡ [])
        × (d.response.corrective_cue_id ≡ some d.response.feedback_ref)
  unfolding correction build_decision
  refusal_changes_nothing h refused =
      let r = reduce-Reduced h in
      elim (reduce_decoded-cases r.before r.command r.reduced).1 [
        | inl (cue, is_correction) ↦ ground (arith, r.decoded, is_correction)
        | inr a ↦ absurd (ground (arith, a.decided))
      ]

  -- An accepted command moves the revision on by one, joins two phases of the diagram, starts a new
  -- generation only from abandonment, reports settlement exactly when it settles, and returns a
  -- checkpoint that satisfies every invariant of the decoder.
  pub acceptance_advances :
      reduce_evening_service sha256_hex checkpoint_input command_input ≡ ok d
      → d.response.accepted ≡ true
      → Accepted checkpoint_input d
  unfolding correction build_decision candidate
  acceptance_advances h was_accepted =
      let r = reduce-Reduced h in
      elim (reduce_decoded-cases r.before r.command r.reduced).1 [
        | inl (cue, is_correction) ↦ absurd (ground (arith, is_correction))
        | inr a ↦
            let follows = step-Follows r.before r.command.payload a.name a.stepped in
            let holds = assert_invariants-Holds (candidate a.changed) a.valid in
            let same : d.checkpoint ≡ candidate a.changed = ground (arith, a.decided) in
            record {
              before = r.before;
              decoded = r.decoded;
              next_revision = ground (arith, a.decided, follows.same_revision);
              joined = ground (arith, a.decided, follows.joined);
              generation = ground (arith, a.decided, follows.next_generation);
              settles = ground (arith, a.decided, follows.settles);
              shown = ground (arith, a.decided);
              valid = subst Holds (sym same) holds;
            }
      ]

  -- A decision that settles the service comes from a closing service, and its checkpoint is a
  -- finished evening.
  pub settlement_complete :
      reduce_evening_service sha256_hex checkpoint_input command_input ≡ ok d
      → d.response.settled_now ≡ true
      → (before : Checkpoint) × (decode_checkpoint checkpoint_input ≡ ok before)
        × (before.phase ≡ closing)
        × IsFinished d.checkpoint
  unfolding correction build_decision
  settlement_complete h was_settled =
      let r = reduce-Reduced h in
      let accepted : d.response.accepted ≡ true =
        elim (reduce_decoded-cases r.before r.command r.reduced).1 [
          | inl (cue, is_correction) ↦ absurd (ground (arith, is_correction))
          | inr a ↦ ground (arith, a.decided)
        ] in
      let a = acceptance_advances h accepted in
      let after = phase_of_settles d.checkpoint.phase (ground (arith, a.settles)) in
      (
        a.before,
        a.decoded,
        settles_from a.before.phase (rw after at a.joined),
        settled-IsFinished d.checkpoint a.valid after,
      )

  -- Once the service is settled, every command is refused with the cue that it is complete.
  pub settled_absorbs :
      (c : Checkpoint)
      → reduce_evening_service sha256_hex checkpoint_input command_input ≡ ok d
      → decode_checkpoint checkpoint_input ≡ ok c
      → c.phase ≡ settled
      → (d.checkpoint ≡ c)
        × (d.response.accepted ≡ false)
        × (d.response.feedback_ref ≡ "cue.service.complete")
  unfolding reduce_decoded correction build_decision
  settled_absorbs c h decoded phase =
      let r = reduce-Reduced h in
      let same : r.before ≡ c = cc (r.decoded) in
      let settled_before : r.before.phase ≡ settled =
        ap (λ (b : Checkpoint). b.phase) same ∙ phase in
      let (_, rest) =
        >>-eq-ok (reject (mismatched r.before r.command) invalid_service_state)
          (if is_complete r.before r.command.command_name
            then ok (correction r.before r.command "cue.service.complete")
            else dispatch r.before r.command)
          r.reduced in
      ground (arith, rest, same, settled_before)

  -- A decision never takes an unlock away.
  pub unlocks_monotone :
      (s : String) (c : Checkpoint)
      → reduce_evening_service sha256_hex checkpoint_input command_input ≡ ok d
      → decode_checkpoint checkpoint_input ≡ ok c
      → includes c.unlocks s ≡ true
      → includes d.checkpoint.unlocks s ≡ true
  unfolding correction build_decision candidate
  unlocks_monotone s c h decoded held =
      let r = reduce-Reduced h in
      let same : r.before ≡ c = cc (r.decoded) in
      let holds = decode_checkpoint-Holds checkpoint_input decoded in
      elim (reduce_decoded-cases r.before r.command r.reduced).1 [
        | inl (cue, is_correction) ↦ ground (arith, is_correction, same)
        | inr a ↦
            let follows = step-Follows r.before r.command.payload a.name a.stepped in
            let only = includes_only c.unlocks s (only_unlock c holds) held in
            ground (arith, a.decided, same, follows.unlocks_kept, only)
      ]

  -- A decision keeps the story flags, and adds at most the flag of the order that was active.
  pub story_monotone :
      (c : Checkpoint)
      → reduce_evening_service sha256_hex checkpoint_input command_input ≡ ok d
      → decode_checkpoint checkpoint_input ≡ ok c
      → (d.checkpoint.story_flags ≡ c.story_flags)
        ⊎ ((def : OrderDefinition) × (definition_of c ≡ some def)
            × (d.checkpoint.story_flags ≡ c.story_flags ++ def.story_flag_id ∷ []))
  unfolding correction build_decision candidate
  story_monotone c h decoded =
      let r = reduce-Reduced h in
      let same : r.before ≡ c = cc (r.decoded) in
      elim (reduce_decoded-cases r.before r.command r.reduced).1 [
        | inl (cue, is_correction) ↦ inl (ground (arith, is_correction, same))
        | inr a ↦
            let follows = step-Follows r.before r.command.payload a.name a.stepped in
            let after : d.checkpoint.story_flags ≡ a.changed.story_flags =
              ground (arith, a.decided) in
            elim follows.flags_kept [
              | inl kept ↦ inl (cc)
              | inr (def, is_active, grown) ↦ inr (def, rw same at is_active, cc)
            ]
      ]
