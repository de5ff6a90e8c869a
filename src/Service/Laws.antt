-- ===== src/Service/Laws.antt =====
-- What a successful reduction returns.
use samurai_sushi.Common.{
  ◌≡◌, refl, ap, Bool, true, false, ◌⊎◌, inl, inr, String, Option, some, List, reject-eq-ok,
  from_option-some, ◌∙◌, ok, ◌>>=◌, reject, from_option, >>=-eq-ok, >>-eq-ok, Bool-cases,
  invalid_service_state, if◌then◌else◌,
}
use samurai_sushi.Commands.{CommandEnvelope}
use samurai_sushi.Service.{OutcomeClass, Checkpoint, CommandName, Decision}
use samurai_sushi.Service.Texts.{parse_command}
use samurai_sushi.Service.Invariants.{assert_invariants}
use samurai_sushi.Service.Steps.{Move, corrected, moved, step}
use samurai_sushi.Service.Reduce.{
  build_decision, correction, candidate, next_checkpoint, conclude, is_complete, mismatched,
  dispatch, reduce_decoded,
}
use samurai_sushi.Service.Encode.{checkpoint_json}
use samurai_sushi.Service.Decode.{decode_checkpoint}
use samurai_sushi.Service.RoundTrip.{decode_checkpoint-checkpoint_json}

-- An accepted command: the case of the `switch` that made the decision `d`.
pub record Applied (c : Checkpoint) (command : CommandEnvelope) (d : Decision) : Type 0 where
  pub name : CommandName
  pub changed : Checkpoint
  pub feedback : String
  pub settled_now : Bool
  pub unlocked : List String
  pub outcome : Option OutcomeClass
  pub named : parse_command command.command_name ≡ some name
  pub going_on : is_complete c command.command_name ≡ false
  pub stepped :
      step c name command.payload ≡ ok (moved changed feedback settled_now unlocked outcome)
  pub valid : assert_invariants (candidate changed) ≡ ok tt
  pub decided :
      d ≡ build_decision (candidate changed) command true feedback settled_now unlocked outcome

conclude-cases :
    (c : Checkpoint) (command : CommandEnvelope) (move : Move) {d : Decision}
    → conclude c command move ≡ ok d
    → ((cue : String) × (d ≡ correction c command cue))
      ⊎ ((x : Checkpoint) × (f : String) × (s : Bool) × (u : List String) × (o : Option
            OutcomeClass)
          × (move ≡ moved x f s u o)
          × (assert_invariants (candidate x) ≡ ok tt)
          × (d ≡ build_decision (candidate x) command true f s u o))
unfolding conclude next_checkpoint
conclude-cases c command (corrected cue) h = inl (cue, cc)
conclude-cases c command (moved x f s u o) h =
    let (y, decoded, e) =
      >>=-eq-ok (decode_checkpoint (checkpoint_json (candidate x)))
        (λ next. ok (build_decision next command true f s u o)) h in
    let (same, valid) = decode_checkpoint-checkpoint_json (candidate x) decoded in
    inr (x, f, s, u, o, refl, valid, cc)

dispatch-cases :
    (c : Checkpoint) (command : CommandEnvelope) {d : Decision}
    → is_complete c command.command_name ≡ false
    → dispatch c command ≡ ok d
    → ((cue : String) × (d ≡ correction c command cue)) ⊎ Applied c command d
unfolding dispatch
dispatch-cases c command going_on h =
    let conclusion = λ (move : Move). conclude c command move in
    let run = λ (name : CommandName). step c name command.payload >>= conclusion in
    let parsed = from_option (parse_command command.command_name) invalid_service_state in
    let (name, named, h') = >>=-eq-ok parsed run h in
    let (move, stepped, h'') = >>=-eq-ok (step c name command.payload) conclusion h' in
    elim (conclude-cases c command move h'') [
      | inl refused ↦ inl refused
      | inr (x, f, s, u, o, is_moved, valid, decided) ↦ inr (record {
        name = name;
        changed = x;
        feedback = f;
        settled_now = s;
        unlocked = u;
        outcome = o;
        named = from_option-some (parse_command command.command_name) invalid_service_state named;
        going_on = going_on;
        stepped = stepped ∙ ap ok is_moved;
        valid = valid;
        decided = decided;
      })
    ]

-- The two kinds of decision of a reduction that succeeds.
pub reduce_decoded-cases :
    (c : Checkpoint) (command : CommandEnvelope) {d : Decision}
    → reduce_decoded c command ≡ ok d
    → (mismatched c command ≡ false)
      × (((cue : String) × (d ≡ correction c command cue)) ⊎ Applied c command d)
unfolding reduce_decoded
reduce_decoded-cases c command h =
    let (fits, h') =
      >>-eq-ok (reject (mismatched c command) invalid_service_state)
        (if is_complete c command.command_name
          then ok (correction c command "cue.service.complete")
          else dispatch c command)
        h in
    (
      reject-eq-ok (mismatched c command) invalid_service_state fits,
      elim (Bool-cases (is_complete c command.command_name)) [
        | inl over ↦ let same = rw over at h' in inl ("cue.service.complete", cc)
        | inr going_on ↦ dispatch-cases c command going_on (rw going_on at h')
      ],
    )
