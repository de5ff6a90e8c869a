-- ===== src/Examples/Commit.antt =====
-- A guest's command at a concrete store: its first execution, and its replay.
use samurai_sushi.Common.{
  ◌≡◌, refl, false, String, none, some, [], ◌∷◌, ok, err, Result, uncoded_error, str_eq, Bool-cases,
  inl, inr, if_true, if_false,
}
use samurai_sushi.Json.{Json, nat, num, str, obj, field, end}
use samurai_sushi.Json.Canonical.{canonicalize}
use samurai_sushi.Json.Unicode.{assert_valid_unicode}
use samurai_sushi.Service.{first_evening_content_version}
use samurai_sushi.Commands.{CommandEnvelope}
use samurai_sushi.Executor.{current, Progress, Store, Execution, committed, replayed}
use samurai_sushi.Executor.Bounds.{assert_bounded_unauthenticated_command}
use samurai_sushi.Executor.Decision.{
  is_event_id, is_event_type, hash_persistence_response, canonicalize_decision,
}
use samurai_sushi.Executor.Session.{Authority, find_resume_match, is_authenticated, assert_usable}
use samurai_sushi.Executor.Execute.{read_command, replay, commit, open_session, execute}
use samurai_sushi.Executor.Rows.{lock_progress}
use samurai_sushi.Executor.Inversion.{Executed, execute-Executed}
use samurai_sushi.Executor.Once.{SameAnswer, executed_once}
use samurai_sushi.Executor.Counts.{Counted, execute_all, revision_counts_events}
use samurai_sushi.Examples.Evening.{zero_hash, command_json, envelope}

abbrev guest_id : String
guest_id = "guest-service-fixture-0001"

abbrev digest_text : String
digest_text = "sha256:0000000000000000000000000000000000000000000000000000000000000000"

abbrev authority : Authority
authority = record {
  initial_now = ok 100;
  locked_now = ok 101;
  write_now = ok 102;
  candidates =
      λ now. some (record { key_version = 1; key_identity = "key"; digest = digest_text } ∷ []);
  tombstoned = λ now. false;
  active_version = 1;
}

abbrev store : Store
store = record {
  digests =
      record {
        guest_session_id = guest_id;
        slot = current;
        key_version = 1;
        key_identity = "key";
        digest = digest_text;
        valid_until = none;
      }
      ∷ [];
  sessions = record { id = guest_id; last_seen_at = 0; expires_at = 1000; rotate_after = 500 } ∷ [];
  progress =
      record {
        guest_session_id = guest_id;
        revision = 0;
        content_version = first_evening_content_version;
        checkpoint_schema_version = 1;
        checkpoint = obj end;
        updated_at = 0;
      }
      ∷ [];
  receipts = [];
  events = [];
  deliveries = [];
}

abbrev decision_json : Json
decision_json = obj (
    field "checkpoint" (obj end) (
      field "checkpointSchemaVersion" (num (nat 1)) (
        field "event"
          (obj (
            field "eventId" (str "event-0000000001") (
              field "eventType" (str "service.started")
                (field "payload" (obj end) (field "schemaVersion" (num (nat 1)) end)))))
          (field "response"
            (obj (field "payload" (str "opened") (field "schemaVersion" (num (nat 1)) end))) end))))

abbrev handler : Json → CommandEnvelope → Result Json
handler checkpoint command = ok decision_json

abbrev input : Json
input = command_json 0 "service.start" end

unfoldable executor : Unit {0}
unfolding execute read_command replay commit open_session canonicalize_decision
    hash_persistence_response is_event_id is_event_type find_resume_match is_authenticated
    assert_usable assert_bounded_unauthenticated_command assert_valid_unicode canonicalize
executor = tt

abbrev run_or : Result Execution → Execution
run_or (ok run) = run
run_or (err e) = record {
  store = store;
  result = record {
    disposition = replayed;
    response_schema_version = 0;
    response = obj end;
    result_hash = "";
    committed_revision = 0;
  };
}

abbrev first_run : Execution
first_run = run_or (execute zero_hash handler authority input store)

executed : execute zero_hash handler authority input store ≡ ok first_run
unfolding executor envelope
executed = refl

test_committed : first_run.result.disposition ≡ committed
unfolding executor envelope
test_committed = refl

execute-Executed_example : Executed zero_hash authority input store first_run
execute-Executed_example = execute-Executed zero_hash handler authority input store executed

-- A handler that throws is not called again.
abbrev broken : Json → CommandEnvelope → Result Json
broken checkpoint command = err uncoded_error

abbrev second_run : Execution
second_run = run_or (execute zero_hash broken authority input first_run.store)

executed_again : execute zero_hash broken authority input first_run.store ≡ ok second_run
unfolding executor envelope
executed_again = refl

executed_once_example : SameAnswer first_run second_run
executed_once_example =
    executed_once zero_hash handler broken authority authority input store executed executed_again

progress_of :
    (guest : String) (p : Progress) → lock_progress guest store.progress ≡ some p → p.revision ≡ 0
progress_of guest p h = elim (Bool-cases (str_eq guest_id guest)) [
  | inl e ↦ one_progress p (if_true _ _ e h)
  | inr e ↦ no_progress p (if_false _ _ e h)
]
  where
    one_progress : (p : Progress) {q : Progress} → some q ≡ some p → p.revision ≡ q.revision
    one_progress p h = cc

    no_progress : (p : Progress) → none ≡ some p → p.revision ≡ 0
    no_progress p h = cc

revision_counts_events_example : Counted (
    execute_all zero_hash
      (record { handler = handler; authority = authority; input = input } ∷ [])
      store)
revision_counts_events_example =
    revision_counts_events zero_hash
      (record { handler = handler; authority = authority; input = input } ∷ []) store progress_of
