-- ===== src/Executor/Execute.antt =====
-- `GuestCommandExecutor.execute` of packages/persistence/src/command-executor.ts, as a function from the
-- store to the store that it commits. A transaction that throws commits nothing.
use samurai_sushi.Common.{
  ℕ, ◌+◌, not, ◌&&◌, String, Option, none, some, count, any, leb, ◌==◌, str_eq, Result, ok, ◌>>=◌,
  ◌>>◌, guard, reject, from_option, command_authentication_failed, command_bounds_exceeded,
  idempotency_payload_mismatch, idempotency_receipt_expired, receipt_integrity_failure,
  guest_progress_not_found, revision_conflict, uncoded_error,
}
use samurai_sushi.Json.{Json}
use samurai_sushi.Json.Canonical.{canonicalize}
use samurai_sushi.Json.Text.{canonical_json}
use samurai_sushi.Commands.{CommandEnvelope, validate_command_envelope}
use samurai_sushi.Executor.{CommandReceipt, Store, ExecutionResult, Execution, committed, replayed}
use samurai_sushi.Executor.Bounds.{
  byte_length, max_command_bytes, assert_bounded_unauthenticated_command,
}
use samurai_sushi.Executor.Decision.{
  CanonicalDecision, hash_persistence_response, canonicalize_decision,
}
use samurai_sushi.Executor.Session.{
  Authority, ResumeMatch, find_resume_match, fresh_candidates, is_authenticated, assert_usable,
  same_digest,
}
use samurai_sushi.Executor.Rows.{
  digest_from_domain_hash, guest_of, is_receipt, find_receipt, lock_progress, touch,
  receipt_differs, is_current, event_clashes, event_row, commit_store,
}

abbrev pub committed_result : CommandEnvelope → CanonicalDecision → ExecutionResult
committed_result command canonical = record {
  disposition = committed;
  response_schema_version = canonical.decision.response_schema_version;
  response = canonical.decision.response_payload;
  result_hash = canonical.result_hash;
  committed_revision = command.expected_revision + 1;
}

-- `findResumeMatchForUpdate` and the first test of the session.
unfoldable pub open_session : Authority → Store → String → Result ResumeMatch
unfolding find_resume_match is_authenticated
open_session authority store id = do
  now ← authority.initial_now
  candidates ← fresh_candidates authority now
  found ← from_option (find_resume_match candidates store) command_authentication_failed
  guard (str_eq found.session.id id && is_authenticated candidates found)
      command_authentication_failed
  ok found

module _ (sha256_hex : String → String) where
  unfoldable pub read_command : Json → Result CommandEnvelope
  unfolding assert_bounded_unauthenticated_command
  read_command input = do
    assert_bounded_unauthenticated_command input
    serialized ← canonical_json input
    reject (not (leb (byte_length serialized) max_command_bytes)) command_bounds_exceeded
    detached ← canonicalize input
    validate_command_envelope sha256_hex detached

  -- The answer to a command whose receipt is stored.
  unfoldable pub replay :
      Store
      → String
      → CommandEnvelope
      → (payload_hash : String) → CommandReceipt
      → (now : ℕ) → Result Execution
  replay store id command payload_hash stored now = do
    reject (receipt_differs command payload_hash stored) idempotency_payload_mismatch
    reject (leb stored.expires_at now) idempotency_receipt_expired
    response ← canonicalize stored.response_payload
    replay_hash ← hash_persistence_response sha256_hex stored.response_schema_version response
    digest ← digest_from_domain_hash replay_hash
    guard (same_digest digest stored.result_hash) receipt_integrity_failure
    ok (record {
      store = touch store id now;
      result = record {
        disposition = replayed;
        response_schema_version = stored.response_schema_version;
        response = response;
        result_hash = replay_hash;
        committed_revision = stored.committed_revision;
      };
    })

-- The handler reads a checkpoint and a command, and returns an unknown value, or throws.
module _ (sha256_hex : String → String) (handler : Json → CommandEnvelope → Result Json) where
  -- The first execution of a command.
  unfoldable pub commit :
      Authority
      → Store
      → ResumeMatch
      → String
      → CommandEnvelope
      → (payload_hash : String) → Result Execution
  unfolding assert_usable canonicalize_decision
  commit authority store found id command payload_hash = do
    progress ← from_option (lock_progress id store.progress) guest_progress_not_found
    guard (progress.revision == command.expected_revision) revision_conflict
    checkpoint ← canonicalize progress.checkpoint
    raw_decision ← handler checkpoint command
    canonical ← canonicalize_decision sha256_hex raw_decision
    now ← authority.write_now
    assert_usable authority found now
    guard (count (is_current id command.expected_revision) store.progress == 1) revision_conflict
    reject
        (any (event_clashes (event_row id canonical.decision (command.expected_revision + 1) now))
          store.events)
        uncoded_error
    digest ← digest_from_domain_hash canonical.result_hash
    ok (record {
      store = commit_store store id command payload_hash canonical now;
      result = committed_result command canonical;
    })

  abbrev pub answer :
      Authority
      → Store
      → ResumeMatch
      → String
      → CommandEnvelope
      → (payload_hash : String) → (now : ℕ) → Option CommandReceipt
      → Result Execution
  answer authority store found id command payload_hash now none =
      commit authority store found id command payload_hash
  answer authority store found id command payload_hash now (some stored) =
      replay sha256_hex store id command payload_hash stored now

  unfoldable pub execute : Authority → Json → Store → Result Execution
  unfolding read_command replay commit open_session assert_usable
  execute authority input store = do
    command ← read_command sha256_hex input
    id ← guest_of command.subject
    payload_hash ← digest_from_domain_hash command.payload_hash
    found ← open_session authority store id
    now ← authority.locked_now
    assert_usable authority found now
    answer authority store found id command payload_hash now
        (find_receipt (is_receipt id command.idempotency_key) store.receipts)
