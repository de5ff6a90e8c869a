-- ===== src/Executor/Rows.antt =====
-- packages/persistence/src/command-executor.ts and repositories.ts: the queries of a guest's command and the
-- rows that they read and write.
use samurai_sushi.Common.{
  ℕ, ◌+◌, Bool, not, ◌&&◌, ◌||◌, String, Option, none, some, List, [], ◌∷◌, ◌==◌, str_eq, Result,
  ok, err, ◌>>◌, guard, if◌then◌else◌, unsupported_subject, invalid_digest,
}
use samurai_sushi.Commands.{CommandEnvelope, SubjectRef, guest, player}
use samurai_sushi.Commands.Patterns.{is_sha256}
use samurai_sushi.Outbox.{Delivery, pending}
use samurai_sushi.Executor.{SessionRow, Progress, CommandReceipt, EventRow, Store}
use samurai_sushi.Executor.Decision.{PersistenceDecision, CanonicalDecision}
use samurai_sushi.Executor.Session.{same_digest}

-- `ADR_0003_PERSISTENCE_LIFECYCLE.receiptLifetimeMs`, thirty days.
abbrev pub receipt_lifetime_ms : ℕ
receipt_lifetime_ms = 2592000000

-- `digestFromDomainHash`.
abbrev pub digest_from_domain_hash : String → Result String
digest_from_domain_hash hash = guard (is_sha256 hash) invalid_digest >> ok hash

abbrev pub guest_of : SubjectRef → Result String
guest_of (guest id) = ok id
guest_of (player id) = err unsupported_subject

-- `SELECT … FROM command_receipts WHERE guest_session_id = $1 AND idempotency_key = $2`.
abbrev pub is_receipt : (guest_session_id idempotency_key : String) → CommandReceipt → Bool
is_receipt guest_session_id idempotency_key r =
    str_eq r.guest_session_id guest_session_id && str_eq r.idempotency_key idempotency_key

abbrev pub find_receipt : (CommandReceipt → Bool) → List CommandReceipt → Option CommandReceipt
find_receipt p [] = none
find_receipt p (r ∷ rs) = if p r then some r else find_receipt p rs

abbrev pub has_guest : String → Progress → Bool
has_guest id p = str_eq p.guest_session_id id

-- `GuestProgressRepository.lock`.
abbrev pub lock_progress : String → List Progress → Option Progress
lock_progress id [] = none
lock_progress id (p ∷ ps) = if has_guest id p then some p else lock_progress id ps

abbrev pub touch_session : String → ℕ → SessionRow → SessionRow
touch_session id now s = if str_eq s.id id then record s { last_seen_at = now } else s

abbrev pub touch_sessions : String → ℕ → List SessionRow → List SessionRow
touch_sessions id now [] = []
touch_sessions id now (s ∷ ss) = touch_session id now s ∷ touch_sessions id now ss

-- `GuestSessionRepository.touch`.
abbrev pub touch : Store → String → ℕ → Store
touch store id now = record store { sessions = touch_sessions id now store.sessions }

abbrev pub receipt_differs : CommandEnvelope → (payload_hash : String) → CommandReceipt → Bool
receipt_differs command payload_hash stored =
    not (str_eq stored.command_name command.command_name)
    || not (stored.expected_revision == command.expected_revision)
    || not (str_eq stored.content_version command.content_version)
    || not (same_digest stored.payload_hash payload_hash)

-- `WHERE guest_session_id = $1 AND revision = $2`.
abbrev pub is_current : String → ℕ → Progress → Bool
is_current id revision p = has_guest id p && p.revision == revision

abbrev pub advance : CommandEnvelope → PersistenceDecision → ℕ → Progress → Progress
advance command decision now p = record p {
  revision = p.revision + 1;
  content_version = command.content_version;
  checkpoint_schema_version = decision.checkpoint_schema_version;
  checkpoint = decision.checkpoint;
  updated_at = now;
}

abbrev pub update_progress :
    (Progress → Bool) → (Progress → Progress) → List Progress → List Progress
update_progress p f [] = []
update_progress p f (x ∷ xs) = (if p x then f x else x) ∷ update_progress p f xs

-- The primary key of the events, and their other unique pair of columns.
abbrev pub event_clashes : EventRow → EventRow → Bool
event_clashes new old =
    str_eq old.event_id new.event_id
    || (str_eq old.guest_session_id new.guest_session_id
        && old.committed_revision == new.committed_revision)

abbrev pub event_row : String → PersistenceDecision → (committed_revision now : ℕ) → EventRow
event_row id decision committed_revision now = record {
  event_id = decision.event.event_id;
  guest_session_id = id;
  event_type = decision.event.event_type;
  schema_version = decision.event.schema_version;
  payload = decision.event.payload;
  committed_revision = committed_revision;
  created_at = now;
}

abbrev pub delivery_row : PersistenceDecision → (now : ℕ) → Delivery
delivery_row decision now = record {
  event_id = decision.event.event_id;
  state = pending;
  attempt_count = 0;
  available_at = now;
  last_attempt_at = none;
  claim_token = none;
  claim_generation = 0;
  claim_expires_at = none;
  delivered_at = none;
  dead_lettered_at = none;
  last_error_code = none;
}

abbrev pub receipt_row :
    String
    → CommandEnvelope
    → (payload_hash : String) → PersistenceDecision
    → (result_hash : String) → (now : ℕ) → CommandReceipt
receipt_row id command payload_hash decision result_hash now = record {
  guest_session_id = id;
  idempotency_key = command.idempotency_key;
  command_name = command.command_name;
  expected_revision = command.expected_revision;
  content_version = command.content_version;
  payload_hash = payload_hash;
  response_schema_version = decision.response_schema_version;
  response_payload = decision.response_payload;
  result_hash = result_hash;
  committed_revision = command.expected_revision + 1;
  created_at = now;
  expires_at = now + receipt_lifetime_ms;
}

-- The rows that a commit inserts go to the front of their tables.
abbrev pub commit_store :
    Store
    → String
    → CommandEnvelope
    → (payload_hash : String) → CanonicalDecision
    → (now : ℕ) → Store
commit_store store id command payload_hash canonical now =
    let touched = touch store id now in
    record touched {
      progress =
          update_progress (is_current id command.expected_revision)
            (advance command canonical.decision now) store.progress;
      events = event_row id canonical.decision (command.expected_revision + 1) now ∷ store.events;
      deliveries = delivery_row canonical.decision now ∷ store.deliveries;
      receipts =
          receipt_row id command payload_hash canonical.decision canonical.result_hash now
          ∷ store.receipts;
    }
