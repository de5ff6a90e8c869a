-- ===== src/Executor/Answered.antt =====
-- What `GuestCommandExecutor.execute` of packages/persistence/src/command-executor.ts has done when it
-- returns: a session was authorized, and a receipt holds the answer.
use mathlib.Core.List.{Memᴰ}
use samurai_sushi.Common.{
  ℕ, ◌+◌, ◌≡◌, ◌<◌, ◌⊎◌, refl, sym, ◌∙◌, Bool, true, false, ◌&&◌, String, some, List, any, count,
  leb, ◌==◌, ==→eq, str_eq, eq_iff, Result, ok, >>=-eq-ok, >>-eq-ok, guard, guard-eq-ok, reject,
  from_option, from_option-some, arith, idempotency_payload_mismatch, idempotency_receipt_expired,
  receipt_integrity_failure, guest_progress_not_found, revision_conflict, uncoded_error,
  ok_injective,
}
use samurai_sushi.Json.{Json}
use samurai_sushi.Json.Canonical.{canonicalize}
use samurai_sushi.Commands.{CommandEnvelope}
use samurai_sushi.Commands.Patterns.{is_sha256}
use samurai_sushi.Executor.{
  Slot, DigestRow, VersionedDigest, Progress, CommandReceipt, Store, Execution, replayed,
}
use samurai_sushi.Executor.Decision.{
  CanonicalDecision, hash_persistence_response, canonicalize_decision,
}
use samurai_sushi.Executor.Responses.{canonicalize_decision-sorted}
use samurai_sushi.Json.Sorted.{sorted}
use samurai_sushi.Executor.Session.{
  Authority, ResumeMatch, find_resume_match, fresh_candidates, assert_usable, same_digest,
}
use samurai_sushi.Executor.Execute.{committed_result, replay, commit}
use samurai_sushi.Executor.Rows.{
  digest_from_domain_hash, lock_progress, touch, is_current, event_clashes, event_row, commit_store,
  receipt_differs,
}

-- What is known of a replayed answer.
pub record Replayed (store : Store) (id : String) (stored : CommandReceipt) (now : ℕ)
    (run : Execution) : Type 0 where
  pub store_is : run.store ≡ touch store id now
  pub result_hash : stored.result_hash ≡ run.result.result_hash
  pub committed_revision : stored.committed_revision ≡ run.result.committed_revision
  pub schema_version : stored.response_schema_version ≡ run.result.response_schema_version
  pub response : canonicalize stored.response_payload ≡ ok run.result.response
  pub disposition : run.result.disposition ≡ replayed

-- A digest of the secret, under the key of the row that was found, is the row's digest.
pub record Holds (candidates : List VersionedDigest) (row : DigestRow) : Type 0 where
  pub candidate : VersionedDigest
  pub listed : Memᴰ candidate candidates
  pub version : candidate.key_version ≡ row.key_version
  pub identity : candidate.key_identity ≡ row.key_identity
  pub digest : candidate.digest ≡ row.digest

-- The session that the secret of a command opened, at the time when its transaction has the lock: it is the match
-- that the first query gave for the secret, its row and the session are the store's, the secret's digests at that time still hold the row's, the session
-- and a predecessor's row are not over, it is before the time of rotation, and the row of a current secret is of
-- the active key.
pub record Authorized (authority : Authority) (store : Store) (id : String) (found : ResumeMatch)
    (now : ℕ) : Type 0 where
  pub matched :
      (asked_at : ℕ) × (given : List VersionedDigest) × (authority.initial_now ≡ ok asked_at)
      × (fresh_candidates authority asked_at ≡ ok given)
      × (find_resume_match given store ≡ some found)
  pub row_stored : Memᴰ found.row store.digests
  pub session_stored : Memᴰ found.session store.sessions
  pub joined : found.row.guest_session_id ≡ found.session.id
  pub session : found.session.id ≡ id
  pub clock : authority.locked_now ≡ ok now
  pub candidates : List VersionedDigest
  pub fresh : authority.candidates now ≡ some candidates
  pub no_tombstone : authority.tombstoned now ≡ false
  pub holds : Holds candidates found.row
  pub live : now < found.session.expires_at
  pub row_live :
      (found.row.slot ≡ Slot.current)
      ⊎ ((until : ℕ) × (found.row.valid_until ≡ some until) × (now < until))
  pub before_rotation : now < found.session.rotate_after
  pub active_key :
      (found.row.slot ≡ Slot.predecessor) ⊎ (found.row.key_version ≡ authority.active_version)

-- What is known of a committed answer.
pub record Committed (store : Store) (id : String) (command : CommandEnvelope)
    (payload_hash : String) (run : Execution) : Type 0 where
  pub canonical : CanonicalDecision
  pub ordered : sorted canonical.decision.response_payload ≡ true
  pub now : ℕ
  pub progress : Progress
  pub locked : lock_progress id store.progress ≡ some progress
  pub revision : progress.revision ≡ command.expected_revision
  pub store_is : run.store ≡ commit_store store id command payload_hash canonical now
  pub result_is : run.result ≡ committed_result command canonical

pub same_digest-eq : (a b : String) → same_digest a b ≡ true → a ≡ b
same_digest-eq a b h =
    last_of (is_sha256 a) (is_sha256 b) (str_eq a b) h (λ e. ground (arith, eq_iff a b))
  where
    last_of : (p q r : Bool) {A : Type 0} → (p && q && r) ≡ true → (r ≡ true → A) → A
    last_of p q r h f = f (ground arith)

digest_is :
    (hash : String) {digest : String} → digest_from_domain_hash hash ≡ ok digest → digest ≡ hash
digest_is hash h =
    let (_, same) = >>-eq-ok (guard (is_sha256 hash) _) _ h in sym (ok_injective same)

module _ (sha256_hex : String → String) where
  pub replay-Replayed :
      (store : Store) (id : String) (command : CommandEnvelope) (payload_hash : String)
      (stored : CommandReceipt) (now : ℕ) {run : Execution}
      → replay sha256_hex store id command payload_hash stored now ≡ ok run
      → Replayed store id stored now run
  unfolding replay
  replay-Replayed store id command payload_hash stored now h =
      let (_, h1) =
        >>-eq-ok (reject (receipt_differs command payload_hash stored) idempotency_payload_mismatch)
          _ h in
      let (_, h2) =
        >>-eq-ok (reject (leb stored.expires_at now) idempotency_receipt_expired) _ h1 in
      let (response, canonical, h3) = >>=-eq-ok (canonicalize stored.response_payload) _ h2 in
      let (hash, _, h4) =
        >>=-eq-ok (hash_persistence_response sha256_hex stored.response_schema_version response) _
          h3 in
      let (digest, digested, h5) = >>=-eq-ok (digest_from_domain_hash hash) _ h4 in
      let (agreed, h6) =
        >>-eq-ok (guard (same_digest digest stored.result_hash) receipt_integrity_failure) _ h5 in
      let same = same_digest-eq digest stored.result_hash (guard-eq-ok _ _ agreed) in
      let done = ok_injective h6 in
      rw (sym done) (record {
        store_is = refl;
        result_hash = sym same ∙ digest_is hash digested;
        committed_revision = refl;
        schema_version = refl;
        response = canonical;
        disposition = refl;
      })

  module _ (handler : Json → CommandEnvelope → Result Json) where
    pub commit-Committed :
        (authority : Authority) (store : Store) (found : ResumeMatch) (id : String)
        (command : CommandEnvelope) (payload_hash : String) {run : Execution}
        → commit sha256_hex handler authority store found id command payload_hash ≡ ok run
        → Committed store id command payload_hash run
    unfolding commit
    commit-Committed authority store found id command payload_hash h =
        let (progress, locked, h1) =
          >>=-eq-ok (from_option (lock_progress id store.progress) guest_progress_not_found) _ h in
        let (expected, h2) =
          >>-eq-ok (guard (progress.revision == command.expected_revision) revision_conflict) _
            h1 in
        let (checkpoint, _, h3) = >>=-eq-ok (canonicalize progress.checkpoint) _ h2 in
        let (raw, _, h4) = >>=-eq-ok (handler checkpoint command) _ h3 in
        let (canonical, decided, h5) = >>=-eq-ok (canonicalize_decision sha256_hex raw) _ h4 in
        let (now, _, h6) = >>=-eq-ok authority.write_now _ h5 in
        let (_, h7) = >>-eq-ok (assert_usable authority found now) _ h6 in
        let (_, h8) =
          >>-eq-ok
            (guard (count (is_current id command.expected_revision) store.progress == 1)
              revision_conflict)
            _ h7 in
        let (_, h9) =
          >>-eq-ok
            (reject
              (any
                (event_clashes
                  (event_row id canonical.decision (command.expected_revision + 1) now))
                store.events)
              uncoded_error)
            _ h8 in
        let (_, _, h10) = >>=-eq-ok (digest_from_domain_hash canonical.result_hash) _ h9 in
        let done = ok_injective h10 in
        rw (sym done) (record {
          canonical = canonical;
          ordered = canonicalize_decision-sorted sha256_hex raw decided;
          now = now;
          progress = progress;
          locked = from_option-some _ _ locked;
          revision = ==→eq progress.revision command.expected_revision (guard-eq-ok _ _ expected);
          store_is = refl;
          result_is = refl;
        })
