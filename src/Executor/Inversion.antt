-- ===== src/Executor/Inversion.antt =====
-- The stages of `GuestCommandExecutor.execute` of packages/persistence/src/command-executor.ts that a
-- returned result has passed.
use samurai_sushi.Common.{
  ℕ, ◌≡◌, refl, sym, ap, ◌∙◌, inl, inr, Bool, true, false, not, ◌&&◌, and-true, String, none, some,
  Option-cases, str_eq, eq_iff, Result, ok, >>=-eq-ok, >>-eq-ok, guard, guard-eq-ok, reject-eq-ok,
  from_option, from_option-some, List, reject, subst, command_authentication_failed,
  guest_rotation_required, ok_injective, arith,
}
use samurai_sushi.Json.{Json}
use samurai_sushi.Commands.{CommandEnvelope}
use samurai_sushi.Executor.{VersionedDigest, CommandReceipt, Store, Execution}
use samurai_sushi.Executor.Session.{
  Authority, ResumeMatch, fresh_candidates, find_resume_match, is_authenticated, is_expired,
  needs_rotation, assert_usable,
}
use samurai_sushi.Executor.Execute.{read_command, open_session, answer, execute}
use samurai_sushi.Executor.Rows.{digest_from_domain_hash, guest_of, is_receipt, find_receipt}
use samurai_sushi.Executor.Opened.{
  Found, find_match-Found, is_authenticated-Holds, live_session, no_rotation,
}
use samurai_sushi.Executor.Answered.{
  Authorized, Replayed, Committed, replay-Replayed, commit-Committed,
}

-- A result comes from the stored receipt, or from a first execution.
pub data Answered (store : Store) (id : String) (command : CommandEnvelope) (payload_hash : String)
    (run : Execution) : Type 0 where
  again :
      (stored : CommandReceipt) (now : ℕ)
      → find_receipt (is_receipt id command.idempotency_key) store.receipts ≡ some stored
      → Replayed store id stored now run
      → Answered store id command payload_hash run
  first :
      find_receipt (is_receipt id command.idempotency_key) store.receipts ≡ none
      → Committed store id command payload_hash run
      → Answered store id command payload_hash run

pub record Executed (sha256_hex : String → String) (authority : Authority) (input : Json)
    (store : Store) (run : Execution) : Type 0 where
  pub command : CommandEnvelope
  pub id : String
  pub payload_hash : String
  pub found : ResumeMatch
  pub now : ℕ
  pub read : read_command sha256_hex input ≡ ok command
  pub guest : guest_of command.subject ≡ ok id
  pub authorized : Authorized authority store id found now
  pub answered : Answered store id command payload_hash run

not-true : (b : Bool) → not b ≡ true → b ≡ false
not-true true h = cc
not-true false h = refl

-- The match of the first query, at the time of that query.
abbrev Matched : Authority → Store → ResumeMatch → Type 0
Matched authority store found =
    (asked_at : ℕ) × (given : List VersionedDigest) × (authority.initial_now ≡ ok asked_at)
    × (fresh_candidates authority asked_at ≡ ok given)
    × (find_resume_match given store ≡ some found)

find_resume_match-Found :
    (given : List VersionedDigest) (store : Store) {found : ResumeMatch}
    → find_resume_match given store ≡ some found
    → Found store.sessions store.digests found
unfolding find_resume_match
find_resume_match-Found given store h = find_match-Found given store.sessions store.digests h

opened :
    (authority : Authority) (store : Store) (id : String) {found : ResumeMatch}
    → open_session authority store id ≡ ok found
    → (found.session.id ≡ id) × Matched authority store found
unfolding open_session
opened authority store id {found} h =
    let (now, clock, h1) = >>=-eq-ok authority.initial_now _ h in
    let (candidates, fresh, h2) = >>=-eq-ok (fresh_candidates authority now) _ h1 in
    let (match, matched, h3) =
      >>=-eq-ok (from_option (find_resume_match candidates store) command_authentication_failed) _
        h2 in
    let (held, h4) =
      >>-eq-ok
        (guard (str_eq match.session.id id && is_authenticated candidates match)
          command_authentication_failed)
        _ h3 in
    let (named, _) =
      and-true (str_eq match.session.id id) (is_authenticated candidates match)
        (guard-eq-ok _ _ held) in
    let same : match.session.id ≡ id = ground (arith, eq_iff match.session.id id) in
    (
      ap (λ (m : ResumeMatch). m.session.id) (sym (ok_injective h4)) ∙ same,
      subst (Matched authority store) (ok_injective h4)
          (now, candidates, clock, fresh, from_option-some _ _ matched),
    )

fresh_candidates-eq :
    (authority : Authority) (now : ℕ) {candidates : List VersionedDigest}
    → fresh_candidates authority now ≡ ok candidates
    → (authority.candidates now ≡ some candidates) × (authority.tombstoned now ≡ false)
fresh_candidates-eq authority now h =
    let (given, offered, h1) =
      >>=-eq-ok (from_option (authority.candidates now) command_authentication_failed) _ h in
    let (alive, h2) =
      >>-eq-ok (reject (authority.tombstoned now) command_authentication_failed) _ h1 in
    (
      from_option-some _ _ offered ∙ ap some (ok_injective h2),
      reject-eq-ok (authority.tombstoned now) command_authentication_failed alive,
    )

usable-Authorized :
    (authority : Authority) (store : Store) (id : String) (found : ResumeMatch) (now : ℕ)
    → (found.session.id ≡ id) × Matched authority store found
    → authority.locked_now ≡ ok now
    → assert_usable authority found now ≡ ok tt
    → Authorized authority store id found now
unfolding assert_usable
usable-Authorized authority store id found now
      (named, (asked_at, given, first_clock, offered_first, matched)) clock h =
    let stored = find_resume_match-Found given store matched in
    let (candidates, fresh, h1) = >>=-eq-ok (fresh_candidates authority now) _ h in
    let (held, h2) =
      >>-eq-ok
        (guard (is_authenticated candidates found && not (is_expired found now))
          command_authentication_failed)
        _ h1 in
    let (authentic, unexpired) =
      and-true (is_authenticated candidates found) (not (is_expired found now))
        (guard-eq-ok _ _ held) in
    let (offered, untombed) = fresh_candidates-eq authority now fresh in
    let (live, row_live) = live_session found now (not-true (is_expired found now) unexpired) in
    let (early, keyed) =
      no_rotation authority found now
        (reject-eq-ok (needs_rotation authority found now) guest_rotation_required h2) in
    record {
      matched = (asked_at, given, first_clock, offered_first, matched);
      row_stored = stored.row_stored;
      session_stored = stored.session_stored;
      joined = stored.joined;
      session = named;
      clock = clock;
      candidates = candidates;
      fresh = offered;
      no_tombstone = untombed;
      holds = is_authenticated-Holds candidates found authentic;
      live = live;
      row_live = row_live;
      before_rotation = early;
      active_key = keyed;
    }

module _ (sha256_hex : String → String) (handler : Json → CommandEnvelope → Result Json) where
  answer-Answered :
      (authority : Authority) (store : Store) (found : ResumeMatch) (id : String)
      (command : CommandEnvelope) (payload_hash : String) (now : ℕ) {run : Execution}
      → answer sha256_hex handler authority store found id command payload_hash now
          (find_receipt (is_receipt id command.idempotency_key) store.receipts)
        ≡ ok run
      → Answered store id command payload_hash run
  answer-Answered authority store found id command payload_hash now {run} h =
      let look = find_receipt (is_receipt id command.idempotency_key) store.receipts in
      let by = answer sha256_hex handler authority store found id command payload_hash now in
      elim (Option-cases look) [
        | inl missing ↦ first missing (
            commit-Committed sha256_hex handler authority store found id command payload_hash
              (sym (ap by missing) ∙ h))
        | inr (stored, there) ↦ again stored now there (
            replay-Replayed sha256_hex store id command payload_hash stored now
              (sym (ap by there) ∙ h))
      ]

  -- Every result that the executor returns is for a command that validates, of the guest of a stored session: a
  -- stored row of that session has the digest of the secret under its key, the secret is not tombstoned, and at
  -- the time of the lock neither the session nor a predecessor's row is over, the time of rotation is not
  -- reached, and a current row is of the active key. The result is the answer of the receipt that is stored for
  -- the command's key, or else of a first execution on the revision that the command expects.
  pub execute-Executed :
      (authority : Authority) (input : Json) (store : Store) {run : Execution}
      → execute sha256_hex handler authority input store ≡ ok run
      → Executed sha256_hex authority input store run
  unfolding execute
  execute-Executed authority input store h =
      let (command, read, h1) = >>=-eq-ok (read_command sha256_hex input) _ h in
      let (id, guest, h2) = >>=-eq-ok (guest_of command.subject) _ h1 in
      let (payload_hash, _, h3) = >>=-eq-ok (digest_from_domain_hash command.payload_hash) _ h2 in
      let (found, open_ok, h4) = >>=-eq-ok (open_session authority store id) _ h3 in
      let (now, clock, h5) = >>=-eq-ok authority.locked_now _ h4 in
      let (used, h6) = >>-eq-ok (assert_usable authority found now) _ h5 in
      record {
        command = command;
        id = id;
        payload_hash = payload_hash;
        found = found;
        now = now;
        read = read;
        guest = guest;
        authorized =
            usable-Authorized authority store id found now (opened authority store id open_ok) clock
              used;
        answered = answer-Answered authority store found id command payload_hash now h6;
      }
