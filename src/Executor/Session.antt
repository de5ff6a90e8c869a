-- ===== src/Executor/Session.antt =====
-- packages/persistence/src/command-executor.ts and repositories.ts: how the resume secret of a command is
-- matched with a session, and whether the session may be used at a time.
use samurai_sushi.Common.{
  ℕ, Bool, true, false, not, ◌&&◌, ◌||◌, String, Option, none, some, List, [], ◌∷◌, any, leb, ◌==◌,
  str_eq, Result, ok, ◌>>=◌, ◌>>◌, guard, reject, from_option, command_authentication_failed,
  guest_rotation_required, if◌then◌else◌,
}
use samurai_sushi.Commands.Patterns.{is_sha256}
use samurai_sushi.Executor.{
  Slot, current, predecessor, VersionedDigest, DigestRow, SessionRow, Store,
}

-- What the persistence authority answers in one transaction: the readiness and the clock at its three calls,
-- the digests of the secret by time (`none` where the secret is malformed), and whether it is tombstoned.
pub record Authority : Type 0 where
  pub initial_now : Result ℕ
  pub locked_now : Result ℕ
  pub write_now : Result ℕ
  pub candidates : ℕ → Option (List VersionedDigest)
  pub tombstoned : ℕ → Bool
  pub active_version : ℕ

-- `ResumeMatch`.
pub record ResumeMatch : Type 0 where
  pub session : SessionRow
  pub row : DigestRow

-- The bytes of a hash are 32; the text of a hash has them in hexadecimal.
abbrev pub same_digest : String → String → Bool
same_digest left right = is_sha256 left && is_sha256 right && str_eq left right

abbrev pub same_key : VersionedDigest → DigestRow → Bool
same_key candidate row =
    candidate.key_version == row.key_version && str_eq candidate.key_identity row.key_identity

abbrev pub matches_candidate : List VersionedDigest → DigestRow → Bool
matches_candidate candidates row =
    any (λ c. same_key c row && str_eq c.digest row.digest) candidates

abbrev pub session_of : String → List SessionRow → Option SessionRow
session_of id [] = none
session_of id (s ∷ ss) = if str_eq s.id id then some s else session_of id ss

abbrev pub join_session : DigestRow → Option SessionRow → Option ResumeMatch
join_session row none = none
join_session row (some session) = some (record { session = session; row = row })

-- The first row of the join that the query gives.
abbrev pub find_match : List VersionedDigest → List SessionRow → List DigestRow → Option ResumeMatch
find_match candidates sessions [] = none
find_match candidates sessions (row ∷ rows) =
    let rest = find_match candidates sessions rows in
    if matches_candidate candidates row
    then elim (join_session row (session_of row.guest_session_id sessions)) [
      | none ↦ rest
      | some found ↦ some found
    ]
    else rest

-- `findResumeMatchForUpdate`.
unfoldable pub find_resume_match : List VersionedDigest → Store → Option ResumeMatch
find_resume_match candidates store = find_match candidates store.sessions store.digests

-- The digests of the secret at a time, unless it is malformed or tombstoned.
abbrev pub fresh_candidates : Authority → ℕ → Result (List VersionedDigest)
fresh_candidates authority now = do
  candidates ← from_option (authority.candidates now) command_authentication_failed
  reject (authority.tombstoned now) command_authentication_failed
  ok candidates

abbrev pub candidate_for : List VersionedDigest → DigestRow → Option VersionedDigest
candidate_for [] row = none
candidate_for (c ∷ cs) row = if same_key c row then some c else candidate_for cs row

abbrev pub holds_digest : DigestRow → Option VersionedDigest → Bool
holds_digest row none = false
holds_digest row (some c) = same_digest c.digest row.digest

-- A candidate has the key of the row, and its digest.
unfoldable pub is_authenticated : List VersionedDigest → ResumeMatch → Bool
unfolding is_sha256
is_authenticated candidates found = holds_digest found.row (candidate_for candidates found.row)

abbrev pub is_predecessor : Slot → Bool
is_predecessor current = false
is_predecessor predecessor = true

abbrev pub is_over : Option ℕ → ℕ → Bool
is_over none now = true
is_over (some t) now = leb t now

abbrev pub is_expired : ResumeMatch → ℕ → Bool
is_expired found now =
    leb found.session.expires_at now
    || (is_predecessor found.row.slot && is_over found.row.valid_until now)

abbrev pub needs_rotation : Authority → ResumeMatch → ℕ → Bool
needs_rotation authority found now =
    leb found.session.rotate_after now
    || (not (is_predecessor found.row.slot)
        && not (found.row.key_version == authority.active_version))

-- The session may be used at a time, with the secret's digests at that time.
unfoldable pub assert_usable : Authority → ResumeMatch → ℕ → Result (Unit {0})
unfolding is_authenticated
assert_usable authority found now = do
  candidates ← fresh_candidates authority now
  guard (is_authenticated candidates found && not (is_expired found now))
      command_authentication_failed
  reject (needs_rotation authority found now) guest_rotation_required
