-- ===== src/Wallet.antt =====
-- packages/wallet-link/src/state-machine.ts: the reducer of the wallet link.
pub mod Laws
use samurai_sushi.Common.{
  ℕ, ◌+◌, Bool, true, false, not, ◌&&◌, ◌||◌, String, Option, none, some, str_eq, leb, ◌==◌,
  if◌then◌else◌,
}
use samurai_sushi.Json.Canonical.{max_safe_integer}

pub data LinkState : Type 0 where
  unlinked connecting permissioned linked_existing challenge_issued proof_pending linked : LinkState
  rejected cancelled expired stale disconnected revoked : LinkState

-- `Runtime` is the normalized wallet runtime, which the reducer only stores.
pub record Snapshot (Runtime : Type 0) : Type 0 where
  pub state : LinkState
  pub generation : ℕ
  pub session_revision : ℕ
  pub runtime : Option Runtime
  pub normalized_digest : Option String

pub data Event (Runtime : Type 0) : Type 0 where
  connect reload disconnect revoke : Event Runtime
  result :
      (generation expected_session_revision : ℕ) (state : LinkState) (runtime : Option Runtime)
      (normalized_digest : String)
      → Event Runtime
  runtime_changed :
      (generation expected_session_revision : ℕ) (runtime : Runtime) (normalized_digest : String)
      → Event Runtime

pub data LinkDisposition : Type 0 where
  apply duplicate stale contradiction : LinkDisposition

pub record LinkDecision (Runtime : Type 0) : Type 0 where
  pub disposition : LinkDisposition
  pub next : Snapshot Runtime

-- The messages of the `TypeError`s that the reducer throws.
pub data LinkError : Type 0 where
  coordinates_invalid generation_exhausted coordinates_exhausted revision_exhausted : LinkError

pub data LinkResult (Runtime : Type 0) : Type 0 where
  decided : LinkDecision Runtime → LinkResult Runtime
  thrown : LinkError → LinkResult Runtime

-- `event.normalizedDigest === current.normalizedDigest`.
abbrev digest_is : Option String → String → Bool
digest_is none digest = false
digest_is (some s) digest = str_eq digest s

abbrev has_digest : Option String → Bool
has_digest none = false
has_digest (some s) = true

module _ {Runtime : Type 0} where
  abbrev pub initial_snapshot : Snapshot Runtime
  initial_snapshot = record {
    state = unlinked;
    generation = 0;
    session_revision = 0;
    runtime = none;
    normalized_digest = none;
  }

  abbrev decide : LinkDisposition → Snapshot Runtime → LinkResult Runtime
  decide disposition next = decided (record { disposition = disposition; next = next })

  -- "CONNECT" and "RELOAD".
  abbrev reconnect : Snapshot Runtime → LinkState → LinkResult Runtime
  reconnect current state =
      if current.generation == max_safe_integer
      then thrown generation_exhausted
      else decide apply (record {
        state = state;
        generation = current.generation + 1;
        session_revision = current.session_revision;
        runtime = none;
        normalized_digest = none;
      })

  -- The end of the reducer, for an event that reports a state of the runtime.
  abbrev report :
      Snapshot Runtime → ℕ → ℕ → LinkState → Option Runtime → String → LinkResult Runtime
  report current generation expected state runtime digest =
      if not (generation == current.generation) || not (expected == current.session_revision)
      then decide LinkDisposition.stale current
      else if digest_is current.normalized_digest digest
      then decide duplicate current
      else if has_digest current.normalized_digest
      then decide contradiction current
      else if current.session_revision == max_safe_integer
      then thrown revision_exhausted
      else decide apply (record {
        state = state;
        generation = current.generation;
        session_revision = current.session_revision + 1;
        runtime = runtime;
        normalized_digest = some digest;
      })

  abbrev handle : Snapshot Runtime → Event Runtime → LinkResult Runtime
  handle current connect = reconnect current connecting
  handle current reload = reconnect current unlinked
  handle current disconnect =
      if current.generation == max_safe_integer || current.session_revision == max_safe_integer
      then thrown coordinates_exhausted
      else decide apply (record {
        state = disconnected;
        generation = current.generation + 1;
        session_revision = current.session_revision + 1;
        runtime = none;
        normalized_digest = none;
      })
  handle current revoke =
      if current.session_revision == max_safe_integer
      then thrown revision_exhausted
      else decide apply (record current {
        state = revoked;
        session_revision = current.session_revision + 1;
        runtime = none;
        normalized_digest = none;
      })
  handle current (result generation expected state runtime digest) =
      report current generation expected state runtime digest
  handle current (runtime_changed generation expected runtime digest) =
      report current generation expected LinkState.stale (some runtime) digest

  -- Coordinates are natural numbers here, so only the upper bound of `safe` is left.
  unfoldable pub reduce_wallet_link : Snapshot Runtime → Event Runtime → LinkResult Runtime
  reduce_wallet_link current event =
      if not (leb current.generation max_safe_integer)
        || not (leb current.session_revision max_safe_integer)
      then thrown coordinates_invalid
      else handle current event
