-- ===== src/Wallet/Laws.antt =====
-- What the wallet link's reducer guarantees.
use samurai_sushi.Common.{ℕ, String, Option, ◌+◌, ◌≤◌, ◌<◌, ◌≡◌, ◌⊎◌, arith}
use samurai_sushi.Json.Canonical.{max_safe_integer}
use samurai_sushi.Wallet.{
  Snapshot, Event, result, LinkState, LinkDisposition, apply, LinkDecision, decided,
  reduce_wallet_link,
}

module _ {Runtime : Type 0} (current : Snapshot Runtime) (event : Event Runtime)
    {d : LinkDecision Runtime} where
  -- Coordinates never go back, and an applied event moves at least one of them on; both stay safe
  -- integers. Any other disposition leaves the snapshot as it was.
  pub coordinates_advance :
      reduce_wallet_link current event ≡ decided d
      → (current.generation ≤ d.next.generation)
        × (current.session_revision ≤ d.next.session_revision)
        × (d.next.generation ≤ max_safe_integer)
        × (d.next.session_revision ≤ max_safe_integer)
        × (((d.disposition ≡ apply)
              × (current.generation + current.session_revision
                  < d.next.generation + d.next.session_revision))
            ⊎ (d.next ≡ current))
  unfolding reduce_wallet_link
  coordinates_advance h = ground arith

module _ {Runtime : Type 0} (current : Snapshot Runtime) where
  -- A result that was applied is stale when it comes again, and changes nothing.
  pub applied_once :
      (generation revision : ℕ) (reported : LinkState) (runtime : Option Runtime) (digest : String)
      {d : LinkDecision Runtime}
      → reduce_wallet_link current (result generation revision reported runtime digest) ≡ decided d
      → d.disposition ≡ apply
      → reduce_wallet_link d.next (result generation revision reported runtime digest)
        ≡ decided (record { disposition = LinkDisposition.stale; next = d.next })
  unfolding reduce_wallet_link
  applied_once generation revision reported runtime digest h applied = ground arith
