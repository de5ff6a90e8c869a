-- ===== src/Examples/Parts.antt =====
-- The values, the packed numbers, the life of an operation, the wallet link and the network at
-- concrete inputs.
use samurai_sushi.Common.{
  ℕ, ◌+◌, ◌≤◌, ◌<◌, ◌≡◌, refl, ◌⊎◌, ◌↔◌, true, ◌&&◌, String, Option, none, some, [], ◌∷◌, ◌++◌, leb,
  ok, ◌≢◌,
}
use samurai_sushi.Json.{Json, nat, num, str, obj, end, field}
use samurai_sushi.Json.Bounds.{walk}
use samurai_sushi.Json.WalkLaws.{walk_iff, node_count, fits_at}
use samurai_sushi.Json.Unicode.{assert_valid_unicode, IsWellFormed, EndsHigh}
use samurai_sushi.Json.UnicodeLaws.{assert_valid_unicode_iff}
use samurai_sushi.Json.Canonical.{canonicalize, max_safe_integer}
use samurai_sushi.Json.Sorted.{sorted}
use samurai_sushi.Receipt.Pack.Numbers.{
  zarith_natural, zarith_rest, u32, read_zarith, read_zarith-zarith_natural,
}
use samurai_sushi.Receipt.Lifecycle.{
  IntentState, AttemptState, assert_intent_transition, assert_attempt_transition,
}
use samurai_sushi.Receipt.Lifecycle.Paths.{
  IntentPath, is_signed, visits_confirmed, signed_stays, finalized_was_confirmed, tables_agree,
}
use samurai_sushi.Wallet.{
  LinkState, LinkDisposition, Snapshot, apply, result, decided, initial_snapshot,
  reduce_wallet_link,
}
use samurai_sushi.Wallet.Laws.{coordinates_advance, applied_once}
use samurai_sushi.Network.Environment.{
  NetworkEnvironment, trim, strip_slash, is_public_secret, includes_text, starts_with,
}
use samurai_sushi.Network.Policy.{
  Url, localnet, localnet_profile, exposes_secret, parity_broken, read_network, match_profile,
  validate_network_environment,
}
use samurai_sushi.Network.Signing.{is_forbidden, sanitize_signing_environment}
use samurai_sushi.Network.Laws.{Pinned, validate_network_environment-Pinned}

abbrev small : Json
small = obj (field "a" (num (nat 1)) (field "b" (str "x") end))

walk_iff_example : walk 4096 ((small, 0) ∷ []) ≡ (leb (node_count small) 4096 && fits_at 0 small)
walk_iff_example = walk_iff small

assert_valid_unicode_iff_example :
    (assert_valid_unicode (97 ∷ 0xd800 ∷ []) ≡ ok tt)
    ↔ (IsWellFormed (97 ∷ 0xd800 ∷ []) ⊎ EndsHigh (97 ∷ 0xd800 ∷ []))
assert_valid_unicode_iff_example = assert_valid_unicode_iff (97 ∷ 0xd800 ∷ [])

small_in_order : sorted small ≡ true
unfolding sorted
small_in_order = refl

small_accepted : canonicalize small ≡ ok small
unfolding canonicalize assert_valid_unicode
small_accepted = refl

read_zarith-zarith_natural_example : read_zarith (zarith_natural 300 ++ 7 ∷ []) ≡ some (300, 7 ∷ [])
read_zarith-zarith_natural_example = read_zarith-zarith_natural 300 (7 ∷ [])

zarith_natural_test : zarith_natural 300 ≡ 172 ∷ 4 ∷ []
unfolding zarith_natural zarith_rest
zarith_natural_test = refl

u32_test : u32 258 ≡ some (0 ∷ 0 ∷ 1 ∷ 2 ∷ [])
unfolding u32
u32_test = refl

into_chain : IntentPath IntentState.submitted IntentState.finalized
unfolding assert_intent_transition
into_chain = IntentPath.next {t = IntentState.included} refl (
    IntentPath.next {t = IntentState.confirmed} refl
      (IntentPath.next {t = IntentState.finalized} refl IntentPath.here))

signed_stays_example : is_signed IntentState.finalized ≡ true
signed_stays_example = signed_stays into_chain refl

not_finalized : IntentState.submitted ≢ IntentState.finalized
not_finalized h = cc

finalized_was_confirmed_example : visits_confirmed into_chain ≡ true
finalized_was_confirmed_example = finalized_was_confirmed into_chain not_finalized refl

tables_agree_example :
    (assert_attempt_transition AttemptState.submitted AttemptState.included ≡ none)
    ↔ (assert_intent_transition IntentState.submitted IntentState.included ≡ none)
tables_agree_example = tables_agree AttemptState.submitted AttemptState.included refl refl

abbrev connecting_snapshot : Snapshot ℕ
connecting_snapshot = record initial_snapshot { state = LinkState.connecting; generation = 1 }

abbrev linked_snapshot : Snapshot ℕ
linked_snapshot = record {
  state = LinkState.linked;
  generation = 1;
  session_revision = 1;
  runtime = some 4;
  normalized_digest = some "digest";
}

linked_by_result :
    reduce_wallet_link connecting_snapshot (result 1 0 LinkState.linked (some 4) "digest")
    ≡ decided (record { disposition = apply; next = linked_snapshot })
unfolding reduce_wallet_link
linked_by_result = refl

coordinates_advance_example :
    (1 ≤ 1)
    × (0 ≤ 1)
    × (1 ≤ max_safe_integer)
    × (1 ≤ max_safe_integer)
    × (((apply ≡ apply) × (1 + 0 < 1 + 1)) ⊎ (linked_snapshot ≡ connecting_snapshot))
coordinates_advance_example =
    coordinates_advance connecting_snapshot (result 1 0 LinkState.linked (some 4) "digest")
      linked_by_result

applied_once_example :
    reduce_wallet_link linked_snapshot (result 1 0 LinkState.linked (some 4) "digest")
    ≡ decided (record { disposition = LinkDisposition.stale; next = linked_snapshot })
applied_once_example =
    applied_once connecting_snapshot 1 0 LinkState.linked (some 4) "digest" linked_by_result refl

abbrev local_environment : NetworkEnvironment
local_environment =
    ("TEZOS_NETWORK", " LocalNet ")
    ∷ ("NEXT_PUBLIC_TEZOS_NETWORK", "LocalNet")
    ∷ ("TEZOS_RPC_URL", "http://127.0.0.1:8732")
    ∷ ("NEXT_PUBLIC_TEZOS_RPC_URL", "http://127.0.0.1:8732")
    ∷ ("TEZOS_CHAIN_ID", "NetXtJqPyJGB6Pc")
    ∷ ("NEXT_PUBLIC_TEZOS_CHAIN_ID", "NetXtJqPyJGB6Pc")
    ∷ []

abbrev local_url : String → Option Url
local_url text = some (record { href = "http://127.0.0.1:8732/"; hostname = "127.0.0.1" })

local_validated : validate_network_environment local_url local_environment ≡ ok localnet_profile
unfolding validate_network_environment read_network match_profile exposes_secret parity_broken trim
    strip_slash is_public_secret
local_validated = refl

validate_network_environment-Pinned_example : Pinned local_url local_environment localnet_profile
validate_network_environment-Pinned_example =
    validate_network_environment-Pinned local_url local_environment local_validated

abbrev signing_environment : NetworkEnvironment
signing_environment = ("PATH", "/bin") ∷ ("SAMURAI_LOCALNET_SIGNER_SK", "edsk1") ∷ []

abbrev child_environment : NetworkEnvironment
child_environment = ("PATH", "/bin") ∷ ("SAMURAI_SIGNER_SK", "edsk1") ∷ []

local_sanitized : sanitize_signing_environment localnet signing_environment ≡ ok child_environment
unfolding sanitize_signing_environment is_forbidden trim is_public_secret includes_text starts_with
local_sanitized = refl
