-- ===== src/Network/Policy.antt =====
-- packages/network/src/policy.ts: the validation of a network environment.
use samurai_sushi.Common.{
  Bool, true, false, not, ◌&&◌, ◌||◌, String, Option, none, some, List, [], ◌∷◌, any, str_eq,
  Result, ok, err, ◌>>=◌, ◌>>◌, reject, from_option, network_value_missing, network_unknown,
  mainnet_forbidden, network_profile_mismatch, localnet_rpc_forbidden, localnet_chain_mismatch,
  localnet_indexer_forbidden, shadownet_rpc_mismatch, shadownet_chain_mismatch,
  shadownet_indexer_mismatch, browser_secret_exposure, if◌then◌else◌,
}
use samurai_sushi.Json.Text.{◌+++◌}
use samurai_sushi.Commands.Patterns.{codes}
use samurai_sushi.Network.Environment.{
  NetworkEnvironment, lookup, blank_value, trimmed, strip_slash, lower_codes, same_codes,
  is_public_secret,
}

pub data NetworkName : Type 0 where
  localnet shadownet : NetworkName

pub record NetworkProfile : Type 0 where
  pub network : NetworkName
  pub rpc_url : String
  pub chain_id : String
  pub indexer_url : String
  pub indexer_available : Bool
  pub indexer_reason : Option String

-- The fields of a `URL` that the code reads.
pub record Url : Type 0 where
  pub href : String
  pub hostname : String

abbrev pub localnet_profile : NetworkProfile
localnet_profile = record {
  network = localnet;
  rpc_url = "http://127.0.0.1:8732";
  chain_id = "NetXtJqPyJGB6Pc";
  indexer_url = "";
  indexer_available = false;
  indexer_reason = some "LOCALNET_NO_INDEXER";
}

abbrev pub shadownet_profile : NetworkProfile
shadownet_profile = record {
  network = shadownet;
  rpc_url = "https://rpc.shadownet.teztnets.com";
  chain_id = "NetXsqzbfFenSTS";
  indexer_url = "https://api.shadownet.tzkt.io";
  indexer_available = true;
  indexer_reason = none;
}

abbrev pub network_keys : List String
network_keys = "NETWORK" ∷ "RPC_URL" ∷ "CHAIN_ID" ∷ "INDEXER_URL" ∷ []

abbrev pub secret_words : List String
secret_words = "PRIVATE" ∷ "SECRET" ∷ "MNEMONIC" ∷ "SIGNER" ∷ "SK" ∷ "KEY" ∷ []

abbrev pub normalized_optional : NetworkEnvironment → String → String
normalized_optional environment key = trimmed (lookup environment key)

abbrev pub required : NetworkEnvironment → String → Result String
required environment key =
    let value = normalized_optional environment key in
    reject (str_eq value "") network_value_missing >> ok value

-- The browser's value of a key differs from the server's.
abbrev pub differs : NetworkEnvironment → String → Bool
differs environment key = not (
    str_eq (normalized_optional environment ("TEZOS_" +++ key))
      (normalized_optional environment ("NEXT_PUBLIC_TEZOS_" +++ key)))

unfoldable pub parity_broken : NetworkEnvironment → Bool
parity_broken environment = any (differs environment) network_keys

unfoldable pub exposes_secret : NetworkEnvironment → Bool
exposes_secret environment =
    any (λ e. is_public_secret secret_words e.0 && not (blank_value e.1)) environment

-- A text against a lower-case name.
abbrev named : String → String → Bool
named s name = same_codes (lower_codes (codes s)) (codes name)

abbrev match_localnet : Url → String → String → Result NetworkProfile
match_localnet rpc chain_id indexer =
    reject
      (not (str_eq (strip_slash rpc.href) "http://127.0.0.1:8732")
        || not (str_eq rpc.hostname "127.0.0.1"))
      localnet_rpc_forbidden
    >> reject (not (str_eq chain_id "NetXtJqPyJGB6Pc")) localnet_chain_mismatch
    >> reject (not (str_eq indexer "")) localnet_indexer_forbidden
    >> ok (record localnet_profile { chain_id = chain_id })

abbrev match_shadownet : Url → String → String → Result NetworkProfile
match_shadownet rpc chain_id indexer =
    reject (not (str_eq (strip_slash rpc.href) "https://rpc.shadownet.teztnets.com"))
      shadownet_rpc_mismatch
    >> reject (not (str_eq chain_id "NetXsqzbfFenSTS")) shadownet_chain_mismatch
    >> reject (not (str_eq (strip_slash indexer) "https://api.shadownet.tzkt.io"))
        shadownet_indexer_mismatch
    >> ok (record shadownet_profile { chain_id = chain_id })

unfoldable pub read_network : String → Result NetworkName
read_network value =
    if named value "mainnet"
    then err mainnet_forbidden
    else if named value "localnet"
    then ok localnet
    else if named value "shadownet"
    then ok shadownet
    else err network_unknown

unfoldable pub match_profile : NetworkName → Url → String → String → Result NetworkProfile
match_profile localnet rpc chain_id indexer = match_localnet rpc chain_id indexer
match_profile shadownet rpc chain_id indexer = match_shadownet rpc chain_id indexer

-- `new_url` is the platform's URL parser, `none` where it throws.
module _ (new_url : String → Option Url) where
  unfoldable pub validate_network_environment : NetworkEnvironment → Result NetworkProfile
  validate_network_environment environment =
      reject (exposes_secret environment) browser_secret_exposure
      >> reject (parity_broken environment) network_profile_mismatch
      >> required environment "TEZOS_NETWORK"
      >>= λ value. read_network value >>= λ network.
          required environment "TEZOS_RPC_URL" >>= λ rpc_text.
          from_option (new_url rpc_text) network_profile_mismatch >>= λ rpc.
          required environment "TEZOS_CHAIN_ID" >>= λ chain_id.
          match_profile network rpc chain_id (normalized_optional environment "TEZOS_INDEXER_URL")
