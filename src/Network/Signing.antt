-- ===== src/Network/Signing.antt =====
-- packages/network/src/signing-policy.ts: the environment that a signing child gets.
use samurai_sushi.Common.{
  Bool, true, false, not, ◌&&◌, ◌||◌, String, Option, none, some, List, [], ◌∷◌, any, str_eq,
  Result, ok, ◌>>=◌, ◌>>◌, reject, guard, credential_profile_mismatch, all, length, ◌==◌,
  if◌then◌else◌,
}
use samurai_sushi.Commands.Patterns.{codes, is_hex}
use samurai_sushi.Network.Environment.{
  NetworkEnvironment, lookup, blank_value, trim, trimmed, starts_with, is_public_secret,
  includes_text, without_prefix, with_prefix,
}
use samurai_sushi.Network.Policy.{NetworkName, localnet, shadownet}

abbrev pub local_prefix : String
local_prefix = "SAMURAI_LOCALNET_SIGNER_"

abbrev pub shadow_prefix : String
shadow_prefix = "SAMURAI_SHADOWNET_SIGNER_"

abbrev pub active_prefix : String
active_prefix = "SAMURAI_SIGNER_"

abbrev signing_words : List String
signing_words = "PRIVATE" ∷ "SECRET" ∷ "MNEMONIC" ∷ "SIGNER" ∷ "SEED" ∷ "KEY" ∷ []

abbrev sandbox_key_fragments : List String
sandbox_key_fragments = "edsk3QoqBuvdamxou" ∷ "edsk3RFfvaFaxbHx8" ∷ []

abbrev pub own_prefix : NetworkName → String
own_prefix localnet = local_prefix
own_prefix shadownet = shadow_prefix

abbrev pub forbidden_prefix : NetworkName → String
forbidden_prefix localnet = shadow_prefix
forbidden_prefix shadownet = local_prefix

abbrev is_shadownet : NetworkName → Bool
is_shadownet localnet = false
is_shadownet shadownet = true

-- The value carries a key of the local sandbox.
abbrev has_fixture : String → Bool
has_fixture value = any (λ fragment. includes_text (trim value) fragment) sandbox_key_fragments

-- Why a key and its value stop the command.
unfoldable pub is_forbidden : NetworkName → String → String → Bool
is_forbidden network key value =
    not (blank_value value)
    && (is_public_secret signing_words key
        || starts_with key active_prefix
        || starts_with key (forbidden_prefix network)
        || (is_shadownet network
            && (starts_with key (own_prefix network) || starts_with key active_prefix)
            && has_fixture value))

abbrev pub is_signing_key : String → Bool
is_signing_key key =
    starts_with key local_prefix || starts_with key shadow_prefix || starts_with key active_prefix

-- The keys that are left after the deletions.
abbrev pub without_signing : NetworkEnvironment → NetworkEnvironment
without_signing [] = []
without_signing ((key, value) ∷ rest) =
    let others = without_signing rest in
    if is_signing_key key then others else (key, value) ∷ others

-- `sanitized[key] = value`.
abbrev pub assign : NetworkEnvironment → String → String → NetworkEnvironment
assign [] key value = (key, value) ∷ []
assign ((k, v) ∷ rest) key value =
    let others = assign rest key value in
    if str_eq k key then (k, value) ∷ rest else (k, v) ∷ others

abbrev pub assign_suffix : NetworkEnvironment → Option String → String → NetworkEnvironment
assign_suffix sanitized none value = sanitized
assign_suffix sanitized (some suffix) value =
    if blank_value value
    then sanitized
    else assign sanitized (with_prefix active_prefix suffix) value

-- The active keys under their child-only names.
abbrev pub rename_active : String → NetworkEnvironment → NetworkEnvironment → NetworkEnvironment
rename_active prefix [] sanitized = sanitized
rename_active prefix ((key, value) ∷ rest) sanitized =
    rename_active prefix rest (assign_suffix sanitized (without_prefix prefix key) value)

unfoldable pub sanitize_signing_environment :
    NetworkName → NetworkEnvironment → Result NetworkEnvironment
sanitize_signing_environment network environment =
    reject (any (λ e. is_forbidden network e.0 e.1) environment) credential_profile_mismatch
    >> ok (rename_active (own_prefix network) environment (without_signing environment))

unfoldable pub validate_signing_environment : NetworkName → NetworkEnvironment → Result (Unit {0})
validate_signing_environment network environment =
    sanitize_signing_environment network environment >>= λ _. ok tt

unfoldable pub runtime_revision_from_environment : NetworkEnvironment → Result String
runtime_revision_from_environment environment =
    let revision = trimmed (lookup environment "SAMURAI_TEZOS_RUNTIME_REVISION") in
    guard (length (codes revision) == 40 && all is_hex (codes revision)) credential_profile_mismatch
    >> ok revision
