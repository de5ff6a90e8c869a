-- ===== src/Network/Laws.antt =====
-- What a validated network environment and a sanitized signing environment guarantee.
use mathlib.Core.Path.{subst}
use mathlib.Core.List.{Memᴰ}
use samurai_sushi.Common.{
  ◌≡◌, refl, ◌⊎◌, inl, inr, Bool, true, false, not, String, Option, none, some, [], ◌∷◌, all, any,
  Bool-cases, and-true, str_eq, eq_iff, Result, FailureCode, sym, ap, ◌∙◌, ◌||◌,
  browser_secret_exposure, network_profile_mismatch, from_option, from_option-some, ok, ◌&&◌, ◌>>◌,
  >>=-eq-ok, reject, arith,
}
use samurai_sushi.Network.Environment.{
  NetworkEnvironment, starts_with, with_prefix, without_prefix, blank_value, strip_slash,
  is_public_secret,
}
use samurai_sushi.Network.Policy.{
  localnet, shadownet, normalized_optional, NetworkName, NetworkProfile, Url, localnet_profile,
  shadownet_profile, match_profile, exposes_secret, parity_broken, validate_network_environment,
  required, read_network, secret_words, differs,
}
use samurai_sushi.Json.Text.{◌+++◌}
use samurai_sushi.Network.Signing.{
  is_forbidden, assign_suffix, is_signing_key, own_prefix, active_prefix, without_signing, assign,
  rename_active, local_prefix, shadow_prefix, sanitize_signing_environment,
}

past_pins :
    {A : Type 0} (a b c : Bool) (e f g : FailureCode) {x y : A}
    → (reject a e >> reject b f >> reject c g >> ok x) ≡ ok y
    → (a ≡ false) × (b ≡ false) × (c ≡ false) × (x ≡ y)
past_pins a b c e f g h = ground arith

past_exposure :
    {A : Type 0} (a b : Bool) (e f : FailureCode) (k : Result A) {x : A}
    → (reject a e >> reject b f >> k) ≡ ok x
    → (a ≡ false) × (b ≡ false) × (k ≡ ok x)
past_exposure a b e f k h = ground arith

both_same : (s t u v : String) → (not (str_eq s t) || not (str_eq u v)) ≡ false → (s ≡ t) × (u ≡ v)
both_same s t u v h = ground (arith, eq_iff s t, eq_iff u v)

or-false : (a b : Bool) → (a || b) ≡ false → (a ≡ false) × (b ≡ false)
or-false a b h = ground arith

past_refusal :
    {A : Type 0} (a : Bool) (e : FailureCode) {x y : A}
    → (reject a e >> ok x) ≡ ok y
    → (a ≡ false) × (x ≡ y)
past_refusal a e h = ground arith

same_text : (s t : String) → not (str_eq s t) ≡ false → s ≡ t
same_text s t h = ground (arith, eq_iff s t)

-- The profile is one of the two, and the URL, the chain and the indexer are its own.
record Matched (rpc : Url) (chain_id indexer : String) (p : NetworkProfile) : Type 0 where
  profile : ((p ≡ localnet_profile) × (rpc.hostname ≡ "127.0.0.1")) ⊎ (p ≡ shadownet_profile)
  rpc_pinned : strip_slash rpc.href ≡ p.rpc_url
  chain_pinned : chain_id ≡ p.chain_id
  indexer_pinned : strip_slash indexer ≡ p.indexer_url

matched :
    (network : NetworkName) (rpc : Url) (chain_id indexer : String) {p : NetworkProfile}
    → match_profile network rpc chain_id indexer ≡ ok p
    → (network ≡ p.network) × Matched rpc chain_id indexer p
unfolding match_profile strip_slash
matched localnet rpc chain_id indexer h =
    let (at, chained, bare, same) = past_pins _ _ _ _ _ _ h in
    let (href, host) =
      both_same (strip_slash rpc.href) "http://127.0.0.1:8732" rpc.hostname "127.0.0.1" at in
    let chain = same_text chain_id "NetXtJqPyJGB6Pc" chained in
    let p_is = sym same ∙ ap (λ c. record localnet_profile { chain_id = c }) chain in
    (
      ap (λ (q : NetworkProfile). q.network) (sym p_is),
      record {
        profile = inl (p_is, host);
        rpc_pinned = href ∙ ap (λ (q : NetworkProfile). q.rpc_url) (sym p_is);
        chain_pinned = chain ∙ ap (λ (q : NetworkProfile). q.chain_id) (sym p_is);
        indexer_pinned =
            ap strip_slash (same_text indexer "" bare)
            ∙ ap (λ (q : NetworkProfile). q.indexer_url) (sym p_is);
      },
    )
matched shadownet rpc chain_id indexer h =
    let (at, chained, indexed, same) = past_pins _ _ _ _ _ _ h in
    let chain = same_text chain_id "NetXsqzbfFenSTS" chained in
    let p_is = sym same ∙ ap (λ c. record shadownet_profile { chain_id = c }) chain in
    (
      ap (λ (q : NetworkProfile). q.network) (sym p_is),
      record {
        profile = inr p_is;
        rpc_pinned =
            same_text (strip_slash rpc.href) "https://rpc.shadownet.teztnets.com" at
            ∙ ap (λ (q : NetworkProfile). q.rpc_url) (sym p_is);
        chain_pinned = chain ∙ ap (λ (q : NetworkProfile). q.chain_id) (sym p_is);
        indexer_pinned =
            same_text (strip_slash indexer) "https://api.shadownet.tzkt.io" indexed
            ∙ ap (λ (q : NetworkProfile). q.indexer_url) (sym p_is);
      },
    )

required-eq :
    (environment : NetworkEnvironment) (key : String) {value : String}
    → required environment key ≡ ok value
    → normalized_optional environment key ≡ value
required-eq environment key h =
    let (_, same) = past_refusal (str_eq (normalized_optional environment key) "") _ h in same

no_differs :
    (a b c d : Bool)
    → (a || (b || (c || (d || false)))) ≡ false
    → (a ≡ false) × (b ≡ false) × (c ≡ false) × (d ≡ false)
no_differs a b c d h = ground arith

harmless : (a b : Bool) → (a && not b) ≡ false → a ≡ true → b ≡ true
harmless a b h k = ground arith

no_member :
    (p : String × String → Bool) (es : NetworkEnvironment) (e : String × String)
    → any p es ≡ false
    → Memᴰ e es
    → p e ≡ false
no_member p [] e h m = elim m [ ]
no_member p (x ∷ es) e h (Memᴰ.head same) =
    let (first, _) = or-false (p x) (any p es) h in ap p same ∙ first
no_member p (x ∷ es) e h (Memᴰ.tail m) =
    let (_, rest) = or-false (p x) (any p es) h in no_member p es e rest m

-- What the environment of a profile says: its network, a URL that the parser reads as the profile's, its chain
-- and its indexer, the same four values for the browser, and no public key of a secret with a value.
pub record Pinned (new_url : String → Option Url) (environment : NetworkEnvironment)
    (p : NetworkProfile) : Type 0 where
  pub rpc : Url
  pub named : read_network (normalized_optional environment "TEZOS_NETWORK") ≡ ok p.network
  pub rpc_read : new_url (normalized_optional environment "TEZOS_RPC_URL") ≡ some rpc
  pub profile : ((p ≡ localnet_profile) × (rpc.hostname ≡ "127.0.0.1")) ⊎ (p ≡ shadownet_profile)
  pub rpc_pinned : strip_slash rpc.href ≡ p.rpc_url
  pub chain_pinned : normalized_optional environment "TEZOS_CHAIN_ID" ≡ p.chain_id
  pub indexer_pinned :
      strip_slash (normalized_optional environment "TEZOS_INDEXER_URL") ≡ p.indexer_url
  pub same_network :
      normalized_optional environment "TEZOS_NETWORK"
      ≡ normalized_optional environment "NEXT_PUBLIC_TEZOS_NETWORK"
  pub same_rpc :
      normalized_optional environment "TEZOS_RPC_URL"
      ≡ normalized_optional environment "NEXT_PUBLIC_TEZOS_RPC_URL"
  pub same_chain :
      normalized_optional environment "TEZOS_CHAIN_ID"
      ≡ normalized_optional environment "NEXT_PUBLIC_TEZOS_CHAIN_ID"
  pub same_indexer :
      normalized_optional environment "TEZOS_INDEXER_URL"
      ≡ normalized_optional environment "NEXT_PUBLIC_TEZOS_INDEXER_URL"
  pub no_secret :
      (key value : String)
      → Memᴰ (key, value) environment
      → is_public_secret secret_words key ≡ true
      → blank_value value ≡ true

same_values :
    (environment : NetworkEnvironment) (key : String)
    → differs environment key ≡ false
    → normalized_optional environment ("TEZOS_" +++ key)
      ≡ normalized_optional environment ("NEXT_PUBLIC_TEZOS_" +++ key)
same_values environment key h = same_text _ _ h

unexposed :
    (environment : NetworkEnvironment) (key value : String)
    → exposes_secret environment ≡ false
    → Memᴰ (key, value) environment
    → is_public_secret secret_words key ≡ true
    → blank_value value ≡ true
unfolding exposes_secret
unexposed environment key value h m =
    harmless (is_public_secret secret_words key) (blank_value value) (
      no_member (λ e. is_public_secret secret_words e.0 && not (blank_value e.1)) environment
        (key, value) h m)

four_same :
    (environment : NetworkEnvironment)
    → parity_broken environment ≡ false
    → (differs environment "NETWORK" ≡ false)
      × (differs environment "RPC_URL" ≡ false)
      × (differs environment "CHAIN_ID" ≡ false)
      × (differs environment "INDEXER_URL" ≡ false)
unfolding parity_broken
four_same environment h =
    no_differs (differs environment "NETWORK") (differs environment "RPC_URL")
      (differs environment "CHAIN_ID") (differs environment "INDEXER_URL") h

module _ (new_url : String → Option Url) where
  -- A validated environment gives the localnet or the shadownet profile: its network is the profile's, the URL of
  -- its RPC, its chain and its indexer are the profile's up to one final slash of the two URLs, the RPC of the
  -- localnet is on 127.0.0.1, the browser has the same four values as the server, and a public key that is named
  -- like a secret has a blank value.
  pub validate_network_environment-Pinned :
      (environment : NetworkEnvironment) {p : NetworkProfile}
      → validate_network_environment new_url environment ≡ ok p
      → Pinned new_url environment p
  unfolding validate_network_environment
  validate_network_environment-Pinned environment h =
      let checked =
        reject (exposes_secret environment) browser_secret_exposure
        >> reject (parity_broken environment) network_profile_mismatch
        >> required environment "TEZOS_NETWORK" in
      let (value, h1, h2) = >>=-eq-ok checked _ h in
      let (network, read, h3) = >>=-eq-ok (read_network value) _ h2 in
      let (rpc_text, given_rpc, h4) = >>=-eq-ok (required environment "TEZOS_RPC_URL") _ h3 in
      let (rpc, parsed, h5) =
        >>=-eq-ok (from_option (new_url rpc_text) network_profile_mismatch) _ h4 in
      let (chain_id, given_chain, h6) = >>=-eq-ok (required environment "TEZOS_CHAIN_ID") _ h5 in
      let (safe, parity, given_network) =
        past_exposure (exposes_secret environment) (parity_broken environment)
          browser_secret_exposure network_profile_mismatch (required environment "TEZOS_NETWORK")
          h1 in
      let (one, two, three, four) = four_same environment parity in
      let (same, pins) =
        matched network rpc chain_id (normalized_optional environment "TEZOS_INDEXER_URL") h6 in
      record {
        rpc = rpc;
        named =
            ap read_network (required-eq environment "TEZOS_NETWORK" given_network)
            ∙ read
            ∙ ap ok same;
        rpc_read =
            ap new_url (required-eq environment "TEZOS_RPC_URL" given_rpc)
            ∙ from_option-some (new_url rpc_text) network_profile_mismatch parsed;
        profile = pins.profile;
        rpc_pinned = pins.rpc_pinned;
        chain_pinned = required-eq environment "TEZOS_CHAIN_ID" given_chain ∙ pins.chain_pinned;
        indexer_pinned = pins.indexer_pinned;
        same_network = same_values environment "NETWORK" one;
        same_rpc = same_values environment "RPC_URL" two;
        same_chain = same_values environment "CHAIN_ID" three;
        same_indexer = same_values environment "INDEXER_URL" four;
        no_secret = λ key value m. unexposed environment key value safe m;
      }

-- Keys under the two profile prefixes.
unfoldable pub is_profile_key : String → Bool
is_profile_key key = starts_with key local_prefix || starts_with key shadow_prefix

abbrev pub no_profile_key : NetworkEnvironment → Bool
no_profile_key environment = all (λ e. not (is_profile_key e.0)) environment

not-true : (b : Bool) → not b ≡ true → b ≡ false
not-true b h = ground arith

kept_key : (key : String) → is_signing_key key ≡ false → is_profile_key key ≡ false
unfolding is_profile_key
kept_key key h = ground arith

keep :
    (key value : String) (e : NetworkEnvironment)
    → is_profile_key key ≡ false
    → no_profile_key e ≡ true
    → no_profile_key ((key, value) ∷ e) ≡ true
keep key value e fresh h = ground (arith, fresh, h)

without_signing-no_profile_key :
    (e : NetworkEnvironment) → no_profile_key (without_signing e) ≡ true
without_signing-no_profile_key [] = refl
without_signing-no_profile_key ((key, value) ∷ rest) = elim (Bool-cases (is_signing_key key)) [
  | inl signing ↦ rw signing (without_signing-no_profile_key rest)
  | inr other ↦ rw other (
      keep key value (without_signing rest) (kept_key key other)
        (without_signing-no_profile_key rest))
]

assign-no_profile_key :
    (e : NetworkEnvironment) (key value : String)
    → is_profile_key key ≡ false
    → no_profile_key e ≡ true
    → no_profile_key (assign e key value) ≡ true
assign-no_profile_key [] key value fresh h = ground arith
assign-no_profile_key ((k, v) ∷ rest) key value fresh h =
    let (this, others) = and-true (not (is_profile_key k)) (no_profile_key rest) h in
    elim (Bool-cases (str_eq k key)) [
      | inl same ↦ rw same (keep k value rest (not-true _ this) others)
      | inr other ↦ rw other (
          keep k v (assign rest key value) (not-true _ this)
            (assign-no_profile_key rest key value fresh others))
    ]

active_key : (suffix : String) → is_profile_key (with_prefix active_prefix suffix) ≡ false
unfolding is_profile_key starts_with
active_key suffix = refl

assign_suffix-no_profile_key :
    (e : NetworkEnvironment) (suffix : Option String) (value : String)
    → no_profile_key e ≡ true
    → no_profile_key (assign_suffix e suffix value) ≡ true
assign_suffix-no_profile_key e none value h = h
assign_suffix-no_profile_key e (some suffix) value h = elim (Bool-cases (blank_value value)) [
  | inl blank ↦ rw blank h
  | inr given ↦
      rw given
        (assign-no_profile_key e (with_prefix active_prefix suffix) value (active_key suffix) h)
]

rename_active-no_profile_key :
    (prefix : String) (from to : NetworkEnvironment)
    → no_profile_key to ≡ true
    → no_profile_key (rename_active prefix from to) ≡ true
rename_active-no_profile_key prefix [] to h = h
rename_active-no_profile_key prefix ((key, value) ∷ rest) to h =
    rename_active-no_profile_key prefix rest (assign_suffix to (without_prefix prefix key) value)
      (assign_suffix-no_profile_key to (without_prefix prefix key) value h)

-- The environment that a signing child gets has no key of either profile's prefix: what the
-- selected profile signs with goes under the child-only names.
pub sanitize_signing_environment-no_profile_key :
    (network : NetworkName) (environment : NetworkEnvironment) {sanitized : NetworkEnvironment}
    → sanitize_signing_environment network environment ≡ ok sanitized
    → no_profile_key sanitized ≡ true
unfolding sanitize_signing_environment
sanitize_signing_environment-no_profile_key network environment h =
    let (_, same) = past_refusal (any (λ e. is_forbidden network e.0 e.1) environment) _ h in
    subst (λ e. no_profile_key e ≡ true) same
      (rename_active-no_profile_key (own_prefix network) environment (without_signing environment)
        (without_signing-no_profile_key environment))
