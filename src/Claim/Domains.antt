-- ===== src/Claim/Domains.antt =====
-- The hash domains of packages/domain/src/claim-protocol.ts, and what a parsed challenge promises.
use samurai_sushi.Common.{
  ℕ, ◌+◌, ◌≡◌, refl, sym, ap, ◌∙◌, Bool, true, false, ◌&&◌, ◌||◌, and-true, String, Option, some,
  List, ◌++◌, get_elem?, ◌==◌, ==→eq, str_eq, eq_iff, ok, >>=-eq-ok, >>-eq-ok, guard, guard-eq-ok,
  from_option, from_option-some, ok_injective, subst, ==-self, true_not_false, all, ltb, arith,
  invalid_claim_protocol,
}
use samurai_sushi.Json.{Json, get}
use samurai_sushi.Json.Shape.{exact_keys, is_str, is_nat, read_str}
use samurai_sushi.Commands.Patterns.{codes, is_sha256}
use samurai_sushi.Claim.{Platform, OriginUrl, ClaimChallenge}
use samurai_sushi.Claim.Preflight.{detached_object}
use samurai_sushi.Claim.Readers.{
  matching, base64url_32, exact_utc_milliseconds, canonical_origin, is_secure, is_loopback, is_bare,
  is_chain_id, is_account,
}
use samurai_sushi.Claim.Parse.{
  parse_claim_challenge, challenge_domain, challenge_keys, challenge_lifetime_ms,
}
use samurai_sushi.Claim.Bytes.{
  Payload, intent, session_recovery, player_deletion, challenge, hash_domain,
  canonical_payload_bytes, hash_preimage,
}

same_at : (i : ℕ) {xs ys : List ℕ} → xs ≡ ys → get_elem? xs i ≡ get_elem? ys i
same_at i h = ap (λ l. get_elem? l i) h

apart : (m n : ℕ) → (m == n) ≡ false → some m ≡ some n → ⊥
apart m n h e =
    let same : m ≡ n = some_number e in
    true_not_false (sym (==-self n) ∙ ap (λ k. k == n) (sym same) ∙ h)
  where
    some_number : {a b : ℕ} → some a ≡ some b → a ≡ b
    some_number e = cc

-- The characters at which the domains differ.
domains_differ :
    (p q : Payload) (a b : List ℕ)
    → (codes (hash_domain p) ++ a) ≡ (codes (hash_domain q) ++ b)
    → p ≡ q
domains_differ intent intent a b h = refl
domains_differ session_recovery session_recovery a b h = refl
domains_differ player_deletion player_deletion a b h = refl
domains_differ challenge challenge a b h = refl
domains_differ player_deletion q a b h = absurd (apart _ _ refl (same_at 14 h))
domains_differ p player_deletion a b h = absurd (apart _ _ refl (same_at 14 h))
domains_differ p q a b h = absurd (apart _ _ refl (same_at 20 h))

abbrev pub is_ascii : String → Bool
is_ascii s = all (λ c. ltb c 128) (codes s)

ascii_domain : (p : Payload) → is_ascii (hash_domain p) ≡ true
ascii_domain intent = refl
ascii_domain session_recovery = refl
ascii_domain player_deletion = refl
ascii_domain challenge = refl

module _ (platform : Platform) where
  -- Where UTF-8 writes an ASCII text as its characters, the preimages of the hashes of two payloads are
  -- different unless both payloads are of the same kind: no payload of one kind can pass for another.
  pub hash_preimage-kind :
      ((s : String) → is_ascii s ≡ true → platform.utf8 s ≡ codes s)
      → (p q : Payload) (first second : Json) {preimage : List ℕ}
      → hash_preimage platform p first ≡ ok preimage
      → hash_preimage platform q second ≡ ok preimage
      → p ≡ q
  unfolding hash_preimage
  hash_preimage-kind ascii p q first second h k =
      let (a, _, h1) = >>=-eq-ok (canonical_payload_bytes platform p first) _ h in
      let (b, _, k1) = >>=-eq-ok (canonical_payload_bytes platform q second) _ k in
      domains_differ p q a b (
        ap (λ d. d ++ a) (sym (ascii (hash_domain p) (ascii_domain p)))
        ∙ ok_injective (h1 ∙ sym k1)
        ∙ ap (λ d. d ++ b) (ascii (hash_domain q) (ascii_domain q)))

  -- What a parsed challenge promises of its times and its origin.
  pub record Promises (c : ClaimChallenge) : Type 0 where
    pub issued : ℕ
    pub issued_at :
        (platform.parse_time c.issued_at ≡ some issued)
        × (platform.to_iso_string issued ≡ c.issued_at)
    pub expires_at :
        (platform.parse_time c.expires_at ≡ some (issued + 300000))
        × (platform.to_iso_string (issued + 300000) ≡ c.expires_at)
    pub url : OriginUrl
    pub origin : (platform.parse_url c.origin ≡ some url) × (url.origin ≡ c.origin)
    pub transport : (is_secure url || is_loopback url) ≡ true
    pub bare : is_bare url ≡ true

  exact_time :
      (value : Option Json) {at : String × ℕ}
      → exact_utc_milliseconds platform value ≡ ok at
      → (platform.parse_time at.0 ≡ some at.1) × (platform.to_iso_string at.1 ≡ at.0)
  unfolding exact_utc_milliseconds
  exact_time value h =
      let (s, _, h1) = >>=-eq-ok (read_str invalid_claim_protocol value) _ h in
      let (t, parsed, h2) =
        >>=-eq-ok (from_option (platform.parse_time s) invalid_claim_protocol) _ h1 in
      let (same, h3) =
        >>-eq-ok (guard (str_eq (platform.to_iso_string t) s) invalid_claim_protocol) _ h2 in
      let agreed = guard-eq-ok (str_eq (platform.to_iso_string t) s) invalid_claim_protocol same in
      let written : platform.to_iso_string t ≡ s =
        ground (arith, eq_iff (platform.to_iso_string t) s) in
      subst
        (λ (at : String × ℕ).
          (platform.parse_time at.0 ≡ some at.1) × (platform.to_iso_string at.1 ≡ at.0))
        (ok_injective h3) (from_option-some _ _ parsed, written)

  origin_fits :
      (value : Option Json) {s : String}
      → canonical_origin platform value ≡ ok s
      → (url : OriginUrl) × (platform.parse_url s ≡ some url)
        × (url.origin ≡ s)
        × ((is_secure url || is_loopback url) ≡ true)
        × (is_bare url ≡ true)
  unfolding canonical_origin
  origin_fits value h =
      let (s, _, h1) = >>=-eq-ok (read_str invalid_claim_protocol value) _ h in
      let (url, parsed, h2) =
        >>=-eq-ok (from_option (platform.parse_url s) invalid_claim_protocol) _ h1 in
      let (held, h3) =
        >>-eq-ok
          (guard ((is_secure url || is_loopback url) && is_bare url && str_eq url.origin s)
            invalid_claim_protocol)
          _ h2 in
      let all_hold = guard-eq-ok _ _ held in
      let (left, same) =
        and-true ((is_secure url || is_loopback url) && is_bare url) (str_eq url.origin s)
          all_hold in
      let (transport, bare) = and-true (is_secure url || is_loopback url) (is_bare url) left in
      let equal : url.origin ≡ s = ground (arith, eq_iff url.origin s) in
      subst
        (λ o.
          (u : OriginUrl) × (platform.parse_url o ≡ some u)
          × (u.origin ≡ o)
          × ((is_secure u || is_loopback u) ≡ true)
          × (is_bare u ≡ true))
        (ok_injective h3) (url, from_option-some _ _ parsed, equal, transport, bare)

  -- A challenge that parses is written with canonical times, lives for exactly 300000 milliseconds, and is
  -- for an origin that is https, or http on the local machine, without credentials, path, query or fragment.
  pub parse_claim_challenge-Promises :
      (input : Json) {c : ClaimChallenge} → parse_claim_challenge platform input ≡ ok c → Promises c
  unfolding parse_claim_challenge
  parse_claim_challenge-Promises input h =
      let (row, _, h1) = >>=-eq-ok (detached_object platform input) _ h in
      let (_, h2) = >>-eq-ok (exact_keys invalid_claim_protocol row challenge_keys) _ h1 in
      let (_, h3) =
        >>-eq-ok
          (guard (is_str (get row "domain") challenge_domain && is_nat (get row "schemaVersion") 1)
            invalid_claim_protocol)
          _ h2 in
      let (_, _, h4) = >>=-eq-ok (matching is_chain_id (get row "chainId")) _ h3 in
      let (_, _, h5) = >>=-eq-ok (matching is_account (get row "account")) _ h4 in
      let (_, _, h6) = >>=-eq-ok (matching is_sha256 (get row "claimIntentHash")) _ h5 in
      let (issued, i, h7) = >>=-eq-ok (exact_utc_milliseconds platform (get row "issuedAt")) _ h6 in
      let (expires, e, h8) =
        >>=-eq-ok (exact_utc_milliseconds platform (get row "expiresAt")) _ h7 in
      let (lasts, h9) =
        >>-eq-ok (guard (expires.1 == issued.1 + challenge_lifetime_ms) invalid_claim_protocol) _
          h8 in
      let (origin, o, h10) = >>=-eq-ok (canonical_origin platform (get row "origin")) _ h9 in
      let (_, _, h11) = >>=-eq-ok (base64url_32 platform (get row "nonce")) _ h10 in
      let (at, written) = exact_time (get row "issuedAt") i in
      let (until, rewritten) = exact_time (get row "expiresAt") e in
      let later = ==→eq expires.1 (issued.1 + 300000) (guard-eq-ok _ _ lasts) in
      let (url, found, named, transport, bare) = origin_fits (get row "origin") o in
      subst Promises (ok_injective h11) (record {
        issued = issued.1;
        issued_at = (at, written);
        expires_at = (until ∙ ap some later, ap platform.to_iso_string (sym later) ∙ rewritten);
        url = url;
        origin = (found, named);
        transport = transport;
        bare = bare;
      })
