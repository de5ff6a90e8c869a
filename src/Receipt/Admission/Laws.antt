-- ===== src/Receipt/Admission/Laws.antt =====
-- What the admission of a permit guarantees.
use mathlib.Core.Path.{subst}
use samurai_sushi.Common.{
  ℕ, Bool, not, ◌||◌, Option, Result, ltb, guard, reject, receipt_authority_rejected,
  invalid_receipt_input, ◌+◌, ◌≤◌, ◌<◌, ◌≡◌, refl, true, false, String, some, includes, str_eq,
  eq_iff, ok, ◌>>=◌, ◌>>◌, >>=-eq-ok, from_option-some, from_option, ◌&&◌, ◌-◌, leb, arith,
}
use samurai_sushi.Json.{Json, get}
use samurai_sushi.Commands.Patterns.{codes}
use samurai_sushi.Receipt.Payload.{Codec, big_int, receipt_entrypoint}
use samurai_sushi.Receipt.Pack.{hash_receipt_payload, hex_bytes}
use samurai_sushi.Receipt.Admission.{
  AdmissionContext, PublicReceipt, Authority, owner_commitment_key, is_verified, outside_window,
  lifetime_invalid, is_closed, max_clock_skew_seconds, dispatch_mismatch, dispatch_policy_mismatch,
  content_mismatch, read_authority, admit_signed, admit_timed, admit_dispatched,
  admit_receipt_permit,
}
use samurai_sushi.Receipt.Permit.{
  IssuerKeyPolicy, ReceiptPermit, parse_issuer_key_policy, parse_permit,
}

issued_within : (a i r : ℕ) → not (leb a i && ltb i r) ≡ false → (a ≤ i) × (i < r)
issued_within a i r h = ground arith

lives_briefly : (i e : ℕ) → (not (ltb i e) || ltb 900 (e - i)) ≡ false → (i < e) × (e ≤ i + 900)
lives_briefly i e h = ground arith

still_open : (n e v : ℕ) → (not (ltb n e) || not (ltb n v)) ≡ false → (n < e) × (n < v)
still_open n e v h = ground arith

not_after : (n i : ℕ) → ltb n i ≡ false → i ≤ n
not_after n i h = ground arith

both_same : (s t u v : String) → (not (str_eq s t) || not (str_eq u v)) ≡ false → (s ≡ t) × (u ≡ v)
both_same s t u v h = ground (arith, eq_iff s t, eq_iff u v)

pair_same :
    (s t u v : String) (b : Bool)
    → (not (str_eq s t) || not (str_eq u v) || b) ≡ false
    → (s ≡ t) × (u ≡ v)
pair_same s t u v b h = ground (arith, eq_iff s t, eq_iff u v)

past_signed :
    {A : Type 0} (a b c d : Bool) {x y : A}
    → (reject a receipt_authority_rejected
        >> guard b receipt_authority_rejected
        >> reject c receipt_authority_rejected
        >> reject d receipt_authority_rejected
        >> ok x)
      ≡ ok y
    → (a ≡ false) × (b ≡ true) × (c ≡ false) × (d ≡ false) × (x ≡ y)
past_signed a b c d h = ground arith

past_timed :
    {A : Type 0} (a b c d e : Bool) (k : Result A) {y : A}
    → (reject a receipt_authority_rejected
        >> reject b receipt_authority_rejected
        >> reject c receipt_authority_rejected
        >> reject d receipt_authority_rejected
        >> reject e receipt_authority_rejected
        >> k)
      ≡ ok y
    → (a ≡ false) × (b ≡ false) × (c ≡ false) × (d ≡ false) × (e ≡ false) × (k ≡ ok y)
past_timed a b c d e k h = ground arith

past_dispatched :
    {A B : Type 0} (z a b c d e : Bool) (k : Result A) (f : A → Result B) {y : B}
    → (reject z invalid_receipt_input
        >> reject a receipt_authority_rejected
        >> reject b receipt_authority_rejected
        >> reject c receipt_authority_rejected
        >> reject d receipt_authority_rejected
        >> reject e receipt_authority_rejected
        >> k
        >>= f)
      ≡ ok y
    → (a ≡ false) × (b ≡ false) × (c ≡ false) × (d ≡ false) × (e ≡ false) × ((k >>= f) ≡ ok y)
past_dispatched z a b c d e k f h = ground arith

verified-some : (v : Option Bool) → is_verified v ≡ true → v ≡ some true
verified-some v h = ground arith

same_text : (s t : String) → not (str_eq s t) ≡ false → s ≡ t
same_text s t h = ground (arith, eq_iff s t)

same_or : (s t : String) (b : Bool) → (not (str_eq s t) || b) ≡ false → (s ≡ t) × (b ≡ false)
same_or s t b h = ground (arith, eq_iff s t)

module _ (codec : Codec) where
  -- The permit, the authority and the policy behind an admitted receipt, and what holds of them.
  pub record Admitted (input : Json) (context : AdmissionContext) (receipt : PublicReceipt)
      : Type 0 where
    pub permit : ReceiptPermit
    pub authority : Authority
    pub entry : Json
    pub policy : IssuerKeyPolicy
    pub parsed : parse_permit codec input ≡ ok permit
    pub authorized : read_authority codec context ≡ ok authority
    pub listed : get context.issuer_policies permit.payload.issuer_key_id ≡ some entry
    pub validated : parse_issuer_key_policy codec entry ≡ ok policy
    pub running : context.paused ≡ false
    pub as_owned : receipt.owner ≡ permit.payload.owner
    pub as_issued : receipt.issued_at ≡ permit.payload.issued_at
    pub as_expiring : receipt.expiry ≡ permit.payload.expiry
    pub by_owner : permit.payload.owner ≡ authority.sender
    pub from_source : permit.payload.source ≡ authority.sender
    pub on_chain : permit.payload.chain_id ≡ authority.chain
    pub to_contract : permit.payload.destination ≡ authority.destination
    pub for_version : policy.policy_version ≡ permit.payload.issuer_policy_version
    pub not_revoked : policy.revoked ≡ false
    pub activated : big_int policy.activates_at ≤ big_int permit.payload.issued_at
    pub not_retired : big_int permit.payload.issued_at < big_int policy.retires_at
    pub not_early : big_int permit.payload.issued_at ≤ authority.time + 30
    pub lives : big_int permit.payload.issued_at < big_int permit.payload.expiry
    pub short_lived : big_int permit.payload.expiry ≤ big_int permit.payload.issued_at + 900
    pub not_expired : authority.time < big_int permit.payload.expiry
    pub verifiable : authority.time < big_int policy.verify_until
    pub hashed : hash_receipt_payload codec permit.payload ≡ ok receipt.payload_hash
    pub as_hashed : permit.payload_hash ≡ receipt.payload_hash
    pub signed :
        codec.verify_signature
          (hex_bytes (codes receipt.payload_hash))
          policy.public_key
          permit.signature
        ≡ some true
    pub fresh_nonce : includes context.used_nonces receipt.nonce ≡ false
    pub fresh_commitment :
        includes context.used_owner_commitments
          (owner_commitment_key receipt.owner receipt.service_commitment)
        ≡ false

  -- What the last stage says.
  record Signed (permit : ReceiptPermit) (policy : IssuerKeyPolicy) (context : AdmissionContext)
      (receipt : PublicReceipt) : Type 0 where
    same_owner : receipt.owner ≡ permit.payload.owner
    same_issue : receipt.issued_at ≡ permit.payload.issued_at
    same_expiry : receipt.expiry ≡ permit.payload.expiry
    hashed : hash_receipt_payload codec permit.payload ≡ ok receipt.payload_hash
    same_hash : permit.payload_hash ≡ receipt.payload_hash
    signed :
        codec.verify_signature
          (hex_bytes (codes receipt.payload_hash))
          policy.public_key
          permit.signature
        ≡ some true
    fresh_nonce : includes context.used_nonces receipt.nonce ≡ false
    fresh_commitment :
        includes context.used_owner_commitments
          (owner_commitment_key receipt.owner receipt.service_commitment)
        ≡ false

  admit_signed-Signed :
      (permit : ReceiptPermit) (policy : IssuerKeyPolicy) (context : AdmissionContext)
      {receipt : PublicReceipt}
      → admit_signed codec permit policy context ≡ ok receipt
      → Signed permit policy context receipt
  unfolding admit_signed
  admit_signed-Signed permit policy context h =
      let (computed, hashed, h1) = >>=-eq-ok (hash_receipt_payload codec permit.payload) _ h in
      let (matching, verified, fresh, fresh_pair, same) =
        past_signed (not (str_eq permit.payload_hash computed))
          (is_verified (
            codec.verify_signature (hex_bytes (codes computed)) policy.public_key permit.signature))
          (includes context.used_nonces permit.payload.nonce)
          (includes context.used_owner_commitments
            (owner_commitment_key permit.payload.owner permit.payload.service_commitment))
          h1 in
      subst (Signed permit policy context) same (record {
        same_owner = refl;
        same_issue = refl;
        same_expiry = refl;
        hashed = hashed;
        same_hash = same_text permit.payload_hash computed matching;
        signed = verified-some _ verified;
        fresh_nonce = fresh;
        fresh_commitment = fresh_pair;
      })

  -- What the stage before it says.
  record Timed (permit : ReceiptPermit) (now : ℕ) (policy : IssuerKeyPolicy)
      (context : AdmissionContext) (receipt : PublicReceipt) : Type 0 where
    for_version : policy.policy_version ≡ permit.payload.issuer_policy_version
    not_revoked : policy.revoked ≡ false
    in_window : outside_window permit.payload policy ≡ false
    not_early : ltb (now + max_clock_skew_seconds) (big_int permit.payload.issued_at) ≡ false
    lifetime : lifetime_invalid permit.payload ≡ false
    open_now : is_closed now permit.payload policy ≡ false
    rest : Signed permit policy context receipt

  admit_timed-Timed :
      (permit : ReceiptPermit) (now : ℕ) (policy : IssuerKeyPolicy) (context : AdmissionContext)
      {receipt : PublicReceipt}
      → admit_timed codec permit now policy context ≡ ok receipt
      → Timed permit now policy context receipt
  unfolding admit_timed
  admit_timed-Timed permit now policy context h =
      let p = permit.payload in
      let (active, window, early, lifetime, opened, last) =
        past_timed (not (str_eq policy.policy_version p.issuer_policy_version) || policy.revoked)
          (outside_window p policy) (ltb (now + max_clock_skew_seconds) (big_int p.issued_at))
          (lifetime_invalid p) (is_closed now p policy) (admit_signed codec permit policy context)
          h in
      let (version, alive) =
        same_or policy.policy_version p.issuer_policy_version policy.revoked active in
      record {
        for_version = version;
        not_revoked = alive;
        in_window = window;
        not_early = early;
        lifetime = lifetime;
        open_now = opened;
        rest = admit_signed-Signed permit policy context last;
      }

  -- A permit is admitted only while the authority runs, for its owner, dispatch, manifest and
  -- content, under a listed policy that is not revoked, of the permit's version, and active at its
  -- issue; the permit is issued at most 30 seconds ahead, lives at most 900 seconds, and is not
  -- over; the permit's hash is the receipt's and the one of the packed payload, its signature verifies, and neither the nonce
  -- nor the owner's commitment was accepted before.
  pub admit_receipt_permit-Admitted :
      (input : Json) (context : AdmissionContext) {receipt : PublicReceipt}
      → admit_receipt_permit codec input context ≡ ok receipt
      → Admitted input context receipt
  unfolding admit_receipt_permit admit_dispatched
  admit_receipt_permit-Admitted input context h =
      let (permit, parsed, h1) = >>=-eq-ok (parse_permit codec input) _ h in
      let (a, authorized, h2) = >>=-eq-ok (read_authority codec context) _ h1 in
      let p = permit.payload in
      let entry_of =
        from_option (get context.issuer_policies p.issuer_key_id) receipt_authority_rejected in
      let use_entry = λ (entry : Json). parse_issuer_key_policy codec entry >>= λ policy.
      admit_timed codec permit a.time policy context in
      let (running, owned, dispatched, by_policy, content, h3) =
        past_dispatched
          (not (str_eq context.entrypoint receipt_entrypoint)
            || not (str_eq context.attached_mutez "0"))
          context.paused (not (str_eq p.owner a.sender) || not (str_eq p.source a.sender))
          (dispatch_mismatch p a context) (dispatch_policy_mismatch p a context)
          (content_mismatch p a) entry_of use_entry h2 in
      let (entry, found, h4) = >>=-eq-ok entry_of use_entry h3 in
      let (policy, validated, h5) = >>=-eq-ok (parse_issuer_key_policy codec entry) _ h4 in
      let t = admit_timed-Timed permit a.time policy context h5 in
      let s = t.rest in
      let issued = big_int p.issued_at in
      let (activated, not_retired) =
        issued_within (big_int policy.activates_at) issued (big_int policy.retires_at)
          t.in_window in
      let (lives, short) = lives_briefly issued (big_int p.expiry) t.lifetime in
      let (not_expired, verifiable) =
        still_open a.time (big_int p.expiry) (big_int policy.verify_until) t.open_now in
      let (owner, source) = both_same p.owner a.sender p.source a.sender owned in
      let (chain, contract) =
        pair_same p.chain_id a.chain p.destination a.destination
          (not (str_eq p.entrypoint context.entrypoint)) dispatched in
      record {
        permit = permit;
        authority = a;
        entry = entry;
        policy = policy;
        parsed = parsed;
        authorized = authorized;
        listed = from_option-some _ _ found;
        validated = validated;
        running = running;
        as_owned = s.same_owner;
        as_issued = s.same_issue;
        as_expiring = s.same_expiry;
        by_owner = owner;
        from_source = source;
        on_chain = chain;
        to_contract = contract;
        for_version = t.for_version;
        not_revoked = t.not_revoked;
        activated = activated;
        not_retired = not_retired;
        not_early = not_after (a.time + 30) issued t.not_early;
        lives = lives;
        short_lived = short;
        not_expired = not_expired;
        verifiable = verifiable;
        hashed = s.hashed;
        as_hashed = s.same_hash;
        signed = s.signed;
        fresh_nonce = s.fresh_nonce;
        fresh_commitment = s.fresh_commitment;
      }
