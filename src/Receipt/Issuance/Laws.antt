-- ===== src/Receipt/Issuance/Laws.antt =====
-- Receipts are for finished evenings.
use mathlib.Core.Path.{subst}
use samurai_sushi.Common.{
  ◌≡◌, sym, ap, ◌∙◌, Bool, true, not, ◌||◌, ◌&&◌, ltb, leb, String, Option, some, str_eq, eq_iff,
  Result, FailureCode, ok, ◌>>=◌, ◌>>◌, guard, reject, >>=-eq-ok, from_option, from_option-some,
  uncoded_error, arith,
}
use samurai_sushi.Json.{Json, str, Fields, get}
use samurai_sushi.Json.Bounds.{js_length}
use samurai_sushi.Service.{Phase, settled, Checkpoint, first_evening_content_version}
use samurai_sushi.Service.Invariants.{is_settled}
use samurai_sushi.Service.Decode.{decode_checkpoint}
use samurai_sushi.Service.Outcomes.{IsFinished, decode_settled-IsFinished}
use samurai_sushi.Receipt.Payload.{Codec, ReceiptPayload, parse_receipt_payload}
use samurai_sushi.Receipt.PayloadFields.{parse_receipt_payload-Carries}
use samurai_sushi.Receipt.Pack.{hash_receipt_payload}
use samurai_sushi.Receipt.Admission.{AdmissionContext, PublicReceipt, admit_receipt_permit}
use samurai_sushi.Receipt.Permit.{ReceiptPermit}
use samurai_sushi.Receipt.Admission.Laws.{Admitted, admit_receipt_permit-Admitted}
use samurai_sushi.Receipt.Issuance.{
  ReceiptFacts, exact_issuance_input, given, issued_payload, commitment,
  derive_settled_service_receipt_facts, issue_settled_receipt_permit, admit_settled_receipt_permit,
}

is_settled-eq : (p : Phase) → is_settled p ≡ true → p ≡ settled
is_settled-eq p h = ground arith

same_value : {A : Type 0} {x y : A} → ok x ≡ ok y → x ≡ y
same_value h = cc

past_guard :
    {A B : Type 0} (b : Bool) (e : FailureCode) (k : Result A) (f : A → Result B) {y : B}
    → (guard b e >> k >>= f) ≡ ok y
    → (b ≡ true) × ((k >>= f) ≡ ok y)
past_guard b e k f h = ground arith

past_length :
    {A : Type 0} (b : Bool) (e : FailureCode) {x y : A}
    → (guard b e >> ok x) ≡ ok y
    → (b ≡ true) × (x ≡ y)
past_length b e h = ground arith

past_match :
    {A : Type 0} (s t u v : String) (e : FailureCode) {x y : A}
    → (reject (not (str_eq s t) || not (str_eq u v)) e >> ok x) ≡ ok y
    → (s ≡ t) × (u ≡ v) × (x ≡ y)
past_match s t u v e h = ground (arith, eq_iff s t, eq_iff u v)

-- The payload of a permit carries the fields of the request, the evening's content version, and the owner as
-- its source.
pub record IssuedFor (row : Fields) (p : ReceiptPayload) : Type 0 where
  pub chain_id : given row "chainId" ≡ str p.chain_id
  pub owner : given row "owner" ≡ str p.owner
  pub destination : given row "destination" ≡ str p.destination
  pub nonce : given row "nonce" ≡ str p.nonce
  pub issued_at : given row "issuedAt" ≡ str p.issued_at
  pub expiry : given row "expiry" ≡ str p.expiry
  pub deployment_manifest_hash : given row "deploymentManifestHash" ≡ str p.deployment_manifest_hash
  pub issuer_key_id : given row "issuerKeyId" ≡ str p.issuer_key_id
  pub issuer_policy_version : given row "issuerPolicyVersion" ≡ str p.issuer_policy_version
  pub source : p.source ≡ p.owner
  pub content_version : p.content_version ≡ first_evening_content_version

same_json : {j k : Json} → some j ≡ some k → j ≡ k
same_json h = cc

same_string : {s t : String} → str s ≡ str t → s ≡ t
same_string h = cc

module _ (codec : Codec) where
  -- A finished evening and the commitment to it.
  pub record Settled (checkpoint_input : Json) (server_nonce : Option Json) (committed : String)
      : Type 0 where
    pub evening : Checkpoint
    pub decoded : decode_checkpoint checkpoint_input ≡ ok evening
    pub finished : IsFinished evening
    pub commits : commitment codec evening server_nonce ≡ ok committed

  facts-Settled :
      (checkpoint_input : Json) (server_nonce : Option Json) {facts : ReceiptFacts}
      → derive_settled_service_receipt_facts codec checkpoint_input server_nonce ≡ ok facts
      → Settled checkpoint_input server_nonce facts.fact_commitment
        × (facts.fact_content_version ≡ first_evening_content_version)
  unfolding derive_settled_service_receipt_facts
  facts-Settled checkpoint_input server_nonce h =
      let (c, decoded, h1) = >>=-eq-ok (decode_checkpoint checkpoint_input) _ h in
      let (phase, h2) =
        past_guard (is_settled c.phase) uncoded_error (commitment codec c server_nonce) _ h1 in
      let (digest, commits, same) = >>=-eq-ok (commitment codec c server_nonce) _ h2 in
      (
        record {
          evening = c;
          decoded = decoded;
          finished =
              decode_settled-IsFinished checkpoint_input c decoded (is_settled-eq c.phase phase);
          commits = commits ∙ ap (λ (f : ReceiptFacts). ok f.fact_commitment) (same_value same);
        },
        sym (ap (λ (f : ReceiptFacts). f.fact_content_version) (same_value same)),
      )

  payload-IssuedFor :
      (row : Fields) (facts : ReceiptFacts) {payload : ReceiptPayload}
      → facts.fact_content_version ≡ first_evening_content_version
      → parse_receipt_payload codec (issued_payload row facts) ≡ ok payload
      → IssuedFor row payload × (facts.fact_commitment ≡ payload.service_commitment)
  payload-IssuedFor row facts version h =
      let (carried, sourced) = parse_receipt_payload-Carries codec _ h in
      (
        record {
          chain_id = same_json carried.chain_id;
          owner = same_json carried.owner;
          destination = same_json carried.destination;
          nonce = same_json carried.nonce;
          issued_at = same_json carried.issued_at;
          expiry = same_json carried.expiry;
          deployment_manifest_hash = same_json carried.deployment_manifest_hash;
          issuer_key_id = same_json carried.issuer_key_id;
          issuer_policy_version = same_json carried.issuer_policy_version;
          source = sym sourced;
          content_version = sym (same_string (same_json carried.content_version)) ∙ version;
        },
        same_string (same_json carried.service_commitment),
      )

  -- A permit is issued only for a finished evening: its payload carries the commitment to that evening, the
  -- evening's content version and the fields of the request, with the owner as source; its hash is the
  -- payload's, and its signature the signer's.
  pub issue_settled_receipt_permit-Settled :
      (signer : String → Option String) (input : Json) {permit : ReceiptPermit}
      → issue_settled_receipt_permit codec signer input ≡ ok permit
      → (row : Fields) × (exact_issuance_input input ≡ ok row)
        × Settled
            (given row "checkpoint")
            (get row "commitmentNonce")
            permit.payload.service_commitment
        × IssuedFor row permit.payload
        × (hash_receipt_payload codec permit.payload ≡ ok permit.payload_hash)
        × (signer permit.payload_hash ≡ some permit.signature)
  unfolding issue_settled_receipt_permit
  issue_settled_receipt_permit-Settled signer input h =
      let (row, read, h1) = >>=-eq-ok (exact_issuance_input input) _ h in
      let derive =
        derive_settled_service_receipt_facts codec (given row "checkpoint")
          (get row "commitmentNonce") in
      let (facts, derived, h2) = >>=-eq-ok derive _ h1 in
      let (evening, version) =
        facts-Settled (given row "checkpoint") (get row "commitmentNonce") derived in
      let (payload, parsed, h3) =
        >>=-eq-ok (parse_receipt_payload codec (issued_payload row facts)) _ h2 in
      let (carried, commits) = payload-IssuedFor row facts version parsed in
      let (hash, hashed, h4) = >>=-eq-ok (hash_receipt_payload codec payload) _ h3 in
      let (signature, signed, h5) = >>=-eq-ok (from_option (signer hash) uncoded_error) _ h4 in
      let (_, same) =
        past_length (ltb 0 (js_length signature) && leb (js_length signature) 192) uncoded_error
          h5 in
      subst
        (λ (p : ReceiptPermit).
          (r : Fields) × (exact_issuance_input input ≡ ok r)
          × Settled (given r "checkpoint") (get r "commitmentNonce") p.payload.service_commitment
          × IssuedFor r p.payload
          × (hash_receipt_payload codec p.payload ≡ ok p.payload_hash)
          × (signer p.payload_hash ≡ some p.signature))
        same
        (
          row,
          read,
          subst (Settled (given row "checkpoint") (get row "commitmentNonce")) commits evening,
          carried,
          hashed,
          from_option-some (signer hash) uncoded_error signed,
        )

  -- A permit passes the check before its submission only if the evening is finished, the authority
  -- admits the permit, and the receipt carries the commitment to that evening.
  pub admit_settled_receipt_permit-Settled :
      (permit : Json) (context : AdmissionContext) (checkpoint : Json) (nonce : Option Json)
      {receipt : PublicReceipt}
      → admit_settled_receipt_permit codec permit context checkpoint nonce ≡ ok receipt
      → Settled checkpoint nonce receipt.service_commitment × Admitted codec permit context receipt
  unfolding admit_settled_receipt_permit
  admit_settled_receipt_permit-Settled permit context checkpoint nonce h =
      let (facts, derived, h1) =
        >>=-eq-ok (derive_settled_service_receipt_facts codec checkpoint nonce) _ h in
      let (receipt, admitted, h2) = >>=-eq-ok (admit_receipt_permit codec permit context) _ h1 in
      let (_, commits, same) =
        past_match receipt.content_version facts.fact_content_version receipt.service_commitment
          facts.fact_commitment uncoded_error h2 in
      let (evening, _) = facts-Settled checkpoint nonce derived in
      let settled_evening = subst (Settled checkpoint nonce) (sym commits) evening in
      subst (λ r. Settled checkpoint nonce r.service_commitment × Admitted codec permit context r)
        same (settled_evening, admit_receipt_permit-Admitted codec permit context admitted)
