-- ===== src/Receipt/PayloadFields.antt =====
-- The fields of a receipt payload that packages/receipt-authority/src/model.ts has read.
use samurai_sushi.Common.{
  ◌≡◌, true, false, ap, ◌∙◌, ℕ, Bool, String, Option, none, some, Result, ok, guard, ◌>>◌, reject,
  >>=-eq-ok, >>-eq-ok, ok_injective, invalid_receipt_input, str_eq, eq_iff, not, ◌&&◌, ltb, leb,
  arith, subst, reject-eq-ok,
}
use samurai_sushi.Json.{Json, null, bool, num, str, arr, obj, Fields, get}
use samurai_sushi.Json.Bounds.{js_length}
use samurai_sushi.Json.Shape.{is_str, is_nat}
use samurai_sushi.Receipt.Payload.{
  Codec, ReceiptPayload, tested_string, bounded_string, canonical_natural, canonical_hex32,
  canonical_identifier, canonical_chain_id, canonical_address, read_payload, read_content,
  read_policy_fields, receipt_domain, receipt_entrypoint, parse_receipt_payload, plain_record,
  receipt_payload_keys,
}

-- The texts of a row that a payload carries.
pub record Carries (row : Fields) (p : ReceiptPayload) : Type 0 where
  pub chain_id : get row "chainId" ≡ some (str p.chain_id)
  pub owner : get row "owner" ≡ some (str p.owner)
  pub source : get row "source" ≡ some (str p.source)
  pub destination : get row "destination" ≡ some (str p.destination)
  pub service_commitment : get row "serviceCommitment" ≡ some (str p.service_commitment)
  pub content_version : get row "contentVersion" ≡ some (str p.content_version)
  pub nonce : get row "nonce" ≡ some (str p.nonce)
  pub issued_at : get row "issuedAt" ≡ some (str p.issued_at)
  pub expiry : get row "expiry" ≡ some (str p.expiry)
  pub deployment_manifest_hash :
      get row "deploymentManifestHash" ≡ some (str p.deployment_manifest_hash)
  pub issuer_key_id : get row "issuerKeyId" ≡ some (str p.issuer_key_id)
  pub issuer_policy_version : get row "issuerPolicyVersion" ≡ some (str p.issuer_policy_version)

bounded_text : (n : ℕ) (o : Option Json) {v : String} → bounded_string n o ≡ ok v → o ≡ some (str v)
bounded_text n none h = cc
bounded_text n (some (str s)) h =
    let (_, same) =
      >>-eq-ok (guard (ltb 0 (js_length s) && leb (js_length s) n) invalid_receipt_input) _ h in
    ap (λ t. some (str t)) (ok_injective same)
bounded_text n (some null) h = cc
bounded_text n (some (bool b)) h = cc
bounded_text n (some (num x)) h = cc
bounded_text n (some (arr js)) h = cc
bounded_text n (some (obj fs)) h = cc

text_read :
    (n : ℕ) (test : String → Bool) (o : Option Json) {v : String}
    → tested_string n test o ≡ ok v
    → o ≡ some (str v)
text_read n test o h =
    let (s, bounded, h1) = >>=-eq-ok (bounded_string n o) _ h in
    let (_, same) = >>-eq-ok (guard (test s) invalid_receipt_input) _ h1 in
    bounded_text n o bounded ∙ ap (λ t. some (str t)) (ok_injective same)

past_two :
    {A : Type 0} (a b : Bool) (k : Result A) {x : A}
    → (guard a invalid_receipt_input >> guard b invalid_receipt_input >> k) ≡ ok x
    → k ≡ ok x
past_two a b k h = ground arith

same_text : (s t : String) → not (str_eq s t) ≡ false → s ≡ t
same_text s t h = ground (arith, eq_iff s t)

read_policy_fields-Carries :
    (row : Fields)
    (chain_id owner source destination service_commitment content_version nonce : String)
    {p : ReceiptPayload}
    → get row "chainId" ≡ some (str chain_id)
    → get row "owner" ≡ some (str owner)
    → get row "source" ≡ some (str source)
    → get row "destination" ≡ some (str destination)
    → get row "serviceCommitment" ≡ some (str service_commitment)
    → get row "contentVersion" ≡ some (str content_version)
    → get row "nonce" ≡ some (str nonce)
    → read_policy_fields row chain_id owner source destination service_commitment content_version
        nonce
      ≡ ok p
    → Carries row p
read_policy_fields-Carries row chain_id owner source destination service_commitment content_version
      nonce r1 r2 r3 r4 r5 r6 r7 h =
    let (issued_at, s0, k0) = >>=-eq-ok (canonical_natural (get row "issuedAt")) _ h in
    let (expiry, s1, k1) = >>=-eq-ok (canonical_natural (get row "expiry")) _ k0 in
    let (deployment_manifest_hash, s2, k2) =
      >>=-eq-ok (canonical_hex32 (get row "deploymentManifestHash")) _ k1 in
    let (issuer_key_id, s3, k3) = >>=-eq-ok (canonical_identifier (get row "issuerKeyId")) _ k2 in
    let (issuer_policy_version, s4, k4) =
      >>=-eq-ok (canonical_natural (get row "issuerPolicyVersion")) _ k3 in
    subst (Carries row) (ok_injective k4) (record {
      chain_id = r1;
      owner = r2;
      source = r3;
      destination = r4;
      service_commitment = r5;
      content_version = r6;
      nonce = r7;
      issued_at = text_read _ _ (get row "issuedAt") s0;
      expiry = text_read _ _ (get row "expiry") s1;
      deployment_manifest_hash = text_read _ _ (get row "deploymentManifestHash") s2;
      issuer_key_id = text_read _ _ (get row "issuerKeyId") s3;
      issuer_policy_version = text_read _ _ (get row "issuerPolicyVersion") s4;
    })

read_content-Carries :
    (row : Fields) (chain_id owner source destination : String) {p : ReceiptPayload}
    → get row "chainId" ≡ some (str chain_id)
    → get row "owner" ≡ some (str owner)
    → get row "source" ≡ some (str source)
    → get row "destination" ≡ some (str destination)
    → read_content row chain_id owner source destination ≡ ok p
    → Carries row p
read_content-Carries row chain_id owner source destination r1 r2 r3 r4 h =
    let named =
      guard (is_str (get row "entrypoint") receipt_entrypoint) invalid_receipt_input
      >> canonical_natural (get row "attachedMutez") in
    let (mutez, _, h1) = >>=-eq-ok named _ h in
    let unattached =
      guard (str_eq mutez "0") invalid_receipt_input
      >> canonical_hex32 (get row "serviceCommitment") in
    let (service_commitment, guarded, h2) = >>=-eq-ok unattached _ h1 in
    let (_, r5) = >>-eq-ok (guard (str_eq mutez "0") invalid_receipt_input) _ guarded in
    let (content_version, r6, h3) =
      >>=-eq-ok (canonical_identifier (get row "contentVersion")) _ h2 in
    let (nonce, r7, h4) = >>=-eq-ok (canonical_hex32 (get row "nonce")) _ h3 in
    read_policy_fields-Carries row chain_id owner source destination service_commitment
      content_version nonce r1 r2 r3 r4 (text_read _ _ (get row "serviceCommitment") r5)
      (text_read _ _ (get row "contentVersion") r6) (text_read _ _ (get row "nonce") r7) h4

module _ (codec : Codec) where
  -- A payload that is read carries the texts of its row.
  read_payload-Carries :
      (row : Fields) {p : ReceiptPayload} → read_payload codec row ≡ ok p → Carries row p
  read_payload-Carries row {p} h =
      let opening =
        guard (is_str (get row "domain") receipt_domain) invalid_receipt_input
        >> guard (is_nat (get row "schemaVersion") 1) invalid_receipt_input
        >> canonical_chain_id codec (get row "chainId") in
      let (chain_id, opened, h1) = >>=-eq-ok opening _ h in
      let r1 =
        past_two (is_str (get row "domain") receipt_domain) (is_nat (get row "schemaVersion") 1)
          (canonical_chain_id codec (get row "chainId")) opened in
      let (owner, r2, h2) = >>=-eq-ok (canonical_address codec false (get row "owner")) _ h1 in
      let (source, r3, h3) = >>=-eq-ok (canonical_address codec false (get row "source")) _ h2 in
      let (destination, r4, h4) =
        >>=-eq-ok (canonical_address codec true (get row "destination")) _ h3 in
      read_content-Carries row chain_id owner source destination
        (text_read _ _ (get row "chainId") r1) (text_read _ _ (get row "owner") r2)
        (text_read _ _ (get row "source") r3) (text_read _ _ (get row "destination") r4) h4

  -- A payload that is parsed carries the texts of its row, and its source is its owner.
  pub parse_receipt_payload-Carries :
      (row : Fields) {p : ReceiptPayload}
      → parse_receipt_payload codec (obj row) ≡ ok p
      → Carries row p × (p.owner ≡ p.source)
  unfolding parse_receipt_payload
  parse_receipt_payload-Carries row {p} h =
      let (same_row, keyed, h1) = >>=-eq-ok (plain_record (obj row) receipt_payload_keys) _ h in
      let (_, kept) = >>-eq-ok _ _ keyed in
      let (q, read, h2) = >>=-eq-ok (read_payload codec same_row) _ h1 in
      let (sourced, h3) =
        >>-eq-ok (reject (not (str_eq q.owner q.source)) invalid_receipt_input) _ h2 in
      let carried = read_payload-Carries row (ap (read_payload codec) (ok_injective kept) ∙ read) in
      let same : q.owner ≡ q.source =
        same_text q.owner q.source
          (reject-eq-ok (not (str_eq q.owner q.source)) invalid_receipt_input sourced) in
      subst (λ x. Carries row x × (x.owner ≡ x.source)) (ok_injective h3) (carried, same)
