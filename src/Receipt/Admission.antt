-- ===== src/Receipt/Admission.antt =====
-- packages/receipt-authority/src/model.ts: the admission of a permit.
pub mod Laws
use samurai_sushi.Common.{
  ℕ, ◌+◌, ◌-◌, Bool, true, false, not, ◌&&◌, ◌||◌, String, Option, none, some, List, [], ◌∷◌, leb,
  ltb, str_eq, includes, Result, ok, err, ◌>>=◌, ◌>>◌, guard, reject, from_option,
  invalid_receipt_input, receipt_authority_rejected, if◌then◌else◌,
}
use samurai_sushi.Json.{Json, str, bool, Fields, get}
use samurai_sushi.Json.Text.{◌+++◌}
use samurai_sushi.Commands.Patterns.{codes}
use samurai_sushi.Service.{first_evening_content_version}
use samurai_sushi.Receipt.Payload.{
  Codec, ReceiptPayload, plain_record, bounded_string, canonical_natural, canonical_hex32,
  canonical_identifier, canonical_chain_id, canonical_address, canonical_public_key, big_int,
  receipt_entrypoint, parse_receipt_payload,
}
use samurai_sushi.Receipt.Permit.{
  IssuerKeyPolicy, ReceiptPermit, parse_issuer_key_policy, parse_permit,
}
use samurai_sushi.Receipt.Pack.{hash_receipt_payload, hex_bytes}

-- The policies are a map from key identifiers to values that admission validates again.
pub record AdmissionContext : Type 0 where
  pub now : String
  pub sender : String
  pub chain_id : String
  pub destination : String
  pub entrypoint : String
  pub attached_mutez : String
  pub deployment_manifest_hash : String
  pub content_version : String
  pub paused : Bool
  pub issuer_policies : Fields
  pub used_nonces : List String
  pub used_owner_commitments : List String

pub record PublicReceipt : Type 0 where
  pub owner : String
  pub service_commitment : String
  pub content_version : String
  pub nonce : String
  pub payload_hash : String
  pub deployment_manifest_hash : String
  pub issuer_key_id : String
  pub issuer_policy_version : String
  pub issued_at : String
  pub expiry : String

pub record ReceiptEvent : Type 0 where
  pub event_owner : String
  pub event_commitment : String
  pub event_content_version : String
  pub event_nonce : String
  pub event_payload_hash : String

abbrev pub max_permit_lifetime_seconds : ℕ
max_permit_lifetime_seconds = 900

abbrev pub max_clock_skew_seconds : ℕ
max_clock_skew_seconds = 30

unfoldable pub owner_commitment_key : String → String → String
owner_commitment_key owner commitment = owner +++ "\0" +++ commitment

abbrev pub service_receipt_event : PublicReceipt → ReceiptEvent
service_receipt_event receipt = record {
  event_owner = receipt.owner;
  event_commitment = receipt.service_commitment;
  event_content_version = receipt.content_version;
  event_nonce = receipt.nonce;
  event_payload_hash = receipt.payload_hash;
}

-- The canonical texts of the context.
pub record Authority : Type 0 where
  pub time : ℕ
  pub sender : String
  pub chain : String
  pub destination : String
  pub manifest : String
  pub content : String

-- `receipt dispatch …` and `receipt content version …`: the permit names this authority's dispatch.
abbrev pub dispatch_mismatch : ReceiptPayload → Authority → AdmissionContext → Bool
dispatch_mismatch payload a context =
    not (str_eq payload.chain_id a.chain)
    || not (str_eq payload.destination a.destination)
    || not (str_eq payload.entrypoint context.entrypoint)

abbrev pub dispatch_policy_mismatch : ReceiptPayload → Authority → AdmissionContext → Bool
dispatch_policy_mismatch payload a context =
    not (str_eq payload.attached_mutez context.attached_mutez)
    || not (str_eq payload.deployment_manifest_hash a.manifest)

abbrev pub content_mismatch : ReceiptPayload → Authority → Bool
content_mismatch payload a =
    not (str_eq payload.content_version a.content)
    || not (str_eq a.content first_evening_content_version)

abbrev pub outside_window : ReceiptPayload → IssuerKeyPolicy → Bool
outside_window payload policy = not (
    leb (big_int policy.activates_at) (big_int payload.issued_at)
    && ltb (big_int payload.issued_at) (big_int policy.retires_at))

abbrev pub lifetime_invalid : ReceiptPayload → Bool
lifetime_invalid payload =
    not (ltb (big_int payload.issued_at) (big_int payload.expiry))
    || ltb max_permit_lifetime_seconds (big_int payload.expiry - big_int payload.issued_at)

abbrev pub is_closed : ℕ → ReceiptPayload → IssuerKeyPolicy → Bool
is_closed now payload policy =
    not (ltb now (big_int payload.expiry)) || not (ltb now (big_int policy.verify_until))

-- A verification that throws is a failed one.
abbrev pub is_verified : Option Bool → Bool
is_verified (some true) = true
is_verified _ = false

module _ (codec : Codec) where
  unfoldable pub receipt_owner_commitment_key : String → String → Result String
  receipt_owner_commitment_key owner commitment =
      canonical_address codec false (some (str owner)) >>= λ o.
      canonical_hex32 (some (str commitment)) >>= λ c. ok (owner_commitment_key o c)

  unfoldable pub read_authority : AdmissionContext → Result Authority
  read_authority context = canonical_natural (some (str context.now)) >>= λ now.
      canonical_address codec false (some (str context.sender)) >>= λ sender.
      canonical_chain_id codec (some (str context.chain_id)) >>= λ chain.
      canonical_address codec true (some (str context.destination)) >>= λ destination.
      canonical_hex32 (some (str context.deployment_manifest_hash)) >>= λ manifest.
      canonical_identifier (some (str context.content_version)) >>= λ content. ok (record {
        time = big_int now;
        sender = sender;
        chain = chain;
        destination = destination;
        manifest = manifest;
        content = content;
      })

  -- The end of the admission: the hash, the signature, and what was accepted before.
  unfoldable pub admit_signed :
      ReceiptPermit → IssuerKeyPolicy → AdmissionContext → Result PublicReceipt
  admit_signed permit policy context =
      let payload = permit.payload in
      hash_receipt_payload codec payload >>= λ computed.
      reject (not (str_eq permit.payload_hash computed)) receipt_authority_rejected
      >> guard
          (is_verified (
            codec.verify_signature (hex_bytes (codes computed)) policy.public_key permit.signature))
          receipt_authority_rejected
      >> reject (includes context.used_nonces payload.nonce) receipt_authority_rejected
      >> reject
          (includes context.used_owner_commitments
            (owner_commitment_key payload.owner payload.service_commitment))
          receipt_authority_rejected
      >> ok (record {
        owner = payload.owner;
        service_commitment = payload.service_commitment;
        content_version = payload.content_version;
        nonce = payload.nonce;
        payload_hash = computed;
        deployment_manifest_hash = payload.deployment_manifest_hash;
        issuer_key_id = payload.issuer_key_id;
        issuer_policy_version = payload.issuer_policy_version;
        issued_at = payload.issued_at;
        expiry = payload.expiry;
      })

  -- The guards on the policy and on the times.
  unfoldable pub admit_timed :
      ReceiptPermit → ℕ → IssuerKeyPolicy → AdmissionContext → Result PublicReceipt
  admit_timed permit now policy context =
      let payload = permit.payload in
      reject (not (str_eq policy.policy_version payload.issuer_policy_version) || policy.revoked)
        receipt_authority_rejected
      >> reject (outside_window payload policy) receipt_authority_rejected
      >> reject (ltb (now + max_clock_skew_seconds) (big_int payload.issued_at))
          receipt_authority_rejected
      >> reject (lifetime_invalid payload) receipt_authority_rejected
      >> reject (is_closed now payload policy) receipt_authority_rejected
      >> admit_signed permit policy context

  -- The guards on the dispatch, and the issuer's policy.
  unfoldable pub admit_dispatched :
      ReceiptPermit → Authority → AdmissionContext → Result PublicReceipt
  admit_dispatched permit a context =
      let payload = permit.payload in
      reject
        (not (str_eq context.entrypoint receipt_entrypoint)
          || not (str_eq context.attached_mutez "0"))
        invalid_receipt_input
      >> reject context.paused receipt_authority_rejected
      >> reject (not (str_eq payload.owner a.sender) || not (str_eq payload.source a.sender))
          receipt_authority_rejected
      >> reject (dispatch_mismatch payload a context) receipt_authority_rejected
      >> reject (dispatch_policy_mismatch payload a context) receipt_authority_rejected
      >> reject (content_mismatch payload a) receipt_authority_rejected
      >> from_option (get context.issuer_policies payload.issuer_key_id) receipt_authority_rejected
      >>= λ entry.
          parse_issuer_key_policy codec entry >>= λ policy. admit_timed permit a.time policy context

  unfoldable pub admit_receipt_permit : Json → AdmissionContext → Result PublicReceipt
  admit_receipt_permit input context = parse_permit codec input >>= λ permit.
      read_authority context >>= λ a. admit_dispatched permit a context
