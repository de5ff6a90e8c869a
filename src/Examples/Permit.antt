-- ===== src/Examples/Permit.antt =====
-- The admission of a receipt permit at a concrete permit.
use samurai_sushi.Common.{
  ℕ, ◌≡◌, refl, true, false, String, Option, none, some, List, [], ◌∷◌, ok, ◌==◌, if◌then◌else◌,
}
use samurai_sushi.Json.{Json, nat, num, bool, str, obj, Fields, end, field}
use samurai_sushi.Service.{first_evening_content_version}
use samurai_sushi.Commands.Patterns.{codes}
use samurai_sushi.Receipt.Payload.{
  Codec, big_int, is_natural, is_hex32, is_identifier, is_address, parse_receipt_payload,
}
use samurai_sushi.Receipt.Pack.{pack_receipt_payload, hash_receipt_payload}
use samurai_sushi.Receipt.Pack.Numbers.{zarith_natural, zarith_rest, u32}
use samurai_sushi.Receipt.Admission.{
  AdmissionContext, PublicReceipt, read_authority, owner_commitment_key, admit_signed, admit_timed,
  admit_dispatched, admit_receipt_permit,
}
use samurai_sushi.Receipt.Permit.{parse_issuer_key_policy, parse_permit}
use samurai_sushi.Receipt.Admission.Laws.{Admitted, admit_receipt_permit-Admitted}

abbrev pub owner_text : String
owner_text = "tz1sampleownersampleo1"

abbrev pub contract_text : String
contract_text = "KT1samplecontractsamp1"

-- Two addresses, told apart by the first byte.
abbrev pub address_of : List ℕ → Option String
address_of [] = none
address_of (b ∷ bs) = elim (codes contract_text) [
  | [] ↦ none
  | k ∷ ks ↦ if b == k then some contract_text else some owner_text
]

abbrev pub twos : List ℕ
twos =
    2 ∷ 2 ∷ 2 ∷ 2 ∷ 2 ∷ 2 ∷ 2 ∷ 2 ∷ 2 ∷ 2 ∷ 2 ∷ 2 ∷ 2 ∷ 2 ∷ 2 ∷ 2 ∷ 2 ∷ 2 ∷ 2 ∷ 2 ∷ 2 ∷ 2 ∷ 2 ∷ 2
    ∷ 2 ∷ 2 ∷ 2 ∷ 2 ∷ 2 ∷ 2 ∷ 2 ∷ 2 ∷ []

abbrev pub sample_codec : Codec
sample_codec = record {
  decode_chain_id = λ s. some (1 ∷ 1 ∷ 1 ∷ 1 ∷ []);
  encode_chain_id = λ bytes. "NetXsample";
  decode_address = λ s. some (codes s);
  encode_address = address_of;
  decode_public_key = λ s. some twos;
  encode_public_key = λ bytes. "edpksample";
  utf8 = codes;
  blake2b = λ bytes. twos;
  verify_signature = λ bytes key signature. some true;
}

abbrev pub zeros32 : String
zeros32 = "0000000000000000000000000000000000000000000000000000000000000000"

abbrev pub hash32 : String
hash32 = "0202020202020202020202020202020202020202020202020202020202020202"

abbrev pub payload_end : Fields
payload_end = field "serviceCommitment" (str hash32) (
    field "contentVersion" (str first_evening_content_version) (
      field "nonce" (str hash32) (
        field "issuedAt" (str "1000") (
          field "expiry" (str "1900") (
            field "deploymentManifestHash" (str zeros32)
              (field "issuerKeyId" (str "key-1") (field "issuerPolicyVersion" (str "3") end)))))))

abbrev pub payload_json : Json
payload_json = obj (
    field "domain" (str "SAMURAI_SUSHI_RECEIPT_V1") (
      field "schemaVersion" (num (nat 1)) (
        field "chainId" (str "NetXsample") (
          field "owner" (str owner_text) (
            field "source" (str owner_text) (
              field "destination" (str contract_text) (
                field "entrypoint" (str "submit_receipt")
                  (field "attachedMutez" (str "0") payload_end))))))))

abbrev pub permit_json : Json
permit_json = obj (
    field "payload" payload_json
      (field "payloadHash" (str hash32) (field "signature" (str "edsigsample") end)))

abbrev pub policy_json : Json
policy_json = obj (
    field "keyId" (str "key-1") (
      field "policyVersion" (str "3") (
        field "publicKey" (str "edpksample") (
          field "activatesAt" (str "500") (
            field "retiresAt" (str "5000")
              (field "verifyUntil" (str "6000") (field "revoked" (bool false) end)))))))

abbrev pub sample_context : AdmissionContext
sample_context = record {
  now = "1010";
  sender = owner_text;
  chain_id = "NetXsample";
  destination = contract_text;
  entrypoint = "submit_receipt";
  attached_mutez = "0";
  deployment_manifest_hash = zeros32;
  content_version = first_evening_content_version;
  paused = false;
  issuer_policies = field "key-1" policy_json end;
  used_nonces = [];
  used_owner_commitments = [];
}

abbrev pub sample_receipt : PublicReceipt
sample_receipt = record {
  owner = owner_text;
  service_commitment = hash32;
  content_version = first_evening_content_version;
  nonce = hash32;
  payload_hash = hash32;
  deployment_manifest_hash = zeros32;
  issuer_key_id = "key-1";
  issuer_policy_version = "3";
  issued_at = "1000";
  expiry = "1900";
}

-- Unfolds what the admission computes with.
unfoldable pub admission : Unit {0}
unfolding big_int is_natural is_hex32 is_identifier is_address parse_receipt_payload
    pack_receipt_payload hash_receipt_payload zarith_natural zarith_rest u32 parse_issuer_key_policy
    parse_permit read_authority owner_commitment_key admit_signed admit_timed admit_dispatched
    admit_receipt_permit
admission = tt

pub admitted : admit_receipt_permit sample_codec permit_json sample_context ≡ ok sample_receipt
unfolding admission
admitted = refl

admit_receipt_permit-Admitted_example :
    Admitted sample_codec permit_json sample_context sample_receipt
admit_receipt_permit-Admitted_example =
    admit_receipt_permit-Admitted sample_codec permit_json sample_context admitted
