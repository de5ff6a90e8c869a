-- ===== src/Examples/Issue.antt =====
-- A permit for the evening of the examples, issued and checked before its submission.
use samurai_sushi.Common.{◌≡◌, refl, String, Option, some, ok}
use samurai_sushi.Json.{Json, str, obj, Fields, end, field, get}
use samurai_sushi.Service.Encode.{checkpoint_json}
use samurai_sushi.Receipt.Pack.{hash_receipt_payload}
use samurai_sushi.Receipt.Permit.{ReceiptPermit}
use samurai_sushi.Receipt.Admission.Laws.{Admitted}
use samurai_sushi.Receipt.Issuance.{
  exact_issuance_input, given, commitment, derive_settled_service_receipt_facts,
  issue_settled_receipt_permit, admit_settled_receipt_permit,
}
use samurai_sushi.Receipt.Issuance.Laws.{
  IssuedFor, Settled, issue_settled_receipt_permit-Settled, admit_settled_receipt_permit-Settled,
}
use samurai_sushi.Examples.Shift.{reducer}
use samurai_sushi.Examples.Evening.{evening_end, envelope}
use samurai_sushi.Examples.Permit.{
  sample_codec, sample_context, sample_receipt, permit_json, owner_text, contract_text, zeros32,
  hash32, admission,
}

abbrev issuance_json : Json
issuance_json = obj (
    field "chainId" (str "NetXsample") (
      field "checkpoint" (checkpoint_json evening_end) (
        field "commitmentNonce" (str zeros32) (
          field "deploymentManifestHash" (str zeros32) (
            field "destination" (str contract_text) (
              field "expiry" (str "1900") (
                field "issuedAt" (str "1000") (
                  field "issuerKeyId" (str "key-1") (
                    field "issuerPolicyVersion" (str "3")
                      (field "nonce" (str hash32) (field "owner" (str owner_text) end)))))))))))

abbrev sample_signer : String → Option String
sample_signer hash = some "edsigsample"

abbrev issued_permit : ReceiptPermit
issued_permit = record {
  payload = record {
    domain = "SAMURAI_SUSHI_RECEIPT_V1";
    schema_version = 1;
    chain_id = "NetXsample";
    owner = owner_text;
    source = owner_text;
    destination = contract_text;
    entrypoint = "submit_receipt";
    attached_mutez = "0";
    service_commitment = hash32;
    content_version = "phase-1-evening-service-v1";
    nonce = hash32;
    issued_at = "1000";
    expiry = "1900";
    deployment_manifest_hash = zeros32;
    issuer_key_id = "key-1";
    issuer_policy_version = "3";
  };
  payload_hash = hash32;
  signature = "edsigsample";
}

issued : issue_settled_receipt_permit sample_codec sample_signer issuance_json ≡ ok issued_permit
unfolding reducer envelope admission commitment derive_settled_service_receipt_facts
    issue_settled_receipt_permit
issued = refl

issue_settled_receipt_permit-Settled_example :
    (row : Fields) × (exact_issuance_input issuance_json ≡ ok row)
    × Settled sample_codec
        (given row "checkpoint")
        (get row "commitmentNonce")
        issued_permit.payload.service_commitment
    × IssuedFor row issued_permit.payload
    × (hash_receipt_payload sample_codec issued_permit.payload ≡ ok issued_permit.payload_hash)
    × (sample_signer issued_permit.payload_hash ≡ some issued_permit.signature)
issue_settled_receipt_permit-Settled_example =
    issue_settled_receipt_permit-Settled sample_codec sample_signer issuance_json issued

settled_admitted :
    admit_settled_receipt_permit sample_codec permit_json sample_context
      (checkpoint_json evening_end)
      (some (str zeros32))
    ≡ ok sample_receipt
unfolding reducer envelope admission commitment derive_settled_service_receipt_facts
    admit_settled_receipt_permit
settled_admitted = refl

admit_settled_receipt_permit-Settled_example :
    Settled sample_codec
      (checkpoint_json evening_end)
      (some (str zeros32))
      sample_receipt.service_commitment
    × Admitted sample_codec permit_json sample_context sample_receipt
admit_settled_receipt_permit-Settled_example =
    admit_settled_receipt_permit-Settled sample_codec permit_json sample_context
      (checkpoint_json evening_end) (some (str zeros32)) settled_admitted
