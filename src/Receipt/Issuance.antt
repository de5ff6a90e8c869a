-- ===== src/Receipt/Issuance.antt =====
-- packages/receipt-authority/src/commitment.ts and issuance.ts: the commitment to a settled evening,
-- the issue of a permit for it, and the check before a permit is submitted.
pub mod Laws
use samurai_sushi.Common.{
  ℕ, Bool, not, ◌&&◌, ◌||◌, String, Option, none, some, List, [], ◌∷◌, ◌++◌, leb, ltb, str_eq,
  Result, ok, err, ◌>>=◌, ◌>>◌, guard, reject, from_option, uncoded_error,
}
use samurai_sushi.Json.{Json, null, nat, num, str, obj, Fields, end, field, get}
use samurai_sushi.Json.Bounds.{js_length}
use samurai_sushi.Json.Shape.{plain_object, exact_keys}
use samurai_sushi.Json.Text.{canonical_json}
use samurai_sushi.Commands.Patterns.{codes}
use samurai_sushi.Service.{Checkpoint, first_evening_content_version}
use samurai_sushi.Service.Invariants.{is_settled}
use samurai_sushi.Service.Decode.{decode_checkpoint}
use samurai_sushi.Service.Encode.{checkpoint_json}
use samurai_sushi.Receipt.Payload.{
  Codec, is_hex32, parse_receipt_payload, receipt_domain, receipt_entrypoint,
}
use samurai_sushi.Receipt.Pack.{hash_receipt_payload, hex_bytes, hex_text}
use samurai_sushi.Receipt.Admission.{AdmissionContext, PublicReceipt, admit_receipt_permit}
use samurai_sushi.Receipt.Permit.{ReceiptPermit}

-- `SettledServiceReceiptFacts`.
pub record ReceiptFacts : Type 0 where
  pub fact_content_version : String
  pub fact_commitment : String

abbrev service_commitment_domain : String
service_commitment_domain = "SAMURAI_SUSHI_SERVICE_COMMITMENT_V1\0"

abbrev pub nonce_bytes : Option Json → Result (List ℕ)
nonce_bytes (some (str s)) = guard (is_hex32 s) uncoded_error >> ok (hex_bytes (codes s))
nonce_bytes _ = err uncoded_error

abbrev issuance_keys : List String
issuance_keys =
    "chainId" ∷ "checkpoint" ∷ "commitmentNonce" ∷ "deploymentManifestHash" ∷ "destination"
    ∷ "expiry" ∷ "issuedAt" ∷ "issuerKeyId" ∷ "issuerPolicyVersion" ∷ "nonce" ∷ "owner" ∷ []

abbrev pub exact_issuance_input : Json → Result Fields
exact_issuance_input input =
    plain_object uncoded_error input >>= λ row. exact_keys uncoded_error row issuance_keys >> ok row

-- The value of a property that the exact keys guarantee.
abbrev pub given : Fields → String → Json
given row key = elim (get row key) [ none ↦ null | some j ↦ j ]

-- The object that is parsed as the payload.
abbrev pub issued_payload : Fields → ReceiptFacts → Json
issued_payload row facts = obj (
    field "domain" (str receipt_domain) (
      field "schemaVersion" (num (nat 1)) (
        field "chainId" (given row "chainId") (
          field "owner" (given row "owner") (
            field "source" (given row "owner") (
              field "destination" (given row "destination") (
                field "entrypoint" (str receipt_entrypoint) (
                  field "attachedMutez" (str "0") (
                    field "serviceCommitment" (str facts.fact_commitment) (
                      field "contentVersion" (str facts.fact_content_version) (
                        field "nonce" (given row "nonce") (
                          field "issuedAt" (given row "issuedAt") (
                            field "expiry" (given row "expiry") (
                              field "deploymentManifestHash" (given row "deploymentManifestHash") (
                                field "issuerKeyId" (given row "issuerKeyId") (
                                  field "issuerPolicyVersion" (given row "issuerPolicyVersion")
                                    end))))))))))))))))

module _ (codec : Codec) where
  -- The text of the commitment: domain, nonce and canonical checkpoint, hashed.
  unfoldable pub commitment : Checkpoint → Option Json → Result String
  commitment c server_nonce = nonce_bytes server_nonce >>= λ nonce.
      canonical_json (checkpoint_json c) >>= λ text.
      ok (
        hex_text (codec.blake2b (codec.utf8 service_commitment_domain ++ nonce ++ codec.utf8 text)))

  unfoldable pub derive_settled_service_receipt_facts : Json → Option Json → Result ReceiptFacts
  derive_settled_service_receipt_facts checkpoint_input server_nonce =
      decode_checkpoint checkpoint_input >>= λ c.
      guard (is_settled c.phase) uncoded_error >> commitment c server_nonce >>= λ digest.
      ok (record { fact_content_version = first_evening_content_version; fact_commitment = digest })

  -- `none` where the signer throws or gives no text.
  unfoldable pub issue_settled_receipt_permit :
      (signer : String → Option String) → Json → Result ReceiptPermit
  issue_settled_receipt_permit signer input = exact_issuance_input input >>= λ row.
      derive_settled_service_receipt_facts (given row "checkpoint") (get row "commitmentNonce")
      >>= λ facts. parse_receipt_payload codec (issued_payload row facts) >>= λ payload.
          hash_receipt_payload codec payload >>= λ payload_hash.
          from_option (signer payload_hash) uncoded_error >>= λ signature.
          guard (ltb 0 (js_length signature) && leb (js_length signature) 192) uncoded_error
          >> ok (record { payload = payload; payload_hash = payload_hash; signature = signature })

  unfoldable pub admit_settled_receipt_permit :
      Json → AdmissionContext → Json → Option Json → Result PublicReceipt
  admit_settled_receipt_permit permit context checkpoint commitment_nonce =
      derive_settled_service_receipt_facts checkpoint commitment_nonce >>= λ facts.
      admit_receipt_permit codec permit context >>= λ receipt.
      reject
        (not (str_eq receipt.content_version facts.fact_content_version)
          || not (str_eq receipt.service_commitment facts.fact_commitment))
        uncoded_error
      >> ok receipt
