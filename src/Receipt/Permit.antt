-- ===== src/Receipt/Permit.antt =====
-- packages/receipt-authority/src/model.ts: issuer policies and permits, and how they are read.
use samurai_sushi.Common.{
  Bool, String, Option, some, List, [], ◌∷◌, leb, ltb, Result, ok, err, ◌>>=◌, ◌>>◌, reject,
  from_option, invalid_receipt_input,
}
use samurai_sushi.Json.{Json, bool, Fields, get}
use samurai_sushi.Receipt.Payload.{
  Codec, ReceiptPayload, plain_record, bounded_string, canonical_natural, canonical_hex32,
  canonical_identifier, canonical_public_key, big_int, parse_receipt_payload,
}

pub record IssuerKeyPolicy : Type 0 where
  pub key_id : String
  pub policy_version : String
  pub public_key : String
  pub activates_at : String
  pub retires_at : String
  pub verify_until : String
  pub revoked : Bool

pub record ReceiptPermit : Type 0 where
  pub payload : ReceiptPayload
  pub payload_hash : String
  pub signature : String

abbrev policy_keys : List String
policy_keys =
    "activatesAt" ∷ "keyId" ∷ "policyVersion" ∷ "publicKey" ∷ "retiresAt" ∷ "revoked"
    ∷ "verifyUntil" ∷ []

abbrev read_bool : Option Json → Result Bool
read_bool (some (bool b)) = ok b
read_bool _ = err invalid_receipt_input

module _ (codec : Codec) where
  abbrev read_policy : Fields → Result IssuerKeyPolicy
  read_policy row = read_bool (get row "revoked") >>= λ revoked.
      canonical_identifier (get row "keyId") >>= λ key_id.
      canonical_natural (get row "policyVersion") >>= λ policy_version.
      canonical_public_key codec (get row "publicKey") >>= λ public_key.
      canonical_natural (get row "activatesAt") >>= λ activates_at.
      canonical_natural (get row "retiresAt") >>= λ retires_at.
      canonical_natural (get row "verifyUntil") >>= λ verify_until. ok (record {
        key_id = key_id;
        policy_version = policy_version;
        public_key = public_key;
        activates_at = activates_at;
        retires_at = retires_at;
        verify_until = verify_until;
        revoked = revoked;
      })

  unfoldable pub parse_issuer_key_policy : Json → Result IssuerKeyPolicy
  parse_issuer_key_policy input = plain_record input policy_keys >>= λ row.
      read_policy row >>= λ policy.
      reject (leb (big_int policy.retires_at) (big_int policy.activates_at)) invalid_receipt_input
      >> reject (ltb (big_int policy.verify_until) (big_int policy.retires_at))
          invalid_receipt_input
      >> ok policy

  unfoldable pub parse_permit : Json → Result ReceiptPermit
  parse_permit input = plain_record input ("payload" ∷ "payloadHash" ∷ "signature" ∷ []) >>= λ row.
      bounded_string 192 (get row "signature") >>= λ signature.
      from_option (get row "payload") invalid_receipt_input >>= λ payload_input.
      parse_receipt_payload codec payload_input >>= λ payload.
      canonical_hex32 (get row "payloadHash") >>= λ payload_hash.
      ok (record { payload = payload; payload_hash = payload_hash; signature = signature })
