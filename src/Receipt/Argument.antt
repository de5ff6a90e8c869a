-- ===== src/Receipt/Argument.antt =====
-- packages/receipt-authority/src/michelson-argument.ts: the permit as the text of a Michelson
-- argument. `none` is the error of a record without a pair.
use samurai_sushi.Common.{String, Option, none, some, List, [], ◌∷◌}
use samurai_sushi.Json.{nat}
use samurai_sushi.Json.Text.{◌+++◌, quote, number_text}
use samurai_sushi.Receipt.Payload.{ReceiptPayload}
use samurai_sushi.Receipt.Permit.{ReceiptPermit}

abbrev pub nested : String → Option String → Option String
nested value none = none
nested value (some rest) = some ("Pair " +++ value +++ " (" +++ rest +++ ")")

-- `rightComb`, from the last pair to the first value.
abbrev pub comb_text : List String → Option String
comb_text [] = none
comb_text (x ∷ []) = none
comb_text (x ∷ y ∷ []) = some ("Pair " +++ x +++ " " +++ y)
comb_text (x ∷ rest) = nested x (comb_text rest)

unfoldable pub receipt_payload_michelson : ReceiptPayload → Option String
receipt_payload_michelson payload = comb_text (
    quote payload.domain
    ∷ number_text (nat payload.schema_version)
    ∷ quote payload.chain_id
    ∷ quote payload.owner
    ∷ quote payload.source
    ∷ quote payload.destination
    ∷ quote payload.entrypoint
    ∷ payload.attached_mutez
    ∷ ("0x" +++ payload.service_commitment)
    ∷ quote payload.content_version
    ∷ ("0x" +++ payload.nonce)
    ∷ payload.issued_at
    ∷ payload.expiry
    ∷ ("0x" +++ payload.deployment_manifest_hash)
    ∷ quote payload.issuer_key_id
    ∷ payload.issuer_policy_version
    ∷ [])

abbrev with_signature : ReceiptPermit → Option String → Option String
with_signature permit none = none
with_signature permit (some payload) = some (
    "Pair ("
    +++ payload
    +++ ") (Pair 0x"
    +++ permit.payload_hash
    +++ " "
    +++ quote permit.signature
    +++ ")")

unfoldable pub receipt_permit_michelson_argument : ReceiptPermit → Option String
receipt_permit_michelson_argument permit =
    with_signature permit (receipt_payload_michelson permit.payload)
