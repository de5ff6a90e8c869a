-- ===== src/Receipt/Payload.antt =====
-- packages/receipt-authority/src/model.ts: the receipt payload and the readers of its fields. The
-- base58 codec, the hash and the signature check are third-party code and come in a `Codec`.
use samurai_sushi.Common.{
  ℕ, ◌+◌, ◌-◌, ◌*◌, Bool, true, false, not, ◌&&◌, ◌||◌, String, Option, none, some, List, [], ◌∷◌,
  length, all, any, leb, ltb, ◌==◌, str_eq, Result, ok, err, ◌>>=◌, ◌>>◌, guard, reject,
  invalid_receipt_input, if◌then◌else◌,
}
use samurai_sushi.Json.{Json, str, Fields, get}
use samurai_sushi.Json.Bounds.{js_length}
use samurai_sushi.Json.Shape.{plain_object, exact_keys, is_str, is_nat}
use samurai_sushi.Commands.Patterns.{codes, is_hex}

-- `@taquito/utils`, `@noble/hashes` and `TextEncoder`: `none` where the call throws. Each base58
-- function is taken at the one prefix that the source allows.
pub record Codec : Type 0 where
  pub decode_chain_id : String → Option (List ℕ)
  pub encode_chain_id : List ℕ → String
  pub decode_address : String → Option (List ℕ)
  pub encode_address : List ℕ → Option String
  pub decode_public_key : String → Option (List ℕ)
  pub encode_public_key : List ℕ → String
  pub utf8 : String → List ℕ
  pub blake2b : List ℕ → List ℕ
  pub verify_signature : List ℕ → String → String → Option Bool

pub record ReceiptPayload : Type 0 where
  pub domain : String
  pub schema_version : ℕ
  pub chain_id : String
  pub owner : String
  pub source : String
  pub destination : String
  pub entrypoint : String
  pub attached_mutez : String
  pub service_commitment : String
  pub content_version : String
  pub nonce : String
  pub issued_at : String
  pub expiry : String
  pub deployment_manifest_hash : String
  pub issuer_key_id : String
  pub issuer_policy_version : String

abbrev pub receipt_domain : String
receipt_domain = "SAMURAI_SUSHI_RECEIPT_V1"

abbrev pub receipt_entrypoint : String
receipt_entrypoint = "submit_receipt"

abbrev pub receipt_payload_keys : List String
receipt_payload_keys =
    "attachedMutez" ∷ "chainId" ∷ "contentVersion" ∷ "deploymentManifestHash" ∷ "destination"
    ∷ "domain" ∷ "entrypoint" ∷ "expiry" ∷ "issuedAt" ∷ "issuerKeyId" ∷ "issuerPolicyVersion"
    ∷ "nonce" ∷ "owner" ∷ "schemaVersion" ∷ "serviceCommitment" ∷ "source" ∷ []

abbrev pub plain_record : Json → List String → Result Fields
plain_record value expected = plain_object invalid_receipt_input value >>= λ fields.
    exact_keys invalid_receipt_input fields expected >> ok fields

abbrev pub bounded_string : ℕ → Option Json → Result String
bounded_string maximum (some (str s)) =
    guard (ltb 0 (js_length s) && leb (js_length s) maximum) invalid_receipt_input >> ok s
bounded_string maximum _ = err invalid_receipt_input

-- A string field that must pass a test.
abbrev pub tested_string : ℕ → (String → Bool) → Option Json → Result String
tested_string maximum test value =
    bounded_string maximum value >>= λ s. guard (test s) invalid_receipt_input >> ok s

abbrev is_digit : ℕ → Bool
is_digit c = leb b'0' c && leb c b'9'

abbrev natural_codes : List ℕ → Bool
natural_codes [] = false
natural_codes (c ∷ []) = is_digit c
natural_codes (c ∷ cs) = leb b'1' c && leb c b'9' && all is_digit cs

abbrev value_from : ℕ → List ℕ → ℕ
value_from n [] = n
value_from n (c ∷ cs) = value_from (n * 10 + (c - b'0')) cs

-- `BigInt(text)` of a canonical natural.
unfoldable pub big_int : String → ℕ
big_int s = value_from 0 (codes s)

unfoldable pub is_natural : String → Bool
is_natural s = natural_codes (codes s)

unfoldable pub is_hex32 : String → Bool
is_hex32 s = length (codes s) == 64 && all is_hex (codes s)

abbrev is_lower_alnum : ℕ → Bool
is_lower_alnum c = (leb b'a' c && leb c b'z') || is_digit c

abbrev identifier_rest : List ℕ → Bool
identifier_rest [] = true
identifier_rest (c ∷ []) = is_lower_alnum c
identifier_rest (c ∷ cs) =
    (is_lower_alnum c || c == b'.' || c == b'_' || c == b'-') && identifier_rest cs

abbrev identifier_codes : List ℕ → Bool
identifier_codes [] = false
identifier_codes (c ∷ cs) = is_lower_alnum c && identifier_rest cs

unfoldable pub is_identifier : String → Bool
is_identifier s = identifier_codes (codes s)

abbrev pub canonical_natural : Option Json → Result String
canonical_natural value = tested_string 32 is_natural value

abbrev pub canonical_hex32 : Option Json → Result String
canonical_hex32 value = tested_string 64 is_hex32 value

abbrev pub canonical_identifier : Option Json → Result String
canonical_identifier value = tested_string 64 is_identifier value

-- The policy fields of the payload, which come last.
abbrev pub read_policy_fields :
    Fields
    → (chain_id owner source destination service_commitment content_version nonce : String)
    → Result ReceiptPayload
read_policy_fields row chain_id owner source destination service_commitment content_version nonce =
    canonical_natural (get row "issuedAt") >>= λ issued_at.
    canonical_natural (get row "expiry") >>= λ expiry.
    canonical_hex32 (get row "deploymentManifestHash") >>= λ deployment_manifest_hash.
    canonical_identifier (get row "issuerKeyId") >>= λ issuer_key_id.
    canonical_natural (get row "issuerPolicyVersion") >>= λ issuer_policy_version. ok (record {
      domain = receipt_domain;
      schema_version = 1;
      chain_id = chain_id;
      owner = owner;
      source = source;
      destination = destination;
      entrypoint = receipt_entrypoint;
      attached_mutez = "0";
      service_commitment = service_commitment;
      content_version = content_version;
      nonce = nonce;
      issued_at = issued_at;
      expiry = expiry;
      deployment_manifest_hash = deployment_manifest_hash;
      issuer_key_id = issuer_key_id;
      issuer_policy_version = issuer_policy_version;
    })

-- The fields after the destination.
abbrev pub read_content :
    Fields → (chain_id owner source destination : String) → Result ReceiptPayload
read_content row chain_id owner source destination =
    guard (is_str (get row "entrypoint") receipt_entrypoint) invalid_receipt_input
    >> canonical_natural (get row "attachedMutez")
    >>= λ attached_mutez.
        guard (str_eq attached_mutez "0") invalid_receipt_input
        >> canonical_hex32 (get row "serviceCommitment")
        >>= λ service_commitment.
            canonical_identifier (get row "contentVersion") >>= λ content_version.
            canonical_hex32 (get row "nonce") >>= λ nonce.
            read_policy_fields row chain_id owner source destination service_commitment
              content_version nonce

abbrev starts_contract : List ℕ → Bool
starts_contract (k ∷ t ∷ one ∷ cs) = k == b'K' && t == b'T' && one == b'1'
starts_contract _ = false

abbrev starts_implicit : List ℕ → Bool
starts_implicit (t ∷ z ∷ n ∷ cs) = t == b't' && z == b'z' && leb b'1' n && leb n b'4'
starts_implicit _ = false

abbrev is_text : Option String → String → Bool
is_text none s = false
is_text (some t) s = str_eq t s

module _ (codec : Codec) where
  abbrev decodes_chain : Option (List ℕ) → String → Bool
  decodes_chain none s = false
  decodes_chain (some bytes) s = length bytes == 4 && str_eq (codec.encode_chain_id bytes) s

  abbrev decodes_address : Option (List ℕ) → String → Bool
  decodes_address none s = false
  decodes_address (some bytes) s = length bytes == 22 && is_text (codec.encode_address bytes) s

  abbrev decodes_key : Option (List ℕ) → String → Bool
  decodes_key none s = false
  decodes_key (some bytes) s = length bytes == 32 && str_eq (codec.encode_public_key bytes) s

  -- Address tests; the flag is `contractOnly`.
  unfoldable pub is_address : Bool → String → Bool
  is_address contract_only s =
      not (any (λ c. c == b'%') (codes s))
      && (if contract_only then starts_contract (codes s) else true)
      && decodes_address (codec.decode_address s) s
      && (if contract_only then true else starts_implicit (codes s))

  abbrev pub canonical_chain_id : Option Json → Result String
  canonical_chain_id value = tested_string 32 (λ s. decodes_chain (codec.decode_chain_id s) s) value

  abbrev pub canonical_address : Bool → Option Json → Result String
  canonical_address contract_only value = tested_string 64 (is_address contract_only) value

  abbrev pub canonical_public_key : Option Json → Result String
  canonical_public_key value =
      tested_string 64 (λ s. decodes_key (codec.decode_public_key s) s) value

  abbrev pub read_payload : Fields → Result ReceiptPayload
  read_payload row =
      guard (is_str (get row "domain") receipt_domain) invalid_receipt_input
      >> guard (is_nat (get row "schemaVersion") 1) invalid_receipt_input
      >> canonical_chain_id (get row "chainId")
      >>= λ chain_id. canonical_address false (get row "owner") >>= λ owner.
          canonical_address false (get row "source") >>= λ source.
          canonical_address true (get row "destination") >>= λ destination.
          read_content row chain_id owner source destination

  unfoldable pub parse_receipt_payload : Json → Result ReceiptPayload
  parse_receipt_payload input = plain_record input receipt_payload_keys >>= λ row.
      read_payload row >>= λ payload.
      reject (not (str_eq payload.owner payload.source)) invalid_receipt_input >> ok payload
