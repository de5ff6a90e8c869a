-- ===== src/Receipt/Pack.antt =====
-- packages/receipt-authority/src/michelson-pack.ts: the packed Micheline bytes of a receipt payload.
pub mod Numbers
use samurai_sushi.Common.{
  ℕ, ◌+◌, ◌-◌, ◌*◌, ◌/◌, ◌%◌, ◌^◌, String, List, [], ◌∷◌, ◌++◌, length, get_elem?, Option, none,
  some, leb, ltb, Result, ok, err, ◌>>=◌, ◌>>◌, guard, from_option, sequence, uncoded_error,
  if◌then◌else◌,
}
use samurai_sushi.Json.Text.{◌+++◌}
use samurai_sushi.Commands.Patterns.{codes}
use samurai_sushi.Receipt.Payload.{Codec, ReceiptPayload, is_hex32, big_int}
use samurai_sushi.Receipt.Pack.Numbers.{zarith_natural, u32}

abbrev Bytes : Type 0
Bytes = List ℕ

abbrev int_node : ℕ → Result Bytes
int_node value = ok (0 ∷ zarith_natural value)

-- A tag, the length of the bytes, and the bytes.
abbrev sized_node : ℕ → Bytes → Result Bytes
sized_node tag bytes =
    from_option (u32 (length bytes)) uncoded_error >>= λ size. ok (tag ∷ size ++ bytes)

abbrev bytes_node : Bytes → Result Bytes
bytes_node bytes = sized_node 10 bytes

abbrev pair_node : Bytes → Bytes → Bytes
pair_node left right = 7 ∷ 7 ∷ left ++ right

-- From the last pair to the first value.
abbrev right_comb : List Bytes → Result Bytes
right_comb [] = err uncoded_error
right_comb (x ∷ []) = err uncoded_error
right_comb (x ∷ y ∷ []) = ok (pair_node x y)
right_comb (x ∷ rest) = right_comb rest >>= λ comb. ok (pair_node x comb)

abbrev nibble : ℕ → ℕ
nibble c = if ltb c b'a' then c - b'0' else c - 87

-- `Buffer.from(text, "hex")` of a text of hexadecimal digits.
abbrev pub hex_bytes : List ℕ → Bytes
hex_bytes (a ∷ b ∷ cs) = (nibble a * 16 + nibble b) ∷ hex_bytes cs
hex_bytes _ = []

abbrev hex_digits : List String
hex_digits =
    "0" ∷ "1" ∷ "2" ∷ "3" ∷ "4" ∷ "5" ∷ "6" ∷ "7" ∷ "8" ∷ "9" ∷ "a" ∷ "b" ∷ "c" ∷ "d" ∷ "e" ∷ "f"
    ∷ []

abbrev text_or_empty : Option String → String
text_or_empty none = ""
text_or_empty (some s) = s

abbrev hex_digit : ℕ → String
hex_digit n = text_or_empty (get_elem? hex_digits n)

-- `Buffer.toString("hex")`.
abbrev pub hex_text : Bytes → String
hex_text [] = ""
hex_text (b ∷ bs) = hex_digit (b / 16) +++ hex_digit (b % 16) +++ hex_text bs

abbrev hex32 : String → Result Bytes
hex32 s = guard (is_hex32 s) uncoded_error >> ok (hex_bytes (codes s))

module _ (codec : Codec) where
  abbrev string_node : String → Result Bytes
  string_node s = sized_node 1 (codec.utf8 s)

  abbrev address_node : String → Result Bytes
  address_node s = from_option (codec.decode_address s) uncoded_error >>= bytes_node

  abbrev hex_node : String → Result Bytes
  hex_node s = hex32 s >>= bytes_node

  unfoldable pub pack_receipt_payload : ReceiptPayload → Result Bytes
  pack_receipt_payload payload =
      from_option (codec.decode_chain_id payload.chain_id) uncoded_error >>= λ chain_bytes.
      sequence (
        string_node payload.domain
        ∷ int_node payload.schema_version
        ∷ bytes_node chain_bytes
        ∷ address_node payload.owner
        ∷ address_node payload.source
        ∷ address_node payload.destination
        ∷ string_node payload.entrypoint
        ∷ int_node (big_int payload.attached_mutez)
        ∷ hex_node payload.service_commitment
        ∷ string_node payload.content_version
        ∷ hex_node payload.nonce
        ∷ int_node (big_int payload.issued_at)
        ∷ int_node (big_int payload.expiry)
        ∷ hex_node payload.deployment_manifest_hash
        ∷ string_node payload.issuer_key_id
        ∷ int_node (big_int payload.issuer_policy_version)
        ∷ [])
      >>= λ values. right_comb values >>= λ comb. ok (5 ∷ comb)

  unfoldable pub hash_receipt_payload : ReceiptPayload → Result String
  hash_receipt_payload payload =
      pack_receipt_payload payload >>= λ bytes. ok (hex_text (codec.blake2b bytes))
