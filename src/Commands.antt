-- ===== src/Commands.antt =====
-- packages/domain/src/model.ts, commands.ts and canonical.ts: the command envelope, its validation,
-- and the test that a retry repeats a stored command.
pub mod Patterns
pub mod Retry
use samurai_sushi.Common.{
  ℕ, Bool, true, false, not, ◌&&◌, ◌||◌, String, Option, none, some, List, [], ◌∷◌, str_eq, ◌==◌,
  Result, ok, err, ◌>>=◌, ◌>>◌, guard, reject, invalid_command_shape, idempotency_payload_mismatch,
  if◌then◌else◌,
}
use samurai_sushi.Json.{Json, null, num, neg_zero, Fields, get, str}
use samurai_sushi.Json.Text.{canonical_json, ◌+++◌}
use samurai_sushi.Json.Shape.{plain_object, exact_keys, is_str, is_nat, read_nat, read_str}
use samurai_sushi.Commands.Patterns.{
  is_subject_id, is_uuid_v4, is_uuid_shape, is_base64url, is_command_name, is_content_version,
  is_sha256,
}

pub data SubjectRef : Type 0 where
  guest player : String → SubjectRef

pub record CommandEnvelope : Type 0 where
  pub command_name : String
  pub subject : SubjectRef
  pub idempotency_key : String
  pub expected_revision : ℕ
  pub content_version : String
  pub payload : Json
  pub payload_hash : String

pub record StoredResponse : Type 0 where
  pub schema_version : ℕ
  pub payload : Json

pub record StoredResult : Type 0 where
  pub subject : SubjectRef
  pub idempotency_key : String
  pub command_name : String
  pub expected_revision : ℕ
  pub content_version : String
  pub payload_hash : String
  pub committed_revision : ℕ
  pub result_hash : String
  pub response : StoredResponse

abbrev envelope_keys : List String
envelope_keys =
    "commandName" ∷ "contentVersion" ∷ "expectedRevision" ∷ "idempotencyKey" ∷ "payload"
    ∷ "payloadHash" ∷ "schemaVersion" ∷ "subject" ∷ []

abbrev command_hash_domain : String
command_hash_domain = "samurai-sushi:command:v1\n"

-- `strictObject` of an optional property.
abbrev pub strict_object : Option Json → Result Fields
strict_object none = err invalid_command_shape
strict_object (some j) = plain_object invalid_command_shape j

abbrev read_matching : (String → Bool) → Option Json → Result String
read_matching matches v = do
  s ← read_str invalid_command_shape v
  guard (matches s) invalid_command_shape
  ok s

unfoldable pub parse_subject : Option Json → Result SubjectRef
parse_subject v = do
  subject ← strict_object v
  let as_guest = (do
    exact_keys invalid_command_shape subject ("guestSessionId" ∷ "kind" ∷ [])
    s ← read_matching is_subject_id (get subject "guestSessionId")
    ok (guest s))
  let as_player = (do
    exact_keys invalid_command_shape subject ("kind" ∷ "playerId" ∷ [])
    s ← read_matching is_subject_id (get subject "playerId")
    ok (player s))
  if is_str (get subject "kind") "guest"
      then as_guest
      else (if is_str (get subject "kind") "player" then as_player else err invalid_command_shape)

unfoldable pub parse_idempotency_key : Option Json → Result String
parse_idempotency_key v = do
  s ← read_str invalid_command_shape v
  reject ((is_uuid_shape s && not (is_uuid_v4 s)) || (not (is_uuid_v4 s) && not (is_base64url s)))
      invalid_command_shape
  ok s

unfoldable pub parse_command_payload_hash : Option Json → Result String
parse_command_payload_hash v = read_matching is_sha256 v

abbrev pub subject_kind : SubjectRef → String
subject_kind (guest s) = "guest"
subject_kind (player s) = "player"

abbrev pub subject_id : SubjectRef → String
subject_id (guest s) = s
subject_id (player s) = s

unfoldable pub same_subject : SubjectRef → SubjectRef → Bool
same_subject left right =
    str_eq (subject_kind left) (subject_kind right) && str_eq (subject_id left) (subject_id right)

-- The value of a property that may be missing; `undefined` is no JSON value, so hashing it fails.
abbrev present : Option Json → Result Json
present none = err invalid_command_shape
present (some j) = ok j

-- `Number.isSafeInteger(value) && value >= 0`, which holds of -0 too, and -0 is equal to 0.
abbrev read_revision : Option Json → Result ℕ
read_revision (some (num neg_zero)) = ok 0
read_revision value = read_nat invalid_command_shape value

-- `sha256_hex` is node:crypto's SHA-256 of the UTF-8 bytes of a text, in lowercase hexadecimal.
module _ (sha256_hex : String → String) where
  unfoldable pub hash_command_payload : Json → Result String
  hash_command_payload payload = do
    text ← canonical_json payload
    ok ("sha256:" +++ sha256_hex (command_hash_domain +++ text))

  unfoldable pub validate_command_envelope : Json → Result CommandEnvelope
  unfolding hash_command_payload parse_subject parse_idempotency_key parse_command_payload_hash
  validate_command_envelope input = do
    envelope ← plain_object invalid_command_shape input
    exact_keys invalid_command_shape envelope envelope_keys
    guard (is_nat (get envelope "schemaVersion") 1) invalid_command_shape
    command_name ← read_matching is_command_name (get envelope "commandName")
    expected_revision ← read_revision (get envelope "expectedRevision")
    content_version ← read_matching is_content_version (get envelope "contentVersion")
    payload_hash ← parse_command_payload_hash (get envelope "payloadHash")
    payload ← present (get envelope "payload")
    computed_hash ← hash_command_payload payload
    guard (str_eq payload_hash computed_hash) invalid_command_shape
    subject ← parse_subject (get envelope "subject")
    idempotency_key ← parse_idempotency_key (get envelope "idempotencyKey")
    ok (record {
      command_name = command_name;
      subject = subject;
      idempotency_key = idempotency_key;
      expected_revision = expected_revision;
      content_version = content_version;
      payload = payload;
      payload_hash = payload_hash;
    })

  unfoldable pub assert_retry_matches : Json → StoredResult → Result StoredResponse
  unfolding validate_command_envelope same_subject
  assert_retry_matches retry_input stored = do
    retry ← validate_command_envelope retry_input
    reject
        (not (same_subject retry.subject stored.subject)
          || not (str_eq retry.idempotency_key stored.idempotency_key))
        invalid_command_shape
    reject
        (not (str_eq retry.command_name stored.command_name)
          || not (retry.expected_revision == stored.expected_revision)
          || not (str_eq retry.content_version stored.content_version)
          || not (str_eq retry.payload_hash stored.payload_hash))
        idempotency_payload_mismatch
    ok stored.response
