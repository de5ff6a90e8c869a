-- ===== src/Commands/Retry.antt =====
-- When `assertRetryMatches` of packages/domain/src/commands.ts takes a retry for the stored command.
use samurai_sushi.Common.{
  ℕ, ◌≡◌, Bool, false, not, ◌||◌, ◌==◌, String, str_eq, eq_iff, arith, ok, reject, FailureCode,
  ◌>>=◌, >>=-eq-ok, sym,
}
use samurai_sushi.Json.{Json}
use samurai_sushi.Commands.{
  SubjectRef, guest, player, CommandEnvelope, StoredResponse, StoredResult, same_subject,
  validate_command_envelope, assert_retry_matches,
}

-- The retry is the stored command, field by field.
pub record Repeats (retry : CommandEnvelope) (stored : StoredResult) : Type 0 where
  pub subject : retry.subject ≡ stored.subject
  pub idempotency_key : retry.idempotency_key ≡ stored.idempotency_key
  pub command_name : retry.command_name ≡ stored.command_name
  pub expected_revision : retry.expected_revision ≡ stored.expected_revision
  pub content_version : retry.content_version ≡ stored.content_version
  pub payload_hash : retry.payload_hash ≡ stored.payload_hash

past_scope :
    {A : Type 0} (a b : Bool) (e f : FailureCode) {x y : A}
    → (reject a e >>= λ _. reject b f >>= λ _. ok x) ≡ ok y
    → (a ≡ false) × (b ≡ false) × (x ≡ y)
past_scope a b e f h = ground arith

same_scope :
    (r s : SubjectRef) (k l : String)
    → (not (same_subject r s) || not (str_eq k l)) ≡ false
    → (r ≡ s) × (k ≡ l)
unfolding same_subject
same_scope (guest a) (guest b) k l h = ground (arith, eq_iff a b, eq_iff k l)
same_scope (guest a) (player b) k l h = ground arith
same_scope (player a) (guest b) k l h = ground arith
same_scope (player a) (player b) k l h = ground (arith, eq_iff a b, eq_iff k l)

same_command :
    (a b c d e f : String) (m n : ℕ)
    → (not (str_eq a b) || not (m == n) || not (str_eq c d) || not (str_eq e f)) ≡ false
    → (a ≡ b) × (m ≡ n) × (c ≡ d) × (e ≡ f)
same_command a b c d e f m n h = ground (arith, eq_iff a b, eq_iff c d, eq_iff e f)

module _ (sha256_hex : String → String) (retry_input : Json) (stored : StoredResult) where
  -- A retry gets an answer only when it validates and repeats the stored command in every field, and
  -- the answer is the stored response.
  pub assert_retry_matches-Repeats :
      {response : StoredResponse}
      → assert_retry_matches sha256_hex retry_input stored ≡ ok response
      → (retry : CommandEnvelope) × (validate_command_envelope sha256_hex retry_input ≡ ok retry)
        × Repeats retry stored
        × (response ≡ stored.response)
  unfolding assert_retry_matches
  assert_retry_matches-Repeats h =
      let (retry, validated, h1) =
        >>=-eq-ok (validate_command_envelope sha256_hex retry_input) _ h in
      let (scope, command, same) =
        past_scope
          (not (same_subject retry.subject stored.subject)
            || not (str_eq retry.idempotency_key stored.idempotency_key))
          (not (str_eq retry.command_name stored.command_name)
            || not (retry.expected_revision == stored.expected_revision)
            || not (str_eq retry.content_version stored.content_version)
            || not (str_eq retry.payload_hash stored.payload_hash))
          _ _ h1 in
      let (subject, key) =
        same_scope retry.subject stored.subject retry.idempotency_key stored.idempotency_key
          scope in
      let (name, revision, content, hash) =
        same_command retry.command_name stored.command_name retry.content_version
          stored.content_version retry.payload_hash stored.payload_hash retry.expected_revision
          stored.expected_revision command in
      (
        retry,
        validated,
        record {
          subject = subject;
          idempotency_key = key;
          command_name = name;
          expected_revision = revision;
          content_version = content;
          payload_hash = hash;
        },
        sym same,
      )
