-- ===== src/Executor/Decision.antt =====
-- packages/persistence/src/canonical-decision.ts: the decision of a command handler, read from its canonical
-- copy, and the hash of a response.
use samurai_sushi.Common.{
  ℕ, Bool, true, false, ◌&&◌, ◌||◌, String, Option, none, some, List, [], ◌∷◌, length, all, leb,
  ◌==◌, Result, ok, err, ◌>>=◌, ◌>>◌, guard, invalid_decision_shape,
}
use samurai_sushi.Json.{Json, nat, num, obj, Fields, field, end, get}
use samurai_sushi.Json.Canonical.{canonicalize, max_safe_integer}
use samurai_sushi.Json.Text.{canonical_json, ◌+++◌}
use samurai_sushi.Json.Shape.{plain_object, exact_keys, read_str}
use samurai_sushi.Commands.Patterns.{codes, is_alnum, is_alpha}

pub record PersistenceEvent : Type 0 where
  pub event_id : String
  pub event_type : String
  pub schema_version : ℕ
  pub payload : Json

pub record PersistenceDecision : Type 0 where
  pub checkpoint_schema_version : ℕ
  pub checkpoint : Json
  pub event : PersistenceEvent
  pub response_schema_version : ℕ
  pub response_payload : Json

pub record CanonicalDecision : Type 0 where
  pub decision : PersistenceDecision
  pub canonical_bytes : String
  pub result_hash : String

abbrev result_hash_domain : String
result_hash_domain = "samurai-sushi:command-response:v1\n"

abbrev is_id_char : ℕ → Bool
is_id_char c = is_alnum c || c == b'.' || c == b'_' || c == b':' || c == b'-'

abbrev event_id_codes : List ℕ → Bool
event_id_codes [] = false
event_id_codes (c ∷ cs) =
    is_alnum c && leb 15 (length cs) && leb (length cs) 127 && all is_id_char cs

unfoldable pub is_event_id : String → Bool
is_event_id s = event_id_codes (codes s)

abbrev is_separator : ℕ → Bool
is_separator c = c == b'.' || c == b'_' || c == b':' || c == b'-'

-- The flag says that a character must follow, after a separator.
abbrev event_type_rest : Bool → List ℕ → Bool
event_type_rest true [] = false
event_type_rest false [] = true
event_type_rest true (c ∷ cs) = is_alnum c && event_type_rest false cs
event_type_rest false (c ∷ cs) =
    (is_alnum c || is_separator c) && event_type_rest (is_separator c) cs

abbrev event_type_codes : List ℕ → Bool
event_type_codes [] = false
event_type_codes (c ∷ cs) = is_alpha c && event_type_rest false cs

unfoldable pub is_event_type : String → Bool
is_event_type s = event_type_codes (codes s)

abbrev pub required_object : Option Json → Result Fields
required_object none = err invalid_decision_shape
required_object (some value) = plain_object invalid_decision_shape value

abbrev pub positive_version : Option Json → Result ℕ
positive_version (some (num (nat n))) =
    guard (leb n max_safe_integer && leb 1 n) invalid_decision_shape >> ok n
positive_version _ = err invalid_decision_shape

abbrev pub matching : (String → Bool) → Option Json → Result String
matching test value = do
  s ← read_str invalid_decision_shape value
  guard (test s) invalid_decision_shape
  ok s

-- A value that an exact set of keys has shown to be there.
abbrev pub present : Option Json → Result Json
present none = err invalid_decision_shape
present (some value) = ok value

-- `catch (error) { throw new PersistenceError("INVALID_DECISION_SHAPE", …) }`.
abbrev pub as_decision_error {ℓ} : {A : Type ℓ} → Result A → Result A
as_decision_error (err e) = err invalid_decision_shape
as_decision_error (ok value) = ok value

-- `sha256_hex` is node:crypto's SHA-256 of the UTF-8 bytes of a text, in lowercase hexadecimal.
module _ (sha256_hex : String → String) where
  unfoldable pub hash_persistence_response : ℕ → Json → Result String
  hash_persistence_response schema_version payload = do
    guard (leb schema_version max_safe_integer && leb 1 schema_version) invalid_decision_shape
    text ←
        canonical_json
          (obj (field "schemaVersion" (num (nat schema_version)) (field "payload" payload end)))
    ok ("sha256:" +++ sha256_hex (result_hash_domain +++ text))

  -- The end of the decision: its response, the three versions and the hash.
  unfoldable pub decide_response :
      (canonical_bytes : String) (decision checkpoint event : Fields) (event_id event_type : String)
      (event_payload : Fields)
      → Result CanonicalDecision
  unfolding hash_persistence_response
  decide_response canonical_bytes decision checkpoint event event_id event_type event_payload = do
    response ← required_object (get decision "response")
    exact_keys invalid_decision_shape response ("payload" ∷ "schemaVersion" ∷ [])
    checkpoint_schema_version ← positive_version (get decision "checkpointSchemaVersion")
    event_schema_version ← positive_version (get event "schemaVersion")
    response_schema_version ← positive_version (get response "schemaVersion")
    response_payload ← present (get response "payload")
    result_hash ← hash_persistence_response response_schema_version response_payload
    ok (record {
      decision = record {
        checkpoint_schema_version = checkpoint_schema_version;
        checkpoint = obj checkpoint;
        event = record {
          event_id = event_id;
          event_type = event_type;
          schema_version = event_schema_version;
          payload = obj event_payload;
        };
        response_schema_version = response_schema_version;
        response_payload = response_payload;
      };
      canonical_bytes = canonical_bytes;
      result_hash = result_hash;
    })

  -- The event of the decision, and what follows it.
  unfoldable pub decide_event :
      (canonical_bytes : String) (decision checkpoint event : Fields) → Result CanonicalDecision
  unfolding decide_response
  decide_event canonical_bytes decision checkpoint event = do
    exact_keys invalid_decision_shape event
        ("eventId" ∷ "eventType" ∷ "payload" ∷ "schemaVersion" ∷ [])
    event_id ← matching is_event_id (get event "eventId")
    event_type ← matching is_event_type (get event "eventType")
    event_payload ← required_object (get event "payload")
    decide_response canonical_bytes decision checkpoint event event_id event_type event_payload

  unfoldable pub canonicalize_decision : Json → Result CanonicalDecision
  unfolding decide_event
  canonicalize_decision input = do
    canonical_bytes ← as_decision_error (canonical_json input)
    detached ← as_decision_error (canonicalize input)
    decision ← plain_object invalid_decision_shape detached
    exact_keys invalid_decision_shape decision
        ("checkpoint" ∷ "checkpointSchemaVersion" ∷ "event" ∷ "response" ∷ [])
    checkpoint ← required_object (get decision "checkpoint")
    event ← required_object (get decision "event")
    decide_event canonical_bytes decision checkpoint event
