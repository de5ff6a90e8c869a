-- ===== src/Executor/Responses.antt =====
-- packages/persistence/src/canonical-decision.ts: the response of a decision is a canonical value, so that a
-- replay of it, which copies it again, gives it back as it is.
use samurai_sushi.Common.{
  ◌≡◌, refl, sym, ap, ◌∙◌, inl, inr, true, and-true, Bool-cases, String, Option, none, some, str_eq,
  Result, ok, err, >>=-eq-ok, >>-eq-ok, ok_injective, subst, invalid_decision_shape, if_true,
  if_false,
}
use samurai_sushi.Json.{Json, null, bool, num, str, arr, obj, Fields, end, field, get}
use samurai_sushi.Json.Canonical.{canonicalize}
use samurai_sushi.Json.Text.{canonical_json}
use samurai_sushi.Json.Shape.{plain_object}
use samurai_sushi.Json.Sorted.{before, sorted, sorted_fields}
use samurai_sushi.Json.Ordered.{sorted-canonicalize}
use samurai_sushi.Executor.Decision.{
  CanonicalDecision, required_object, positive_version, matching, present, as_decision_error,
  is_event_id, is_event_type, hash_persistence_response, decide_response, decide_event,
  canonicalize_decision,
}

some_eq : {A : Type 0} {a b : A} → some a ≡ some b → a ≡ b
some_eq h = cc

get-sorted :
    (fs : Fields) (key : String) {v : Json}
    → sorted_fields fs ≡ true
    → get fs key ≡ some v
    → sorted v ≡ true
unfolding sorted
get-sorted end key h e = cc
get-sorted (field k j fs) key h e =
    let (_, rest) = and-true (before k fs) _ h in
    let (here, more) = and-true (sorted j) (sorted_fields fs) rest in
    elim (Bool-cases (str_eq k key)) [
      | inl same ↦ sym (ap sorted (some_eq (if_true _ _ same e))) ∙ here
      | inr other ↦ get-sorted fs key more (if_false _ _ other e)
    ]

not_error : {A : Type 0} (r : Result A) {v : A} → as_decision_error r ≡ ok v → r ≡ ok v
not_error (ok a) h = h
not_error (err e) h = cc

present-some : (o : Option Json) {v : Json} → present o ≡ ok v → o ≡ some v
present-some none h = cc
present-some (some j) h = ap some (ok_injective h)

plain_object-obj :
    (j : Json) {fs : Fields} → plain_object invalid_decision_shape j ≡ ok fs → j ≡ obj fs
plain_object-obj (obj fs) h = ap obj (ok_injective h)
plain_object-obj null h = cc
plain_object-obj (bool b) h = cc
plain_object-obj (num n) h = cc
plain_object-obj (str s) h = cc
plain_object-obj (arr js) h = cc

required_object-obj :
    (o : Option Json) {fs : Fields} → required_object o ≡ ok fs → o ≡ some (obj fs)
required_object-obj none h = cc
required_object-obj (some j) h = ap some (plain_object-obj j h)

sorted_object : (j : Json) (fs : Fields) → j ≡ obj fs → sorted j ≡ true → sorted_fields fs ≡ true
unfolding sorted
sorted_object j fs e h = sym (ap sorted e) ∙ h

response-sorted :
    (decision response : Fields) {payload : Json}
    → sorted_fields decision ≡ true
    → required_object (get decision "response") ≡ ok response
    → present (get response "payload") ≡ ok payload
    → sorted payload ≡ true
response-sorted decision response h required given =
    let held = get-sorted decision "response" h (required_object-obj _ required) in
    get-sorted response "payload" (sorted_object (obj response) response refl held)
      (present-some (get response "payload") given)

module _ (sha256_hex : String → String) where
  decide_response-sorted :
      (canonical_bytes : String) (decision checkpoint event : Fields) (event_id event_type : String)
      (event_payload : Fields) {c : CanonicalDecision}
      → sorted_fields decision ≡ true
      → decide_response sha256_hex canonical_bytes decision checkpoint event event_id event_type
          event_payload
        ≡ ok c
      → sorted c.decision.response_payload ≡ true
  unfolding decide_response
  decide_response-sorted canonical_bytes decision checkpoint event event_id event_type event_payload
        ordered h =
      let (response, required, h1) = >>=-eq-ok (required_object (get decision "response")) _ h in
      let (_, h2) = >>-eq-ok _ _ h1 in
      let (_, _, h3) = >>=-eq-ok (positive_version (get decision "checkpointSchemaVersion")) _ h2 in
      let (_, _, h4) = >>=-eq-ok (positive_version (get event "schemaVersion")) _ h3 in
      let (version, _, h5) = >>=-eq-ok (positive_version (get response "schemaVersion")) _ h4 in
      let (payload, given, h6) = >>=-eq-ok (present (get response "payload")) _ h5 in
      let (_, _, h7) = >>=-eq-ok (hash_persistence_response sha256_hex version payload) _ h6 in
      subst (λ (c : CanonicalDecision). sorted c.decision.response_payload ≡ true) (ok_injective h7)
        (response-sorted decision response ordered required given)

  decide_event-sorted :
      (canonical_bytes : String) (decision checkpoint event : Fields) {c : CanonicalDecision}
      → sorted_fields decision ≡ true
      → decide_event sha256_hex canonical_bytes decision checkpoint event ≡ ok c
      → sorted c.decision.response_payload ≡ true
  unfolding decide_event
  decide_event-sorted canonical_bytes decision checkpoint event ordered h =
      let (_, h1) = >>-eq-ok _ _ h in
      let (event_id, _, h2) = >>=-eq-ok (matching is_event_id (get event "eventId")) _ h1 in
      let (event_type, _, h3) = >>=-eq-ok (matching is_event_type (get event "eventType")) _ h2 in
      let (event_payload, _, h4) = >>=-eq-ok (required_object (get event "payload")) _ h3 in
      decide_response-sorted canonical_bytes decision checkpoint event event_id event_type
        event_payload ordered h4

  -- The response of a decision that is read has the keys of every object in order.
  pub canonicalize_decision-sorted :
      (input : Json) {c : CanonicalDecision}
      → canonicalize_decision sha256_hex input ≡ ok c
      → sorted c.decision.response_payload ≡ true
  unfolding canonicalize_decision
  canonicalize_decision-sorted input h =
      let (bytes, _, h1) = >>=-eq-ok (as_decision_error (canonical_json input)) _ h in
      let (detached, copied, h2) = >>=-eq-ok (as_decision_error (canonicalize input)) _ h1 in
      let (decision, plain, h3) = >>=-eq-ok (plain_object invalid_decision_shape detached) _ h2 in
      let (_, h4) = >>-eq-ok _ _ h3 in
      let (checkpoint, _, h5) = >>=-eq-ok (required_object (get decision "checkpoint")) _ h4 in
      let (event, _, h6) = >>=-eq-ok (required_object (get decision "event")) _ h5 in
      decide_event-sorted bytes decision checkpoint event
        (sorted_object detached decision (plain_object-obj detached plain)
          (sorted-canonicalize input (not_error (canonicalize input) copied)))
        h6
