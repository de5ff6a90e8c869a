-- ===== src/Executor/Once.antt =====
-- A command of packages/persistence/src/command-executor.ts takes effect at most once.
use samurai_sushi.Common.{
  ◌≡◌, refl, sym, ap, ◌∙◌, true, String, Option, none, some, List, eq_refl, Result, ok,
  ok_injective, subst,
}
use samurai_sushi.Json.{Json}
use samurai_sushi.Json.Canonical.{canonicalize}
use samurai_sushi.Json.Sorted.{canonicalize-sorted}
use samurai_sushi.Commands.{CommandEnvelope}
use samurai_sushi.Executor.{CommandReceipt, Store, Execution, replayed}
use samurai_sushi.Executor.Session.{Authority}
use samurai_sushi.Executor.Execute.{execute}
use samurai_sushi.Executor.Rows.{guest_of, is_receipt, find_receipt, receipt_row}
use samurai_sushi.Executor.Inversion.{Answered, again, first, execute-Executed}

-- The receipt of an answer, under its key.
pub record Kept (receipts : List CommandReceipt) (id key : String) (run : Execution) : Type 0 where
  pub stored : CommandReceipt
  pub found : find_receipt (is_receipt id key) receipts ≡ some stored
  pub result_hash : stored.result_hash ≡ run.result.result_hash
  pub committed_revision : stored.committed_revision ≡ run.result.committed_revision
  pub schema_version : stored.response_schema_version ≡ run.result.response_schema_version
  pub response :
      (copy : Json) → canonicalize stored.response_payload ≡ ok copy → copy ≡ run.result.response

answered-Kept :
    (store : Store) (id : String) (command : CommandEnvelope) (payload_hash : String)
    {run : Execution}
    → Answered store id command payload_hash run
    → Kept run.store.receipts id command.idempotency_key run
answered-Kept store id command payload_hash (again stored now there done) = record {
  stored = stored;
  found =
      ap (λ (s : Store). find_receipt (is_receipt id command.idempotency_key) s.receipts)
        done.store_is
      ∙ there;
  result_hash = done.result_hash;
  committed_revision = done.committed_revision;
  schema_version = done.schema_version;
  response = λ copy copied. ok_injective (sym copied ∙ done.response);
}
answered-Kept store id command payload_hash (first missing done) =
    let row =
      receipt_row id command payload_hash done.canonical.decision done.canonical.result_hash
        done.now in
    let key_is : is_receipt id command.idempotency_key row ≡ true =
      rw (eq_refl id) (eq_refl command.idempotency_key) in
    record {
      stored = row;
      found =
          ap (λ (s : Store). find_receipt (is_receipt id command.idempotency_key) s.receipts)
            done.store_is
          ∙ rw key_is refl;
      result_hash = ap (λ r. r.result_hash) (sym done.result_is);
      committed_revision = ap (λ r. r.committed_revision) (sym done.result_is);
      schema_version = ap (λ r. r.response_schema_version) (sym done.result_is);
      response = λ copy copied.
          canonicalize-sorted done.canonical.decision.response_payload done.ordered copied
          ∙ ap (λ r. r.response) (sym done.result_is);
    }

-- The second answer is the first's, its response included, and changes nothing but the time at which the session was seen.
pub record SameAnswer (run second : Execution) : Type 0 where
  pub disposition : second.result.disposition ≡ replayed
  pub result_hash : second.result.result_hash ≡ run.result.result_hash
  pub committed_revision : second.result.committed_revision ≡ run.result.committed_revision
  pub schema_version : second.result.response_schema_version ≡ run.result.response_schema_version
  pub response : second.result.response ≡ run.result.response
  pub progress : second.store.progress ≡ run.store.progress
  pub receipts : second.store.receipts ≡ run.store.receipts
  pub events : second.store.events ≡ run.store.events
  pub deliveries : second.store.deliveries ≡ run.store.deliveries

some_injective : {a b : CommandReceipt} → some a ≡ some b → a ≡ b
some_injective h = cc

same_answer :
    (run : Execution) (id : String) (command : CommandEnvelope) (payload_hash : String)
    {second : Execution}
    → Kept run.store.receipts id command.idempotency_key run
    → Answered run.store id command payload_hash second
    → SameAnswer run second
same_answer run id command payload_hash kept (first missing done) =
    absurd (none_some missing kept.found)
  where
    none_some :
        {o : Option CommandReceipt} {stored : CommandReceipt} → o ≡ none → o ≡ some stored → ⊥
    none_some p q = cc
same_answer run id command payload_hash {second} kept (again stored now there done) =
    let same : kept.stored ≡ stored = some_injective (sym kept.found ∙ there) in
    record {
      disposition = done.disposition;
      result_hash = sym done.result_hash ∙ ap (λ r. r.result_hash) (sym same) ∙ kept.result_hash;
      committed_revision =
          sym done.committed_revision
          ∙ ap (λ r. r.committed_revision) (sym same)
          ∙ kept.committed_revision;
      schema_version =
          sym done.schema_version
          ∙ ap (λ r. r.response_schema_version) (sym same)
          ∙ kept.schema_version;
      response =
          kept.response second.result.response
            (ap (λ (r : CommandReceipt). canonicalize r.response_payload) same ∙ done.response);
      progress = ap (λ (s : Store). s.progress) done.store_is;
      receipts = ap (λ (s : Store). s.receipts) done.store_is;
      events = ap (λ (s : Store). s.events) done.store_is;
      deliveries = ap (λ (s : Store). s.deliveries) done.store_is;
    }

-- A command that was executed is not executed again: when the same input is sent once more and answered, at
-- whatever time, with whatever keys and whatever handler, the answer is the first one, with the same response,
-- schema version, hash and revision, but marked as replayed, and neither the progress nor the receipts, the events or the deliveries change.
pub executed_once :
    (sha256_hex : String → String) (handler later_handler : Json → CommandEnvelope → Result Json)
    (authority later_authority : Authority) (input : Json) (store : Store) {run second : Execution}
    → execute sha256_hex handler authority input store ≡ ok run
    → execute sha256_hex later_handler later_authority input run.store ≡ ok second
    → SameAnswer run second
executed_once sha256_hex handler later_handler authority later_authority input store {run} {second}
      h k =
    let one = execute-Executed sha256_hex handler authority input store h in
    let two = execute-Executed sha256_hex later_handler later_authority input run.store k in
    let command : one.command ≡ two.command = ok_injective (sym one.read ∙ two.read) in
    let id : one.id ≡ two.id =
      ok_injective (sym one.guest ∙ ap (λ c. guest_of c.subject) command ∙ two.guest) in
    let kept = answered-Kept store one.id one.command one.payload_hash one.answered in
    same_answer run two.id two.command two.payload_hash
      (subst (λ (c : CommandEnvelope). Kept run.store.receipts two.id c.idempotency_key run) command
        (subst (λ i. Kept run.store.receipts i one.command.idempotency_key run) id kept))
      two.answered
