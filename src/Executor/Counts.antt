-- ===== src/Executor/Counts.antt =====
-- The revision of a guest counts the events that packages/persistence/src/command-executor.ts has stored.
use samurai_sushi.Common.{
  ℕ, suc, ◌≡◌, refl, sym, ap, ◌∙◌, inl, inr, Bool, true, false, Bool-cases, and-true, String, some,
  List, [], ◌∷◌, count, ◌==◌, ==-self, str_eq, eq_iff, Result, ok, err, if_true, if_false,
  if◌then◌else◌, arith,
}
use samurai_sushi.Json.{Json}
use samurai_sushi.Commands.{CommandEnvelope}
use samurai_sushi.Executor.{Progress, EventRow, Store, Execution}
use samurai_sushi.Executor.Session.{Authority}
use samurai_sushi.Executor.Execute.{execute}
use samurai_sushi.Executor.Rows.{has_guest, lock_progress, is_current, advance, update_progress}
use samurai_sushi.Executor.Answered.{Committed}
use samurai_sushi.Executor.Inversion.{Answered, again, first, execute-Executed}

abbrev pub of_guest : String → EventRow → Bool
of_guest guest e = str_eq e.guest_session_id guest

-- The revision of every guest is the number of the guest's events.
abbrev pub Counted : Store → Type 0
Counted store =
    (guest : String) (p : Progress)
    → lock_progress guest store.progress ≡ some p
    → p.revision ≡ count (of_guest guest) store.events

some_progress : {a b : Progress} → some a ≡ some b → a ≡ b
some_progress h = cc

text_eq : (a b : String) → str_eq a b ≡ true → a ≡ b
text_eq a b h = ground (arith, eq_iff a b)

module _ (id : String) (revision : ℕ) (f : Progress → Progress) where
  -- The row that is locked is updated.
  lock_own :
      (ps : List Progress) {p : Progress}
      → ((q : Progress) → (f q).guest_session_id ≡ q.guest_session_id)
      → lock_progress id ps ≡ some p
      → p.revision ≡ revision
      → lock_progress id (update_progress (is_current id revision) f ps) ≡ some (f p)
  lock_own [] keeps h e = cc
  lock_own (q ∷ ps) {p} keeps h e = elim (Bool-cases (has_guest id q)) [
    | inl own ↦
        (let same : q ≡ p = some_progress (if_true _ _ own h) in
          let level : (q.revision == revision) ≡ true =
            ap (λ (x : Progress). x.revision == revision) same
            ∙ ap (λ n. n == revision) e
            ∙ ==-self revision in
          let named : has_guest id (f q) ≡ true = ap (λ s. str_eq s id) (keeps q) ∙ own in
          rw own (rw level (rw named (ap (λ x. some (f x)) same))))
    | inr other ↦ rw other (rw other (lock_own ps keeps (if_false _ _ other h) e))
  ]

  -- The rows of other guests are not.
  lock_other :
      (guest : String) (ps : List Progress)
      → ((q : Progress) → (f q).guest_session_id ≡ q.guest_session_id)
      → str_eq id guest ≡ false
      → lock_progress guest (update_progress (is_current id revision) f ps) ≡ lock_progress guest ps
  lock_other guest [] keeps h = refl
  lock_other guest (q ∷ ps) keeps h = elim (Bool-cases (is_current id revision q)) [
    | inl mine ↦
        (let (own, _) = and-true (has_guest id q) (q.revision == revision) mine in
          let apart : has_guest guest q ≡ false =
            ap (λ s. str_eq s guest) (text_eq q.guest_session_id id own) ∙ h in
          let named : has_guest guest (f q) ≡ false = ap (λ s. str_eq s guest) (keeps q) ∙ apart in
          rw mine (rw named (rw apart (lock_other guest ps keeps h))))
    | inr other ↦
        rw other
          (ap (λ rest. if has_guest guest q then some q else rest) (lock_other guest ps keeps h))
  ]

Counted-commit :
    (store : Store) (id : String) (command : CommandEnvelope) (payload_hash : String)
    {run : Execution}
    → Counted store
    → Committed store id command payload_hash run
    → Counted run.store
Counted-commit store id command payload_hash {run} before done guest p locked =
    let f = advance command done.canonical.decision done.now in
    let rows = update_progress (is_current id command.expected_revision) f store.progress in
    let progress_is : run.store.progress ≡ rows = ap (λ (s : Store). s.progress) done.store_is in
    let events_are : count (of_guest guest) run.store.events ≡ (
        if str_eq id guest
        then suc (count (of_guest guest) store.events)
        else count (of_guest guest) store.events) =
      ap (λ (s : Store). count (of_guest guest) s.events) done.store_is in
    let found : lock_progress guest rows ≡ some p =
      ap (lock_progress guest) (sym progress_is) ∙ locked in
    elim (Bool-cases (str_eq id guest)) [
      | inl same ↦
          (let named = text_eq id guest same in
            let own =
              lock_own id command.expected_revision f store.progress (λ q. refl) done.locked
                done.revision in
            let is_p : f done.progress ≡ p =
              some_progress (sym own ∙ ap (λ g. lock_progress g rows) named ∙ found) in
            let old = before id done.progress done.locked in
            let counted =
              events_are
              ∙ ap
                  (λ b.
                    if b
                    then suc (count (of_guest guest) store.events)
                    else count (of_guest guest) store.events)
                  same in
            let shared = ap (λ g. count (of_guest g) store.events) named in
            let level = ap (λ (x : Progress). x.revision) is_p in omega arith)
      | inr other ↦
          (let kept =
              lock_other id command.expected_revision f guest store.progress (λ q. refl) other in
            before guest p (sym kept ∙ found)
            ∙ sym (
                events_are
                ∙ ap
                    (λ b.
                      if b
                      then suc (count (of_guest guest) store.events)
                      else count (of_guest guest) store.events)
                    other))
    ]

Counted-replay :
    (store : Store) (run : Execution)
    → (run.store.progress ≡ store.progress)
    → run.store.events ≡ store.events
    → Counted store
    → Counted run.store
Counted-replay store run progress events before guest p locked =
    before guest p (ap (lock_progress guest) (sym progress) ∙ locked)
    ∙ ap (count (of_guest guest)) (sym events)

Counted-answer :
    (store : Store) (id : String) (command : CommandEnvelope) (payload_hash : String)
    {run : Execution}
    → Counted store
    → Answered store id command payload_hash run
    → Counted run.store
Counted-answer store id command payload_hash {run} before (again stored now _ done) =
    Counted-replay store run (ap (λ (s : Store). s.progress) done.store_is)
      (ap (λ (s : Store). s.events) done.store_is) before
Counted-answer store id command payload_hash before (first _ done) =
    Counted-commit store id command payload_hash before done

-- One call of the executor; a transaction that throws leaves the store as it was.
pub record Call : Type 0 where
  pub handler : Json → CommandEnvelope → Result Json
  pub authority : Authority
  pub input : Json

abbrev pub committed_store : Store → Result Execution → Store
committed_store store (err e) = store
committed_store store (ok run) = run.store

module _ (sha256_hex : String → String) where
  abbrev pub execute_all : List Call → Store → Store
  execute_all [] store = store
  execute_all (c ∷ cs) store =
      execute_all cs
        (committed_store store (execute sha256_hex c.handler c.authority c.input store))

  after_call :
      (store : Store) (result : Result Execution)
      → Counted store
      → ((run : Execution) → result ≡ ok run → Counted run.store)
      → Counted (committed_store store result)
  after_call store (err e) before h = before
  after_call store (ok run) before h = h run refl

  -- In a store where the revision of every guest is the number of the guest's events, it stays so whatever
  -- calls of the executor are made, with whatever inputs and handlers, and whether they commit, replay or
  -- throw.
  pub revision_counts_events :
      (calls : List Call) (store : Store) → Counted store → Counted (execute_all calls store)
  revision_counts_events [] store before = before
  revision_counts_events (c ∷ cs) store before =
      let result = execute sha256_hex c.handler c.authority c.input store in
      revision_counts_events cs (committed_store store result) (
        after_call store result before (λ run h.
          (let done = execute-Executed sha256_hex c.handler c.authority c.input store h in
            Counted-answer store done.id done.command done.payload_hash before done.answered)))
