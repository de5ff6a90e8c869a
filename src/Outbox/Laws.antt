-- ===== src/Outbox/Laws.antt =====
-- Sequences of transactions of packages/persistence/src/outbox.ts: the bound on attempts, the rows that
-- stay as they are, and the fence against a claim that was taken over.
use mathlib.Core.List.{Memᴰ}
use samurai_sushi.Common.{
  ℕ, ◌≤◌, ◌<◌, ◌≡◌, refl, sym, ap, ◌∙◌, inl, inr, Bool, true, ◌&&◌, String, Option-cases, List, [],
  ◌∷◌, ◌==◌, ==→eq, eq_iff, Result, ok, err, ◌>>=◌, ◌>>◌, guard, err_not_ok, FailureCode,
  uncoded_error, from_option, outbox_claim_lost, arith,
}
use samurai_sushi.Outbox.{
  Delivery, Outcome, is_processing, has_id, holds_claim, token_is, find, claim, lock_live_claim,
  live_claim, positive_integer, is_error_code, mark_delivered, record_failure,
}
use samurai_sushi.Json.Canonical.{max_safe_integer}
use samurai_sushi.Outbox.Members.{Distinct, same_row, find-Mem}
use samurai_sushi.Outbox.Rows.{
  TableStep, claim-TableStep, mark_delivered-TableStep, record_failure-TableStep,
}
use samurai_sushi.Outbox.Kept.{
  Sound, Sound-RowStep, is_settled, settled_row, generation_grows, Distinct-TableStep,
  TableStep-refl, successor, predecessor,
}

-- The arguments of a call, with the readiness and the clock that its transaction sees.
pub data Transaction : Type 0 where
  claiming :
      (limit lease_ms : ℕ) (token : String) (ready : Result (Unit {0})) (now : ℕ)
      (locked : Delivery → Bool)
      → Transaction
  delivering :
      (id token : String) (generation : ℕ) (ready : Result (Unit {0})) (now : ℕ) → Transaction
  failing :
      (id token : String) (generation : ℕ) (error_code : String) (permanent : Bool) (backoff_ms : ℕ)
      (ready : Result (Unit {0})) (now : ℕ)
      → Transaction

-- A transaction that throws is rolled back.
abbrev pub committed : {A : Type 0} → List Delivery → Result (Outcome A) → List Delivery
committed table (err e) = table
committed table (ok out) = out.table

named_id : (d : Delivery) (id : String) → has_id id d ≡ true → d.event_id ≡ id
named_id d id h = ground (arith, eq_iff d.event_id id)

-- The transaction throws, so that it changes nothing.
abbrev pub Refused : {A : Type 0} → Result (Outcome A) → Type 0
Refused result = (e : FailureCode) × (result ≡ err e)

past-Refused :
    {A : Type 0} (check : Result (Unit {0})) (rest : Result (Outcome A))
    → Refused rest
    → Refused (check >> rest)
past-Refused (ok u) rest h = h
past-Refused (err e) rest h = (e, refl)

by_lock :
    {A B : Type 0} (held : Result B) (rest : B → Result (Outcome A))
    → held ≡ err outbox_claim_lost
    → Refused (held >>= rest)
by_lock (ok d) rest h = absurd (err_not_ok (sym h))
by_lock (err e) rest h = (e, refl)

module _ (id_le : String → String → Bool) (max_attempts : ℕ) where
  abbrev pub perform : Transaction → List Delivery → List Delivery
  perform (claiming limit lease_ms token ready now locked) table =
      committed table (claim id_le max_attempts limit lease_ms token ready now locked table)
  perform (delivering id token generation ready now) table =
      committed table (mark_delivered id token generation ready now table)
  perform (failing id token generation error_code permanent backoff_ms ready now) table =
      committed table (
        record_failure max_attempts id token generation error_code permanent backoff_ms ready now
          table)

  abbrev pub run : List Transaction → List Delivery → List Delivery
  run [] table = table
  run (t ∷ ts) table = run ts (perform t table)

  committed-TableStep :
      {A : Type 0} (table : List Delivery) (result : Result (Outcome A))
      → ((out : Outcome A) → result ≡ ok out → TableStep max_attempts table out.table)
      → TableStep max_attempts table (committed table result)
  committed-TableStep table (err e) h = TableStep-refl max_attempts table
  committed-TableStep table (ok out) h = h out refl

  perform-TableStep :
      (t : Transaction) (table : List Delivery)
      → Distinct table
      → TableStep max_attempts table (perform t table)
  perform-TableStep (claiming limit lease_ms token ready now locked) table distinct =
      committed-TableStep table _ (λ out.
        claim-TableStep id_le max_attempts limit lease_ms token ready now locked table distinct)
  perform-TableStep (delivering id token generation ready now) table distinct =
      committed-TableStep table _
        (λ out. mark_delivered-TableStep max_attempts id token generation ready now table)
  perform-TableStep (failing id token generation code permanent backoff_ms ready now) table
        distinct =
      committed-TableStep table _ (λ out.
        record_failure-TableStep max_attempts id token generation code permanent backoff_ms ready
          now table distinct)

  run-Distinct :
      (ts : List Transaction) (table : List Delivery) → Distinct table → Distinct (run ts table)
  run-Distinct [] table h = h
  run-Distinct (t ∷ ts) table h =
      run-Distinct ts (perform t table)
        (Distinct-TableStep max_attempts (perform-TableStep t table h) h)

  -- Whatever transactions run on a table with distinct event identifiers whose rows are all within the
  -- policy, no row ever has more attempts than the policy allows, and a row that waits has one left.
  pub attempts_bounded :
      (ts : List Transaction) (table : List Delivery)
      → Distinct table
      → ((d : Delivery) → Memᴰ d table → Sound max_attempts d)
      → (e : Delivery) → Memᴰ e (run ts table)
      → Sound max_attempts e
  attempts_bounded [] table distinct sound e m = sound e m
  attempts_bounded (t ∷ ts) table distinct sound e m =
      let step = perform-TableStep t table distinct in
      attempts_bounded ts (perform t table) (Distinct-TableStep max_attempts step distinct)
        (λ d place.
          (let (before, at, moved) = predecessor max_attempts step place in
            Sound-RowStep max_attempts moved (sound before at)))
        e m

  -- Whatever transactions run on a table with distinct event identifiers, a row that is delivered or dead
  -- stays in the table as it is.
  pub settled_row_stays :
      (ts : List Transaction) (table : List Delivery) (d : Delivery)
      → Distinct table
      → Memᴰ d table
      → is_settled d.state ≡ true
      → Memᴰ d (run ts table)
  settled_row_stays [] table d distinct m settled = m
  settled_row_stays (t ∷ ts) table d distinct m settled =
      let step = perform-TableStep t table distinct in
      let (e, place, moved) = successor max_attempts step m in
      let same = settled_row max_attempts moved settled in
      settled_row_stays ts (perform t table) d (Distinct-TableStep max_attempts step distinct)
        (rw (sym same) place) settled

  later_row :
      (ts : List Transaction) (table : List Delivery) (d : Delivery)
      → Distinct table
      → Memᴰ d table
      → (e : Delivery) × Memᴰ e (run ts table)
        × (d.claim_generation ≤ e.claim_generation)
        × (e.event_id ≡ d.event_id)
  later_row [] table d distinct m = (d, m, omega arith, refl)
  later_row (t ∷ ts) table d distinct m =
      let step = perform-TableStep t table distinct in
      let (c, place, moved) = successor max_attempts step m in
      let (grown, named) = generation_grows max_attempts moved in
      let (e, at, more, id) =
        later_row ts (perform t table) c (Distinct-TableStep max_attempts step distinct) place in
      (e, at, omega arith, id ∙ named)

  claim_fields : (a b c d : Bool) → (a && b && c && d) ≡ true → (a ≡ true) × (d ≡ true)
  claim_fields a b c d h = ground arith

  stale_fence :
      (ts : List Transaction) (table : List Delivery) (d : Delivery) (token : String)
      (generation now : ℕ)
      → Distinct table
      → Memᴰ d table
      → generation < d.claim_generation
      → lock_live_claim d.event_id token generation now (run ts table) ≡ err outbox_claim_lost
  stale_fence ts table d token generation now distinct m older =
      let (e, place, grown, same) = later_row ts table d distinct m in
      let holds = holds_claim d.event_id token generation in
      elim (Option-cases (find holds (run ts table))) [
        | inl none_found ↦ ap (λ o. from_option o outbox_claim_lost >>= live_claim now) none_found
        | inr (held, found) ↦
            (let (at, claims) = find-Mem holds (run ts table) found in
              let (named, current) =
                claim_fields (has_id d.event_id held) (is_processing held.state)
                  (token_is held.claim_token token) (held.claim_generation == generation) claims in
              let one =
                same_row (run ts table) held e (run-Distinct ts table distinct) at place
                  (named_id held d.event_id named ∙ sym same) in
              let equal = ==→eq held.claim_generation generation current in
              let last = ap (λ (x : Delivery). x.claim_generation) one in absurd (omega arith))
      ]

  mark_delivered-Refused :
      (id token : String) (generation : ℕ) (ready : Result (Unit {0})) (now : ℕ)
      (table : List Delivery)
      → lock_live_claim id token generation now table ≡ err outbox_claim_lost
      → Refused (mark_delivered id token generation ready now table)
  unfolding mark_delivered
  mark_delivered-Refused id token generation ready now table lost =
      past-Refused (positive_integer generation max_safe_integer) _
        (past-Refused ready _ (by_lock _ _ lost))

  record_failure-Refused :
      (id token : String) (generation : ℕ) (error_code : String) (permanent : Bool) (backoff_ms : ℕ)
      (ready : Result (Unit {0})) (now : ℕ) (table : List Delivery)
      → lock_live_claim id token generation now table ≡ err outbox_claim_lost
      → Refused (
          record_failure max_attempts id token generation error_code permanent backoff_ms ready now
            table)
  unfolding record_failure
  record_failure-Refused id token generation error_code permanent backoff_ms ready now table lost =
      past-Refused (positive_integer generation max_safe_integer) _ (
        past-Refused (positive_integer backoff_ms 86400000) _ (
          past-Refused (guard (is_error_code error_code) uncoded_error) _
            (past-Refused ready _ (by_lock _ _ lost))))

  -- Once a row was claimed in a later generation, a claim of an earlier one is lost, whatever transactions have
  -- run since: the fence finds no live claim, and every delivery and every failure under the earlier generation
  -- is refused with an error.
  pub stale_claim_lost :
      (ts : List Transaction) (table : List Delivery) (d : Delivery) (token : String)
      (generation now : ℕ) (ready : Result (Unit {0})) (error_code : String) (permanent : Bool)
      (backoff_ms : ℕ)
      → Distinct table
      → Memᴰ d table
      → generation < d.claim_generation
      → (lock_live_claim d.event_id token generation now (run ts table) ≡ err outbox_claim_lost)
        × Refused (mark_delivered d.event_id token generation ready now (run ts table))
        × Refused (
            record_failure max_attempts d.event_id token generation error_code permanent backoff_ms
              ready now
              (run ts table))
  stale_claim_lost ts table d token generation now ready error_code permanent backoff_ms distinct m
        older =
      let lost = stale_fence ts table d token generation now distinct m older in
      (
        lost,
        mark_delivered-Refused d.event_id token generation ready now (run ts table) lost,
        record_failure-Refused d.event_id token generation error_code permanent backoff_ms ready now
            (run ts table) lost,
      )
