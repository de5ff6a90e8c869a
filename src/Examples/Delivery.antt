-- ===== src/Examples/Delivery.antt =====
-- The deliveries of events at a concrete table.
use mathlib.Core.List.{Memᴰ}
use samurai_sushi.Common.{
  ◌≡◌, refl, false, Bool, String, none, some, List, [], ◌∷◌, ok, err, arith, outbox_claim_lost,
  str_eq,
}
use samurai_sushi.Outbox.{
  pending, processing, delivered, Delivery, OutboxClaim, Outcome, claim, lock_live_claim,
  mark_delivered, record_failure, is_error_code,
}
use samurai_sushi.Outbox.Members.{Distinct}
use samurai_sushi.Outbox.Kept.{Sound}
use samurai_sushi.Outbox.Laws.{
  Transaction, claiming, delivering, failing, run, attempts_bounded, settled_row_stays, Refused,
  stale_claim_lost,
}
use samurai_sushi.Outbox.Progress.{Leased, due_row_is_claimed}

abbrev waiting : Delivery
waiting = record {
  event_id = "event-1";
  state = pending;
  attempt_count = 0;
  available_at = 5;
  last_attempt_at = none;
  claim_token = none;
  claim_generation = 0;
  claim_expires_at = none;
  delivered_at = none;
  dead_lettered_at = none;
  last_error_code = none;
}

abbrev done_before : Delivery
done_before = record waiting {
  event_id = "event-2";
  state = delivered;
  attempt_count = 1;
  claim_generation = 1;
  delivered_at = some 4;
}

abbrev table : List Delivery
table = waiting ∷ done_before ∷ []

abbrev same_order : String → String → Bool
same_order a b = str_eq a b

-- A claim, a failure, a second claim and a delivery.
abbrev history : List Transaction
history =
    claiming 10 1000 "a" (ok tt) 10 (λ d. false)
    ∷ failing "event-1" "a" 1 "E" false 100 (ok tt) 20
    ∷ claiming 10 1000 "b" (ok tt) 200 (λ d. false)
    ∷ []

table-Distinct : Distinct table
table-Distinct = (refl, (refl, tt))

table-Sound : (d : Delivery) → Memᴰ d table → Sound 5 d
table-Sound d (Memᴰ.head e) = rw e (omega arith, λ h. omega arith)
table-Sound d (Memᴰ.tail (Memᴰ.head e)) = rw e (omega arith, λ h. cc)
table-Sound d (Memᴰ.tail (Memᴰ.tail m)) = elim m [ ]

abbrev claimed_twice : Delivery
claimed_twice = record waiting {
  state = processing;
  attempt_count = 2;
  available_at = 120;
  last_attempt_at = some 200;
  claim_token = some "b";
  claim_generation = 2;
  claim_expires_at = some 1200;
  last_error_code = some "E";
}

test_history : run same_order 5 history table ≡ claimed_twice ∷ done_before ∷ []
unfolding claim record_failure is_error_code
test_history = refl

attempts_bounded_example : Sound 5 claimed_twice
attempts_bounded_example =
    attempts_bounded same_order 5 history table table-Distinct table-Sound claimed_twice
      (rw test_history (Memᴰ.head refl))

settled_row_stays_example : Memᴰ done_before (run same_order 5 history table)
settled_row_stays_example =
    settled_row_stays same_order 5 history table done_before table-Distinct
      (Memᴰ.tail (Memᴰ.head refl)) refl

later_table-Distinct : Distinct (claimed_twice ∷ done_before ∷ [])
later_table-Distinct = (refl, (refl, tt))

abbrev after_delivery : List Delivery
after_delivery =
    run same_order 5 (delivering "event-1" "b" 2 (ok tt) 205 ∷ [])
      (claimed_twice ∷ done_before ∷ [])

stale_claim_lost_example :
    (lock_live_claim "event-1" "a" 1 210 after_delivery ≡ err outbox_claim_lost)
    × Refused (mark_delivered "event-1" "a" 1 (ok tt) 210 after_delivery)
    × Refused (record_failure 5 "event-1" "a" 1 "TIMEOUT" false 1000 (ok tt) 210 after_delivery)
stale_claim_lost_example =
    stale_claim_lost same_order 5 (delivering "event-1" "b" 2 (ok tt) 205 ∷ [])
      (claimed_twice ∷ done_before ∷ []) claimed_twice "a" 1 210 (ok tt) "TIMEOUT" false 1000
      later_table-Distinct (Memᴰ.head refl) (omega arith)

due_row_is_claimed_example :
    (out : Outcome (List OutboxClaim)) × (claim same_order 5 10 1000 "a"
        (ok tt)
        10
        (λ d. false)
        table
      ≡ ok out)
    × Leased "a" 1000 10 waiting out
due_row_is_claimed_example =
    due_row_is_claimed same_order 5 10 1000 "a" 10 (λ d. false) table (omega arith) (omega arith)
      (omega arith) (omega arith) (omega arith) waiting (Memᴰ.head refl) refl refl
