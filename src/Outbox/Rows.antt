-- ===== src/Outbox/Rows.antt =====
-- packages/persistence/src/outbox.ts, row by row: what each transaction does to the rows of a table whose
-- event identifiers, its primary key, are distinct.
use mathlib.Core.List.{Memᴰ}
use samurai_sushi.Common.{
  ℕ, ◌≡◌, refl, sym, ap, ◌∙◌, inl, inr, Bool, true, ◌&&◌, ◌||◌, Bool-cases, String, Option, none,
  some, List, [], ◌∷◌, map, leb, ◌==◌, eq_iff, Result, ok, ◌>>=◌, >>=-eq-ok, >>-eq-ok, guard,
  reject, from_option, uncoded_error, outbox_claim_lost, arith, count,
}
use samurai_sushi.Json.Canonical.{max_safe_integer}
use samurai_sushi.Outbox.{
  DeliveryState, Delivery, OutboxClaim, Outcome, positive_integer, is_exhausted, bury_lease, is_due,
  claim_row, has_id, holds_claim, find, update_where, candidates, is_candidate, claim_or_bury,
  claim, is_processing, lock_live_claim, live_claim, deliver_row, mark_delivered, fail_row,
  record_failure, is_error_code,
}
use samurai_sushi.Outbox.Members.{Distinct, same_row, find-Mem, any-Mem, candidates-Mem}

-- What may happen to a row.
pub data RowStep (max_attempts : ℕ) (d e : Delivery) : Type 0 where
  kept : e ≡ d → RowStep max_attempts d e
  buried :
      (now : ℕ)
      → is_exhausted max_attempts now d ≡ true
      → e ≡ bury_lease now d
      → RowStep max_attempts d e
  claimed :
      (token : String) (lease_ms now : ℕ)
      → is_due max_attempts now d ≡ true
      → e ≡ claim_row token lease_ms now d
      → RowStep max_attempts d e
  delivered :
      (id token : String) (generation now : ℕ)
      → holds_claim id token generation d ≡ true
      → e ≡ deliver_row now d
      → RowStep max_attempts d e
  failed :
      (id token : String) (generation now : ℕ) (permanent : Bool) (backoff_ms : ℕ)
      (error_code : String)
      → holds_claim id token generation d ≡ true
      → e ≡ fail_row (permanent || leb max_attempts d.attempt_count) now backoff_ms error_code d
      → RowStep max_attempts d e

pub data TableStep (max_attempts : ℕ) : List Delivery → List Delivery → Type 0 where
  empty : TableStep max_attempts [] []
  row :
      {d e : Delivery} {ds es : List Delivery}
      → RowStep max_attempts d e
      → TableStep max_attempts ds es
      → TableStep max_attempts (d ∷ ds) (e ∷ es)

-- A transaction that changes each row by itself is a step of the table.
pub map-TableStep :
    (max_attempts : ℕ) (f : Delivery → Delivery) (ds : List Delivery)
    → ((d : Delivery) → Memᴰ d ds → RowStep max_attempts d (f d))
    → TableStep max_attempts ds (map f ds)
map-TableStep max_attempts f [] h = TableStep.empty
map-TableStep max_attempts f (d ∷ ds) h =
    TableStep.row (h d (Memᴰ.head refl))
      (map-TableStep max_attempts f ds (λ e m. h e (Memᴰ.tail m)))

pub update_where-TableStep :
    (max_attempts : ℕ) (p : Delivery → Bool) (f : Delivery → Delivery) (ds : List Delivery)
    → ((d : Delivery) → Memᴰ d ds → p d ≡ true → RowStep max_attempts d (f d))
    → TableStep max_attempts ds (update_where p f ds)
update_where-TableStep max_attempts p f [] h = TableStep.empty
update_where-TableStep max_attempts p f (d ∷ ds) h =
    TableStep.row
      (elim (Bool-cases (p d)) [
        | inl e ↦ rw e (h d (Memᴰ.head refl) e)
        | inr e ↦ rw e (RowStep.kept refl)
      ])
      (update_where-TableStep max_attempts p f ds (λ x m. h x (Memᴰ.tail m)))

table_of :
    {A : Type 0} {t : List Delivery} {v : A} (out : Outcome A)
    → Result.ok (record { table = t; value = v }) ≡ ok out
    → out.table ≡ t
table_of out h = cc

named : (a b c d : Bool) {A : Type 0} → (a && b && c && d) ≡ true → (a ≡ true → A) → A
named a b c d h f = f (ground arith)

live :
    (now : ℕ) (o : Option Delivery) {held : Delivery}
    → (from_option o outbox_claim_lost >>= live_claim now) ≡ ok held
    → o ≡ some held
live now none h = cc
live now (some d) {held} h =
    let (expires, _, h1) = >>=-eq-ok (from_option d.claim_expires_at uncoded_error) _ h in
    let (_, h2) = >>-eq-ok (reject (leb expires now) outbox_claim_lost) _ h1 in
    let same : d ≡ held = cc in ap some same

-- The row that is locked is one of the table that holds the claim.
pub locked_row :
    (id token : String) (generation now : ℕ) (table : List Delivery) {held : Delivery}
    → lock_live_claim id token generation now table ≡ ok held
    → Memᴰ held table × (holds_claim id token generation held ≡ true)
locked_row id token generation now table h =
    find-Mem (holds_claim id token generation) table
      (live now (find (holds_claim id token generation) table) h)

changed :
    {max_attempts : ℕ} {A : Type 0} {ds t : List Delivery} {v : A} {out : Outcome A}
    → Result.ok (record { table = t; value = v }) ≡ ok out
    → TableStep max_attempts ds t
    → TableStep max_attempts ds out.table
changed {out = out} h step = rw (table_of out h) step

pub mark_delivered-TableStep :
    (max_attempts : ℕ) (id token : String) (generation : ℕ) (ready : Result (Unit {0})) (now : ℕ)
    (table : List Delivery) {out : Outcome (Unit {0})}
    → mark_delivered id token generation ready now table ≡ ok out
    → TableStep max_attempts table out.table
unfolding mark_delivered
mark_delivered-TableStep max_attempts id token generation ready now table h =
    let (_, h1) = >>-eq-ok (positive_integer generation max_safe_integer) _ h in
    let (_, h2) = >>-eq-ok ready _ h1 in
    let (held, _, h3) = >>=-eq-ok (lock_live_claim id token generation now table) _ h2 in
    let (_, h4) =
      >>-eq-ok (guard (count (holds_claim id token generation) table == 1) outbox_claim_lost) _
        h3 in
    changed h4 (
      update_where-TableStep max_attempts (holds_claim id token generation) (deliver_row now) table
        (λ d m e. RowStep.delivered id token generation now e refl))

holds_claim-id :
    (id token : String) (generation : ℕ) (d : Delivery)
    → holds_claim id token generation d ≡ true
    → d.event_id ≡ id
holds_claim-id id token generation d h =
    named (has_id id d) (is_processing d.state) _ _ h (λ e. ground (arith, eq_iff d.event_id id))

pub record_failure-TableStep :
    (max_attempts : ℕ) (id token : String) (generation : ℕ) (error_code : String) (permanent : Bool)
    (backoff_ms : ℕ) (ready : Result (Unit {0})) (now : ℕ) (table : List Delivery)
    {out : Outcome DeliveryState}
    → Distinct table
    → record_failure max_attempts id token generation error_code permanent backoff_ms ready now
        table
      ≡ ok out
    → TableStep max_attempts table out.table
unfolding record_failure
record_failure-TableStep max_attempts id token generation error_code permanent backoff_ms ready now
      table distinct h =
    let (_, h1) = >>-eq-ok (positive_integer generation max_safe_integer) _ h in
    let (_, h2) = >>-eq-ok (positive_integer backoff_ms 86400000) _ h1 in
    let (_, h3) = >>-eq-ok (guard (is_error_code error_code) uncoded_error) _ h2 in
    let (_, h4) = >>-eq-ok ready _ h3 in
    let (held, locked, h5) = >>=-eq-ok (lock_live_claim id token generation now table) _ h4 in
    let (place, claims) = locked_row id token generation now table locked in
    changed h5 (
      update_where-TableStep max_attempts (holds_claim id token generation) _ table (λ d m e.
        (let same = same_row table d held distinct m place (
            holds_claim-id id token generation d e
            ∙ sym (holds_claim-id id token generation held claims)) in
          RowStep.failed id token generation now permanent backoff_ms error_code e (
            ap
              (λ x.
                fail_row (permanent || leb max_attempts x.attempt_count) now backoff_ms error_code
                  d)
              (sym same)))))

module _ (id_le : String → String → Bool) where
  claim_or_bury-RowStep :
      (max_attempts limit lease_ms now : ℕ) (token : String) (locked : Delivery → Bool)
      (table : List Delivery)
      → Distinct table
      → (d : Delivery) → Memᴰ d table
      → RowStep max_attempts d (
          claim_or_bury max_attempts lease_ms now token
            (candidates id_le max_attempts limit now locked table)
            d)
  claim_or_bury-RowStep max_attempts limit lease_ms now token locked table distinct d m =
      let chosen = candidates id_le max_attempts limit now locked table in
      elim (Bool-cases (is_exhausted max_attempts now d)) [
        | inl over ↦ rw over (RowStep.buried now over refl)
        | inr other ↦ elim (Bool-cases (is_candidate chosen d)) [
          | inl picked ↦
              (let (c, n, e) = any-Mem d.event_id chosen picked in
                let (place, due) = candidates-Mem id_le max_attempts limit now locked table n in
                let same = same_row table c d distinct place m e in
                rw other (
                  rw picked (
                    RowStep.claimed token lease_ms now
                      (sym (ap (is_due max_attempts now) same) ∙ due) refl)))
          | inr left ↦ rw other (rw left (RowStep.kept refl))
        ]
      ]

  pub claim-TableStep :
      (max_attempts limit lease_ms : ℕ) (token : String) (ready : Result (Unit {0})) (now : ℕ)
      (locked : Delivery → Bool) (table : List Delivery) {out : Outcome (List OutboxClaim)}
      → Distinct table
      → claim id_le max_attempts limit lease_ms token ready now locked table ≡ ok out
      → TableStep max_attempts table out.table
  unfolding claim
  claim-TableStep max_attempts limit lease_ms token ready now locked table distinct h =
      let (_, h1) = >>-eq-ok (positive_integer limit 1000) _ h in
      let (_, h2) = >>-eq-ok (positive_integer lease_ms 900000) _ h1 in
      let (_, h3) = >>-eq-ok ready _ h2 in
      changed h3 (
        map-TableStep max_attempts _ table
          (claim_or_bury-RowStep max_attempts limit lease_ms now token locked table distinct))
