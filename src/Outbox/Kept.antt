-- ===== src/Outbox/Kept.antt =====
-- What every transaction of packages/persistence/src/outbox.ts keeps of a row.
use mathlib.Core.List.{Memᴰ}
use samurai_sushi.Common.{
  ℕ, ◌+◌, ◌≤◌, ◌<◌, ◌≡◌, refl, ap, ◌∙◌, Bool, true, false, ◌&&◌, ◌||◌, String, List, [], ◌∷◌, any,
  leb, ltb, arith, if◌then◌else◌,
}
use samurai_sushi.Outbox.{
  DeliveryState, pending, processing, delivered, dead_letter, Delivery, is_pending, is_processing,
  at_most, has_id,
}
use samurai_sushi.Outbox.Members.{Distinct}
use samurai_sushi.Outbox.Rows.{RowStep, TableStep}

-- A row that waits has an attempt left, a row in delivery has its claim, and no row has more attempts than
-- the policy allows.
abbrev pub Sound : ℕ → Delivery → Type 0
Sound max_attempts d =
    (d.attempt_count ≤ max_attempts) × (d.state ≡ pending → d.attempt_count < max_attempts)

past_due :
    (max_attempts now attempts available : ℕ) (p q o : Bool)
    → ((p && leb available now) || ((q && o) && ltb attempts max_attempts)) ≡ true
    → (p ≡ true → attempts < max_attempts)
    → attempts + 1 ≤ max_attempts
past_due max_attempts now attempts available true q o h k = omega (arith, k refl)
past_due max_attempts now attempts available false q o h k = ground arith

waits : (s : DeliveryState) → is_pending s ≡ true → s ≡ pending
waits pending h = refl
waits processing h = cc
waits delivered h = cc
waits dead_letter h = cc

retries :
    (permanent : Bool) (max_attempts attempts : ℕ)
    → (if permanent || leb max_attempts attempts then dead_letter else pending) ≡ pending
    → attempts < max_attempts
retries permanent max_attempts attempts h = ground arith

pub Sound-RowStep :
    (max_attempts : ℕ) {d e : Delivery}
    → RowStep max_attempts d e
    → Sound max_attempts d
    → Sound max_attempts e
Sound-RowStep max_attempts (RowStep.kept e) s = rw e s
Sound-RowStep max_attempts (RowStep.buried now _ e) (bound, _) = rw e (bound, λ h. cc)
Sound-RowStep max_attempts {d} (RowStep.claimed token lease_ms now due e) (bound, left) = rw e (
  past_due max_attempts now d.attempt_count d.available_at (is_pending d.state)
      (is_processing d.state) (at_most d.claim_expires_at now) due (λ h. left (waits d.state h)),
  λ h. cc,
)
Sound-RowStep max_attempts (RowStep.delivered id token generation now held e) (bound, _) =
    rw e (bound, λ h. cc)
Sound-RowStep max_attempts {d}
      (RowStep.failed id token generation now permanent backoff_ms code held e) (bound, _) =
    rw e (bound, λ h. retries permanent max_attempts d.attempt_count h)

abbrev pub is_settled : DeliveryState → Bool
is_settled delivered = true
is_settled dead_letter = true
is_settled _ = false

settled_waits_not :
    (s : DeliveryState) → is_settled s ≡ true → (is_pending s ≡ false) × (is_processing s ≡ false)
settled_waits_not s h = ground arith

no_due : (p q a b c : Bool) → p ≡ false → q ≡ false → ((p && a) || ((q && b) && c)) ≡ true → ⊥
no_due p q a b c hp hq h = ground arith

no_claim : (a q b c : Bool) → q ≡ false → (a && q && b && c) ≡ true → ⊥
no_claim a q b c hq h = ground arith

-- No transaction touches a row that is delivered or dead.
pub settled_row :
    (max_attempts : ℕ) {d e : Delivery}
    → RowStep max_attempts d e
    → is_settled d.state ≡ true
    → e ≡ d
settled_row max_attempts (RowStep.kept e) h = e
settled_row max_attempts {d} (RowStep.buried now over e) h =
    let (_, idle) = settled_waits_not d.state h in
    absurd
      (no_due false (is_processing d.state) false (at_most d.claim_expires_at now) _ refl idle over)
settled_row max_attempts {d} (RowStep.claimed token lease_ms now due e) h =
    let (calm, idle) = settled_waits_not d.state h in
    absurd (
      no_due (is_pending d.state) (is_processing d.state) (leb d.available_at now)
        (at_most d.claim_expires_at now) (ltb d.attempt_count max_attempts) calm idle due)
settled_row max_attempts {d} (RowStep.delivered id token generation now held e) h =
    let (_, idle) = settled_waits_not d.state h in
    absurd (no_claim (has_id id d) (is_processing d.state) _ _ idle held)
settled_row max_attempts {d}
      (RowStep.failed id token generation now permanent backoff_ms code held e) h =
    let (_, idle) = settled_waits_not d.state h in
    absurd (no_claim (has_id id d) (is_processing d.state) _ _ idle held)

-- The generation of a row never goes back, and its identifier stays.
pub generation_grows :
    (max_attempts : ℕ) {d e : Delivery}
    → RowStep max_attempts d e
    → (d.claim_generation ≤ e.claim_generation) × (e.event_id ≡ d.event_id)
generation_grows max_attempts (RowStep.kept e) = rw e (omega arith, refl)
generation_grows max_attempts (RowStep.buried now _ e) = rw e (omega arith, refl)
generation_grows max_attempts (RowStep.claimed _ _ _ _ e) = rw e (omega arith, refl)
generation_grows max_attempts (RowStep.delivered _ _ _ _ _ e) = rw e (omega arith, refl)
generation_grows max_attempts (RowStep.failed _ _ _ _ _ _ _ _ e) = rw e (omega arith, refl)

any_id :
    (max_attempts : ℕ) (id : String) {ds es : List Delivery}
    → TableStep max_attempts ds es
    → any (has_id id) es ≡ any (has_id id) ds
any_id max_attempts id TableStep.empty = refl
any_id max_attempts id (TableStep.row step steps) =
    let (_, same) = generation_grows max_attempts step in
    rw (any_id max_attempts id steps) (rw same refl)

pub Distinct-TableStep :
    (max_attempts : ℕ) {ds es : List Delivery}
    → TableStep max_attempts ds es
    → Distinct ds
    → Distinct es
Distinct-TableStep max_attempts TableStep.empty h = tt
Distinct-TableStep max_attempts (TableStep.row {d} {e} {ds} {es} step steps) (fresh, more) =
    let (_, same) = generation_grows max_attempts step in
    (
      ap (λ id. any (has_id id) es) same ∙ any_id max_attempts d.event_id steps ∙ fresh,
      Distinct-TableStep max_attempts steps more,
    )

pub TableStep-refl : (max_attempts : ℕ) (ds : List Delivery) → TableStep max_attempts ds ds
TableStep-refl max_attempts [] = TableStep.empty
TableStep-refl max_attempts (d ∷ ds) =
    TableStep.row (RowStep.kept refl) (TableStep-refl max_attempts ds)

-- The row that a row has become.
pub successor :
    (max_attempts : ℕ) {d : Delivery} {ds es : List Delivery}
    → TableStep max_attempts ds es
    → Memᴰ d ds
    → (e : Delivery) × Memᴰ e es × RowStep max_attempts d e
successor max_attempts TableStep.empty m = elim m [ ]
successor max_attempts (TableStep.row {e = e} step steps) (Memᴰ.head same) =
    (e, Memᴰ.head refl, rw same step)
successor max_attempts (TableStep.row step steps) (Memᴰ.tail m) =
    let (e, place, after) = successor max_attempts steps m in (e, Memᴰ.tail place, after)

-- The row that a row was.
pub predecessor :
    (max_attempts : ℕ) {e : Delivery} {ds es : List Delivery}
    → TableStep max_attempts ds es
    → Memᴰ e es
    → (d : Delivery) × Memᴰ d ds × RowStep max_attempts d e
predecessor max_attempts TableStep.empty m = elim m [ ]
predecessor max_attempts (TableStep.row {d} step steps) (Memᴰ.head same) =
    (d, Memᴰ.head refl, rw same step)
predecessor max_attempts (TableStep.row step steps) (Memᴰ.tail m) =
    let (d, place, before) = predecessor max_attempts steps m in (d, Memᴰ.tail place, before)
