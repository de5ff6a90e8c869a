-- ===== src/Outbox.antt =====
-- packages/persistence/src/outbox.ts: the delivery of events. The table of deliveries is a list of rows, a
-- time is a count of milliseconds, and a transaction that throws leaves the table as it was.
pub mod Members
pub mod Rows
pub mod Kept
pub mod Laws
pub mod Progress
use samurai_sushi.Common.{
  ℕ, ◌+◌, Bool, true, false, not, ◌&&◌, ◌||◌, String, Option, none, some, List, [], ◌∷◌, map, any,
  all, take, count, length, leb, ltb, ◌==◌, str_eq, Result, ok, err, ◌>>=◌, ◌>>◌, guard,
  from_option, reject, uncoded_error, outbox_claim_lost, if◌then◌else◌,
}
use samurai_sushi.Json.Canonical.{max_safe_integer}
use samurai_sushi.Commands.Patterns.{codes}

pub data DeliveryState : Type 0 where
  pending processing delivered dead_letter : DeliveryState

-- A row of `outbox_deliveries`.
pub record Delivery : Type 0 where
  pub event_id : String
  pub state : DeliveryState
  pub attempt_count : ℕ
  pub available_at : ℕ
  pub last_attempt_at : Option ℕ
  pub claim_token : Option String
  pub claim_generation : ℕ
  pub claim_expires_at : Option ℕ
  pub delivered_at : Option ℕ
  pub dead_lettered_at : Option ℕ
  pub last_error_code : Option String

pub record OutboxClaim : Type 0 where
  pub event_id : String
  pub attempt_count : ℕ
  pub claim_token : Option String
  pub claim_generation : ℕ
  pub claim_expires_at : Option ℕ

-- What a transaction changes and what it returns.
pub record Outcome (A : Type 0) : Type 0 where
  pub table : List Delivery
  pub value : A

abbrev pub positive_integer : (value maximum : ℕ) → Result (Unit {0})
positive_integer value maximum =
    guard (leb value max_safe_integer && leb 1 value && leb value maximum) uncoded_error

abbrev pub is_pending : DeliveryState → Bool
is_pending pending = true
is_pending _ = false

abbrev pub is_processing : DeliveryState → Bool
is_processing processing = true
is_processing _ = false

-- `column <= time`, which does not hold of NULL.
abbrev pub at_most : Option ℕ → ℕ → Bool
at_most none time = false
at_most (some t) time = leb t time

abbrev pub lease_is_over : (now : ℕ) → Delivery → Bool
lease_is_over now d = is_processing d.state && at_most d.claim_expires_at now

abbrev pub is_exhausted : (max_attempts now : ℕ) → Delivery → Bool
is_exhausted max_attempts now d = lease_is_over now d && leb max_attempts d.attempt_count

abbrev pub bury_lease : (now : ℕ) → Delivery → Delivery
bury_lease now d = record d {
  state = dead_letter;
  dead_lettered_at = some now;
  claim_token = none;
  claim_expires_at = none;
  last_error_code = some "LEASE_EXHAUSTED";
}

abbrev pub is_due : (max_attempts now : ℕ) → Delivery → Bool
is_due max_attempts now d =
    (is_pending d.state && leb d.available_at now)
    || (lease_is_over now d && ltb d.attempt_count max_attempts)

abbrev pub claim_row : (token : String) (lease_ms now : ℕ) → Delivery → Delivery
claim_row token lease_ms now d = record d {
  state = processing;
  attempt_count = d.attempt_count + 1;
  last_attempt_at = some now;
  claim_token = some token;
  claim_generation = d.claim_generation + 1;
  claim_expires_at = some (now + lease_ms);
  delivered_at = none;
  dead_lettered_at = none;
}

abbrev pub claim_of : Delivery → OutboxClaim
claim_of d = record {
  event_id = d.event_id;
  attempt_count = d.attempt_count;
  claim_token = d.claim_token;
  claim_generation = d.claim_generation;
  claim_expires_at = d.claim_expires_at;
}

abbrev pub filter {ℓ} : {A : Type ℓ} → (A → Bool) → List A → List A
filter p [] = []
filter p (x ∷ xs) = let rest = filter p xs in if p x then x ∷ rest else rest

abbrev pub has_id : String → Delivery → Bool
has_id id d = str_eq d.event_id id

-- `WHERE event_id = … AND state = 'processing' AND claim_token = … AND claim_generation = …`.
abbrev pub token_is : Option String → String → Bool
token_is none token = false
token_is (some t) token = str_eq t token

abbrev pub holds_claim : (id token : String) (generation : ℕ) → Delivery → Bool
holds_claim id token generation d =
    has_id id d
    && is_processing d.state
    && token_is d.claim_token token
    && d.claim_generation == generation

abbrev pub find : (Delivery → Bool) → List Delivery → Option Delivery
find p [] = none
find p (d ∷ ds) = if p d then some d else find p ds

-- `UPDATE … WHERE …`.
abbrev pub update_where : (Delivery → Bool) → (Delivery → Delivery) → List Delivery → List Delivery
update_where p f [] = []
update_where p f (d ∷ ds) = (if p d then f d else d) ∷ update_where p f ds

abbrev is_upper : ℕ → Bool
is_upper c = leb b'A' c && leb c b'Z'

-- `/^[A-Z][A-Z0-9_]{0,127}$/`.
abbrev error_code_codes : List ℕ → Bool
error_code_codes [] = false
error_code_codes (c ∷ cs) =
    is_upper c
    && leb (length cs) 127
    && all (λ d. is_upper d || (leb b'0' d && leb d b'9') || d == b'_') cs

unfoldable pub is_error_code : String → Bool
is_error_code s = error_code_codes (codes s)

abbrev pub is_candidate : List Delivery → Delivery → Bool
is_candidate chosen d = any (λ c. str_eq c.event_id d.event_id) chosen

-- Each row is buried, claimed, or left.
abbrev pub claim_or_bury :
    (max_attempts lease_ms now : ℕ) (token : String) (chosen : List Delivery) → Delivery → Delivery
claim_or_bury max_attempts lease_ms now token chosen d =
    if is_exhausted max_attempts now d
    then bury_lease now d
    else (if is_candidate chosen d then claim_row token lease_ms now d else d)

-- The database orders event identifiers by its collation, and `SKIP LOCKED` leaves out the rows that
-- another transaction holds.
module _ (id_le : String → String → Bool) where
  abbrev pub precedes : Delivery → Delivery → Bool
  precedes a b =
      ltb a.available_at b.available_at
      || (a.available_at == b.available_at && id_le a.event_id b.event_id)

  abbrev pub insert_row : Delivery → List Delivery → List Delivery
  insert_row d [] = d ∷ []
  insert_row d (e ∷ es) = if precedes d e then d ∷ e ∷ es else e ∷ insert_row d es

  -- `ORDER BY available_at, event_id`.
  abbrev pub order_rows : List Delivery → List Delivery
  order_rows [] = []
  order_rows (d ∷ ds) = insert_row d (order_rows ds)

  abbrev pub candidates :
      (max_attempts limit now : ℕ) (locked : Delivery → Bool) → List Delivery → List Delivery
  candidates max_attempts limit now locked table =
      take limit (order_rows (filter (λ d. is_due max_attempts now d && not (locked d)) table))

  -- `ready` is what `assertTransactionReady` does; `now` is the clock of the statement.
  unfoldable pub claim :
      (max_attempts limit lease_ms : ℕ) (token : String) (ready : Result (Unit {0})) (now : ℕ)
      (locked : Delivery → Bool)
      → List Delivery
      → Result (Outcome (List OutboxClaim))
  claim max_attempts limit lease_ms token ready now locked table = do
    positive_integer limit 1000
    positive_integer lease_ms 900000
    ready
    let chosen = candidates max_attempts limit now locked table
    ok (record {
      table = map (claim_or_bury max_attempts lease_ms now token chosen) table;
      value = map (λ d. claim_of (claim_row token lease_ms now d)) chosen;
    })

abbrev pub live_claim : (now : ℕ) → Delivery → Result Delivery
live_claim now d = from_option d.claim_expires_at uncoded_error >>= λ expires.
    reject (leb expires now) outbox_claim_lost >> ok d

abbrev pub lock_live_claim :
    (id token : String) (generation now : ℕ) → List Delivery → Result Delivery
lock_live_claim id token generation now table =
    from_option (find (holds_claim id token generation) table) outbox_claim_lost >>= live_claim now

abbrev pub deliver_row : (now : ℕ) → Delivery → Delivery
deliver_row now d = record d {
  state = delivered;
  delivered_at = some now;
  claim_token = none;
  claim_expires_at = none;
  last_error_code = none;
}

unfoldable pub mark_delivered :
    (id token : String) (generation : ℕ) (ready : Result (Unit {0})) (now : ℕ)
    → List Delivery
    → Result (Outcome (Unit {0}))
mark_delivered id token generation ready now table = do
  positive_integer generation max_safe_integer
  ready
  held ← lock_live_claim id token generation now table
  guard (count (holds_claim id token generation) table == 1) outbox_claim_lost
  ok (record {
    table = update_where (holds_claim id token generation) (deliver_row now) table;
    value = tt;
  })

abbrev pub fail_row :
    (terminal : Bool) (now backoff_ms : ℕ) (error_code : String) → Delivery → Delivery
fail_row terminal now backoff_ms error_code d = record d {
  state = if terminal then dead_letter else pending;
  available_at = if terminal then d.available_at else now + backoff_ms;
  claim_token = none;
  claim_expires_at = none;
  dead_lettered_at = if terminal then some now else none;
  last_error_code = some error_code;
}

unfoldable pub record_failure :
    (max_attempts : ℕ) (id token : String) (generation : ℕ) (error_code : String) (permanent : Bool)
    (backoff_ms : ℕ) (ready : Result (Unit {0})) (now : ℕ)
    → List Delivery
    → Result (Outcome DeliveryState)
unfolding is_error_code
record_failure max_attempts id token generation error_code permanent backoff_ms ready now table = do
  positive_integer generation max_safe_integer
  positive_integer backoff_ms 86400000
  guard (is_error_code error_code) uncoded_error
  ready
  held ← lock_live_claim id token generation now table
  let terminal = permanent || leb max_attempts held.attempt_count
  ok (record {
    table =
        update_where (holds_claim id token generation) (fail_row terminal now backoff_ms error_code)
          table;
    value = if terminal then dead_letter else pending;
  })
