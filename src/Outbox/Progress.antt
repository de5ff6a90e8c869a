-- ===== src/Outbox/Progress.antt =====
-- packages/persistence/src/outbox.ts: a row that is due is claimed.
use mathlib.Core.List.{Memᴰ}
use samurai_sushi.Common.{
  ◌+◌, some, ℕ, zero, suc, ◌≤◌, ◌≡◌, refl, sym, ap, ◌∙◌, inl, inr, Bool, true, false, not, ◌&&◌,
  ◌||◌, Bool-cases, String, List, [], ◌∷◌, map, take, length, leb, le→leb, ltb, str_eq, eq_refl, ok,
  arith,
}
use samurai_sushi.Json.Canonical.{max_safe_integer}
use samurai_sushi.Outbox.{
  DeliveryState, claim_of, Delivery, OutboxClaim, Outcome, positive_integer, is_pending,
  is_processing, processing, at_most, is_due, claim_row, filter, precedes, insert_row, order_rows,
  candidates, is_candidate, claim_or_bury, claim,
}

filtered :
    (p : Delivery → Bool) (ds : List Delivery) {d : Delivery}
    → Memᴰ d ds
    → p d ≡ true
    → Memᴰ d (filter p ds)
filtered p [] m h = elim m [ ]
filtered p (x ∷ ds) (Memᴰ.head e) h = rw (sym (ap p e) ∙ h) (Memᴰ.head e)
filtered p (x ∷ ds) (Memᴰ.tail m) h = elim (Bool-cases (p x)) [
  | inl e ↦ rw e (Memᴰ.tail (filtered p ds m h))
  | inr e ↦ rw e (filtered p ds m h)
]

filter_shortens : (p : Delivery → Bool) (ds : List Delivery) → length (filter p ds) ≤ length ds
filter_shortens p [] = omega arith
filter_shortens p (x ∷ ds) = elim (Bool-cases (p x)) [
  | inl e ↦ rw e (omega (arith, filter_shortens p ds))
  | inr e ↦ rw e (omega (arith, filter_shortens p ds))
]

taken : (n : ℕ) (ds : List Delivery) {d : Delivery} → Memᴰ d ds → length ds ≤ n → Memᴰ d (take n ds)
taken zero [] m h = elim m [ ]
taken zero (x ∷ ds) m h = absurd (omega arith)
taken (suc n) [] m h = elim m [ ]
taken (suc n) (x ∷ ds) (Memᴰ.head e) h = Memᴰ.head e
taken (suc n) (x ∷ ds) (Memᴰ.tail m) h = Memᴰ.tail (taken n ds m (omega arith))

map_there :
    (f : Delivery → Delivery) (ds : List Delivery) {d : Delivery}
    → Memᴰ d ds
    → Memᴰ (f d) (map f ds)
map_there f [] m = elim m [ ]
map_there f (x ∷ ds) (Memᴰ.head e) = Memᴰ.head (ap f e)
map_there f (x ∷ ds) (Memᴰ.tail m) = Memᴰ.tail (map_there f ds m)

chosen_one : (ds : List Delivery) (d : Delivery) → Memᴰ d ds → is_candidate ds d ≡ true
chosen_one [] d m = elim m [ ]
chosen_one (x ∷ ds) d (Memᴰ.head e) =
    let same = ap (λ (y : Delivery). str_eq y.event_id d.event_id) (sym e) ∙ eq_refl d.event_id in
    rw same refl
chosen_one (x ∷ ds) d (Memᴰ.tail m) =
    let later = chosen_one ds d m in
    elim (Bool-cases (str_eq x.event_id d.event_id)) [ inl e ↦ rw e refl | inr e ↦ rw e later ]

lease_or_attempts :
    (p q o : Bool) (now available attempts most : ℕ)
    → (p ≡ true → q ≡ false)
    → ((p && leb available now) || ((q && o) && ltb attempts most)) ≡ true
    → ((q && o) && leb most attempts) ≡ false
lease_or_attempts true q o now available attempts most apart h = rw (apart refl) refl
lease_or_attempts false q o now available attempts most apart h = ground arith

apart : (s : DeliveryState) → is_pending s ≡ true → is_processing s ≡ false
apart s h = ground arith

positive_integer-ok :
    (value maximum : ℕ)
    → 1 ≤ value
    → value ≤ maximum
    → maximum ≤ max_safe_integer
    → positive_integer value maximum ≡ ok tt
positive_integer-ok value maximum low high safe =
    rw (le→leb value max_safe_integer (omega arith))
      (rw (le→leb 1 value low) (rw (le→leb value maximum high) refl))

-- The row of an event after it was claimed, and its claim among the returned ones.
pub record Leased (token : String) (lease_ms now : ℕ) (d : Delivery)
    (out : Outcome (List OutboxClaim)) : Type 0 where
  pub row : Delivery
  pub place : Memᴰ row out.table
  pub same_event : row.event_id ≡ d.event_id
  pub in_processing : row.state ≡ processing
  pub one_attempt_more : row.attempt_count ≡ d.attempt_count + 1
  pub next_generation : row.claim_generation ≡ d.claim_generation + 1
  pub held_by : row.claim_token ≡ some token
  pub leased_until : row.claim_expires_at ≡ some (now + lease_ms)
  pub returned : Memᴰ (claim_of row) out.value

claim_there :
    (token : String) (lease_ms now : ℕ) (ds : List Delivery) {d : Delivery}
    → Memᴰ d ds
    → Memᴰ
        (claim_of (claim_row token lease_ms now d))
        (map (λ x. claim_of (claim_row token lease_ms now x)) ds)
claim_there token lease_ms now [] m = elim m [ ]
claim_there token lease_ms now (x ∷ ds) (Memᴰ.head e) =
    Memᴰ.head (ap (λ d. claim_of (claim_row token lease_ms now d)) e)
claim_there token lease_ms now (x ∷ ds) (Memᴰ.tail m) =
    Memᴰ.tail (claim_there token lease_ms now ds m)

module _ (id_le : String → String → Bool) where
  inserted_length :
      (x : Delivery) (ds : List Delivery) → length (insert_row id_le x ds) ≡ suc (length ds)
  inserted_length x [] = refl
  inserted_length x (y ∷ ds) = elim (Bool-cases (precedes id_le x y)) [
    | inl e ↦ rw e refl
    | inr e ↦ rw e (ap suc (inserted_length x ds))
  ]

  ordered_length : (ds : List Delivery) → length (order_rows id_le ds) ≡ length ds
  ordered_length [] = refl
  ordered_length (x ∷ ds) = inserted_length x (order_rows id_le ds) ∙ ap suc (ordered_length ds)

  inserted : (x : Delivery) (ds : List Delivery) → Memᴰ x (insert_row id_le x ds)
  inserted x [] = Memᴰ.head refl
  inserted x (y ∷ ds) = elim (Bool-cases (precedes id_le x y)) [
    | inl e ↦ rw e (Memᴰ.head refl)
    | inr e ↦ rw e (Memᴰ.tail (inserted x ds))
  ]

  still_there :
      (x : Delivery) (ds : List Delivery) {d : Delivery}
      → Memᴰ d ds
      → Memᴰ d (insert_row id_le x ds)
  still_there x [] m = elim m [ ]
  still_there x (y ∷ ds) (Memᴰ.head same) = elim (Bool-cases (precedes id_le x y)) [
    | inl e ↦ rw e (Memᴰ.tail (Memᴰ.head same))
    | inr e ↦ rw e (Memᴰ.head same)
  ]
  still_there x (y ∷ ds) (Memᴰ.tail m) = elim (Bool-cases (precedes id_le x y)) [
    | inl e ↦ rw e (Memᴰ.tail (Memᴰ.tail m))
    | inr e ↦ rw e (Memᴰ.tail (still_there x ds m))
  ]

  ordered : (ds : List Delivery) {d : Delivery} → Memᴰ d ds → Memᴰ d (order_rows id_le ds)
  ordered [] m = elim m [ ]
  ordered (x ∷ ds) (Memᴰ.head e) = rw e (inserted x (order_rows id_le ds))
  ordered (x ∷ ds) (Memᴰ.tail m) = still_there x (order_rows id_le ds) (ordered ds m)

  picked :
      (max_attempts limit now : ℕ) (locked : Delivery → Bool) (table : List Delivery) (d : Delivery)
      → Memᴰ d table
      → is_due max_attempts now d ≡ true
      → locked d ≡ false
      → length table ≤ limit
      → Memᴰ d (candidates id_le max_attempts limit now locked table)
  picked max_attempts limit now locked table d m due free room =
      let open_rows = λ (x : Delivery). is_due max_attempts now x && not (locked x) in
      let there = filtered open_rows table m (rw due (rw free refl)) in
      taken limit (order_rows id_le (filter open_rows table))
        (ordered (filter open_rows table) there)
        (omega (arith, ordered_length (filter open_rows table), filter_shortens open_rows table))

  -- Where the limit and the lease of a claim are within their bounds, its transaction is ready, and the limit is
  -- at least the size of the table, the claim succeeds for every row of the table that is due and not locked,
  -- and the row is leased: afterwards the table has it in processing, with one attempt more, the next
  -- generation, the caller's token and a lease of the given length from now on, and it is among the claims that
  -- are returned.
  pub due_row_is_claimed :
      (max_attempts limit lease_ms : ℕ) (token : String) (now : ℕ) (locked : Delivery → Bool)
      (table : List Delivery)
      → 1 ≤ limit
      → limit ≤ 1000
      → 1 ≤ lease_ms
      → lease_ms ≤ 900000
      → length table ≤ limit
      → (d : Delivery) → Memᴰ d table
      → is_due max_attempts now d ≡ true
      → locked d ≡ false
      → (out : Outcome (List OutboxClaim)) × (claim id_le max_attempts limit lease_ms token
            (ok tt)
            now
            locked
            table
          ≡ ok out)
        × Leased token lease_ms now d out
  unfolding claim
  due_row_is_claimed max_attempts limit lease_ms token now locked table l1 l2 p1 p2 room d m due
        free =
      let chosen = candidates id_le max_attempts limit now locked table in
      let place = picked max_attempts limit now locked table d m due free room in
      let f = claim_or_bury max_attempts lease_ms now token chosen in
      let fresh =
        lease_or_attempts (is_pending d.state) (is_processing d.state)
          (at_most d.claim_expires_at now) now d.available_at d.attempt_count max_attempts
          (apart d.state) due in
      let changed : f d ≡ claim_row token lease_ms now d =
        rw fresh (rw (chosen_one chosen d place) refl) in
      (
        record {
          table = map f table;
          value = map (λ x. claim_of (claim_row token lease_ms now x)) chosen;
        },
        rw (positive_integer-ok limit 1000 l1 l2 (omega arith))
            (rw (positive_integer-ok lease_ms 900000 p1 p2 (omega arith)) refl),
        record {
          row = claim_row token lease_ms now d;
          place = rw (sym changed) (map_there f table m);
          same_event = refl;
          in_processing = refl;
          one_attempt_more = refl;
          next_generation = refl;
          held_by = refl;
          leased_until = refl;
          returned = claim_there token lease_ms now chosen place;
        },
      )
