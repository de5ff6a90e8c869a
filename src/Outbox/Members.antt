-- ===== src/Outbox/Members.antt =====
-- The rows of a table, of its candidates and of what a query finds, for packages/persistence/src/outbox.ts.
use mathlib.Core.List.{Memᴰ}
use samurai_sushi.Common.{
  ℕ, ◌≡◌, refl, sym, ap, ◌∙◌, inl, inr, ◌⊎◌, Bool, true, false, not, ◌&&◌, ◌||◌, Bool-cases,
  and-true, true_not_false, String, some, List, [], ◌∷◌, any, take, zero, suc, str_eq, eq_iff,
  eq_refl, if◌then◌else◌, if_false, arith,
}
use samurai_sushi.Outbox.{
  Delivery, is_due, has_id, find, filter, precedes, insert_row, order_rows, candidates,
}

abbrev pub Distinct : List Delivery → Type 0
Distinct [] = Unit
Distinct (d ∷ ds) = (any (has_id d.event_id) ds ≡ false) × Distinct ds

or-false : (a b : Bool) → (a || b) ≡ false → (a ≡ false) × (b ≡ false)
or-false a b h = ground arith

or-true : (a b : Bool) → (a || b) ≡ true → (a ≡ true) ⊎ (b ≡ true)
or-true a b h = ground arith

not_in :
    (id : String) (ds : List Delivery) (d : Delivery)
    → any (has_id id) ds ≡ false
    → Memᴰ d ds
    → has_id id d ≡ false
not_in id [] d h m = elim m [ ]
not_in id (x ∷ ds) d h (Memᴰ.head e) =
    let (first, _) = or-false (has_id id x) (any (has_id id) ds) h in ap (has_id id) e ∙ first
not_in id (x ∷ ds) d h (Memᴰ.tail m) =
    let (_, rest) = or-false (has_id id x) (any (has_id id) ds) h in not_in id ds d rest m

same_id : (a b : Delivery) → a.event_id ≡ b.event_id → has_id b.event_id a ≡ true
same_id a b e = ap (λ s. str_eq s b.event_id) e ∙ eq_refl b.event_id

-- An event identifier names one row.
pub same_row :
    (ds : List Delivery) (a b : Delivery)
    → Distinct ds
    → Memᴰ a ds
    → Memᴰ b ds
    → a.event_id ≡ b.event_id
    → a ≡ b
same_row [] a b h m _ e = elim m [ ]
same_row (x ∷ ds) a b h (Memᴰ.head p) (Memᴰ.head q) e = p ∙ sym q
same_row (x ∷ ds) a b (fresh, _) (Memᴰ.head p) (Memᴰ.tail m) e =
    let named = same_id b x (sym e ∙ ap (λ d. d.event_id) p) in
    absurd (true_not_false (sym named ∙ not_in x.event_id ds b fresh m))
same_row (x ∷ ds) a b (fresh, _) (Memᴰ.tail m) (Memᴰ.head q) e =
    let named = same_id a x (e ∙ ap (λ d. d.event_id) q) in
    absurd (true_not_false (sym named ∙ not_in x.event_id ds a fresh m))
same_row (x ∷ ds) a b (_, more) (Memᴰ.tail m) (Memᴰ.tail n) e = same_row ds a b more m n e

pub find-Mem :
    (p : Delivery → Bool) (ds : List Delivery) {d : Delivery}
    → find p ds ≡ some d
    → Memᴰ d ds × (p d ≡ true)
find-Mem p [] h = cc
find-Mem p (x ∷ ds) {d} h = elim (Bool-cases (p x)) [
  | inl e ↦ (let same : x ≡ d = cc in (Memᴰ.head (sym same), sym (ap p same) ∙ e))
  | inr e ↦ (let (m, held) = find-Mem p ds (if_false _ _ e h) in (Memᴰ.tail m, held))
]

kept_or_not :
    (b : Bool) {d x : Delivery} {rest : List Delivery}
    → Memᴰ d (if b then x ∷ rest else rest)
    → ((d ≡ x) × (b ≡ true)) ⊎ Memᴰ d rest
kept_or_not true (Memᴰ.head e) = inl (e, refl)
kept_or_not true (Memᴰ.tail m) = inr m
kept_or_not false m = inr m

pub filter-Mem :
    (p : Delivery → Bool) (ds : List Delivery) {d : Delivery}
    → Memᴰ d (filter p ds)
    → Memᴰ d ds × (p d ≡ true)
filter-Mem p [] m = elim m [ ]
filter-Mem p (x ∷ ds) m = elim (kept_or_not (p x) m) [
  | inl (e, held) ↦ (Memᴰ.head e, ap p e ∙ held)
  | inr more ↦ (let (place, held) = filter-Mem p ds more in (Memᴰ.tail place, held))
]

pub take-Mem : (n : ℕ) (ds : List Delivery) {d : Delivery} → Memᴰ d (take n ds) → Memᴰ d ds
take-Mem zero ds m = elim m [ ]
take-Mem (suc n) [] m = elim m [ ]
take-Mem (suc n) (x ∷ ds) (Memᴰ.head e) = Memᴰ.head e
take-Mem (suc n) (x ∷ ds) (Memᴰ.tail m) = Memᴰ.tail (take-Mem n ds m)

pub any-Mem :
    (id : String) (ds : List Delivery)
    → any (λ c. str_eq c.event_id id) ds ≡ true
    → (c : Delivery) × Memᴰ c ds × (c.event_id ≡ id)
any-Mem id [] h = cc
any-Mem id (x ∷ ds) h =
    elim (or-true (str_eq x.event_id id) (any (λ c. str_eq c.event_id id) ds) h) [
      | inl e ↦ (x, Memᴰ.head refl, ground (arith, eq_iff x.event_id id))
      | inr more ↦ (let (c, m, e) = any-Mem id ds more in (c, Memᴰ.tail m, e))
    ]

placed :
    (b : Bool) (x y : Delivery) (ds rest : List Delivery) {d : Delivery}
    → Memᴰ d (if b then x ∷ y ∷ ds else y ∷ rest)
    → (Memᴰ d rest → (d ≡ x) ⊎ Memᴰ d ds)
    → (d ≡ x) ⊎ Memᴰ d (y ∷ ds)
placed true x y ds rest (Memᴰ.head e) later = inl e
placed true x y ds rest (Memᴰ.tail m) later = inr m
placed false x y ds rest (Memᴰ.head e) later = inr (Memᴰ.head e)
placed false x y ds rest (Memᴰ.tail m) later = elim (later m) [
  | inl e ↦ inl e
  | inr more ↦ inr (Memᴰ.tail more)
]

module _ (id_le : String → String → Bool) where
  insert_row-Mem :
      (x : Delivery) (ds : List Delivery) {d : Delivery}
      → Memᴰ d (insert_row id_le x ds)
      → (d ≡ x) ⊎ Memᴰ d ds
  insert_row-Mem x [] (Memᴰ.head e) = inl e
  insert_row-Mem x [] (Memᴰ.tail m) = elim m [ ]
  insert_row-Mem x (y ∷ ds) m =
      placed (precedes id_le x y) x y ds (insert_row id_le x ds) m (insert_row-Mem x ds)

  order_rows-Mem : (ds : List Delivery) {d : Delivery} → Memᴰ d (order_rows id_le ds) → Memᴰ d ds
  order_rows-Mem [] m = elim m [ ]
  order_rows-Mem (x ∷ ds) m = elim (insert_row-Mem x (order_rows id_le ds) m) [
    | inl e ↦ Memᴰ.head e
    | inr more ↦ Memᴰ.tail (order_rows-Mem ds more)
  ]

  -- Each candidate is a row of the table that is due and not locked.
  pub candidates-Mem :
      (max_attempts limit now : ℕ) (locked : Delivery → Bool) (table : List Delivery) {d : Delivery}
      → Memᴰ d (candidates id_le max_attempts limit now locked table)
      → Memᴰ d table × (is_due max_attempts now d ≡ true)
  candidates-Mem max_attempts limit now locked table {d} m =
      let free = λ (x : Delivery). is_due max_attempts now x && not (locked x) in
      let (place, held) = filter-Mem free table (
        order_rows-Mem (filter free table)
          (take-Mem limit (order_rows id_le (filter free table)) m)) in
      let (due, _) = and-true (is_due max_attempts now d) (not (locked d)) held in (place, due)
