-- ===== src/Json/UnicodeLaws.antt =====
-- Which texts `assertValidUnicode` accepts.
use samurai_sushi.Common.{
  ℕ, ◌≡◌, refl, ◌⊎◌, inl, inr, ◌↔◌, true, false, ◌||◌, List, [], ◌∷◌, ltb, arith, ok, Bool-cases,
}
use samurai_sushi.Json.Unicode.{assert_valid_unicode, is_high, is_low, IsWellFormed, EndsHigh}

abbrev Accepts : List ℕ → Type 0
Accepts cs = IsWellFormed cs ⊎ EndsHigh cs

accept_unit :
    {c : ℕ} {cs : List ℕ} → is_high c ≡ false → is_low c ≡ false → Accepts cs → Accepts (c ∷ cs)
accept_unit h l (inl w) = inl (IsWellFormed.unit h l w)
accept_unit h l (inr e) = inr (EndsHigh.unit h l e)

accept_pair :
    {c d : ℕ} {cs : List ℕ} → is_high c ≡ true → is_low d ≡ true → Accepts cs → Accepts (c ∷ d ∷ cs)
accept_pair h l (inl w) = inl (IsWellFormed.pair h l w)
accept_pair h l (inr e) = inr (EndsHigh.pair h l e)

not_low : (d : ℕ) → (ltb d 0xdc00 || ltb 0xdfff d) ≡ false → is_low d ≡ true
not_low d h = ground arith

low_fits : (d : ℕ) → is_low d ≡ true → (ltb d 0xdc00 || ltb 0xdfff d) ≡ false
low_fits d h = ground arith

accepted_shape : (cs : List ℕ) → assert_valid_unicode cs ≡ ok tt → Accepts cs
unfolding assert_valid_unicode
accepted_shape [] h = inl IsWellFormed.empty
accepted_shape (c ∷ []) h = elim (Bool-cases (is_high c)) [
  | inl high ↦ inr (EndsHigh.last high)
  | inr low ↦ elim (Bool-cases (is_low c)) [
    | inl bad ↦ absurd (ground (arith, h, bad, low))
    | inr fine ↦ inl (IsWellFormed.unit low fine IsWellFormed.empty)
  ]
]
accepted_shape (c ∷ d ∷ cs) h =
    let skip = accepted_shape cs in
    let next = accepted_shape (d ∷ cs) in
    elim (Bool-cases (is_high c)) [
      | inl high ↦ elim (Bool-cases (ltb d 0xdc00 || ltb 0xdfff d)) [
        | inl bad ↦ let refused = rw (high, bad) at h in cc
        | inr fits ↦
            let rest = rw (high, fits) at h in accept_pair high (not_low d fits) (skip rest)
      ]
      | inr plain ↦ elim (Bool-cases (is_low c)) [
        | inl bad ↦ let refused = rw (plain, bad) at h in cc
        | inr fine ↦ let rest = rw (plain, fine) at h in accept_unit plain fine (next rest)
      ]
    ]

plain_accepted :
    (c : ℕ) (cs : List ℕ)
    → is_high c ≡ false
    → is_low c ≡ false
    → assert_valid_unicode cs ≡ ok tt
    → assert_valid_unicode (c ∷ cs) ≡ ok tt
unfolding assert_valid_unicode
plain_accepted c [] h l w = rw (h, l)
plain_accepted c (d ∷ cs) h l w = rw (h, l) w

well_formed_accepted : {cs : List ℕ} → IsWellFormed cs → assert_valid_unicode cs ≡ ok tt
unfolding assert_valid_unicode
well_formed_accepted IsWellFormed.empty = refl
well_formed_accepted (IsWellFormed.unit {c} {cs} h l w) =
    plain_accepted c cs h l (well_formed_accepted w)
well_formed_accepted (IsWellFormed.pair {c} {d} {cs} h l w) =
    rw (h, low_fits d l) (well_formed_accepted w)

dangling_accepted : {cs : List ℕ} → EndsHigh cs → assert_valid_unicode cs ≡ ok tt
unfolding assert_valid_unicode
dangling_accepted (EndsHigh.last h) = rw h
dangling_accepted (EndsHigh.unit {c} {cs} h l w) = plain_accepted c cs h l (dangling_accepted w)
dangling_accepted (EndsHigh.pair {c} {d} {cs} h l w) = rw (h, low_fits d l) (dangling_accepted w)

-- Exactly the well-formed texts are accepted, and those that are well formed up to one unpaired high
-- surrogate at the very end.
pub assert_valid_unicode_iff :
    (cs : List ℕ) → (assert_valid_unicode cs ≡ ok tt) ↔ (IsWellFormed cs ⊎ EndsHigh cs)
assert_valid_unicode_iff cs =
    (accepted_shape cs, elim [ inl w ↦ well_formed_accepted w | inr e ↦ dangling_accepted e ])
