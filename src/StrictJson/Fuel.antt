-- ===== src/StrictJson/Fuel.antt =====
-- packages/account-http-runtime/src/strict-json.ts: the fuel of the reader.
use samurai_sushi.Common.{
  ℕ, zero, suc, ◌+◌, ◌*◌, ◌<◌, ◌≡◌, refl, ◌⊎◌, inl, inr, Bool, true, false, Option, none, some,
  List, [], ◌∷◌, length, if◌then◌else◌, leb, ◌==◌, arith,
}
use samurai_sushi.Commands.Patterns.{codes}
use samurai_sushi.StrictJson.{Parsed, null, bool}
use samurai_sushi.StrictJson.Scan.{Units, Slice, skip, read_string, read_number, after, read_key}
use samurai_sushi.StrictJson.Shrink.{Leaves, length-skip, read_string-Leaves, read_number-Leaves}
use samurai_sushi.StrictJson.Value.{
  Read, done, refused, out_of_fuel, not_a_value, number_start, start, past_limits, read_value,
  read_members, read_elements, fuel_for, only, whole_text, parse_strict_json,
}
use samurai_sushi.StrictJson.Within.{
  Within, Starts, if-Starts, more-Starts, text-Starts, object-Starts, array-Starts, literal-Starts,
  word-Takes, go_on-Within, on_element-Within, key-Shortens, on_key-Within, if-Within,
}

-- A value up to the end of the text, or a refusal.
abbrev pub Answers : Read Parsed → Type 0
Answers r = ((v : Parsed) × (nodes : ℕ) × (r ≡ done v [] nodes)) ⊎ (r ≡ refused)

only-Answers : (v : Parsed) (nodes : ℕ) (s : Units) → Answers (only v nodes s)
only-Answers v nodes [] = inl (v, nodes, refl)
only-Answers v nodes (c ∷ cs) = inr refl

whole-Answers : (n : ℕ) (r : Read Parsed) → Within n r → Answers (whole_text r)
whole-Answers n (done v rest nodes) h = only-Answers v nodes (skip rest)
whole-Answers n refused h = inr refl
whole-Answers n out_of_fuel h = elim h [ ]

if-Answers : (b : Bool) (r : Read Parsed) → Answers r → Answers (if b then refused else r)
if-Answers true r h = inr refl
if-Answers false r h = h

module _ (is_finite : Units → Bool) where
  number-Starts :
      (n : ℕ) (o : Option Slice) → Leaves n o → Starts (suc n) (number_start is_finite o)
  number-Starts n none h = omega arith
  number-Starts n (some s) h = if-Starts (suc n) (is_finite s.0) _ _ (omega arith) (omega arith)

  start-Starts : (s : Units) → Starts (length s) (start is_finite s)
  start-Starts [] = omega arith
  start-Starts (c ∷ cs) =
      let n = suc (length cs) in
      if-Starts n (c == b'"') _ _
        (text-Starts (length cs) (read_string (c ∷ cs))
          (read_string-Leaves (length cs) (c ∷ cs) (omega arith)))
        (if-Starts n (c == b'{') _ _ (object-Starts (length cs) (skip cs) (length-skip cs)) (
          if-Starts n (c == b'[') _ _ (array-Starts (length cs) (skip cs) (length-skip cs)) (
            literal-Starts n (bool true) (after (codes "true") (c ∷ cs)) _
              (word-Takes b't' (codes "rue") c cs)
              (literal-Starts n (bool false) (after (codes "false") (c ∷ cs)) _
                (word-Takes b'f' (codes "alse") c cs)
                (literal-Starts n null (after (codes "null") (c ∷ cs)) _
                  (word-Takes b'n' (codes "ull") c cs)
                  (number-Starts (length cs) (read_number (c ∷ cs))
                    (read_number-Leaves (length cs) (c ∷ cs) (omega arith))))))))

  begins :
      (b : Bool) (s : Units)
      → Starts (length s) (if b then not_a_value else start is_finite (skip s))
  begins b s =
      if-Starts (length s) b _ _ (omega arith)
        (more-Starts _ _ (start is_finite (skip s)) (length-skip s) (start-Starts (skip s)))

  abbrev Enough : ℕ → Type 0
  unfolding read_value
  Enough fuel =
      ((depth nodes : ℕ) (s : Units)
        → 2 * length s < fuel
        → Within (length s) (read_value is_finite fuel depth nodes s))
      × ((depth nodes : ℕ) (keys : List Units) (s : Units)
          → 2 * length s < fuel
          → Within (length s) (read_members is_finite fuel depth nodes keys s))
      × ((depth nodes count : ℕ) (s : Units)
          → 2 * length s + 1 < fuel
          → Within (length s) (read_elements is_finite fuel depth nodes count s))

  enough : (fuel : ℕ) → Enough fuel
  unfolding read_value
  enough zero = (
    λ depth nodes s h. absurd (omega arith),
    λ depth nodes keys s h. absurd (omega arith),
    λ depth nodes count s h. absurd (omega arith),
  )
  enough (suc fuel) =
      let (value, members, elements) = enough fuel in
      (
        λ depth nodes s h.
            go_on-Within (length s) (suc nodes) _ _ _ (begins (past_limits depth nodes) s)
              (λ rest less. members depth (suc nodes) [] rest (omega arith))
              (λ rest less. elements depth (suc nodes) 0 rest (omega arith)),
        λ depth nodes keys s h.
            on_key-Within (length s) (read_key keys s) _ _ (key-Shortens keys s)
              (λ rest less. value (suc depth) nodes rest (omega arith))
              (λ key more rest less. members depth more (key ∷ keys) rest (omega arith)),
        λ depth nodes count s h.
            on_element-Within (length s) _ _
              (if-Within (length s) (leb 256 count) _ (value (suc depth) nodes s (omega arith)))
              (λ more rest less. elements depth more (suc count) rest (omega arith)),
      )

  -- The reader of a request's body answers on every text: the fuel that it takes from the length of the text, two
  -- units for each code unit and two more, never runs out. It reads a value, with nothing but whitespace after it,
  -- or refuses the text.
  pub parse_strict_json-Answers : (s : Units) → Answers (parse_strict_json is_finite s)
  unfolding parse_strict_json
  parse_strict_json-Answers [] = inr refl
  parse_strict_json-Answers (c ∷ cs) = if-Answers (c == 0xfeff) _ (
      whole-Answers (length (c ∷ cs)) (read_value is_finite (fuel_for (c ∷ cs)) 0 0 (c ∷ cs))
        ((enough (fuel_for (c ∷ cs))).0 0 0 (c ∷ cs) (omega arith)))
