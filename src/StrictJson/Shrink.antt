-- ===== src/StrictJson/Shrink.antt =====
-- packages/account-http-runtime/src/strict-json.ts: what each reader leaves of the text.
use samurai_sushi.Common.{
  ℕ, suc, ◌≤◌, Bool, true, false, ◌&&◌, ◌||◌, Option, none, some, List, [], ◌∷◌, length,
  if◌then◌else◌, any, leb, ◌==◌, arith,
}
use samurai_sushi.StrictJson.Scan.{
  Units, Slice, is_space, skip, Mode, plain, Scanned, closes, bad, emit, enter, scan, push, read_on,
  read_chars, is_paired, fitting, read_string, is_digit, digits, some_digits, fraction_part,
  signed_exponent, exponent_part, integer_part, finished, read_number, same_units, is_reserved,
  colon, with_colon, new_key, read_key,
}

-- A result that leaves at most `n` units.
abbrev pub Leaves : ℕ → Option Slice → Type 0
Leaves n none = 0 ≤ 0
Leaves n (some s) = length s.1 ≤ n

if-Leaves :
    (n : ℕ) (b : Bool) (x y : Option Slice)
    → Leaves n x
    → Leaves n y
    → Leaves n (if b then x else y)
if-Leaves n true x y h k = h
if-Leaves n false x y h k = k

if-leaves :
    (n : ℕ) (b : Bool) (x y : Slice)
    → length x.1 ≤ n
    → length y.1 ≤ n
    → length (if b then x else y).1 ≤ n
if-leaves n true x y h k = h
if-leaves n false x y h k = k

if-length :
    (n : ℕ) (b : Bool) (x y : Units) → length x ≤ n → length y ≤ n → length (if b then x else y) ≤ n
if-length n true x y h k = h
if-length n false x y h k = k

push-Leaves : (u n : ℕ) (o : Option Slice) → Leaves n o → Leaves n (push u o)
push-Leaves u n none h = h
push-Leaves u n (some s) h = h

more-Leaves : (m n : ℕ) (o : Option Slice) → m ≤ n → Leaves m o → Leaves n o
more-Leaves m n none h l = omega arith
more-Leaves m n (some s) h l = omega arith

pub length-skip : (s : Units) → length (skip s) ≤ length s
length-skip [] = omega arith
length-skip (c ∷ cs) =
    let ih = length-skip cs in
    if-length (suc (length cs)) (is_space c) _ _ (omega arith) (omega arith)

read_on-Leaves :
    (n : ℕ) (s : Scanned) (cs : Units) (read : Mode → Option Slice)
    → length cs ≤ n
    → ((m : Mode) → Leaves n (read m))
    → Leaves n (read_on s cs read)
read_on-Leaves n closes cs read h k = h
read_on-Leaves n bad cs read h k = omega arith
read_on-Leaves n (emit u) cs read h k = push-Leaves u n (read plain) (k plain)
read_on-Leaves n (enter next) cs read h k = k next

read_chars-Leaves : (n : ℕ) (mode : Mode) (s : Units) → length s ≤ n → Leaves n (read_chars mode s)
read_chars-Leaves n mode [] h = omega arith
read_chars-Leaves n mode (c ∷ cs) h =
    read_on-Leaves n (scan mode c) cs (λ next. read_chars next cs) (omega arith)
      (λ m. read_chars-Leaves n m cs (omega arith))

fitting-Leaves : (n : ℕ) (o : Option Slice) → Leaves n o → Leaves n (fitting o)
fitting-Leaves n none h = h
fitting-Leaves n (some s) h =
    if-Leaves n (leb (length s.0) 16384 && is_paired false s.0) _ _ h (omega arith)

digits_leave : (s : Units) → length (digits s).1 ≤ length s
digits_leave [] = omega arith
digits_leave (c ∷ cs) =
    let ih = digits_leave cs in
    if-leaves (suc (length cs)) (is_digit c) _ _ (omega arith) (omega arith)

some_digits_leave :
    (n : ℕ) (prefix whole rest : Units)
    → length rest ≤ n
    → length whole ≤ n
    → length (some_digits prefix whole rest).1 ≤ n
some_digits_leave n prefix whole [] h k = k
some_digits_leave n prefix whole (c ∷ cs) h k =
    let more = digits_leave cs in if-leaves n (is_digit c) _ _ (omega arith) k

fraction_leaves : (s : Units) → length (fraction_part s).1 ≤ length s
fraction_leaves [] = omega arith
fraction_leaves (c ∷ cs) =
    let n = suc (length cs) in
    if-leaves n (c == b'.') _ _
      (some_digits_leave n (c ∷ []) (c ∷ cs) cs (omega arith) (omega arith)) (omega arith)

signed_leaves : (e : ℕ) (s : Units) → length (signed_exponent e s).1 ≤ suc (length s)
signed_leaves e [] = omega arith
signed_leaves e (c ∷ cs) =
    let n = suc (suc (length cs)) in
    if-leaves n (c == b'+' || c == b'-') _ _
      (some_digits_leave n (e ∷ c ∷ []) (e ∷ c ∷ cs) cs (omega arith) (omega arith))
      (some_digits_leave n (e ∷ []) (e ∷ c ∷ cs) (c ∷ cs) (omega arith) (omega arith))

exponent_leaves : (s : Units) → length (exponent_part s).1 ≤ length s
exponent_leaves [] = omega arith
exponent_leaves (c ∷ cs) =
    if-leaves (suc (length cs)) (c == b'e' || c == b'E') _ _ (signed_leaves c cs) (omega arith)

finished-Leaves : (n : ℕ) (o : Option Slice) → Leaves n o → Leaves n (finished o)
finished-Leaves n none h = h
finished-Leaves n (some s) h =
    omega (arith, fraction_leaves s.1, exponent_leaves (fraction_part s.1).1)

integer-Leaves : (n : ℕ) (s : Units) → length s ≤ suc n → Leaves n (integer_part s)
integer-Leaves n [] h = omega arith
integer-Leaves n (c ∷ cs) h =
    let more = digits_leave cs in
    if-Leaves n (c == b'0') _ _ (omega arith)
      (if-Leaves n (is_digit c) _ _ (omega arith) (omega arith))

pub read_string-Leaves : (n : ℕ) (s : Units) → length s ≤ suc n → Leaves n (read_string s)
read_string-Leaves n [] h = omega arith
read_string-Leaves n (c ∷ cs) h =
    if-Leaves n (c == b'"') _ _
      (fitting-Leaves n (read_chars plain cs) (read_chars-Leaves n plain cs (omega arith)))
      (omega arith)

pub read_number-Leaves : (n : ℕ) (s : Units) → length s ≤ suc n → Leaves n (read_number s)
read_number-Leaves n [] h = omega arith
read_number-Leaves n (c ∷ cs) h =
    if-Leaves n (c == b'-') _ _
      (push-Leaves c n (finished (integer_part cs))
        (finished-Leaves n (integer_part cs) (integer-Leaves n cs (omega arith))))
      (finished-Leaves n (integer_part (c ∷ cs)) (integer-Leaves n (c ∷ cs) h))

colon-Leaves : (n : ℕ) (key s : Units) → length s ≤ n → Leaves n (with_colon key (colon s))
colon-Leaves n key [] h = omega arith
colon-Leaves n key (c ∷ cs) h =
    elim (c == b':') as (λ b. Leaves n (with_colon key (if b then some cs else none))) [
      | true ↦ omega arith
      | false ↦ omega arith
    ]

new_key-Leaves :
    (n : ℕ) (keys : List Units) (o : Option Slice) → Leaves n o → Leaves n (new_key keys o)
new_key-Leaves n keys none h = h
new_key-Leaves n keys (some s) h =
    if-Leaves n (leb 256 (length keys) || any (same_units s.0) keys || is_reserved s.0) _ _
      (omega arith) (colon-Leaves n s.0 (skip s.1) (omega (arith, length-skip s.1)))

pub read_key-Leaves :
    (n : ℕ) (keys : List Units) (s : Units) → length s ≤ suc n → Leaves n (read_key keys s)
read_key-Leaves n keys s h =
    new_key-Leaves n keys (read_string (skip s))
      (read_string-Leaves n (skip s) (omega (arith, length-skip s)))
