-- ===== src/StrictJson/Scan.antt =====
-- packages/account-http-runtime/src/strict-json.ts: whitespace, strings, numerals and delimiters.
use samurai_sushi.Common.{
  ℕ, zero, suc, ◌+◌, ◌-◌, ◌*◌, Bool, true, false, not, ◌&&◌, ◌||◌, Option, none, some, List, [],
  ◌∷◌, ◌++◌, length, any, leb, ◌==◌, if◌then◌else◌,
}
use samurai_sushi.Json.Unicode.{is_high, is_low}
use samurai_sushi.Commands.Patterns.{codes}

abbrev pub Units : Type 0
Units = List ℕ

abbrev pub is_space : ℕ → Bool
is_space c = c == b' ' || c == 9 || c == 10 || c == 13

abbrev pub skip : Units → Units
skip [] = []
skip (c ∷ cs) = let rest = skip cs in if is_space c then rest else c ∷ cs

-- Inside a string: plain characters, after a backslash, or with some hexadecimal digits still to come.
pub data Mode : Type 0 where
  plain escaped : Mode
  hex : (left value : ℕ) → Mode

pub data Scanned : Type 0 where
  closes bad : Scanned
  emit : ℕ → Scanned
  enter : Mode → Scanned

abbrev digit_value : ℕ → Option ℕ
digit_value c =
    if leb b'0' c && leb c b'9'
    then some (c - b'0')
    else (if leb b'a' c && leb c b'f'
        then some (c - b'a' + 10)
        else (if leb b'A' c && leb c b'F' then some (c - b'A' + 10) else none))

abbrev hex_digit : (left value : ℕ) → Option ℕ → Scanned
hex_digit left value none = bad
hex_digit zero value (some d) = emit (value * 16 + d)
hex_digit (suc left) value (some d) = enter (hex left (value * 16 + d))

abbrev escape : ℕ → Scanned
escape c =
    if c == b'"' || c == 0x5c || c == b'/'
    then emit c
    else (if c == b'b'
        then emit 8
        else (if c == b'f'
            then emit 12
            else (if c == b'n'
                then emit 10
                else (if c == b'r'
                    then emit 13
                    else (if c == b't'
                        then emit 9
                        else (if c == b'u' then enter (hex 3 0) else bad))))))

abbrev pub scan : Mode → ℕ → Scanned
scan plain c =
    if c == b'"'
    then closes
    else (if c == 0x5c then enter escaped else (if leb c 0x1f then bad else emit c))
scan escaped c = escape c
scan (hex left value) c = hex_digit left value (digit_value c)

-- What was read, and what follows it.
abbrev pub Slice : Type 0
Slice = Units × Units

abbrev pub push : ℕ → Option Slice → Option Slice
push c none = none
push c (some s) = some (c ∷ s.0, s.1)

-- One unit more; the last argument reads what follows in a given mode.
abbrev pub read_on : Scanned → Units → (Mode → Option Slice) → Option Slice
read_on closes cs read = some ([], cs)
read_on bad cs read = none
read_on (emit u) cs read = push u (read plain)
read_on (enter next) cs read = read next

abbrev pub read_chars : Mode → Units → Option Slice
read_chars mode [] = none
read_chars mode (c ∷ cs) = read_on (scan mode c) cs (λ next. read_chars next cs)

-- Every high surrogate is followed by a low one, and every low one follows a high one; the flag says that a low
-- one must come.
abbrev pub is_paired : Bool → Units → Bool
is_paired true [] = false
is_paired false [] = true
is_paired true (c ∷ cs) = is_low c && is_paired false cs
is_paired false (c ∷ cs) = not (is_low c) && is_paired (is_high c) cs

abbrev pub fitting : Option Slice → Option Slice
fitting none = none
fitting (some s) = if leb (length s.0) 16384 && is_paired false s.0 then some s else none

-- `string`.
abbrev pub read_string : Units → Option Slice
read_string [] = none
read_string (c ∷ cs) = if c == b'"' then fitting (read_chars plain cs) else none

abbrev pub is_digit : ℕ → Bool
is_digit c = leb b'0' c && leb c b'9'

abbrev pub digits : Units → Slice
digits [] = ([], [])
digits (c ∷ cs) = let more = digits cs in if is_digit c then (c ∷ more.0, more.1) else ([], c ∷ cs)

-- The digits after a prefix, if there is one at least; else nothing is taken.
abbrev pub some_digits : (prefix all_units rest : Units) → Slice
some_digits prefix all_units [] = ([], all_units)
some_digits prefix all_units (c ∷ cs) =
    if is_digit c then (prefix ++ c ∷ (digits cs).0, (digits cs).1) else ([], all_units)

abbrev pub fraction_part : Units → Slice
fraction_part [] = ([], [])
fraction_part (c ∷ cs) = if c == b'.' then some_digits (c ∷ []) (c ∷ cs) cs else ([], c ∷ cs)

abbrev pub signed_exponent : ℕ → Units → Slice
signed_exponent e [] = ([], e ∷ [])
signed_exponent e (c ∷ cs) =
    if c == b'+' || c == b'-'
    then some_digits (e ∷ c ∷ []) (e ∷ c ∷ cs) cs
    else some_digits (e ∷ []) (e ∷ c ∷ cs) (c ∷ cs)

abbrev pub exponent_part : Units → Slice
exponent_part [] = ([], [])
exponent_part (c ∷ cs) = if c == b'e' || c == b'E' then signed_exponent c cs else ([], c ∷ cs)

abbrev pub with_exponent : Slice → Slice
with_exponent s = let e = exponent_part s.1 in (s.0 ++ e.0, e.1)

abbrev pub with_fraction : Slice → Slice
with_fraction s = let f = fraction_part s.1 in (s.0 ++ f.0, f.1)

abbrev pub integer_part : Units → Option Slice
integer_part [] = none
integer_part (c ∷ cs) =
    if c == b'0'
    then some (c ∷ [], cs)
    else (if is_digit c then some (c ∷ (digits cs).0, (digits cs).1) else none)

abbrev pub finished : Option Slice → Option Slice
finished none = none
finished (some s) = some (with_exponent (with_fraction s))

-- `NUMBER_PATTERN` at the front of what is left.
abbrev pub read_number : Units → Option Slice
read_number [] = none
read_number (c ∷ cs) =
    if c == b'-' then push c (finished (integer_part cs)) else finished (integer_part (c ∷ cs))

abbrev pub after : Units → Units → Option Units
after [] s = some s
after (p ∷ ps) [] = none
after (p ∷ ps) (c ∷ cs) = if p == c then after ps cs else none

pub data Delimiter : Type 0 where
  closed comma : Units → Delimiter
  wrong : Delimiter

-- What follows a value inside a container.
abbrev pub delimiter : (closing : ℕ) → Units → Delimiter
delimiter closing [] = wrong
delimiter closing (c ∷ cs) =
    if c == closing then closed cs else (if c == b',' then comma cs else wrong)

abbrev pub same_units : Units → Units → Bool
same_units [] [] = true
same_units (a ∷ as') (b ∷ bs) = a == b && same_units as' bs
same_units _ _ = false

abbrev pub is_reserved : Units → Bool
is_reserved key =
    same_units key (codes "__proto__")
    || same_units key (codes "constructor")
    || same_units key (codes "prototype")

abbrev pub colon : Units → Option Units
colon [] = none
colon (c ∷ cs) = if c == b':' then some cs else none

abbrev pub with_colon : Units → Option Units → Option Slice
with_colon key none = none
with_colon key (some rest) = some (key, rest)

abbrev pub new_key : List Units → Option Slice → Option Slice
new_key keys none = none
new_key keys (some s) =
    if leb 256 (length keys) || any (same_units s.0) keys || is_reserved s.0
    then none
    else with_colon s.0 (colon (skip s.1))

-- A key that the object may still have, up to its colon.
abbrev pub read_key : List Units → Units → Option Slice
read_key keys s = new_key keys (read_string (skip s))
