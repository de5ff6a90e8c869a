-- ===== src/Json/Text.antt =====
-- `JSON.stringify` of a canonical value, with which packages/domain/src/canonical-json.ts ends.
use Prim.Native.Char.{Char, code}
use Prim.Native.String
use samurai_sushi.Common.{
  ℕ, zero, suc, ◌/◌, ◌%◌, ◌≡◌, refl, true, false, String, Result, ok, ◌>>=◌, ltb, ◌==◌,
  if◌then◌else◌,
}
use samurai_sushi.Json.{
  JsNumber, nat, neg, neg_zero, fraction, infinite, Json, null, bool, num, str, arr, obj, Items,
  nil, cons, Fields, end, field,
}
use samurai_sushi.Json.Unicode.{assert_valid_unicode}
use samurai_sushi.Json.Canonical.{canonicalize}

infixr 65 ◌+++◌
abbrev pub ◌+++◌ : String → String → String
s +++ t = String.◌++◌ s t

abbrev pub digit : ℕ → String
digit n =
    if n == 0
    then "0"
    else if n == 1
    then "1"
    else if n == 2
    then "2"
    else if n == 3
    then "3"
    else if n == 4
    then "4"
    else if n == 5
    then "5"
    else if n == 6
    then "6"
    else if n == 7
    then "7"
    else if n == 8
    then "8"
    else "9"

abbrev pub hex_digit : ℕ → String
hex_digit n =
    if ltb n 10
    then digit n
    else if n == 10
    then "a"
    else if n == 11
    then "b"
    else if n == 12
    then "c"
    else if n == 13
    then "d"
    else if n == 14
    then "e"
    else "f"

-- The decimal digits of `n`, put before `rest`; `n` itself is enough fuel.
abbrev decimal : ℕ → ℕ → String → String
decimal zero n rest = digit n +++ rest
decimal (suc fuel) n rest =
    let more = decimal fuel (n / 10) (digit (n % 10) +++ rest) in
    if ltb n 10 then digit n +++ rest else more

abbrev pub number_text : JsNumber → String
number_text (nat n) = decimal n n ""
number_text (neg n) = "-" +++ decimal (suc n) (suc n) ""
number_text neg_zero = "0"
number_text (fraction s) = s
number_text infinite = "null"

abbrev escape : Char → String
escape c =
    if code c == 0x22
    then "\\\""
    else if code c == 0x5c
    then "\\\\"
    else if code c == 8
    then "\\b"
    else if code c == 12
    then "\\f"
    else if code c == 10
    then "\\n"
    else if code c == 13
    then "\\r"
    else if code c == 9
    then "\\t"
    else if ltb (code c) 0x20
    then "\\u00" +++ hex_digit (code c / 16) +++ hex_digit (code c % 16)
    else String.◌∷◌ c String.[]

abbrev pub escape_all : String → String
escape_all String.[] = ""
escape_all (String.◌∷◌ c s) = escape c +++ escape_all s

abbrev pub quote : String → String
quote s = "\"" +++ escape_all s +++ "\""

unfoldable mutual
  pub stringify : Json → String
  stringify null = "null"
  stringify (bool true) = "true"
  stringify (bool false) = "false"
  stringify (num n) = number_text n
  stringify (str s) = quote s
  stringify (arr nil) = "[]"
  stringify (arr (cons j js)) = "[" +++ stringify j +++ stringify_items js
  stringify (obj end) = "{}"
  stringify (obj (field k j fs)) = "{" +++ quote k +++ ":" +++ stringify j +++ stringify_fields fs

  stringify_items : Items → String
  stringify_items nil = "]"
  stringify_items (cons j js) = "," +++ stringify j +++ stringify_items js

  stringify_fields : Fields → String
  stringify_fields end = "}"
  stringify_fields (field k j fs) = "," +++ quote k +++ ":" +++ stringify j +++ stringify_fields fs

unfoldable pub canonical_json : Json → Result String
unfolding stringify
canonical_json j = canonicalize j >>= λ v. ok (stringify v)

stringify_test :
    canonical_json
      (obj (field "b" (num (nat 120)) (field "a" (arr (cons null (cons (str "x\"") nil))) end)))
    ≡ ok "{\"a\":[null,\"x\\\"\"],\"b\":120}"
unfolding canonical_json canonicalize assert_valid_unicode
stringify_test = refl
