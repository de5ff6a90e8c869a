-- ===== src/Json/Bounds.antt =====
-- `assertBoundedJson` of packages/domain/src/evening-service.ts: the worklist that walks a value,
-- and the size of the text that `JSON.stringify` gives for it.
use Prim.Native.Char.{code}
use samurai_sushi.Common.{
  ℕ, zero, suc, ◌+◌, ◌/◌, Bool, true, false, ◌&&◌, String, List, [], ◌∷◌, Result, ltb, leb, ◌==◌,
  ◌||◌, if◌then◌else◌, length, all, guard, invalid_service_state,
}
use samurai_sushi.Json.{
  JsNumber, nat, neg, neg_zero, fraction, infinite, Json, null, bool, num, str, arr, obj, Items,
  nil, cons, Fields, end, field, list_of, keys,
}
use samurai_sushi.Json.Unicode.{utf16}

-- `value.length` of a text: its code units.
abbrev pub js_length : String → ℕ
js_length s = length (utf16 s)

-- The tests on one node: an oversized string, array or object.
unfoldable pub node_fits : Json → Bool
node_fits (str s) = leb (js_length s) 2048
node_fits (arr js) = leb (length (list_of js)) 256
node_fits (obj fs) = leb (length (keys fs)) 64 && all (λ k. leb (js_length k) 128) (keys fs)
node_fits _ = true

-- The children are pushed in order, so the last one is on top.
abbrev pub push_items : Items → ℕ → List (Json × ℕ) → List (Json × ℕ)
push_items nil d stack = stack
push_items (cons j js) d stack = push_items js d ((j, d) ∷ stack)

abbrev pub push_fields : Fields → ℕ → List (Json × ℕ) → List (Json × ℕ)
push_fields end d stack = stack
push_fields (field k j fs) d stack = push_fields fs d ((j, d) ∷ stack)

abbrev pub push_children : Json → ℕ → List (Json × ℕ) → List (Json × ℕ)
push_children (arr js) d stack = push_items js d stack
push_children (obj fs) d stack = push_fields fs d stack
push_children _ d stack = stack

-- The loop; the first argument is how many more nodes the count allows.
unfoldable pub walk : ℕ → List (Json × ℕ) → Bool
walk budget [] = true
walk zero (_ ∷ _) = false
walk (suc budget) ((j, d) ∷ stack) =
    leb d 32 && node_fits j && walk budget (push_children j (d + 1) stack)

-- Decimal digits; a number has fewer digits than its value plus one.
abbrev count_digits : ℕ → ℕ → ℕ
count_digits zero n = 1
count_digits (suc fuel) n =
    let rest = count_digits fuel (n / 10) in if ltb n 10 then 1 else suc rest

-- The UTF-8 bytes of one escaped character.
abbrev char_size : ℕ → ℕ
char_size c =
    if c == 0x22 || c == 0x5c || c == 8 || c == 9 || c == 10 || c == 12 || c == 13
    then 2
    else if ltb c 0x20
    then 6
    else if ltb c 0x80
    then 1
    else if ltb c 0x800
    then 2
    else if ltb c 0x10000
    then 3
    else 4

abbrev chars_size : String → ℕ
chars_size String.[] = 0
chars_size (String.◌∷◌ c s) = char_size (code c) + chars_size s

abbrev number_size : JsNumber → ℕ
number_size (nat n) = count_digits n n
number_size (neg n) = 1 + count_digits (suc n) (suc n)
number_size neg_zero = 1
number_size (fraction s) = chars_size s
number_size infinite = 4

mutual
  pub text_size : Json → ℕ
  text_size null = 4
  text_size (bool true) = 4
  text_size (bool false) = 5
  text_size (num n) = number_size n
  text_size (str s) = 2 + chars_size s
  text_size (arr nil) = 2
  text_size (arr (cons j js)) = 2 + text_size j + items_size js
  text_size (obj end) = 2
  text_size (obj (field k j fs)) = 5 + chars_size k + text_size j + fields_size fs

  items_size : Items → ℕ
  items_size nil = 0
  items_size (cons j js) = 1 + text_size j + items_size js

  fields_size : Fields → ℕ
  fields_size end = 0
  fields_size (field k j fs) = 4 + chars_size k + text_size j + fields_size fs

unfoldable pub assert_bounded_json : Json → Result (Unit {0})
unfolding walk text_size
assert_bounded_json input =
    guard (walk 4096 ((input, 0) ∷ []) && leb (text_size input) 262144) invalid_service_state
