-- ===== src/Json/Shape.antt =====
-- Reading the properties of a decoded object: `plainObject` and `exactKeys` of
-- packages/domain/src/evening-service.ts and packages/domain/src/commands.ts, which differ only in
-- the failure code.
use samurai_sushi.Common.{
  ℕ, Bool, false, ◌&&◌, String, Option, some, List, [], ◌∷◌, same_texts, str_eq, leb, ◌==◌, Result,
  ok, err, guard, FailureCode, if◌then◌else◌,
}
use samurai_sushi.Json.{nat, Json, num, str, arr, obj, Items, Fields, keys}
use samurai_sushi.Json.Unicode.{text_le}
use samurai_sushi.Json.Canonical.{max_safe_integer}

abbrev pub plain_object : FailureCode → Json → Result Fields
plain_object e (obj fs) = ok fs
plain_object e _ = err e

abbrev pub insert_text : String → List String → List String
insert_text s [] = s ∷ []
insert_text s (t ∷ ts) = if text_le s t then s ∷ t ∷ ts else t ∷ insert_text s ts

-- `[...texts].sort()`.
abbrev pub sort_texts : List String → List String
sort_texts [] = []
sort_texts (s ∷ ss) = insert_text s (sort_texts ss)

abbrev pub exact_keys : FailureCode → Fields → List String → Result (Unit {0})
exact_keys e fs expected = guard (same_texts (sort_texts (keys fs)) (sort_texts expected)) e

-- `value === "…"` and `value === n`, for a value that may be `undefined`.
abbrev pub is_str : Option Json → String → Bool
is_str (some (str s)) t = str_eq s t
is_str _ t = false

abbrev pub is_nat : Option Json → ℕ → Bool
is_nat (some (num (nat n))) m = n == m
is_nat _ m = false

-- `Number.isSafeInteger(value) && value >= 0`.
abbrev pub read_nat : FailureCode → Option Json → Result ℕ
read_nat e (some (num (nat n))) = if leb n max_safe_integer then ok n else err e
read_nat e _ = err e

abbrev pub read_nat_le : FailureCode → ℕ → Option Json → Result ℕ
read_nat_le e m (some (num (nat n))) = if leb n max_safe_integer && leb n m then ok n else err e
read_nat_le e m _ = err e

abbrev pub read_str : FailureCode → Option Json → Result String
read_str e (some (str s)) = ok s
read_str e _ = err e

abbrev pub read_items : FailureCode → Option Json → Result Items
read_items e (some (arr js)) = ok js
read_items e _ = err e
