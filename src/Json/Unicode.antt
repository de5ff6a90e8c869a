-- ===== src/Json/Unicode.antt =====
-- `assertValidUnicode` of packages/domain/src/canonical-json.ts, over the UTF-16 code units of a
-- text, and the order in which `Array.prototype.sort` puts keys.
use Prim.Native.Char.{code}
use samurai_sushi.Common.{
  ℕ, ◌+◌, ◌-◌, ◌/◌, ◌%◌, ◌≡◌, Bool, true, false, ◌&&◌, ◌||◌, String, List, [], ◌∷◌, ltb, leb, ◌==◌,
  if◌then◌else◌, Result, ok, err, invalid_command_shape,
}

abbrev pub units_of_code : ℕ → List ℕ → List ℕ
units_of_code c rest =
    if ltb c 0x10000
    then c ∷ rest
    else (0xd800 + (c - 0x10000) / 0x400) ∷ (0xdc00 + (c - 0x10000) % 0x400) ∷ rest

-- The code units of a text.
abbrev pub utf16 : String → List ℕ
utf16 String.[] = []
utf16 (String.◌∷◌ c s) = units_of_code (code c) (utf16 s)

abbrev pub is_high : ℕ → Bool
is_high c = leb 0xd800 c && leb c 0xdbff

abbrev pub is_low : ℕ → Bool
is_low c = leb 0xdc00 c && leb c 0xdfff

-- The loop over the units. `charCodeAt` past the end is NaN, for which both comparisons are false.
unfoldable pub assert_valid_unicode : List ℕ → Result (Unit {0})
assert_valid_unicode [] = ok tt
assert_valid_unicode (c ∷ []) =
    if is_high c then ok tt else if is_low c then err invalid_command_shape else ok tt
assert_valid_unicode (c ∷ d ∷ rest) =
    let skip = assert_valid_unicode rest in
    let next = assert_valid_unicode (d ∷ rest) in
    if is_high c
    then (if ltb d 0xdc00 || ltb 0xdfff d then err invalid_command_shape else skip)
    else (if is_low c then err invalid_command_shape else next)

-- `a <= b` on two texts, by code units.
abbrev pub units_le : List ℕ → List ℕ → Bool
units_le [] bs = true
units_le (a ∷ as') [] = false
units_le (a ∷ as') (b ∷ bs) = ltb a b || (a == b && units_le as' bs)

abbrev pub text_le : String → String → Bool
text_le s t = units_le (utf16 s) (utf16 t)

-- Well-formed UTF-16: each high surrogate is followed by a low one, each low one follows a high one.
pub data IsWellFormed : List ℕ → Type 0 where
  empty : IsWellFormed []
  unit :
      {c : ℕ} {cs : List ℕ}
      → is_high c ≡ false
      → is_low c ≡ false
      → IsWellFormed cs
      → IsWellFormed (c ∷ cs)
  pair :
      {c d : ℕ} {cs : List ℕ}
      → is_high c ≡ true
      → is_low d ≡ true
      → IsWellFormed cs
      → IsWellFormed (c ∷ d ∷ cs)

-- Units that are well formed up to one high surrogate at the very end.
pub data EndsHigh : List ℕ → Type 0 where
  last : {c : ℕ} → is_high c ≡ true → EndsHigh (c ∷ [])
  unit :
      {c : ℕ} {cs : List ℕ} → is_high c ≡ false → is_low c ≡ false → EndsHigh cs → EndsHigh (c ∷ cs)
  pair :
      {c d : ℕ} {cs : List ℕ}
      → is_high c ≡ true
      → is_low d ≡ true
      → EndsHigh cs
      → EndsHigh (c ∷ d ∷ cs)
