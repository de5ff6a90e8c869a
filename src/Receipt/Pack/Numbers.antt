-- ===== src/Receipt/Pack/Numbers.antt =====
-- The numbers of packages/receipt-authority/src/michelson-pack.ts: `zarithNatural` and `u32`, with
-- the readers that undo them.
use samurai_sushi.Common.{
  ℕ, zero, suc, ◌+◌, ◌-◌, ◌*◌, ◌/◌, ◌%◌, ◌≤◌, ◌≡◌, refl, inl, inr, Option, none, some, List, [],
  ◌∷◌, ◌++◌, leb, ltb, ◌==◌, zero_or_more, arith, if◌then◌else◌,
}

-- The continuation bit.
abbrev more : ℕ → ℕ
more remaining = if remaining == 0 then 0 else 128

-- The loop; `fuel` bounds its rounds, and each one divides what remains by 128.
unfoldable pub zarith_rest : ℕ → ℕ → List ℕ
zarith_rest zero remaining = []
zarith_rest (suc fuel) remaining =
    let rest = zarith_rest fuel (remaining / 128) in
    if remaining == 0 then [] else (remaining % 128 + more (remaining / 128)) ∷ rest

unfoldable pub zarith_natural : ℕ → List ℕ
zarith_natural value = (value % 64 + more (value / 64)) ∷ zarith_rest (value / 64) (value / 64)

unfoldable pub u32 : ℕ → Option (List ℕ)
u32 value =
    if leb value 4294967295
    then some (value / 16777216 ∷ value / 65536 % 256 ∷ value / 256 % 256 ∷ value % 256 ∷ [])
    else none

abbrev shifted : ℕ → Option (ℕ × List ℕ) → Option (ℕ × List ℕ)
shifted low none = none
shifted low (some (high, bytes)) = some (low + 128 * high, bytes)

-- Groups of seven bits, the lowest first, up to a byte without the continuation bit.
abbrev read_rest : List ℕ → Option (ℕ × List ℕ)
read_rest [] = none
read_rest (b ∷ bs) =
    let rest = read_rest bs in if ltb b 128 then some (b, bs) else shifted (b - 128) rest

abbrev shifted_first : ℕ → Option (ℕ × List ℕ) → Option (ℕ × List ℕ)
shifted_first low none = none
shifted_first low (some (high, bytes)) = some (low + 64 * high, bytes)

-- A Micheline natural at the front of some bytes: six bits, then groups of seven.
abbrev pub read_zarith : List ℕ → Option (ℕ × List ℕ)
read_zarith [] = none
read_zarith (b ∷ bs) =
    if ltb b 64
    then some (b, bs)
    else if ltb b 128
    then none
    else shifted_first (b - 128) (read_rest bs)

abbrev pub read_u32 : List ℕ → Option (ℕ × List ℕ)
read_u32 (a ∷ b ∷ c ∷ d ∷ bs) = some (((a * 256 + b) * 256 + c) * 256 + d, bs)
read_u32 _ = none

zarith_rest-zero : (fuel : ℕ) → zarith_rest fuel 0 ≡ []
unfolding zarith_rest
zarith_rest-zero zero = refl
zarith_rest-zero (suc fuel) = refl

read_rest-zarith_rest :
    (fuel n : ℕ) (tail : List ℕ)
    → 1 ≤ n
    → n ≤ fuel
    → read_rest (zarith_rest fuel n ++ tail) ≡ some (n, tail)
unfolding zarith_rest
read_rest-zarith_rest zero n tail pos enough = ground arith
read_rest-zarith_rest (suc fuel) n tail pos enough = elim (zero_or_more (n / 128)) [
  | inl last ↦ rw last (ground (arith, zarith_rest-zero fuel))
  | inr above ↦
      ground (arith, read_rest-zarith_rest fuel (n / 128) tail (omega arith) (omega arith))
]

-- Reading a packed natural gives the number back and leaves the bytes after it, so no packed
-- natural is a prefix of another.
pub read_zarith-zarith_natural :
    (value : ℕ) (tail : List ℕ) → read_zarith (zarith_natural value ++ tail) ≡ some (value, tail)
unfolding zarith_natural
read_zarith-zarith_natural value tail = elim (zero_or_more (value / 64)) [
  | inl last ↦ rw last (ground (arith, zarith_rest-zero 0))
  | inr above ↦
      ground
        (arith, read_rest-zarith_rest (value / 64) (value / 64) tail (omega arith) (omega arith))
]

-- Reading a packed length gives it back.
pub read_u32-u32 :
    (value : ℕ) {bytes : List ℕ} (tail : List ℕ)
    → u32 value ≡ some bytes
    → read_u32 (bytes ++ tail) ≡ some (value, tail)
unfolding u32
read_u32-u32 value tail h = ground arith
