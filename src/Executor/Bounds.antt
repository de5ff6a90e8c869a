-- ===== src/Executor/Bounds.antt =====
-- `assertBoundedUnauthenticatedCommand` of packages/persistence/src/command-executor.ts: the worklist that
-- walks a command before anything of it is trusted.
use Prim.Native.Char.{code}
use samurai_sushi.Common.{
  ℕ, zero, suc, ◌+◌, Bool, true, false, ◌&&◌, String, List, [], ◌∷◌, ltb, leb, Result, guard,
  command_bounds_exceeded, if◌then◌else◌,
}
use samurai_sushi.Json.{Json, nat, num, str, arr, obj, Items, nil, cons, Fields, end, field}
use samurai_sushi.Json.Text.{number_text}

abbrev max_command_depth : ℕ
max_command_depth = 32

abbrev pub max_command_nodes : ℕ
max_command_nodes = 2048

abbrev max_command_string_bytes : ℕ
max_command_string_bytes = 16384

abbrev pub max_command_bytes : ℕ
max_command_bytes = 262144

abbrev utf8_size : ℕ → ℕ
utf8_size c =
    if ltb c 0x80 then 1 else (if ltb c 0x800 then 2 else (if ltb c 0x10000 then 3 else 4))

-- `Buffer.byteLength(text, "utf8")`.
abbrev pub byte_length : String → ℕ
byte_length String.[] = 0
byte_length (String.◌∷◌ c s) = utf8_size (code c) + byte_length s

-- The properties of a value that its descriptors list, as keys and values; an array has its indices and its
-- length.
abbrev pub Entry : Type 0
Entry = String × Json

abbrev item_entries : ℕ → Items → List Entry
item_entries index nil = ("length", num (nat index)) ∷ []
item_entries index (cons j js) = (number_text (nat index), j) ∷ item_entries (suc index) js

abbrev field_entries : Fields → List Entry
field_entries end = []
field_entries (field k j fs) = (k, j) ∷ field_entries fs

abbrev pub entries_of : Json → List Entry
entries_of (arr js) = item_entries 0 js
entries_of (obj fs) = field_entries fs
entries_of _ = []

abbrev own_bytes : Json → ℕ
own_bytes (str s) = byte_length s
own_bytes _ = 0

abbrev pub push_entries : List Entry → ℕ → List (Json × ℕ) → List (Json × ℕ)
push_entries [] depth stack = stack
push_entries (e ∷ es) depth stack = push_entries es depth ((e.1, depth) ∷ stack)

-- The bytes counted after the keys, as long as each key and each sum is within its bound.
abbrev pub keys_fit : ℕ → List Entry → Bool
keys_fit bytes [] = true
keys_fit bytes (e ∷ es) =
    leb (byte_length e.0) max_command_string_bytes
    && leb (bytes + byte_length e.0) max_command_bytes
    && keys_fit (bytes + byte_length e.0) es

abbrev pub key_bytes : ℕ → List Entry → ℕ
key_bytes bytes [] = bytes
key_bytes bytes (e ∷ es) = key_bytes (bytes + byte_length e.0) es

-- The loop; the first argument is how many more nodes the count allows, the second the bytes so far.
unfoldable pub walk_command : ℕ → ℕ → List (Json × ℕ) → Bool
walk_command budget bytes [] = true
walk_command zero bytes (_ ∷ _) = false
walk_command (suc budget) bytes ((j, depth) ∷ stack) =
    leb depth max_command_depth
    && leb (own_bytes j) max_command_string_bytes
    && leb (bytes + own_bytes j) max_command_bytes
    && keys_fit (bytes + own_bytes j) (entries_of j)
    && walk_command budget (key_bytes (bytes + own_bytes j) (entries_of j))
        (push_entries (entries_of j) (depth + 1) stack)

unfoldable pub assert_bounded_unauthenticated_command : Json → Result (Unit {0})
unfolding walk_command
assert_bounded_unauthenticated_command root =
    guard (walk_command max_command_nodes 0 ((root, 0) ∷ [])) command_bounds_exceeded
