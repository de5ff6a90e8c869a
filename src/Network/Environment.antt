-- ===== src/Network/Environment.antt =====
-- Environments, and the text tests that packages/network makes on their keys and values.
use Prim.Native.Char.{code}
use samurai_sushi.Common.{
  ℕ, ◌+◌, Bool, true, false, ◌&&◌, ◌||◌, not, String, Option, none, some, List, [], ◌∷◌, any, leb,
  ◌==◌, str_eq, if◌then◌else◌,
}
use samurai_sushi.Commands.Patterns.{codes}

-- `Record<string, string | undefined>`, less the keys whose value is `undefined`, which the code
-- treats like a missing key or a blank value.
abbrev pub NetworkEnvironment : Type 0
NetworkEnvironment = List (String × String)

abbrev pub lookup : NetworkEnvironment → String → Option String
lookup [] key = none
lookup ((k, value) ∷ rest) key = if str_eq k key then some value else lookup rest key

-- What `trim` removes: white space and line terminators.
abbrev is_space : ℕ → Bool
is_space c =
    (leb 9 c && leb c 13)
    || c == 32
    || c == 160
    || c == 5760
    || (leb 8192 c && leb c 8202)
    || c == 8232
    || c == 8233
    || c == 8239
    || c == 8287
    || c == 12288
    || c == 65279

abbrev is_blank : String → Bool
is_blank String.[] = true
is_blank _ = false

abbrev trim_start : String → String
trim_start String.[] = ""
trim_start (String.◌∷◌ c s) =
    let rest = trim_start s in if is_space (code c) then rest else String.◌∷◌ c s

abbrev trim_end : String → String
trim_end String.[] = ""
trim_end (String.◌∷◌ c s) =
    let rest = trim_end s in if is_space (code c) && is_blank rest then "" else String.◌∷◌ c rest

unfoldable pub trim : String → String
trim s = trim_end (trim_start s)

-- `!value?.trim()`.
abbrev pub blank_value : String → Bool
blank_value s = is_blank (trim s)

-- `environment[key]?.trim() ?? ""`.
abbrev pub trimmed : Option String → String
trimmed none = ""
trimmed (some s) = trim s

-- `replace(/\/$/, "")`.
unfoldable pub strip_slash : String → String
strip_slash String.[] = ""
strip_slash (String.◌∷◌ c s) =
    let rest = strip_slash s in if is_blank s && code c == b'/' then "" else String.◌∷◌ c rest

-- The case of ASCII letters, which is all that the flag `i` of a regular expression and
-- `toLowerCase` change for the names and patterns of this package.
abbrev lower_code : ℕ → ℕ
lower_code c = if leb b'A' c && leb c b'Z' then c + 32 else c

abbrev pub lower_codes : List ℕ → List ℕ
lower_codes [] = []
lower_codes (c ∷ cs) = lower_code c ∷ lower_codes cs

-- The codes after a prefix.
abbrev pub after : List ℕ → List ℕ → Option (List ℕ)
after [] cs = some cs
after (p ∷ ps) [] = none
after (p ∷ ps) (c ∷ cs) = let rest = after ps cs in if p == c then rest else none

abbrev found : Option (List ℕ) → Bool
found none = false
found (some cs) = true

unfoldable pub starts_with : String → String → Bool
starts_with s prefix = found (after (codes prefix) (codes s))

abbrev pub same_codes : List ℕ → List ℕ → Bool
same_codes [] [] = true
same_codes (c ∷ cs) (d ∷ ds) = c == d && same_codes cs ds
same_codes _ _ = false

-- `key.slice(prefix.length)` of a key that starts with the prefix.
abbrev drop_codes : List ℕ → String → Option String
drop_codes [] s = some s
drop_codes (p ∷ ps) String.[] = none
drop_codes (p ∷ ps) (String.◌∷◌ c s) =
    let rest = drop_codes ps s in if p == code c then rest else none

abbrev pub without_prefix : String → String → Option String
without_prefix prefix key = drop_codes (codes prefix) key

-- `${prefix}${suffix}`, by clauses, so that a literal prefix computes.
abbrev pub with_prefix : String → String → String
with_prefix String.[] suffix = suffix
with_prefix (String.◌∷◌ c s) suffix = String.◌∷◌ c (with_prefix s suffix)

-- Some word stands here, or after characters that `.` matches.
abbrev contains_word : List String → List ℕ → Bool
contains_word words [] = false
contains_word words (c ∷ cs) =
    let rest = contains_word words cs in
    any (λ w. found (after (lower_codes (codes w)) (c ∷ cs))) words
    || (not (c == 10 || c == 13 || c == 8232 || c == 8233) && rest)

abbrev some_word : List String → Option (List ℕ) → Bool
some_word words none = false
some_word words (some cs) = contains_word words cs

-- `/^NEXT_PUBLIC_.*(?:…)/i` for a list of words.
unfoldable pub is_public_secret : List String → String → Bool
is_public_secret words key =
    some_word words (after (lower_codes (codes "NEXT_PUBLIC_")) (lower_codes (codes key)))

-- `value.includes(fragment)`.
abbrev includes_codes : List ℕ → List ℕ → Bool
includes_codes fragment [] = found (after fragment [])
includes_codes fragment (c ∷ cs) = found (after fragment (c ∷ cs)) || includes_codes fragment cs

unfoldable pub includes_text : String → String → Bool
includes_text s fragment = includes_codes (codes fragment) (codes s)
