-- ===== src/Commands/Patterns.antt =====
-- The regular expressions of packages/domain/src/commands.ts and canonical.ts, as tests on the code
-- points of a text.
use Prim.Native.Char.{code}
use samurai_sushi.Common.{
  ℕ, zero, suc, Bool, true, false, ◌&&◌, ◌||◌, String, List, [], ◌∷◌, length, all, leb, ◌==◌,
}

abbrev pub codes : String → List ℕ
codes String.[] = []
codes (String.◌∷◌ c s) = code c ∷ codes s

abbrev pub is_hex : ℕ → Bool
is_hex c = (leb b'0' c && leb c b'9') || (leb b'a' c && leb c b'f')

abbrev pub is_alpha : ℕ → Bool
is_alpha c = (leb b'A' c && leb c b'Z') || (leb b'a' c && leb c b'z')

abbrev pub is_alnum : ℕ → Bool
is_alnum c = is_alpha c || (leb b'0' c && leb c b'9')

-- One test for each character.
abbrev pub matches : List (ℕ → Bool) → List ℕ → Bool
matches [] [] = true
matches (p ∷ ps) (c ∷ cs) = p c && matches ps cs
matches _ _ = false

abbrev pub times : ℕ → (ℕ → Bool) → List (ℕ → Bool) → List (ℕ → Bool)
times zero p ps = ps
times (suc n) p ps = p ∷ times n p ps

abbrev dash : ℕ → Bool
dash c = c == b'-'

abbrev uuid_pattern : (ℕ → Bool) → (ℕ → Bool) → List (ℕ → Bool)
uuid_pattern version variant = times 8 is_hex (
    dash
    ∷ times 4 is_hex (
        dash
        ∷ version
        ∷ times 3 is_hex (dash ∷ variant ∷ times 3 is_hex (dash ∷ times 12 is_hex []))))

unfoldable pub is_uuid_v4 : String → Bool
is_uuid_v4 s =
    matches (uuid_pattern (λ c. c == b'4') (λ c. c == b'8' || c == b'9' || c == b'a' || c == b'b'))
      (codes s)

unfoldable pub is_uuid_shape : String → Bool
is_uuid_shape s = matches (uuid_pattern is_hex is_hex) (codes s)

abbrev within : ℕ → ℕ → List ℕ → Bool
within least most cs = leb least (length cs) && leb (length cs) most

unfoldable pub is_base64url : String → Bool
is_base64url s =
    within 22 128 (codes s) && all (λ c. is_alnum c || c == b'_' || c == b'-') (codes s)

abbrev is_separator : ℕ → Bool
is_separator c = c == b'.' || c == b'_' || c == b':' || c == b'-'

-- The rest of a command name; the flag says that a character must follow, after a separator.
abbrev name_rest : Bool → List ℕ → Bool
name_rest true [] = false
name_rest false [] = true
name_rest true (c ∷ cs) = is_alnum c && name_rest false cs
name_rest false (c ∷ cs) = (is_alnum c || is_separator c) && name_rest (is_separator c) cs

abbrev name_codes : List ℕ → Bool
name_codes [] = false
name_codes (c ∷ cs) = is_alpha c && name_rest false cs

unfoldable pub is_command_name : String → Bool
is_command_name s = name_codes (codes s)

-- A first alphanumeric character, then `least` to `most` characters that pass the test.
abbrev prefixed : ℕ → ℕ → (ℕ → Bool) → List ℕ → Bool
prefixed least most p [] = false
prefixed least most p (c ∷ cs) = is_alnum c && within least most cs && all p cs

unfoldable pub is_content_version : String → Bool
is_content_version s =
    prefixed 0 127
      (λ c.
        is_alnum c || c == b'.' || c == b'_' || c == b':' || c == b'@' || c == b'/' || c == b'-')
      (codes s)

unfoldable pub is_subject_id : String → Bool
is_subject_id s = prefixed 15 127 (λ c. is_alnum c || c == b'_' || c == b'-') (codes s)

unfoldable pub is_sha256 : String → Bool
is_sha256 s =
    matches
      ((λ c. c == b's')
        ∷ (λ c. c == b'h')
        ∷ (λ c. c == b'a')
        ∷ (λ c. c == b'2')
        ∷ (λ c. c == b'5')
        ∷ (λ c. c == b'6')
        ∷ (λ c. c == b':')
        ∷ times 64 is_hex [])
      (codes s)
