-- ===== src/StrictJson/Objects.antt =====
-- packages/account-http-runtime/src/strict-json.ts: `strictObject` and `plainObject`. What `parseStrictJson` reads
-- as an object has the plain prototype.
use samurai_sushi.Common.{Bool, not, ◌||◌, Option, none, some, List, [], ◌∷◌, if◌then◌else◌, any}
use samurai_sushi.StrictJson.{Parsed, object, Members, no_member, member}
use samurai_sushi.StrictJson.Scan.{Units, same_units}

abbrev member_keys : Members → List Units
member_keys no_member = []
member_keys (member key v ms) = key ∷ member_keys ms

abbrev is_listed : List Units → Units → Bool
is_listed keys key = any (same_units key) keys

-- An object with each required key and no key but the allowed ones.
unfoldable pub strict_object : (required optional : List Units) → Parsed → Option Members
strict_object required optional (object ms) =
    if any (λ key. not (is_listed required key || is_listed optional key)) (member_keys ms)
      || any (λ key. not (is_listed (member_keys ms) key)) required
    then none
    else some ms
strict_object required optional _ = none

unfoldable pub plain_object : Parsed → Option Members
plain_object (object ms) = some ms
plain_object _ = none
