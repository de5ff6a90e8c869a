-- ===== src/Examples/Bodies.antt =====
-- packages/account-http-runtime/src/strict-json.ts: request bodies that are read and that are refused.
use samurai_sushi.Common.{Bool, true, none, [], ◌∷◌, ◌≡◌, refl}
use samurai_sushi.Commands.Patterns.{codes}
use samurai_sushi.StrictJson.{
  object, array, number, text, bool, no_element, element, no_member, member,
}
use samurai_sushi.StrictJson.Scan.{Units}
use samurai_sushi.StrictJson.Value.{done, refused, parse_strict_json}
use samurai_sushi.StrictJson.Objects.{strict_object}
use samurai_sushi.StrictJson.Fuel.{Answers, parse_strict_json-Answers}

abbrev all_finite : Units → Bool
all_finite numeral = true

abbrev body : Units
body = codes "{\"seat\": [1, true], \"name\": \"Ai\"} "

body_is_read :
    parse_strict_json all_finite body
    ≡ done
        (object (
          member
            (codes "seat")
            (array (element (number (codes "1")) (element (bool true) no_element)))
            (member (codes "name") (text (codes "Ai")) no_member)))
        []
        5
unfolding parse_strict_json
body_is_read = refl

a_key_twice : parse_strict_json all_finite (codes "{\"a\":1,\"a\":2}") ≡ refused
unfolding parse_strict_json
a_key_twice = refl

a_trailing_comma : parse_strict_json all_finite (codes "[1,]") ≡ refused
unfolding parse_strict_json
a_trailing_comma = refl

an_unknown_key :
    strict_object (codes "a" ∷ []) [] (object (member (codes "b") (bool true) no_member)) ≡ none
unfolding strict_object
an_unknown_key = refl

parse_strict_json-Answers_example : Answers (parse_strict_json all_finite body)
parse_strict_json-Answers_example = parse_strict_json-Answers all_finite body
