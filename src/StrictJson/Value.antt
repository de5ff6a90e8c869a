-- ===== src/StrictJson/Value.antt =====
-- packages/account-http-runtime/src/strict-json.ts: `value` and `parseStrictJson`. Each call of a reader takes one
-- unit of fuel.
use samurai_sushi.Common.{
  ℕ, zero, suc, ◌+◌, ◌*◌, Bool, true, false, ◌||◌, Option, none, some, List, [], ◌∷◌, length, ltb,
  leb, ◌==◌, if◌then◌else◌,
}
use samurai_sushi.Commands.Patterns.{codes}
use samurai_sushi.StrictJson.{
  Parsed, null, bool, number, text, array, object, Elements, no_element, element, Members,
  no_member, member,
}
use samurai_sushi.StrictJson.Scan.{
  Units, Slice, skip, read_string, read_number, after, Delimiter, closed, comma, wrong, delimiter,
  read_key,
}

pub data Read (A : Type 0) : Type 0 where
  done : A → (rest : Units) → (nodes : ℕ) → Read A
  refused out_of_fuel : Read A

-- How a value starts: a whole value, or a container that is not empty.
pub data Start : Type 0 where
  whole : Parsed → Units → Start
  opens_object opens_array : Units → Start
  not_a_value : Start

abbrev pub text_start : Option Slice → Start
text_start none = not_a_value
text_start (some s) = whole (text s.0) s.1

abbrev pub object_start : Units → Start
object_start [] = not_a_value
object_start (c ∷ cs) = if c == b'}' then whole (object no_member) cs else opens_object (c ∷ cs)

abbrev pub array_start : Units → Start
array_start [] = not_a_value
array_start (c ∷ cs) = if c == b']' then whole (array no_element) cs else opens_array (c ∷ cs)

abbrev pub literal : Parsed → Option Units → Start → Start
literal value none next = next
literal value (some rest) next = whole value rest

abbrev pub past_limits : (depth nodes : ℕ) → Bool
past_limits depth nodes = leb 4096 nodes || ltb 32 depth

abbrev pub wrap : {A B : Type 0} → (A → B) → Read A → Read B
wrap f (done a rest nodes) = done (f a) rest nodes
wrap f refused = refused
wrap f out_of_fuel = out_of_fuel

-- The value that starts so, with the readers of the members and of the elements.
abbrev pub go_on :
    Start → (nodes : ℕ) → (Units → Read Members) → (Units → Read Elements) → Read Parsed
go_on not_a_value nodes members elements = refused
go_on (whole v rest) nodes members elements = done v rest nodes
go_on (opens_object rest) nodes members elements = wrap object (members rest)
go_on (opens_array rest) nodes members elements = wrap array (elements rest)

-- After a value in an object or an array, with the reader of the entries that follow a comma.
abbrev pub end_member :
    Units → Parsed → (nodes : ℕ) → Delimiter → (Units → Read Members) → Read Members
end_member key v nodes wrong next = refused
end_member key v nodes (closed rest) next = done (member key v no_member) rest nodes
end_member key v nodes (comma rest) next = wrap (member key v) (next rest)

abbrev pub end_element : Parsed → (nodes : ℕ) → Delimiter → (Units → Read Elements) → Read Elements
end_element v nodes wrong next = refused
end_element v nodes (closed rest) next = done (element v no_element) rest nodes
end_element v nodes (comma rest) next = wrap (element v) (next rest)

abbrev pub on_member : Units → Read Parsed → (ℕ → Units → Read Members) → Read Members
on_member key refused next = refused
on_member key out_of_fuel next = out_of_fuel
on_member key (done v rest nodes) next =
    end_member key v nodes (delimiter b'}' (skip rest)) (next nodes)

abbrev pub on_element : Read Parsed → (ℕ → Units → Read Elements) → Read Elements
on_element refused next = refused
on_element out_of_fuel next = out_of_fuel
on_element (done v rest nodes) next = end_element v nodes (delimiter b']' (skip rest)) (next nodes)

abbrev pub on_key :
    Option Slice → (Units → Read Parsed) → (Units → ℕ → Units → Read Members) → Read Members
on_key none read next = refused
on_key (some k) read next = on_member k.0 (read k.1) (next k.0)

abbrev pub fuel_for : Units → ℕ
fuel_for s = 2 * length s + 2

-- A value that only whitespace follows.
abbrev pub only : Parsed → (nodes : ℕ) → Units → Read Parsed
only v nodes [] = done v [] nodes
only v nodes (c ∷ cs) = refused

abbrev pub whole_text : Read Parsed → Read Parsed
whole_text (done v rest nodes) = only v nodes (skip rest)
whole_text refused = refused
whole_text out_of_fuel = out_of_fuel

-- `is_finite` tells whether `Number` of a numeral is finite.
module _ (is_finite : Units → Bool) where
  abbrev pub number_start : Option Slice → Start
  number_start none = not_a_value
  number_start (some s) = if is_finite s.0 then whole (number s.0) s.1 else not_a_value

  abbrev pub start : Units → Start
  start [] = not_a_value
  start (c ∷ cs) =
      if c == b'"'
      then text_start (read_string (c ∷ cs))
      else (if c == b'{'
          then object_start (skip cs)
          else (if c == b'['
              then array_start (skip cs)
              else literal (bool true) (after (codes "true") (c ∷ cs)) (
                  literal (bool false) (after (codes "false") (c ∷ cs)) (
                    literal null (after (codes "null") (c ∷ cs))
                      (number_start (read_number (c ∷ cs)))))))

  unfoldable mutual
    pub read_value : (fuel depth nodes : ℕ) → Units → Read Parsed
    read_value zero depth nodes s = out_of_fuel
    read_value (suc fuel) depth nodes s =
        go_on (if past_limits depth nodes then not_a_value else start (skip s)) (suc nodes)
          (λ rest. read_members fuel depth (suc nodes) [] rest)
          (λ rest. read_elements fuel depth (suc nodes) 0 rest)

    pub read_members : (fuel depth nodes : ℕ) → List Units → Units → Read Members
    read_members zero depth nodes keys s = out_of_fuel
    read_members (suc fuel) depth nodes keys s =
        on_key (read_key keys s) (λ rest. read_value fuel (suc depth) nodes rest)
          (λ key more rest. read_members fuel depth more (key ∷ keys) rest)

    pub read_elements : (fuel depth nodes count : ℕ) → Units → Read Elements
    read_elements zero depth nodes count s = out_of_fuel
    read_elements (suc fuel) depth nodes count s =
        on_element (if leb 256 count then refused else read_value fuel (suc depth) nodes s)
          (λ more rest. read_elements fuel depth more (suc count) rest)

  -- `parseStrictJson`.
  unfoldable pub parse_strict_json : Units → Read Parsed
  unfolding read_value
  parse_strict_json [] = refused
  parse_strict_json (c ∷ cs) =
      if c == 0xfeff then refused else whole_text (read_value (fuel_for (c ∷ cs)) 0 0 (c ∷ cs))
