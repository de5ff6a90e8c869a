-- ===== src/StrictJson/Within.antt =====
-- packages/account-http-runtime/src/strict-json.ts: a reader that has fuel enough takes something of the text.
use samurai_sushi.Common.{
  ℕ, suc, ◌≤◌, ◌<◌, Bool, true, false, Option, none, some, List, [], ◌∷◌, length, if◌then◌else◌,
  ◌==◌, arith,
}
use samurai_sushi.StrictJson.{Parsed, array, object, Elements, Members, element, member}
use samurai_sushi.StrictJson.Scan.{
  Units, Slice, skip, after, Delimiter, closed, comma, wrong, delimiter, read_key,
}
use samurai_sushi.StrictJson.Shrink.{Leaves, length-skip, read_key-Leaves}
use samurai_sushi.StrictJson.Value.{
  Read, done, refused, out_of_fuel, Start, whole, opens_object, opens_array, not_a_value,
  text_start, object_start, array_start, literal, wrap, go_on, end_member, end_element, on_member,
  on_element, on_key,
}

-- A reader had fuel enough, and took something of the first `n` units.
abbrev pub Within : {A : Type 0} → ℕ → Read A → Type 0
Within n (done v rest nodes) = length rest < n
Within n refused = 0 ≤ 0
Within n out_of_fuel = ⊥

abbrev pub Starts : ℕ → Start → Type 0
Starts n (whole v rest) = length rest < n
Starts n (opens_object rest) = length rest < n
Starts n (opens_array rest) = length rest < n
Starts n not_a_value = 0 ≤ 0

abbrev Parts : ℕ → Delimiter → Type 0
Parts n (closed rest) = length rest < n
Parts n (comma rest) = length rest < n
Parts n wrong = 0 ≤ 0

abbrev Takes : ℕ → Option Units → Type 0
Takes n none = 0 ≤ 0
Takes n (some rest) = length rest < n

wrap-Within :
    {A B : Type 0} (f : A → B) (m n : ℕ) (r : Read A) → m ≤ n → Within m r → Within n (wrap f r)
wrap-Within f m n (done v rest nodes) h w = omega arith
wrap-Within f m n refused h w = omega arith
wrap-Within f m n out_of_fuel h w = elim w [ ]

delimiter-Parts : (n closing : ℕ) (s : Units) → length s ≤ n → Parts n (delimiter closing s)
delimiter-Parts n closing [] h = omega arith
delimiter-Parts n closing (c ∷ cs) h =
    elim (c == closing)
      as (λ b. Parts n (if b then closed cs else (if c == b',' then comma cs else wrong))) [
        | true ↦ omega arith
        | false ↦ elim (c == b',') as (λ b. Parts n (if b then comma cs else wrong)) [
          | true ↦ omega arith
          | false ↦ omega arith
        ]
      ]

pub if-Starts :
    (n : ℕ) (b : Bool) (x y : Start) → Starts n x → Starts n y → Starts n (if b then x else y)
if-Starts n true x y h k = h
if-Starts n false x y h k = k

pub more-Starts : (m n : ℕ) (b : Start) → m ≤ n → Starts m b → Starts n b
more-Starts m n (whole v rest) h k = omega arith
more-Starts m n (opens_object rest) h k = omega arith
more-Starts m n (opens_array rest) h k = omega arith
more-Starts m n not_a_value h k = omega arith

pub text-Starts : (n : ℕ) (o : Option Slice) → Leaves n o → Starts (suc n) (text_start o)
text-Starts n none h = omega arith
text-Starts n (some s) h = omega arith

pub object-Starts : (n : ℕ) (s : Units) → length s ≤ n → Starts (suc n) (object_start s)
object-Starts n [] h = omega arith
object-Starts n (c ∷ cs) h = if-Starts (suc n) (c == b'}') _ _ (omega arith) (omega arith)

pub array-Starts : (n : ℕ) (s : Units) → length s ≤ n → Starts (suc n) (array_start s)
array-Starts n [] h = omega arith
array-Starts n (c ∷ cs) h = if-Starts (suc n) (c == b']') _ _ (omega arith) (omega arith)

pub literal-Starts :
    (n : ℕ) (v : Parsed) (o : Option Units) (next : Start)
    → Takes n o
    → Starts n next
    → Starts n (literal v o next)
literal-Starts n v none next h k = k
literal-Starts n v (some rest) next h k = h

after-Takes : (n : ℕ) (ps s : Units) → length s < n → Takes n (after ps s)
after-Takes n [] s h = h
after-Takes n (p ∷ ps) [] h = omega arith
after-Takes n (p ∷ ps) (c ∷ cs) h =
    elim (p == c) as (λ b. Takes n (if b then after ps cs else none)) [
      | true ↦ after-Takes n ps cs (omega arith)
      | false ↦ omega arith
    ]

pub word-Takes :
    (p : ℕ) (ps : Units) (c : ℕ) (cs : Units) → Takes (suc (length cs)) (after (p ∷ ps) (c ∷ cs))
word-Takes p ps c cs =
    elim (p == c) as (λ b. Takes (suc (length cs)) (if b then after ps cs else none)) [
      | true ↦ after-Takes (suc (length cs)) ps cs (omega arith)
      | false ↦ omega arith
    ]

pub go_on-Within :
    (n nodes : ℕ) (b : Start) (members : Units → Read Members) (elements : Units → Read Elements)
    → Starts n b
    → ((rest : Units) → length rest < n → Within (length rest) (members rest))
    → ((rest : Units) → length rest < n → Within (length rest) (elements rest))
    → Within n (go_on b nodes members elements)
go_on-Within n nodes not_a_value members elements h k l = omega arith
go_on-Within n nodes (whole v rest) members elements h k l = h
go_on-Within n nodes (opens_object rest) members elements h k l =
    wrap-Within object (length rest) n (members rest) (omega arith) (k rest h)
go_on-Within n nodes (opens_array rest) members elements h k l =
    wrap-Within array (length rest) n (elements rest) (omega arith) (l rest h)

end_member-Within :
    (n : ℕ) (key : Units) (v : Parsed) (nodes : ℕ) (d : Delimiter) (next : Units → Read Members)
    → Parts n d
    → ((rest : Units) → length rest < n → Within (length rest) (next rest))
    → Within n (end_member key v nodes d next)
end_member-Within n key v nodes wrong next h k = omega arith
end_member-Within n key v nodes (closed rest) next h k = h
end_member-Within n key v nodes (comma rest) next h k =
    wrap-Within (member key v) (length rest) n (next rest) (omega arith) (k rest h)

end_element-Within :
    (n : ℕ) (v : Parsed) (nodes : ℕ) (d : Delimiter) (next : Units → Read Elements)
    → Parts n d
    → ((rest : Units) → length rest < n → Within (length rest) (next rest))
    → Within n (end_element v nodes d next)
end_element-Within n v nodes wrong next h k = omega arith
end_element-Within n v nodes (closed rest) next h k = h
end_element-Within n v nodes (comma rest) next h k =
    wrap-Within (element v) (length rest) n (next rest) (omega arith) (k rest h)

on_member-Within :
    (n : ℕ) (key : Units) (r : Read Parsed) (next : ℕ → Units → Read Members)
    → Within n r
    → ((nodes : ℕ) (rest : Units) → length rest < n → Within (length rest) (next nodes rest))
    → Within n (on_member key r next)
on_member-Within n key refused next h k = omega arith
on_member-Within n key out_of_fuel next h k = h
on_member-Within n key (done v rest nodes) next h k =
    end_member-Within n key v nodes (delimiter b'}' (skip rest)) (next nodes)
      (delimiter-Parts n b'}' (skip rest) (omega (arith, length-skip rest))) (k nodes)

pub on_element-Within :
    (n : ℕ) (r : Read Parsed) (next : ℕ → Units → Read Elements)
    → Within n r
    → ((nodes : ℕ) (rest : Units) → length rest < n → Within (length rest) (next nodes rest))
    → Within n (on_element r next)
on_element-Within n refused next h k = omega arith
on_element-Within n out_of_fuel next h k = h
on_element-Within n (done v rest nodes) next h k =
    end_element-Within n v nodes (delimiter b']' (skip rest)) (next nodes)
      (delimiter-Parts n b']' (skip rest) (omega (arith, length-skip rest))) (k nodes)

abbrev Shortens : ℕ → Option Slice → Type 0
Shortens n none = 0 ≤ 0
Shortens n (some s) = length s.1 < n

shorter : (n : ℕ) (o : Option Slice) → Leaves n o → Shortens (suc n) o
shorter n none h = omega arith
shorter n (some s) h = omega arith

pub key-Shortens : (keys : List Units) (s : Units) → Shortens (length s) (read_key keys s)
key-Shortens keys [] = omega arith
key-Shortens keys (c ∷ cs) =
    shorter (length cs) (read_key keys (c ∷ cs))
      (read_key-Leaves (length cs) keys (c ∷ cs) (omega arith))

more-Within : {A : Type 0} (m n : ℕ) (r : Read A) → m ≤ n → Within m r → Within n r
more-Within m n (done v rest nodes) h w = omega arith
more-Within m n refused h w = omega arith
more-Within m n out_of_fuel h w = w

pub on_key-Within :
    (n : ℕ) (o : Option Slice) (read : Units → Read Parsed)
    (next : Units → ℕ → Units → Read Members)
    → Shortens n o
    → ((rest : Units) → length rest < n → Within (length rest) (read rest))
    → ((key : Units) (nodes : ℕ) (rest : Units)
        → length rest < n
        → Within (length rest) (next key nodes rest))
    → Within n (on_key o read next)
on_key-Within n none read next h k l = omega arith
on_key-Within n (some s) read next h k l =
    on_member-Within n s.0 (read s.1) (next s.0)
      (more-Within (length s.1) n (read s.1) (omega arith) (k s.1 h)) (l s.0)

pub if-Within :
    {A : Type 0} (n : ℕ) (b : Bool) (r : Read A) → Within n r → Within n (if b then refused else r)
if-Within n true r h = omega arith
if-Within n false r h = h
