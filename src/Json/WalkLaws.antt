-- ===== src/Json/WalkLaws.antt =====
-- The worklist of `assertBoundedJson` against a description by recursion on the value.
use samurai_sushi.Common.{
  ℕ, zero, suc, ◌+◌, ◌≡◌, refl, Bool, true, false, ◌&&◌, List, [], ◌∷◌, leb, arith,
}
use samurai_sushi.Json.{Json, null, bool, num, str, arr, obj, Items, nil, cons, Fields, end, field}
use samurai_sushi.Json.Bounds.{node_fits, push_items, push_fields, push_children, walk}

-- The nodes of a value, itself included.
unfoldable mutual
  pub node_count : Json → ℕ
  node_count null = 1
  node_count (bool b) = 1
  node_count (num n) = 1
  node_count (str s) = 1
  node_count (arr js) = suc (item_count js)
  node_count (obj fs) = suc (field_count fs)

  pub item_count : Items → ℕ
  item_count nil = 0
  item_count (cons j js) = node_count j + item_count js

  pub field_count : Fields → ℕ
  field_count end = 0
  field_count (field k j fs) = node_count j + field_count fs

-- Each node at depth `d` and below is shallow enough and not oversized.
unfoldable mutual
  pub fits_at : ℕ → Json → Bool
  fits_at d null = leb d 32 && node_fits null
  fits_at d (bool b) = leb d 32 && node_fits (bool b)
  fits_at d (num n) = leb d 32 && node_fits (num n)
  fits_at d (str s) = leb d 32 && node_fits (str s)
  fits_at d (arr js) = (leb d 32 && node_fits (arr js)) && items_fit (d + 1) js
  fits_at d (obj fs) = (leb d 32 && node_fits (obj fs)) && fields_fit (d + 1) fs

  pub items_fit : ℕ → Items → Bool
  items_fit d nil = true
  items_fit d (cons j js) = fits_at d j && items_fit d js

  pub fields_fit : ℕ → Fields → Bool
  fields_fit d end = true
  fields_fit d (field k j fs) = fits_at d j && fields_fit d fs

abbrev pub stack_count : List (Json × ℕ) → ℕ
stack_count [] = 0
stack_count ((j, d) ∷ stack) = node_count j + stack_count stack

abbrev pub stack_fits : List (Json × ℕ) → Bool
stack_fits [] = true
stack_fits ((j, d) ∷ stack) = fits_at d j && stack_fits stack

push_items-count :
    (js : Items) (d : ℕ) (stack : List (Json × ℕ))
    → stack_count (push_items js d stack) ≡ item_count js + stack_count stack
unfolding item_count
push_items-count nil d stack = omega arith
push_items-count (cons j js) d stack = omega (arith, push_items-count js d ((j, d) ∷ stack))

push_fields-count :
    (fs : Fields) (d : ℕ) (stack : List (Json × ℕ))
    → stack_count (push_fields fs d stack) ≡ field_count fs + stack_count stack
unfolding item_count
push_fields-count end d stack = omega arith
push_fields-count (field k j fs) d stack = omega (arith, push_fields-count fs d ((j, d) ∷ stack))

push_items-fits :
    (js : Items) (d : ℕ) (stack : List (Json × ℕ))
    → stack_fits (push_items js d stack) ≡ (items_fit d js && stack_fits stack)
unfolding fits_at
push_items-fits nil d stack = refl
push_items-fits (cons j js) d stack = rw (push_items-fits js d ((j, d) ∷ stack)) (ground arith)

push_fields-fits :
    (fs : Fields) (d : ℕ) (stack : List (Json × ℕ))
    → stack_fits (push_fields fs d stack) ≡ (fields_fit d fs && stack_fits stack)
unfolding fits_at
push_fields-fits end d stack = refl
push_fields-fits (field k j fs) d stack = rw (push_fields-fits fs d ((j, d) ∷ stack)) (ground arith)

children_count :
    (j : Json) (d : ℕ) (stack : List (Json × ℕ))
    → suc (stack_count (push_children j d stack)) ≡ node_count j + stack_count stack
unfolding node_count
children_count (arr js) d stack = omega (arith, push_items-count js d stack)
children_count (obj fs) d stack = omega (arith, push_fields-count fs d stack)
children_count _ d stack = omega arith

children_fit :
    (j : Json) (d : ℕ) (stack : List (Json × ℕ))
    → (leb d 32 && node_fits j && stack_fits (push_children j (d + 1) stack))
      ≡ (fits_at d j && stack_fits stack)
unfolding fits_at
children_fit (arr js) d stack = rw (push_items-fits js (d + 1) stack) (ground arith)
children_fit (obj fs) d stack = rw (push_fields-fits fs (d + 1) stack) (ground arith)
children_fit _ d stack = ground arith

not_leb_zero : {m n : ℕ} → suc m ≡ n → leb n 0 ≡ false
not_leb_zero h = ground arith

leb_of_suc : (budget : ℕ) {m n : ℕ} → suc m ≡ n → leb n (suc budget) ≡ leb m budget
leb_of_suc budget h = ground arith

join_tests :
    (shallow sized fits rest_fits below : Bool) {walked counted counted' : Bool}
    → walked ≡ (counted' && rest_fits)
    → counted ≡ counted'
    → (shallow && sized && rest_fits) ≡ (fits && below)
    → (shallow && sized && walked) ≡ (counted && (fits && below))
join_tests shallow sized fits rest_fits below p q r = ground arith

walk-eq-count_and_fits :
    (budget : ℕ) (stack : List (Json × ℕ))
    → walk budget stack ≡ (leb (stack_count stack) budget && stack_fits stack)
unfolding walk
walk-eq-count_and_fits budget [] = ground arith
walk-eq-count_and_fits zero ((j, d) ∷ stack) = rw (not_leb_zero (children_count j d stack))
walk-eq-count_and_fits (suc budget) ((j, d) ∷ stack) =
    let rest = push_children j (d + 1) stack in
    join_tests (leb d 32) (node_fits j) (fits_at d j) (stack_fits rest) (stack_fits stack)
      (walk-eq-count_and_fits budget rest) (leb_of_suc budget (children_count j (d + 1) stack))
      (children_fit j d stack)

-- The worklist, in whatever order it meets the nodes, accepts a value exactly when it has at most
-- 4096 nodes and each of them is within the limits of depth and size.
pub walk_iff :
    (input : Json) → walk 4096 ((input, 0) ∷ []) ≡ (leb (node_count input) 4096 && fits_at 0 input)
walk_iff input = ground (arith, walk-eq-count_and_fits 4096 ((input, 0) ∷ []))
