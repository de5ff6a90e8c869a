-- ===== src/Json.antt =====
-- JSON values as packages/domain/src/model.ts types them, and their sizes.
pub mod Unicode
pub mod Canonical
pub mod Bounds
pub mod Shape
pub mod Text
pub mod Sorted
pub mod Ordered
pub mod UnicodeLaws
pub mod WalkLaws
use samurai_sushi.Common.{ℕ, Bool, String, Option, none, some, List, [], ◌∷◌, str_eq, if◌then◌else◌}

-- A finite JavaScript number by kind: 0, 1, 2, …; -(n + 1); -0; any other (with a fraction), by its
-- text; or a literal that overflows to an infinity.
pub data JsNumber : Type 0 where
  nat : ℕ → JsNumber
  neg : ℕ → JsNumber
  neg_zero : JsNumber
  fraction : String → JsNumber
  infinite : JsNumber

-- A text is well-formed Unicode; an object is its own enumerable data properties in order.
mutual
  pub data Json : Type 0 where
    null : Json
    bool : Bool → Json
    num : JsNumber → Json
    str : String → Json
    arr : Items → Json
    obj : Fields → Json

  pub data Items : Type 0 where
    nil : Items
    cons : Json → Items → Items

  pub data Fields : Type 0 where
    end : Fields
    field : String → Json → Fields → Fields

abbrev pub items_of : List Json → Items
items_of [] = nil
items_of (j ∷ js) = cons j (items_of js)

abbrev pub list_of : Items → List Json
list_of nil = []
list_of (cons j js) = j ∷ list_of js

abbrev pub keys : Fields → List String
keys end = []
keys (field k v fs) = k ∷ keys fs

-- `row.key`; `none` is `undefined`.
abbrev pub get : Fields → String → Option Json
get end key = none
get (field k v fs) key = if str_eq k key then some v else get fs key

abbrev pub texts : List String → Items
texts [] = nil
texts (s ∷ ss) = cons (str s) (texts ss)
