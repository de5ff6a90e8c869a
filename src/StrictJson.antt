-- ===== src/StrictJson.antt =====
-- packages/account-http-runtime/src/strict-json.ts: the reader of request bodies, over the code units of the
-- text.
pub mod Scan
pub mod Shrink
pub mod Value
pub mod Within
pub mod Fuel
pub mod Objects
use samurai_sushi.Common.{ℕ, Bool, Option, List}

-- A text is its code units, and a number the numeral that was read.
mutual
  pub data Parsed : Type 0 where
    null : Parsed
    bool : Bool → Parsed
    number : List ℕ → Parsed
    text : List ℕ → Parsed
    array : Elements → Parsed
    object : Members → Parsed

  pub data Elements : Type 0 where
    no_element : Elements
    element : Parsed → Elements → Elements

  pub data Members : Type 0 where
    no_member : Members
    member : List ℕ → Parsed → Members → Members
