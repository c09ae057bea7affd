-- ===== src/Markup.antt =====
-- parser.c: the text and the tags inside a message. A list of `clist` is a `List`, a node's address
-- is its place, and the address of a `parser_message` is its number, `uid`, by which `link` names it.
pub mod Cstring
pub mod Parts
pub mod Links
pub mod Special
pub mod Output
pub mod Config
pub mod Ends
pub mod Total
pub mod Plain
pub mod Cutting
pub mod Shown
pub mod Names
mod Tests
use minichatclient.Base.{
  ℕ, Bool, true, false, List, [], ◌∷◌, Option, none, some, Bytes, ◌==◌, if◌then◌else◌,
}

-- A result, undefined behaviour, or a loop that the fuel given does not end.
pub data Result {ℓ} (A : Type ℓ) : Type ℓ where
  ok : A → Result A
  crash starved : Result A

infixl 5 ◌>>=◌
abbrev pub ◌>>=◌ {ℓ κ} : {A : Type ℓ} {B : Type κ} → Result A → (A → Result B) → Result B
ok a >>= f = f a
crash >>= f = crash
starved >>= f = starved

-- What is not defined is a crash.
abbrev pub defined {ℓ} : {A : Type ℓ} → Option A → Result A
defined none = crash
defined (some a) = ok a

-- TYPE_MESSAGE, TYPE_OPENING_TAG, TYPE_CLOSING_TAG
pub data Kind : Type 0 where
  message opening closing : Kind

abbrev pub is_message : Kind → Bool
is_message message = true
is_message _ = false

abbrev pub is_opening : Kind → Bool
is_opening opening = true
is_opening _ = false

abbrev pub is_closing : Kind → Bool
is_closing closing = true
is_closing _ = false

-- attribute.h
pub record Attribute : Type 0 where
  pub name : Bytes
  pub value : Bytes

-- `parser_message`: a text has no attributes.
pub record Part : Type 0 where
  pub uid : ℕ
  pub kind : Kind
  pub data_of : Bytes
  pub link : Option ℕ
  pub attributes : List Attribute

-- The part that a number names.
unfoldable pub part_at : ℕ → List Part → Option Part
part_at uid [] = none
part_at uid (p ∷ parts) = let rest = part_at uid parts in if p.uid == uid then some p else rest

-- `part->link = link`, on the part of that number.
unfoldable pub set_link : ℕ → Option ℕ → List Part → List Part
set_link uid link [] = []
set_link uid link (p ∷ parts) =
    (if p.uid == uid then record p { link = link } else p) ∷ set_link uid link parts
