-- ===== src/Markup/Parts.antt =====
-- parser.c: `create_part` and `create_parts`, which cut a message into texts and tags.
use minichatclient.Base.{
  ℕ, ◌+◌, Bool, true, false, ◌&&◌, ◌||◌, not, List, [], ◌∷◌, ◌++◌, none, Bytes, length, ◌==◌, ltb,
  if◌then◌else◌,
}
use minichatclient.Markup.{
  Result, ok, crash, ◌>>=◌, Kind, message, opening, closing, Attribute, Part,
}
use minichatclient.Markup.Cstring.{cstring_splitc}

-- Up to the first '=', and from there; the flag says whether there is one.
abbrev pub to_equal : Bytes → Bytes × Bytes × Bool
to_equal [] = ([], [], false)
to_equal (c ∷ s) =
    let (name, value, found) = to_equal s in
    if c == b'=' then ([], s, true) else (c ∷ name, value, found)

-- An attribute. Without a '=' the name is empty and the value lacks the first byte. Of
-- an empty string, what lies behind its zero is read.
unfoldable pub attribute_of : Bytes → Result Attribute
attribute_of [] = crash
attribute_of (c ∷ s) =
    let (name, value, found) = to_equal (c ∷ s) in
    ok (if found then record { name = name; value = value } else record { name = []; value = s })

unfoldable pub attributes_of : List Bytes → Result (List Attribute)
unfolding attribute_of
attributes_of [] = ok []
attributes_of (s ∷ l) = do att ← attribute_of s; atts ← attributes_of l; ok (att ∷ atts)

abbrev pub text_part : ℕ → Bytes → Part
text_part uid data_of = record {
  uid = uid;
  kind = message;
  data_of = data_of;
  link = none;
  attributes = [];
}

-- `part->type`, and the text behind the '/' of a closing tag.
abbrev pub kind_of : Bytes → Kind × Bytes
kind_of [] = (opening, [])
kind_of (c ∷ s) = if c == b'/' then (closing, s) else (opening, c ∷ s)

unfoldable pub tag_of : ℕ → Kind → List Bytes → Result Part
unfolding attributes_of
tag_of uid kind [] =
    ok (record { uid = uid; kind = kind; data_of = []; link = none; attributes = [] })
tag_of uid kind (name ∷ strings) = do
  attributes ← attributes_of strings
  ok (record { uid = uid; kind = kind; data_of = name; link = none; attributes = attributes })

-- `create_part(data, false)`
unfoldable pub tag_part : ℕ → Bytes → Result Part
unfolding tag_of cstring_splitc
tag_part uid text = let (kind, tmp) = kind_of text in tag_of uid kind (cstring_splitc tmp b' ' b'"')

-- `clone_parser_message_node`, and the type that the clone gets.
abbrev pub clone_closing : ℕ → Part → Part
clone_closing uid p = record {
  uid = uid;
  kind = closing;
  data_of = p.data_of;
  link = none;
  attributes = [];
}

abbrev pub flushed : ℕ → Bytes → List Part
flushed uid [] = []
flushed uid (c ∷ prev) = text_part uid (c ∷ prev) ∷ []

abbrev pub after_flush : ℕ → Bytes → ℕ
after_flush uid [] = uid
after_flush uid (c ∷ prev) = uid + 1

-- The loop of `create_parts`: `uid` is the number of the next part, `prev` is `prev_data`, and
-- `last` is `message[i - 1]`.
unfoldable pub parts_loop : ℕ → Bool → Bytes → ℕ → Bytes → Result (List Part)
unfolding tag_part
parts_loop uid bracket prev last [] = ok (flushed uid prev)
parts_loop uid bracket prev last (c ∷ s) =
    if not bracket && c == b'<'
    then (do rest ← parts_loop (after_flush uid prev) true [] c s; ok (flushed uid prev ++ rest))
    else if bracket && c == b'>'
    then (if length prev == 0 || last == b'/' && not (ltb 1 (length prev))
        then parts_loop uid false prev c s
        else (do
          p ← tag_part uid prev
          if last == b'/'
              then (do
                rest ← parts_loop (uid + 2) false [] c s
                ok (p ∷ clone_closing (uid + 1) p ∷ rest))
              else (do rest ← parts_loop (uid + 1) false [] c s; ok (p ∷ rest))))
    else parts_loop uid bracket (prev ++ c ∷ []) c s

unfoldable pub create_parts : Bytes → Result (List Part)
unfolding parts_loop
create_parts text = parts_loop 0 false [] 0 text
