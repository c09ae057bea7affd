-- ===== src/Markup/Output.antt =====
-- parser.c: the rules, and what they make of a message.
use minichatclient.Base.{
  ◌+◌, Bool, true, false, ◌&&◌, ◌||◌, List, [], ◌∷◌, ◌++◌, Option, none, some, Bytes, length,
  if◌then◌else◌, str_eq, codes,
}
use minichatclient.Markup.{
  Result, ok, ◌>>=◌, defined, message, opening, closing, Attribute, Part, part_at,
}
use minichatclient.Markup.Cstring.{cstring_replaces}
use minichatclient.Markup.Parts.{create_parts}
use minichatclient.Markup.Links.{associate_links, force_close_tags}
use minichatclient.Markup.Special.{special_loop}

-- `parser_rule`. The fields of a rule are not initialized: `none` is a field that no line has set.
pub record Rule : Type 0 where
  pub tag : Bytes
  pub value : Option Bytes
  pub start : Option Bytes
  pub stop : Option Bytes

-- `parser_config_line`
pub record Line : Type 0 where
  pub context : Bytes
  pub rules : List Rule

abbrev pub is_blank : Bytes → Bool
is_blank [] = true
is_blank (c ∷ s) = false

-- `atts = part->attributes`, or those of the part that a closing tag is linked to.
unfoldable pub atts_of : List Part → Part → Result (List Attribute)
unfolding part_at
atts_of parts p = elim p.kind [
  | closing ↦ elim p.link [
    | none ↦ ok p.attributes
    | some uid ↦ do linked ← defined (part_at uid parts); ok linked.attributes
  ]
  | _ ↦ ok p.attributes
]

-- Whether the context of a line is one of those that the tag stands in.
unfoldable pub in_context : Bytes → List Bytes → Bool
in_context context [] = false
in_context context (tag ∷ stack) =
    is_blank context || str_eq context tag || in_context context stack

-- Whether a rule that names an attribute applies.
unfoldable pub has_att : Rule → List Attribute → Result Bool
has_att rul [] = ok false
has_att rul (att ∷ atts) = do
  value ← defined rul.value
  rest ← has_att rul atts
  ok (str_eq rul.tag att.name && (is_blank value || str_eq value att.value) || rest)

unfoldable pub first_rule : List Attribute → List Rule → Result (Option Rule)
unfolding has_att
first_rule atts [] = ok none
first_rule atts (rul ∷ rules) =
    let rest = first_rule atts rules in
    if is_blank rul.tag
    then ok (some rul)
    else (do applies ← has_att rul atts; if applies then ok (some rul) else rest)

-- `process_parser_message_sub`, and the loop over the lines that calls it.
unfoldable pub rule_for : List Attribute → List Bytes → List Line → Result (Option Rule)
unfolding in_context first_rule
rule_for atts stack [] = ok none
rule_for atts stack (line ∷ lines) =
    let rest = rule_for atts stack lines in
    if in_context line.context stack
    then (do rul ← first_rule atts line.rules; elim rul [ none ↦ rest | some r ↦ ok (some r) ])
    else rest

-- `\{name}` becomes the value, attribute by attribute.
unfoldable pub fill : Bytes → List Attribute → Bytes
unfolding cstring_replaces
fill text [] = text
fill text (att ∷ atts) =
    fill (cstring_replaces text (codes "\\{" ++ (att.name ++ codes "}")) att.value) atts

-- `process_tag`, what it adds to `out`.
unfoldable pub process_tag : List Part → Part → Option Rule → Result Bytes
unfolding atts_of fill
process_tag parts p none = ok (elim p.kind [ message ↦ p.data_of | _ ↦ [] ])
process_tag parts p (some rul) = do
  atts ← atts_of parts p
  text ← elim p.kind [ opening ↦ defined rul.start | closing ↦ defined rul.stop | message ↦ ok [] ]
  ok (fill text atts)

-- `process_parser_message` on a tag.
unfoldable pub process_parser_message : List Line → List Part → List Bytes → Part → Result Bytes
unfolding rule_for process_tag
process_parser_message lines parts stack p = do
  atts ← atts_of parts p
  rul ← rule_for atts stack lines
  process_tag parts p rul

-- The loop of `parser_parse_messages` with `process_tag`: the context stack has its last tag first,
-- and `parts` is the whole list.
unfoldable pub parse_loop : List Line → List Part → List Bytes → List Part → Result Bytes
unfolding process_parser_message
parse_loop lines parts stack [] = ok []
parse_loop lines parts stack (p ∷ todo) = elim p.kind [
  | message ↦ do rest ← parse_loop lines parts stack todo; ok (p.data_of ++ rest)
  | opening ↦ do
    out ← process_parser_message lines parts (p.data_of ∷ stack) p
    rest ← parse_loop lines parts (p.data_of ∷ stack) todo
    ok (out ++ rest)
  | closing ↦ elim stack [
    | [] ↦ parse_loop lines parts [] todo
    | top ∷ below ↦
        if str_eq p.data_of top
        then (do
          out ← process_parser_message lines parts (top ∷ below) p
          rest ← parse_loop lines parts below todo
          ok (out ++ rest))
        else parse_loop lines parts (top ∷ below) todo
  ]
]

-- The number of parts is the first that is free, as `create_parts` counts from 0.
unfoldable pub parser_get_parts : Bytes → Result (List Part)
unfolding create_parts associate_links force_close_tags special_loop
parser_get_parts text = do
  list ← create_parts text
  list ← force_close_tags (length list) (associate_links list)
  special_loop (length list + 1) ([], list)

unfoldable pub parse_html_in_message : List Line → Bytes → Result Bytes
unfolding parser_get_parts parse_loop
parse_html_in_message lines text = do parts ← parser_get_parts text; parse_loop lines parts [] parts
