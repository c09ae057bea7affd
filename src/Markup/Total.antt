-- ===== src/Markup/Total.antt =====
-- parser.c: a message is rewritten in a number of steps that ends, whatever it holds.
use minichatclient.Base.{
  ℕ, ◌+◌, ◌==◌, Bool, true, false, ◌&&◌, ◌||◌, not, List, [], ◌∷◌, ◌++◌, Option, none, some, Bytes,
  length, arith, str_eq, ltb, if◌then◌else◌, is_some,
}
use minichatclient.Markup.{
  Result, ◌>>=◌, defined, Kind, message, opening, closing, Attribute, Part, is_opening,
}
use minichatclient.Markup.Parts.{
  create_parts, parts_loop, tag_part, tag_of, attributes_of, attribute_of, kind_of, after_flush,
}
use minichatclient.Markup.Links.{associate_links, force_close_tags}
use minichatclient.Markup.Cstring.{cstring_splitc}
use minichatclient.Markup.Output.{
  Line, Rule, parser_get_parts, parse_html_in_message, parse_loop, process_parser_message,
  process_tag, rule_for, first_rule, has_att, atts_of, in_context, is_blank,
}
use minichatclient.Markup.Ends.{IsOver, IsOver-bind, special_loop-IsOver}

abbrev pub HasEnd {ℓ} : {A : Type ℓ} → Result A → Type 0
HasEnd r = IsOver (λ _. Unit) r

HasEnd-bind {ℓ κ} :
    {A : Type ℓ} {B : Type κ} (r : Result A) (f : A → Result B)
    → HasEnd r
    → ((a : A) → HasEnd (f a))
    → HasEnd (r >>= f)
HasEnd-bind r f h k = IsOver-bind (λ _. Unit) (λ _. Unit) r f h (λ a _. k a)

defined-HasEnd {ℓ} : {A : Type ℓ} (o : Option A) → HasEnd (defined o)
defined-HasEnd none = tt
defined-HasEnd (some a) = tt

if-HasEnd {ℓ} :
    {A : Type ℓ} (b : Bool) (r s : Result A) → HasEnd r → HasEnd s → HasEnd (if b then r else s)
if-HasEnd true r s h k = h
if-HasEnd false r s h k = k

kind-HasEnd {ℓ} :
    {A : Type ℓ} (k : Kind) (r s t : Result A)
    → HasEnd r
    → HasEnd s
    → HasEnd t
    → HasEnd (elim k [ message ↦ r | opening ↦ s | closing ↦ t ])
kind-HasEnd message r s t h i j = h
kind-HasEnd opening r s t h i j = i
kind-HasEnd closing r s t h i j = j

option-HasEnd {ℓ κ} :
    {A : Type ℓ} {B : Type κ} (o : Option B) (r : Result A) (f : B → Result A)
    → HasEnd r
    → ((b : B) → HasEnd (f b))
    → HasEnd (elim o [ none ↦ r | some b ↦ f b ])
option-HasEnd none r f h k = h
option-HasEnd (some b) r f h k = k b

list-HasEnd {ℓ κ} :
    {A : Type ℓ} {B : Type κ} (l : List B) (r : Result A) (f : B → List B → Result A)
    → HasEnd r
    → ((b : B) (l : List B) → HasEnd (f b l))
    → HasEnd (elim l [ [] ↦ r | b ∷ l' ↦ f b l' ])
list-HasEnd [] r f h k = h
list-HasEnd (b ∷ l) r f h k = k b l

attribute_of-HasEnd : (s : Bytes) → HasEnd (attribute_of s)
unfolding attribute_of
attribute_of-HasEnd [] = tt
attribute_of-HasEnd (c ∷ s) = tt

attributes_of-HasEnd : (l : List Bytes) → HasEnd (attributes_of l)
unfolding attributes_of
attributes_of-HasEnd [] = tt
attributes_of-HasEnd (s ∷ l) =
    HasEnd-bind (attribute_of s) _ (attribute_of-HasEnd s)
      λ att. HasEnd-bind (attributes_of l) _ (attributes_of-HasEnd l) λ atts. tt

tag_of-HasEnd : (uid : ℕ) (kind : Kind) (l : List Bytes) → HasEnd (tag_of uid kind l)
unfolding tag_of
tag_of-HasEnd uid kind [] = tt
tag_of-HasEnd uid kind (name ∷ l) =
    HasEnd-bind (attributes_of l) _ (attributes_of-HasEnd l) λ atts. tt

tag_part-HasEnd : (uid : ℕ) (text : Bytes) → HasEnd (tag_part uid text)
unfolding tag_part
tag_part-HasEnd uid text =
    tag_of-HasEnd uid (kind_of text).0 (cstring_splitc (kind_of text).1 b' ' b'"')

parts_loop-HasEnd :
    (uid : ℕ) (bracket : Bool) (prev : Bytes) (last : ℕ) (s : Bytes)
    → HasEnd (parts_loop uid bracket prev last s)
unfolding parts_loop
parts_loop-HasEnd uid bracket prev last [] = tt
parts_loop-HasEnd uid bracket prev last (c ∷ s) =
    if-HasEnd (not bracket && c == b'<') _ _
      (HasEnd-bind (parts_loop (after_flush uid prev) true [] c s) _
        (parts_loop-HasEnd (after_flush uid prev) true [] c s) λ rest. tt)
      (if-HasEnd (bracket && c == b'>') _ _
        (if-HasEnd (length prev == 0 || last == b'/' && not (ltb 1 (length prev))) _ _
          (parts_loop-HasEnd uid false prev c s)
          (HasEnd-bind (tag_part uid prev) _ (tag_part-HasEnd uid prev) λ p.
            if-HasEnd (last == b'/') _ _
              (HasEnd-bind (parts_loop (uid + 2) false [] c s) _
                (parts_loop-HasEnd (uid + 2) false [] c s) λ rest. tt)
              (HasEnd-bind (parts_loop (uid + 1) false [] c s) _
                (parts_loop-HasEnd (uid + 1) false [] c s) λ rest. tt)))
        (parts_loop-HasEnd uid bracket (prev ++ c ∷ []) c s))

force_close_tags-HasEnd : (next : ℕ) (parts : List Part) → HasEnd (force_close_tags next parts)
unfolding force_close_tags
force_close_tags-HasEnd next [] = tt
force_close_tags-HasEnd next (p ∷ parts) =
    if-HasEnd (is_opening p.kind && not (is_some p.link)) _ _
      (HasEnd-bind (tag_part next (b'/' ∷ p.data_of)) _ (tag_part-HasEnd next (b'/' ∷ p.data_of))
        λ node.
          HasEnd-bind (force_close_tags (next + 1) parts) _
            (force_close_tags-HasEnd (next + 1) parts) λ rest. tt)
      (HasEnd-bind (force_close_tags next parts) _ (force_close_tags-HasEnd next parts) λ rest. tt)

parser_get_parts-HasEnd : (text : Bytes) → HasEnd (parser_get_parts text)
unfolding parser_get_parts create_parts
parser_get_parts-HasEnd text =
    HasEnd-bind (create_parts text) _ (parts_loop-HasEnd 0 false [] 0 text) λ list.
      HasEnd-bind (force_close_tags (length list) (associate_links list)) _
        (force_close_tags-HasEnd (length list) (associate_links list))
        λ list'. special_loop-IsOver (length list' + 1) ([], list') (omega arith)

atts_of-HasEnd : (parts : List Part) (p : Part) → HasEnd (atts_of parts p)
unfolding atts_of
atts_of-HasEnd parts p = ground arith

has_att-HasEnd : (rul : Rule) (atts : List Attribute) → HasEnd (has_att rul atts)
unfolding has_att
has_att-HasEnd rul [] = tt
has_att-HasEnd rul (att ∷ atts) =
    HasEnd-bind (defined rul.value) _ (defined-HasEnd rul.value)
      λ value. HasEnd-bind (has_att rul atts) _ (has_att-HasEnd rul atts) λ rest. tt

first_rule-HasEnd : (atts : List Attribute) (rules : List Rule) → HasEnd (first_rule atts rules)
unfolding first_rule
first_rule-HasEnd atts [] = tt
first_rule-HasEnd atts (rul ∷ rules) = if-HasEnd (is_blank rul.tag) _ _ tt (
    HasEnd-bind (has_att rul atts) _ (has_att-HasEnd rul atts)
      λ applies. if-HasEnd applies _ _ tt (first_rule-HasEnd atts rules))

rule_for-HasEnd :
    (atts : List Attribute) (stack : List Bytes) (lines : List Line)
    → HasEnd (rule_for atts stack lines)
unfolding rule_for
rule_for-HasEnd atts stack [] = tt
rule_for-HasEnd atts stack (line ∷ lines) =
    if-HasEnd (in_context line.context stack) _ _
      (HasEnd-bind (first_rule atts line.rules) _ (first_rule-HasEnd atts line.rules)
        λ rul. option-HasEnd rul _ _ (rule_for-HasEnd atts stack lines) λ r. tt)
      (rule_for-HasEnd atts stack lines)

process_tag-HasEnd :
    (parts : List Part) (p : Part) (rul : Option Rule) → HasEnd (process_tag parts p rul)
unfolding process_tag
process_tag-HasEnd parts p none = tt
process_tag-HasEnd parts p (some rul) =
    HasEnd-bind (atts_of parts p) _ (atts_of-HasEnd parts p) λ atts. ground arith

process_parser_message-HasEnd :
    (lines : List Line) (parts : List Part) (stack : List Bytes) (p : Part)
    → HasEnd (process_parser_message lines parts stack p)
unfolding process_parser_message
process_parser_message-HasEnd lines parts stack p =
    HasEnd-bind (atts_of parts p) _ (atts_of-HasEnd parts p) λ atts.
      HasEnd-bind (rule_for atts stack lines) _ (rule_for-HasEnd atts stack lines)
        λ rul. process_tag-HasEnd parts p rul

parse_loop-HasEnd :
    (lines : List Line) (parts : List Part) (stack : List Bytes) (todo : List Part)
    → HasEnd (parse_loop lines parts stack todo)
unfolding parse_loop
parse_loop-HasEnd lines parts stack [] = tt
parse_loop-HasEnd lines parts stack (p ∷ todo) =
    kind-HasEnd p.kind _ _ _
      (HasEnd-bind (parse_loop lines parts stack todo) _ (parse_loop-HasEnd lines parts stack todo)
        λ rest. tt)
      (HasEnd-bind (process_parser_message lines parts (p.data_of ∷ stack) p) _
        (process_parser_message-HasEnd lines parts (p.data_of ∷ stack) p)
        λ out.
          HasEnd-bind (parse_loop lines parts (p.data_of ∷ stack) todo) _
            (parse_loop-HasEnd lines parts (p.data_of ∷ stack) todo) λ rest. tt)
      (list-HasEnd stack _ _ (parse_loop-HasEnd lines parts [] todo) λ top below.
        if-HasEnd (str_eq p.data_of top) _ _
          (HasEnd-bind (process_parser_message lines parts (top ∷ below) p) _
            (process_parser_message-HasEnd lines parts (top ∷ below) p)
            λ out.
              HasEnd-bind (parse_loop lines parts below todo) _
                (parse_loop-HasEnd lines parts below todo) λ rest. tt)
          (parse_loop-HasEnd lines parts (top ∷ below) todo))

-- Whatever bytes a message has, and whatever the rules are, rewriting it comes to an end, in a text
-- or in undefined behaviour: no loop runs out of fuel.
pub parse_html_in_message-HasEnd :
    (lines : List Line) (text : Bytes) → HasEnd (parse_html_in_message lines text)
unfolding parse_html_in_message
parse_html_in_message-HasEnd lines text =
    HasEnd-bind (parser_get_parts text) _ (parser_get_parts-HasEnd text)
      λ parts. parse_loop-HasEnd lines parts [] parts
