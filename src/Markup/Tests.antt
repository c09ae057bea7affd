-- ===== src/Markup/Tests.antt =====
-- parser.c: messages as test data.
use minichatclient.Base.{
  ◌≡◌, refl, List, [], ◌∷◌, ◌++◌, none, some, Bytes, codes, map, str_eq, arith,
}
use minichatclient.Text.Search.{starts_with}
use minichatclient.Text.Strings.{html_strip_tags}
use minichatclient.Markup.{ok, crash, Part, opening, closing}
use minichatclient.Markup.Parts.{create_parts, text_part}
use minichatclient.Markup.Special.{check_at_rule}
use minichatclient.Markup.Output.{Line, parse_html_in_message}
use minichatclient.Markup.Config.{
  FullRule, rule_of, written, parser_get_config, parser_get_config-written,
}
use minichatclient.Markup.Total.{HasEnd, parse_html_in_message-HasEnd}
use minichatclient.Markup.Cutting.{Pieces, rendered, parts_of, create_parts-rendered}
use minichatclient.Markup.Shown.{texts, texts-html_strip_tags}
use minichatclient.Markup.Names.{at_sign, check_at_rule-named}

abbrev bold : FullRule
bold = record { tag = codes "b"; value = []; start = codes "*"; stop = codes "*" }

abbrev lines : List Line
lines = record { context = []; rules = rule_of bold ∷ [] } ∷ []

parse_html_in_message-HasEnd_example :
    HasEnd (parse_html_in_message lines (codes "a <b>bold</b> word"))
parse_html_in_message-HasEnd_example =
    parse_html_in_message-HasEnd lines (codes "a <b>bold</b> word")

abbrev pieces : Pieces
pieces = (codes "a ", codes "img src=\"x y\" /") ∷ (codes "b", codes "br/") ∷ []

create_parts-rendered_example :
    create_parts (rendered pieces (codes "end")) ≡ parts_of 0 pieces (codes "end")
create_parts-rendered_example =
    create_parts-rendered pieces (codes "end")
      (
        (ground arith, ground arith, omega arith, λ e. omega arith),
        ((ground arith, ground arith, omega arith, λ e. omega arith), tt),
      )
      (ground arith)

parser_get_config-written_example :
    parser_get_config (some (written ((codes "q", bold ∷ []) ∷ ([], []) ∷ [])))
    ≡ some (
        map
          (λ (l : Bytes × List FullRule). record { context = l.0; rules = map rule_of l.1 })
          ((codes "q", bold ∷ []) ∷ ([], []) ∷ []))
parser_get_config-written_example =
    parser_get_config-written ((codes "q", bold ∷ []) ∷ ([], []) ∷ [])

abbrev shown : Pieces
shown = (codes "a ", codes "i") ∷ (codes "b", codes "/i") ∷ []

abbrev start : Part
start = record { uid = 1; kind = opening; data_of = codes "span"; link = some 3; attributes = [] }

abbrev name : Part
name = text_part 2 (codes "bob")

abbrev stop : Part
stop = record { uid = 3; kind = closing; data_of = codes "span"; link = some 1; attributes = [] }

check_at_rule-named_example :
    check_at_rule (
      [],
      text_part 0 (codes "hi " ++ at_sign 0xC2 0xA0)
          ∷ start
          ∷ name
          ∷ stop
          ∷ text_part 4 (codes ", you")
          ∷ [],
    )
    ≡ ok (
      record stop { data_of = codes "nick" }
          ∷ name
          ∷ record start { data_of = codes "nick" }
          ∷ text_part 0 (codes "hi ")
          ∷ [],
      text_part 4 (codes "you") ∷ [],
    )
unfolding str_eq
check_at_rule-named_example =
    check_at_rule-named [] [] (text_part 0 (codes "hi " ++ at_sign 0xC2 0xA0)) start name stop
      (text_part 4 (codes ", you")) (codes "hi ") (codes "you") 0xC2 0xA0 refl refl refl refl refl
      refl refl (λ e. cc)

-- A nick behind an "@" with nothing but ", " behind it: the pointer goes behind the list.
at_end :
    check_at_rule
      ([], text_part 0 (codes "hi @  ") ∷ start ∷ name ∷ stop ∷ text_part 4 (codes ", ") ∷ [])
    ≡ crash
unfolding check_at_rule str_eq starts_with
at_end = refl

-- A tag with a space before its end has an attribute without a byte, and what lies behind its zero
-- is read.
space_in_tag : parse_html_in_message lines (codes "<br >") ≡ crash
unfolding parse_html_in_message
space_in_tag = refl

-- An end tag without a name leaves its '/' in the text.
bare_end : parse_html_in_message lines (codes "a</>b") ≡ ok (codes "a/b")
unfolding parse_html_in_message
bare_end = refl

abbrev shown_parts : List Part
shown_parts =
    text_part 0 (codes "a ")
    ∷ record { uid = 1; kind = opening; data_of = codes "i"; link = none; attributes = [] }
    ∷ text_part 2 (codes "b")
    ∷ record { uid = 3; kind = closing; data_of = codes "i"; link = none; attributes = [] }
    ∷ text_part 4 (codes "c")
    ∷ []

shown-create_parts : create_parts (rendered shown (codes "c")) ≡ ok shown_parts
unfolding create_parts
shown-create_parts = refl

texts-html_strip_tags_example : texts shown_parts ≡ html_strip_tags (rendered shown (codes "c"))
texts-html_strip_tags_example =
    texts-html_strip_tags shown (codes "c") shown_parts
      (
        (ground arith, ground arith, omega arith, λ e. omega arith),
        ((ground arith, ground arith, omega arith, λ e. omega arith), tt),
      )
      (ground arith, (ground arith, tt)) (ground arith) shown-create_parts
