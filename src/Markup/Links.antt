-- ===== src/Markup/Links.antt =====
-- parser.c: `associate_links` and `force_close_tags`.
use minichatclient.Base.{ℕ, ◌+◌, ◌&&◌, not, List, [], ◌∷◌, some, if◌then◌else◌, is_some, str_eq}
use minichatclient.Markup.{Result, ok, ◌>>=◌, message, opening, closing, Part, is_opening, set_link}
use minichatclient.Markup.Parts.{tag_part}

-- `part->link = linked_part; linked_part->link = part`
abbrev pub link_both : ℕ → ℕ → List Part → List Part
link_both a b parts = set_link b (some a) (set_link a (some b) parts)

-- The loop: the parts that are still to come, the stack of opening tags, its top first, and the
-- list whose links are set.
unfoldable pub associate_loop : List Part → List Part → List Part → List Part
unfolding set_link
associate_loop [] stack parts = parts
associate_loop (p ∷ todo) stack parts = elim p.kind [
  | message ↦ associate_loop todo stack parts
  | opening ↦ associate_loop todo (p ∷ stack) parts
  | closing ↦ elim stack [
    | [] ↦ associate_loop todo [] parts
    | top ∷ stack ↦
        associate_loop todo stack
          (if str_eq p.data_of top.data_of then link_both p.uid top.uid parts else parts)
  ]
]

unfoldable pub associate_links : List Part → List Part
unfolding associate_loop
associate_links parts = associate_loop parts [] parts

-- `next` is the number of the next part that is made.
unfoldable pub force_close_tags : ℕ → List Part → Result (List Part)
unfolding tag_part
force_close_tags next [] = ok []
force_close_tags next (p ∷ parts) =
    if is_opening p.kind && not (is_some p.link)
    then (do
      node ← tag_part next (b'/' ∷ p.data_of)
      rest ← force_close_tags (next + 1) parts
      ok (record p { link = some next } ∷ record node { link = some p.uid } ∷ rest))
    else (do rest ← force_close_tags next parts; ok (p ∷ rest))
