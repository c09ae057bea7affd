-- ===== src/Markup/Plain.antt =====
-- parser.c: a message without tags is left as it is.
use minichatclient.Base.{
  ℕ, ◌≡◌, ◌≢◌, refl, Bool, true, false, ◌&&◌, ◌||◌, List, [], ◌∷◌, ◌++◌, append-nil, append_assoc,
  Bytes, arith, All,
}
use minichatclient.Markup.{ok}
use minichatclient.Markup.Parts.{create_parts, parts_loop, flushed, text_part}
use minichatclient.Markup.Links.{associate_links, associate_loop, force_close_tags}
use minichatclient.Markup.Special.{
  is_at, special_loop, check_at_rule, check_reduce_link_rule, count_span_data_span,
}
use minichatclient.Markup.Output.{Line, parse_html_in_message, parser_get_parts, parse_loop}

and_false : (b : Bool) → (b && false) ≡ false
and_false true = refl
and_false false = refl

text_loop :
    (uid : ℕ) (prev : Bytes) (last : ℕ) (s : Bytes)
    → All (λ c. c ≢ b'<') s
    → parts_loop uid false prev last s ≡ ok (flushed uid (prev ++ s))
unfolding parts_loop
text_loop uid prev last [] h = rw (append-nil prev)
text_loop uid prev last (c ∷ s) h =
    ground (arith, text_loop uid (prev ++ c ∷ []) c s h.1, append_assoc prev (c ∷ []) s)

-- A message that holds no '<' is shown as it is, whatever the rules are.
pub parse_html_in_message-plain :
    (lines : List Line) (s : Bytes) → All (λ c. c ≢ b'<') s → parse_html_in_message lines s ≡ ok s
unfolding parse_html_in_message parser_get_parts create_parts associate_links associate_loop
    force_close_tags special_loop check_at_rule check_reduce_link_rule parse_loop
    count_span_data_span
parse_html_in_message-plain lines [] h = refl
parse_html_in_message-plain lines (c ∷ s) h =
    let cut : create_parts (c ∷ s) ≡ ok (text_part 0 (c ∷ s) ∷ []) = text_loop 0 [] 0 (c ∷ s) h in
    rw (cut, and_false (is_at 2 (c ∷ s) || is_at 3 (c ∷ s)), append-nil (c ∷ s))
