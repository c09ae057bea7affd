-- ===== src/Markup/Special.antt =====
-- parser.c: `check_at_rule` and `check_reduce_link_rule`, and the loop that applies them. The
-- pointer into the list is the place between two lists: what lies before it, the nearest part
-- first, and what it points to and what follows.
use minichatclient.Base.{
  ℕ, zero, suc, ◌+◌, ◌-◌, Bool, true, false, ◌&&◌, ◌||◌, List, [], ◌∷◌, ◌++◌, Option, none, some,
  Bytes, length, drop, take, get_or, ◌==◌, leb, ltb, if◌then◌else◌, str_eq, codes,
}
use minichatclient.Text.Search.{starts_with, strstr}
use minichatclient.Markup.{
  Result, ok, crash, starved, ◌>>=◌, defined, Attribute, Part, is_message, is_opening, is_closing,
  set_link,
}
use minichatclient.Markup.Cstring.{cstring_ends_with}

abbrev pub is_span : Part → Bool
is_span p = str_eq p.data_of (codes "span")

-- How many parts of a list stand before the first that fails the test, and the list from there.
abbrev pub count_while : (Part → Bool) → List Part → ℕ × List Part
count_while test [] = (0, [])
count_while test (p ∷ parts) =
    let (n, rest) = count_while test parts in if test p then (n + 1, rest) else (0, p ∷ parts)

abbrev pub opens_span : Part → Bool
opens_span p = is_span p && is_opening p.kind

abbrev pub closes_span : Part → Bool
closes_span p = is_span p && is_closing p.kind

-- The number of the outer spans, where the text between is followed by as many ends or more.
abbrev spans_around : ℕ → List Part → ℕ
spans_around spans [] = 0
spans_around spans (p ∷ []) = 0
spans_around spans (p ∷ q ∷ parts) =
    let (ends, _) = count_while closes_span (q ∷ parts) in
    if is_message p.kind && leb spans ends then spans else 0

unfoldable pub count_span_data_span : List Part → ℕ
count_span_data_span parts =
    let (spans, rest) = count_while opens_span parts in spans_around spans rest

abbrev pub Place : Type 0
Place = List Part × List Part

abbrev pub rev_onto : List Part → List Part → List Part
rev_onto [] l = l
rev_onto (p ∷ parts) l = rev_onto parts (p ∷ l)

abbrev pub unlinked : Option ℕ → List Part → List Part
unlinked none parts = parts
unlinked (some uid) parts = set_link uid none parts

-- `node = ptr->next; clist_remove(list, ptr); free_clist_node(ptr); ptr = node`: the part that is
-- linked loses its link.
unfoldable pub remove : Place → Result Place
unfolding set_link
remove (before, []) = crash
remove (before, p ∷ parts) = ok (unlinked p.link before, unlinked p.link parts)

unfoldable pub remove_many : ℕ → Place → Result Place
unfolding remove
remove_many zero z = ok z
remove_many (suc n) z = do z' ← remove z; remove_many n z'

-- `if (ptr != NULL) ptr = ptr->next`
abbrev pub step_over : Place → Place
step_over (before, []) = (before, [])
step_over (before, p ∷ parts) = (p ∷ before, parts)

-- `part->data = "nick"; ptr = ptr->next`, where there is a part.
abbrev pub name_nick : Place → Place
name_nick (before, []) = (before, [])
name_nick (before, p ∷ parts) = (record p { data_of = codes "nick" } ∷ before, parts)

-- `ptr = node->prev`, where `node` is what the place points to.
abbrev pub step_back : Place → Result Place
step_back (before, []) = crash
step_back ([], p ∷ parts) = ok (rev_onto (p ∷ parts) [], [])
step_back (q ∷ before, p ∷ parts) = ok (before, q ∷ p ∷ parts)

-- A ", " in front of the part is removed, with the part if it is all of it. Then the place is set
-- on `node->prev`, and `node` is null at the end of the list.
unfoldable pub drop_comma : Place → Result Place
unfolding remove
drop_comma (before, []) = ok (before, [])
drop_comma (before, p ∷ parts) =
    if starts_with (codes ", ") p.data_of
    then (if leb (length p.data_of) 2
        then (do z ← remove (before, p ∷ parts); step_back z)
        else ok ((before, record p { data_of = drop 2 p.data_of } ∷ parts)))
    else ok (before, p ∷ parts)

-- One round of the loop over the names: `<span>`s around a text become one `<nick>`.
unfoldable pub name_round : ℕ → Place → Result Place
unfolding remove_many drop_comma
name_round spans z = do
  z₁ ← remove_many (spans - 1) (name_nick z)
  z₂ ← remove_many (spans - 1) (step_over z₁)
  drop_comma (name_nick z₂)

unfoldable pub names_loop : ℕ → Place → Result Place
unfolding name_round count_span_data_span
names_loop zero z = starved
names_loop (suc fuel) z =
    let spans = count_span_data_span z.1 in
    let more = (do z' ← name_round spans z; names_loop fuel z') in if spans == 0 then ok z else more

-- `part->data[size - k]`, where there are `k` bytes.
abbrev pub is_at : ℕ → Bytes → Bool
is_at k text = leb k (length text) && get_or text (length text - k) 0 == b'@'

-- "@" and a byte, or two, in front of the names are removed, with the part if they are all of it.
unfoldable pub drop_at : List Part → Part → List Part → Result Place
unfolding remove
drop_at before p parts =
    let delta = if is_at 3 p.data_of then 3 else 2 in
    if length p.data_of == delta
    then remove (before, p ∷ parts)
    else ok (record p { data_of = take (length p.data_of - delta) p.data_of } ∷ before, parts)

unfoldable pub check_at_rule : Place → Result Place
unfolding drop_at names_loop count_span_data_span
check_at_rule (before, []) = ok (before, [])
check_at_rule (before, p ∷ parts) =
    if (is_at 2 p.data_of || is_at 3 p.data_of) && ltb 0 (count_span_data_span parts)
    then (do z ← drop_at before p parts; names_loop (length parts + 1) z)
    else ok (before, p ∷ parts)

-- The attributes before the first `href`, that one, and those behind; without any, the last one.
abbrev pub pick_href : List Attribute → Option (List Attribute × Attribute × List Attribute)
pick_href [] = none
pick_href (a ∷ atts) =
    let rest = pick_href atts in
    if str_eq a.name (codes "href")
    then some ([], a, atts)
    else elim rest [ none ↦ some ([], a, []) | some (b, c, d) ↦ some (a ∷ b, c, d) ]

-- `cdata2`: the value of the `href`, or nothing.
abbrev href_of : Attribute → Bytes
href_of att = if str_eq att.name (codes "href") then att.value else []

-- Whether the text is the value of the attribute, or what a shortened link shows of its `href`.
unfoldable pub is_reduced : Bytes → Attribute → Result Bool
unfolding cstring_ends_with
is_reduced text att =
    if str_eq text att.value then ok true else elim (strstr text (codes " ... ")) [
      | none ↦ ok false
      | some i ↦
          if starts_with (take i text) (href_of att)
          then defined (cstring_ends_with (href_of att) (drop (i + 5) text))
          else ok false
    ]

-- The text and the value are swapped, and the attribute gets another name.
unfoldable pub swap_link : Part → Part → List Part → Result (List Part)
unfolding is_reduced
swap_link p q parts = elim (pick_href p.attributes) [
  | none ↦ ok (p ∷ q ∷ parts)
  | some (front, att, behind) ↦ do
    applies ← is_reduced q.data_of att
    ok (
        if applies
        then record p {
          attributes = front ++ record { name = codes "nohref"; value = q.data_of } ∷ behind;
        }
          ∷ record q { data_of = att.value }
          ∷ parts
        else p ∷ q ∷ parts)
]

abbrev pub is_link : Part → Bool
is_link p = is_opening p.kind && (str_eq p.data_of (codes "a") || str_eq p.data_of (codes "A"))

unfoldable pub check_reduce_link_rule : Place → Result Place
unfolding swap_link
check_reduce_link_rule (before, []) = ok (before, [])
check_reduce_link_rule (before, p ∷ []) = ok (before, p ∷ [])
check_reduce_link_rule (before, p ∷ q ∷ parts) =
    if is_link p
    then (do after ← swap_link p q parts; ok (before, after))
    else ok (before, p ∷ q ∷ parts)

-- `ptr == ptr2`, for the part `p` that `ptr2` points to.
abbrev pub stays_at : Part → Place → Bool
stays_at p (before, []) = false
stays_at p (before, q ∷ parts) = q.uid == p.uid

-- The loop of `parser_get_parts`.
unfoldable pub special_loop : ℕ → Place → Result (List Part)
unfolding check_at_rule check_reduce_link_rule
special_loop zero z = starved
special_loop (suc fuel) (before, []) = ok (rev_onto before [])
special_loop (suc fuel) (before, p ∷ parts) = do
  z₁ ← check_at_rule (before, p ∷ parts)
  z₂ ← check_reduce_link_rule z₁
  special_loop fuel (if stays_at p z₂ then step_over z₂ else z₂)
