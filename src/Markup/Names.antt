-- ===== src/Markup/Names.antt =====
-- parser.c: "@ <span>name</span>, text" becomes "<nick>name</nick>text", where the space behind the
-- "@" has two bytes.
use minichatclient.Base.{
  ℕ, suc, ◌+◌, ◌-◌, ◌<◌, ◌≡◌, ◌≢◌, refl, ap, ◌∙◌, Bool, true, false, ◌||◌, List, [], ◌∷◌, ◌++◌,
  none, Bytes, length, length-append, take, drop, get_or, get_or-append, take-append, arith, ◌==◌,
  leb, codes,
}
use minichatclient.Text.Search.{starts_with}
use minichatclient.Markup.{
  ok, Kind, message, opening, closing, Part, is_message, is_opening, is_closing,
}
use minichatclient.Markup.Special.{
  check_at_rule, count_span_data_span, is_at, names_loop, name_round, remove, remove_many,
  opens_span, closes_span,
}

-- "@" and a space of two bytes, as the forum writes it.
abbrev pub at_sign : ℕ → ℕ → Bytes
at_sign x y = b'@' ∷ x ∷ y ∷ []

is_at-sign : (a : Bytes) (x y : ℕ) → is_at 3 (a ++ at_sign x y) ≡ true
is_at-sign a x y =
    let n : length (a ++ at_sign x y) - 3 ≡ length a =
      omega (arith, length-append a (at_sign x y)) in
    let there : get_or (a ++ at_sign x y) (length a) 0 ≡ b'@' =
      get_or-append a (x ∷ y ∷ []) b'@' 0 in
    rw (n, there) (ground (arith, length-append a (at_sign x y)))

abbrev renamed : Part → Part
renamed p = record p { data_of = codes "nick" }

no_opening : (k : Kind) → is_message k ≡ true → (is_opening k ≡ false) × (is_closing k ≡ false)
no_opening message h = (refl, refl)
no_opening opening h = cc
no_opening closing h = cc

one_span :
    (start name stop comma : Part) (rest : List Part)
    → opens_span start ≡ true
    → is_message name.kind ≡ true
    → closes_span stop ≡ true
    → is_message comma.kind ≡ true
    → count_span_data_span (start ∷ name ∷ stop ∷ comma ∷ rest) ≡ 1
unfolding count_span_data_span
one_span start name stop comma rest opens is_name closes is_comma =
    ground (arith, no_opening name.kind is_name, no_opening comma.kind is_comma)

no_span :
    (p : Part) (rest : List Part) → is_message p.kind ≡ true → count_span_data_span (p ∷ rest) ≡ 0
unfolding count_span_data_span
no_span p [] h = ground (arith, no_opening p.kind h)
no_span p (q ∷ rest) h = ground (arith, no_opening p.kind h)

or_true : (b : Bool) → (b || true) ≡ true
or_true true = refl
or_true false = refl

length-some : (a : Bytes) → a ≢ [] → 0 < length a
length-some [] h = absurd (h refl)
length-some (c ∷ a) h = omega arith

-- What is asked of a text that begins with ", " and goes on.
comma-text :
    (text d : Bytes)
    → text ≡ codes ", " ++ d
    → d ≢ []
    → (starts_with (codes ", ") text ≡ true) × (leb (length text) 2 ≡ false) × (drop 2 text ≡ d)
unfolding starts_with
comma-text text d e ne = rw e (refl, ground (arith, length-some d ne), refl)

-- The case of a text before the "@": it loses the "@" and the two bytes behind it.
named_behind :
    (before rest : List Part) (at start name stop comma : Part) (a d : Bytes) (x y : ℕ)
    → at.data_of ≡ a ++ at_sign x y
    → a ≢ []
    → opens_span start ≡ true
    → is_message name.kind ≡ true
    → closes_span stop ≡ true
    → is_message comma.kind ≡ true
    → comma.data_of ≡ codes ", " ++ d
    → d ≢ []
    → check_at_rule (before, at ∷ start ∷ name ∷ stop ∷ comma ∷ rest)
      ≡ ok (
        renamed stop ∷ name ∷ renamed start ∷ record at { data_of = a } ∷ before,
        record comma { data_of = d } ∷ rest,
      )
unfolding check_at_rule names_loop name_round remove_many
named_behind before rest at start name stop comma a d x y is_sign some_a opens is_name closes
      is_comma comma_text some_d =
    let three : is_at 3 at.data_of ≡ true = rw is_sign (is_at-sign a x y) in
    let n : length at.data_of ≡ length a + 3 = ap length is_sign ∙ length-append a (at_sign x y) in
    let cut : take (length at.data_of - 3) at.data_of ≡ a =
      let m : length at.data_of - 3 ≡ length a = omega arith in
      rw (m, is_sign) (take-append a (at_sign x y)) in
    let one = one_span start name stop comma rest opens is_name closes is_comma in
    let none_left = no_span (record comma { data_of = d }) rest is_comma in
    let far : (length at.data_of == 3) ≡ false = ground (arith, length-some a some_a) in
    let fuel : length (start ∷ name ∷ stop ∷ comma ∷ rest) + 1 ≡ suc (suc (length rest + 3)) =
      omega arith in
    let (begins, long, goes_on) = comma-text comma.data_of d comma_text some_d in
    rw (
      three,
      or_true (is_at 2 at.data_of),
      one,
      far,
      cut,
      fuel,
      one,
      begins,
      long,
      goes_on,
      none_left,
    )

-- The case of an "@" alone: its part is removed.
named_alone :
    (before rest : List Part) (at start name stop comma : Part) (d : Bytes) (x y : ℕ)
    → at.data_of ≡ at_sign x y
    → at.link ≡ none
    → opens_span start ≡ true
    → is_message name.kind ≡ true
    → closes_span stop ≡ true
    → is_message comma.kind ≡ true
    → comma.data_of ≡ codes ", " ++ d
    → d ≢ []
    → check_at_rule (before, at ∷ start ∷ name ∷ stop ∷ comma ∷ rest)
      ≡ ok (renamed stop ∷ name ∷ renamed start ∷ before, record comma { data_of = d } ∷ rest)
unfolding check_at_rule names_loop name_round remove_many remove
named_alone before rest at start name stop comma d x y is_sign no_link opens is_name closes is_comma
      comma_text some_d =
    let three : is_at 3 at.data_of ≡ true = rw is_sign (is_at-sign [] x y) in
    let one = one_span start name stop comma rest opens is_name closes is_comma in
    let none_left = no_span (record comma { data_of = d }) rest is_comma in
    let alone : (length at.data_of == 3) ≡ true = rw is_sign refl in
    let fuel : length (start ∷ name ∷ stop ∷ comma ∷ rest) + 1 ≡ suc (suc (length rest + 3)) =
      omega arith in
    let (begins, long, goes_on) = comma-text comma.data_of d comma_text some_d in
    rw (
      three,
      or_true (is_at 2 at.data_of),
      one,
      alone,
      no_link,
      fuel,
      one,
      begins,
      long,
      goes_on,
      none_left,
    )

-- What is left before the names: nothing of a part that is just the "@".
abbrev pub without_sign : Bytes → Part → List Part → List Part
without_sign [] at before = before
without_sign (c ∷ a) at before = record at { data_of = c ∷ a } ∷ before

-- An "@" with two bytes behind it ends a text part, which has no link, or is all of it. A name in
-- one span follows, and a text that begins with ", " and goes on. Then the name becomes a nick, the
-- "@" and the ", " are gone, with the part of the "@" if that is all of it, and the place is on the
-- text behind.
pub check_at_rule-named :
    (before rest : List Part) (at start name stop comma : Part) (a d : Bytes) (x y : ℕ)
    → at.data_of ≡ a ++ at_sign x y
    → at.link ≡ none
    → opens_span start ≡ true
    → is_message name.kind ≡ true
    → closes_span stop ≡ true
    → is_message comma.kind ≡ true
    → comma.data_of ≡ codes ", " ++ d
    → d ≢ []
    → check_at_rule (before, at ∷ start ∷ name ∷ stop ∷ comma ∷ rest)
      ≡ ok (
        renamed stop ∷ name ∷ renamed start ∷ without_sign a at before,
        record comma { data_of = d } ∷ rest,
      )
check_at_rule-named before rest at start name stop comma [] d x y is_sign no_link =
    named_alone before rest at start name stop comma d x y is_sign no_link
check_at_rule-named before rest at start name stop comma (c ∷ a) d x y is_sign no_link =
    named_behind before rest at start name stop comma (c ∷ a) d x y is_sign (λ e. cc)
