-- ===== src/Html/Pieces.antt =====
-- parsehtml.c: a page may come in pieces, and the ends of its lines do not matter.
use minichatclient.Base.{
  ℕ, ◌≡◌, ◌≢◌, refl, sym, ◌∙◌, Bool, true, false, ◌||◌, List, [], ◌∷◌, ◌++◌, Option, none, some,
  Bytes, ◌==◌, if◌then◌else◌, ◌>>=◌, arith, append_assoc, All, Option-cases, Bool-cases, inl, inr,
}
use minichatclient.Html.{Event, Parser, Env}
use minichatclient.Html.Steps.{Outcome}
use minichatclient.Html.Page.{round, parse_loop, parse_minichat_mess, receive, sync, reset, number}

-- One run, and then another from where it ends.
abbrev pub then_parse : Env → Outcome → Bytes → Outcome
then_parse env outcome input = do
  (q, events) ← outcome
  (r, more) ← parse_loop env q input
  some (r, events ++ more)

-- Parsing two texts one after the other is parsing both at once.
pub parse_loop-append :
    (env : Env) (p : Parser) (s t : Bytes)
    → parse_loop env p (s ++ t) ≡ then_parse env (parse_loop env p s) t
unfolding parse_loop
parse_loop-append env p [] t = elim (Option-cases (parse_loop env p t)) [
  | inl e ↦ rw e
  | inr (o, e) ↦ rw e
]
parse_loop-append env p (c ∷ s) t = elim (Option-cases (round env p c)) [
  | inl e ↦ rw e
  | inr ((q, events), e) ↦ elim (Option-cases (parse_loop env q s)) [
    | inl f ↦ rw (e, parse_loop-append env q s t, f)
    | inr ((r, more), f) ↦ elim (Option-cases (parse_loop env r t)) [
      | inl g ↦ rw (e, parse_loop-append env q s t, f, g)
      | inr ((z, last), g) ↦ rw (e, parse_loop-append env q s t, f, g) (simp append_assoc)
    ]
  ]
]

abbrev pub concat : List Bytes → Bytes
concat [] = []
concat (s ∷ l) = s ++ concat l

unfoldable pub counted : Outcome → Option (ℕ × Parser × List Event)
counted none = none
counted (some (q, events)) = some (q.nbmessages, q, events)

pub parse_minichat_mess-counted :
    (env : Env) (k : Bool) (s : Bytes) (p : Parser)
    → s ≢ []
    → parse_minichat_mess env k s p ≡ counted (parse_loop env (if k then reset p else p) s)
unfolding parse_minichat_mess counted
parse_minichat_mess-counted env k [] p h = absurd (h refl)
parse_minichat_mess-counted env k (c ∷ s) p h =
    elim (Option-cases (parse_loop env (if k then reset p else p) (c ∷ s))) [
      | inl e ↦ rw e
      | inr (o, e) ↦ rw e
    ]

receive_first :
    (env : Env) (k : Bool) (n : ℕ) (p : Parser) (s : Bytes) (pieces : List Bytes)
    → s ≢ []
    → ((q : Parser)
        → receive env false q.nbmessages pieces q ≡ counted (parse_loop env q (concat pieces)))
    → receive env k n (s ∷ pieces) p
      ≡ counted (parse_loop env (if k then reset p else p) (s ++ concat pieces))
unfolding receive counted
receive_first env k n p s pieces ne rest =
    let start = if k then reset p else p in
    elim (Option-cases (parse_loop env start s)) [
      | inl e ↦ rw (
        parse_minichat_mess-counted env k s p ne,
        parse_loop-append env start s (concat pieces),
        e,
      )
      | inr ((q, events), e) ↦ elim (Option-cases (parse_loop env q (concat pieces))) [
        | inl f ↦ rw (
          parse_minichat_mess-counted env k s p ne,
          parse_loop-append env start s (concat pieces),
          e,
          rest q,
          f,
        )
        | inr ((r, more), f) ↦ rw (
          parse_minichat_mess-counted env k s p ne,
          parse_loop-append env start s (concat pieces),
          e,
          rest q,
          f,
        )
      ]
    ]

receive_rest :
    (env : Env) (p : Parser) (pieces : List Bytes)
    → All (λ s. s ≢ []) pieces
    → receive env false p.nbmessages pieces p ≡ counted (parse_loop env p (concat pieces))
unfolding receive counted parse_loop
receive_rest env p [] h = refl
receive_rest env p (s ∷ pieces) h =
    receive_first env false p.nbmessages p s pieces h.0 (λ q. receive_rest env q pieces h.1)

-- However the network cuts a page into pieces, none of them empty, the loop of main.c gets the
-- number of messages, the parser and the calls that it would get from the whole page at once.
pub receive-concat :
    (env : Env) (n : ℕ) (piece : Bytes) (pieces : List Bytes) (p : Parser)
    → piece ≢ []
    → All (λ s. s ≢ []) pieces
    → receive env true n (piece ∷ pieces) p
      ≡ parse_minichat_mess env true (piece ++ concat pieces) p
receive-concat env n [] pieces p ne h = absurd (ne refl)
receive-concat env n (c ∷ s) pieces p ne h =
    receive_first env true n p (c ∷ s) pieces ne (λ q. receive_rest env q pieces h)
    ∙ sym (parse_minichat_mess-counted env true (c ∷ (s ++ concat pieces)) p (λ e. cc))

-- The text without the ends of its lines.
abbrev pub on_one_line : Bytes → Bytes
on_one_line [] = []
on_one_line (c ∷ s) = if c == 13 || c == 10 then on_one_line s else c ∷ on_one_line s

-- The calls of a run; `none` where it is not defined.
abbrev pub calls : Outcome → Option (List Event)
calls none = none
calls (some (q, events)) = some events

sync_twice : (p : Parser) → sync (sync p) ≡ sync p
unfolding sync number
sync_twice p = ground arith

pub round-sync :
    (env : Env) (p q : Parser) (c : ℕ) → sync p ≡ sync q → round env p c ≡ round env q c
unfolding round
round-sync env p q c e = rw e

on_one_line_lem :
    (env : Env) (p q : Parser) (s : Bytes)
    → sync p ≡ sync q
    → calls (parse_loop env p s) ≡ calls (parse_loop env q (on_one_line s))
unfolding parse_loop
on_one_line_lem env p q [] e = refl
on_one_line_lem env p q (c ∷ s) e = elim (Bool-cases (c == 13 || c == 10)) [
  | inl h ↦
      let go = on_one_line_lem env (sync p) q s (sync_twice p ∙ e) in
      let r : round env p c ≡ some (sync p, []) = unfold round in rw h in
      rw (r, h)
        (elim (Option-cases (parse_loop env (sync p) s)) [
          | inl f ↦ ground (arith, go, f)
          | inr (o, f) ↦ ground (arith, go, f)
        ])
  | inr h ↦ elim (Option-cases (round env q c)) [
    | inl f ↦ rw (round-sync env p q c e, f, h, f)
    | inr ((r, events), f) ↦
        let go = on_one_line_lem env r r s refl in
        elim (Option-cases (parse_loop env r s)) [
          | inl g ↦ elim (Option-cases (parse_loop env r (on_one_line s))) [
            | inl k ↦ rw (round-sync env p q c e, f, h, f, g, k)
            | inr (o', k) ↦ ground (arith, g, k, go)
          ]
          | inr (o, g) ↦ elim (Option-cases (parse_loop env r (on_one_line s))) [
            | inl k ↦ ground (arith, g, k, go)
            | inr (o', k) ↦ rw (round-sync env p q c e, f, h, f, g, k) (ground (arith, g, k, go))
          ]
        ]
  ]
]

-- Carriage returns and line feeds change nothing, wherever they stand in a page: the calls are
-- those of the page without them.
pub parse_loop-on_one_line :
    (env : Env) (p : Parser) (s : Bytes)
    → calls (parse_loop env p s) ≡ calls (parse_loop env p (on_one_line s))
parse_loop-on_one_line env p s = on_one_line_lem env p p s refl
