-- ===== src/Html/Bodies.antt =====
-- parsehtml.c: runs over the id of a message, and over its text.
use mathlib.Core.Path.{subst, sym}
use minichatclient.Base.{
  ℕ, suc, ◌+◌, ◌-◌, ◌<◌, ◌≤◌, ◌≡◌, ◌≢◌, refl, ◌∙◌, Bool, true, false, ◌||◌, ◌&&◌, not, [], ◌∷◌,
  ◌++◌, none, some, Bytes, length, length-append, length-take_le, take, set, ◌==◌, ltb,
  if◌then◌else◌, codes, arith, append_assoc, append-nil, All, Option-cases, Bool-cases, inl, inr,
  c_string, take-set, c_string-set, length-set,
}
use minichatclient.Html.{Parser, Env, in_message, watchfor, watchfor2, string_at, put, says}
use minichatclient.Html.Steps.{step_message}
use minichatclient.Html.Page.{round, parse_loop, switch}
use minichatclient.Html.Reads.{round_in, round_with, empty, stored}
use minichatclient.Html.Safety.{IsShrinking, GivesText}
use minichatclient.Html.Safety.Texts.{rewritten, posted, without_tag, ended, end_message-says}

pub take-stored :
    (msgid : Bytes) (j : ℕ) (w : Bytes)
    → j + length w ≤ length msgid
    → (take (j + length w) (stored msgid j w) ≡ take j msgid ++ w)
      × (length (stored msgid j w) ≡ length msgid)
unfolding stored
take-stored msgid j [] h = (rw (append-nil (take j msgid)) (ground arith), refl)
take-stored msgid j (c ∷ w) h =
    let (t, l) = take-stored (set msgid j c) (j + 1) w (omega (arith, length-set msgid j c)) in
    let e : j + length (c ∷ w) ≡ j + 1 + length w = omega arith in
    let f : j + 1 ≡ suc j = omega arith in
    (rw (e, t, f, take-set msgid j c (omega arith)) (simp append_assoc), l ∙ length-set msgid j c)

-- The id that an array holds after an id has been read into it, and closed.
pub id_stored :
    (msgid w : Bytes)
    → length msgid ≡ 30
    → length w ≤ 20
    → All (λ c. c ≢ 0) w
    → c_string (set (stored msgid 0 w) (length w) 0) ≡ w
id_stored msgid w size fits zeros =
    let (t, l) = take-stored msgid 0 w (omega arith) in
    let zero_plus : 0 + length w ≡ length w = omega arith in
    c_string-set (stored msgid 0 w) (length w) w (omega (arith, l)) zeros (rw zero_plus at t)

-- `w` ends with the first "</div>" in it, holds no "<div>" or "<div " before, and no end of a line.
unfoldable pub body_ends : ℕ → ℕ → Bytes → Bool
unfolding watchfor watchfor2
body_ends j l [] = false
body_ends j l (c ∷ w) = not (c == 13 || c == 10) && elim (watchfor (codes "</div>") c j) [
  | none ↦ false
  | some (found, j') ↦ elim (watchfor2 (codes "<div>") (codes "<div ") c l) [
    | none ↦ false
    | some (opened, l') ↦
        not opened && (if found then length w == 0 && l' == 0 else body_ends j' l' w)
  ]
]

div_counter :
    (c k j : ℕ) (found : Bool)
    → watchfor (codes "</div>") c k ≡ some (found, j)
    → (j ≤ k + 1) × (found ≡ true → (5 ≤ k) × (j ≡ 0))
unfolding watchfor string_at
div_counter c k j found h = ground arith

-- The rules make a text of this one without its last six bytes.
abbrev pub GivesCut : Env → Bytes → Type 0
GivesCut env s = GivesText env (c_string (take (length s - 6) s))

-- The text of a message is kept up to its end, and the message is handed over.
pub body_run :
    (env : Env) (p : Parser) (w name : Bytes)
    → IsShrinking env
    → GivesCut env (p.out ++ w)
    → p.state ≡ in_message
    → p.oldstate ≡ in_message
    → p.username ≡ some name
    → p.j ≤ length p.out
    → length p.out + length w < 2000
    → body_ends p.j p.l w ≡ true
    → let q : Parser = record p { out = p.out ++ w; j = 0; l = 0 } in
      parse_loop env p w
      ≡ some (ended env q, says (posted q name (rewritten env (c_string (without_tag q)))) ∷ [])
unfolding parse_loop switch step_message put body_ends
body_run env p [] name shrinks gives e f named behind short h = cc
body_run env p (c ∷ w) name shrinks gives e f named behind short h =
    elim (Option-cases (watchfor (codes "</div>") c p.j)) [
      | inl watched ↦ ground arith
      | inr ((found, j), watched) ↦
          elim (Option-cases (watchfor2 (codes "<div>") (codes "<div ") c p.l)) [
            | inl opens ↦ ground arith
            | inr ((opened, l), opens) ↦
                let out = p.out ++ c ∷ [] in
                let longer = length-append p.out (c ∷ []) in
                let room : ltb (length p.out) 2000 ≡ true = ground arith in
                let closed : opened ≡ false = ground (arith, watched, opens) in
                let counter = div_counter c p.j j found watched in
                let cr : c ≢ 13 = ground arith in
                let lf : c ≢ 10 = ground arith in
                elim (Bool-cases found) [
                  | inl is_found ↦
                      let l_zero : l ≡ 0 = ground (arith, watched, opens) in
                      let w_empty : w ≡ [] = empty w (ground (arith, watched, opens)) in
                      let at_end = counter.1 is_found in
                      let q : Parser = record p { out = out; j = 0; l = 0 } in
                      let step : step_message env p c
                          ≡ some (
                            ended env q,
                            says (posted q name (rewritten env (c_string (without_tag q)))) ∷ [],
                          ) =
                        rw (
                          room,
                          watched,
                          is_found,
                          at_end.1,
                          end_message-says env (record p { out = out; j = 0 }) name shrinks
                              (subst (λ w. GivesCut env (p.out ++ c ∷ w)) w_empty gives)
                              (omega arith) named,
                          opens,
                          closed,
                          l_zero,
                        ) in
                      let last =
                        round_with env p (ended env q) in_message c
                          (says (posted q name (rewritten env (c_string (without_tag q)))) ∷ []) e f
                          cr lf step (omega (arith, length-take_le (length out - 6) out)) in
                      rw (w_empty, last)
                  | inr missed ↦
                      let q : Parser = record p { out = out; j = j; l = l } in
                      let step : step_message env p c ≡ some (q, []) =
                        rw (room, watched, missed, opens, closed) in
                      let first : round env p c ≡ some (q, []) =
                        round_in env p q in_message c e f cr lf step (omega arith) in
                      rw
                        (
                          first,
                          body_run env q w name shrinks
                              (subst (GivesCut env) (sym (append_assoc p.out (c ∷ []) w)) gives) e f
                              named (omega (arith, counter.0)) (omega arith)
                              (ground (arith, watched, missed, opens)),
                        )
                        (simp append_assoc)
                ]
          ]
    ]
