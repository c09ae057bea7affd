-- ===== src/Html/Reads.antt =====
-- parsehtml.c: runs of the parser inside one state: a text that is kept until its end, a string
-- that is waited for, the id and the text of a message.
use minichatclient.Base.{
  ℕ, ◌+◌, ◌<◌, ◌≤◌, ◌≡◌, ◌≢◌, refl, ap, ◌∙◌, Bool, true, false, ◌||◌, List, [], ◌∷◌, ◌++◌, none,
  some, Bytes, length, length-append, set, ◌==◌, if◌then◌else◌, arith, append_assoc, append-nil,
  All, Option-cases, Bool-cases, inl, inr, c_string, c_string-all, All-append, All-map, write-set,
  length-set,
}
use minichatclient.Html.{
  State, Event, Parser, Env, in_msg_id, looking_for_username, in_username, watchfor, put, close,
  decode_into,
}
use minichatclient.Html.Steps.{keep, step_until, step_watch, step_before_username, step_msg_id}
use minichatclient.Html.Page.{round, parse_loop, sync, switch, guard_full}
use minichatclient.Html.Pieces.{round-sync, parse_loop-append}

pub Runs-append :
    (env : Env) (p q r : Parser) (s t : Bytes) (events more : List Event)
    → parse_loop env p s ≡ some (q, events)
    → parse_loop env q t ≡ some (r, more)
    → parse_loop env p (s ++ t) ≡ some (r, events ++ more)
Runs-append env p q r s t events more e f = rw (parse_loop-append env p s t, e, f)

-- A run begins as it would with the counters reset already.
pub parse_loop-sync :
    (env : Env) (p q : Parser) (c : ℕ) (s : Bytes)
    → sync p ≡ sync q
    → parse_loop env p (c ∷ s) ≡ parse_loop env q (c ∷ s)
unfolding parse_loop
parse_loop-sync env p q c s e = rw (round-sync env p q c e)

pub sync_same : (p : Parser) (s : State) → p.state ≡ s → p.oldstate ≡ s → sync p ≡ p
unfolding sync
sync_same p s e f = ground (arith, e, f)

-- A byte of a text: neither the byte that ends it, nor the end of a line, nor zero.
abbrev pub IsText : ℕ → ℕ → Type 0
IsText end c = (c ≢ end) × (c ≢ 13) × (c ≢ 10) × (c ≢ 0)

-- One byte that is no end of a line, in the state of the last round.
pub round_with :
    (env : Env) (p q : Parser) (s : State) (c : ℕ) (events : List Event)
    → p.state ≡ s
    → p.oldstate ≡ s
    → c ≢ 13
    → c ≢ 10
    → switch env s p c ≡ some (q, events)
    → length q.out < 2000
    → round env p c ≡ some (q, events)
unfolding round guard_full
round_with env p q s c events e f cr lf step short =
    rw (sync_same p s e f, ap (λ r. switch env r p c) e ∙ step) (ground arith)

pub round_in :
    (env : Env) (p q : Parser) (s : State) (c : ℕ)
    → p.state ≡ s
    → p.oldstate ≡ s
    → c ≢ 13
    → c ≢ 10
    → switch env s p c ≡ some (q, [])
    → length q.out < 2000
    → round env p c ≡ some (q, [])
round_in env p q s c = round_with env p q s c []

pub keep_run :
    (env : Env) (s : State) (end : ℕ) (p : Parser) (w : Bytes)
    → ((q : Parser) (c : ℕ) → c ≢ end → switch env s q c ≡ keep c q)
    → p.state ≡ s
    → p.oldstate ≡ s
    → All (IsText end) w
    → length p.out + length w < 2000
    → parse_loop env p w ≡ some (record p { out = p.out ++ w }, [])
unfolding parse_loop keep put
keep_run env s end p [] keeps e f text short = rw (append-nil p.out)
keep_run env s end p (c ∷ w) keeps e f text short =
    let q : Parser = record p { out = p.out ++ c ∷ [] } in
    let longer = length-append p.out (c ∷ []) in
    let first : round env p c ≡ some (q, []) =
      round_in env p q s c e f text.0.1 text.0.2 (keeps p c text.0.0 ∙ ground arith)
        (omega arith) in
    rw (first, keep_run env s end q w keeps e f text.1 (omega arith)) (simp append_assoc)

-- A text that is kept until its end, and goes decoded where `store` puts it.
pub until_run :
    (env : Env) (s : State) (end : ℕ) (store : Bytes → Parser → Parser) (p : Parser) (w : Bytes)
    → ((q : Parser) (c : ℕ) → switch env s q c ≡ step_until env end store q c)
    → p.state ≡ s
    → p.oldstate ≡ s
    → (end ≢ 13) × (end ≢ 10)
    → All (IsText end) w
    → All (λ c. c ≢ 0) p.out
    → length p.out + length w < 2000
    → length (env.decode (p.out ++ w)) ≤ length (p.out ++ w)
    → ((text : Bytes) (q : Parser) → length (store text q).out ≤ length q.out)
    → parse_loop env p (w ++ end ∷ [])
      ≡ some (store (env.decode (p.out ++ w)) (record p { out = p.out ++ w }), [])
unfolding parse_loop step_until decode_into close keep
until_run env s end store p w untils e f line text zeros short shrinks stores =
    let q : Parser = record p { out = p.out ++ w } in
    let longer = length-append p.out w in
    let keeps : (q : Parser) (c : ℕ) → c ≢ end → switch env s q c ≡ keep c q =
      λ q c ne. untils q c ∙ ground arith in
    let whole : c_string (p.out ++ w) ≡ p.out ++ w = c_string-all (p.out ++ w) (
      All-append (λ c. c ≢ 0) p.out w zeros
        (All-map (IsText end) (λ c. c ≢ 0) w (λ c h. h.3) text)) in
    let last : round env q end ≡ some (store (env.decode (p.out ++ w)) q, []) =
      round_in env q (store (env.decode (p.out ++ w)) q) s end e f line.0 line.1
        (untils q end ∙ ground (arith, whole))
        (omega (arith, stores (env.decode (p.out ++ w)) q)) in
    Runs-append env p q (store (env.decode (p.out ++ w)) q) w (end ∷ []) [] []
      (keep_run env s end p w keeps e f text short) (rw last)

-- The string is found at the last byte of a text, and not before; the ends of lines are passed over.
unfoldable pub sought : Bytes → ℕ → Bytes → Bool
unfolding watchfor
sought string k [] = false
sought string k (c ∷ w) =
    if c == 13 || c == 10 then sought string k w else elim (watchfor string c k) [
      | none ↦ false
      | some (found, k') ↦ if found then length w == 0 else sought string k' w
    ]

watchfor-zero : (string : Bytes) (c k j : ℕ) → watchfor string c k ≡ some (true, j) → j ≡ 0
unfolding watchfor
watchfor-zero string c k j h = ground arith

pub empty : (w : Bytes) → (length w == 0) ≡ true → w ≡ []
empty [] h = refl
empty (c ∷ w) h = ground arith

-- A string is waited for until its last byte.
pub seek_run :
    (env : Env) (s r : State) (string out : Bytes) (p : Parser) (w : Bytes)
    → ((q : Parser) (c : ℕ) → switch env s q c ≡ step_watch string r out q c)
    → p.state ≡ s
    → p.oldstate ≡ s
    → length p.out < 2000
    → length out < 2000
    → sought string p.j w ≡ true
    → parse_loop env p w ≡ some (record p { j = 0; out = out; state = r }, [])
unfolding parse_loop sought step_watch
seek_run env s r string out p [] watches e f short k h = cc
seek_run env s r string out p (c ∷ w) watches e f short k h =
    elim (Bool-cases (c == 13 || c == 10)) [
      | inl line ↦
          let first : round env p c ≡ some (p, []) = unfold round in rw (line, sync_same p s e f) in
          rw (first, seek_run env s r string out p w watches e f short k (ground (arith, line)))
      | inr line ↦ elim (Option-cases (watchfor string c p.j)) [
        | inl watched ↦ ground arith
        | inr ((found, j), watched) ↦ elim (Bool-cases found) [
          | inl is_found ↦
              let q : Parser = record p { j = 0; out = out; state = r } in
              let zero_at : j ≡ 0 = watchfor-zero string c p.j j (watched ∙ rw is_found) in
              let first : round env p c ≡ some (q, []) =
                round_in env p q s c e f (ground arith) (ground arith)
                  (watches p c ∙ rw (watched, is_found, zero_at)) k in
              let ended : w ≡ [] = empty w (ground (arith, line, watched, is_found)) in
              rw (ended, first)
          | inr missed ↦
              let q : Parser = record p { j = j } in
              let first : round env p c ≡ some (q, []) =
                round_in env p q s c e f (ground arith) (ground arith)
                  (watches p c ∙ rw (watched, missed)) short in
              rw (
                first,
                seek_run env s r string out q w watches e f short k
                    (ground (arith, line, watched, missed)),
              )
        ]
      ]
    ]

-- What is left of a tag is passed over up to its end.
pub name_run :
    (env : Env) (p : Parser) (w : Bytes)
    → p.state ≡ looking_for_username
    → p.oldstate ≡ looking_for_username
    → length p.out < 2000
    → All (λ c. c ≢ b'>') w
    → parse_loop env p (w ++ b'>' ∷ []) ≡ some (record p { out = []; state = in_username }, [])
unfolding parse_loop switch step_before_username
name_run env p [] e f short h = rw (
    round_in env p (record p { out = []; state = in_username }) looking_for_username b'>' e f
      (λ x. omega arith) (λ x. omega arith) refl (omega arith))
name_run env p (c ∷ w) e f short h = elim (Bool-cases (c == 13 || c == 10)) [
  | inl line ↦
      let first : round env p c ≡ some (p, []) =
        unfold round in rw (line, sync_same p looking_for_username e f) in
      rw (first, name_run env p w e f short h.1)
  | inr line ↦
      let first : round env p c ≡ some (p, []) =
        round_in env p p looking_for_username c e f (ground arith) (ground arith)
          (ground (arith, h.0)) short in
      rw (first, name_run env p w e f short h.1)
]

-- The bytes of an id, one after the other in the array.
unfoldable pub stored : Bytes → ℕ → Bytes → Bytes
stored msgid j [] = msgid
stored msgid j (c ∷ w) = stored (set msgid j c) (j + 1) w

pub id_run :
    (env : Env) (p : Parser) (w : Bytes)
    → p.state ≡ in_msg_id
    → p.oldstate ≡ in_msg_id
    → length p.out < 2000
    → length p.msgid ≡ 30
    → All (IsText b'"') w
    → p.j + length w ≤ 20
    → parse_loop env p w ≡ some (record p { msgid = stored p.msgid p.j w; j = p.j + length w }, [])
unfolding parse_loop switch step_msg_id stored
id_run env p [] e f short size text fits = ground arith
id_run env p (c ∷ w) e f short size text fits =
    let q : Parser = record p { msgid = set p.msgid p.j c; j = p.j + 1 } in
    let first : round env p c ≡ some (q, []) =
      round_in env p q in_msg_id c e f text.0.1 text.0.2
        (ground (arith, text.0.0, write-set p.msgid p.j c)) short in
    rw (first, id_run env q w e f short (length-set p.msgid p.j c ∙ size) text.1 (omega arith))
      (ground arith)
