-- ===== src/Html/Idle.antt =====
-- parsehtml.c: runs in the state READY, over what lies between the parts of a page that matter.
use minichatclient.Base.{
  ℕ, ◌<◌, ◌≡◌, ap, Bool, false, ◌||◌, [], ◌∷◌, Option, none, some, Bytes, length, ◌==◌,
  if◌then◌else◌, ◌>>=◌, arith, Option-cases, Bool-cases, inl, inr,
}
use minichatclient.Html.{Parser, Env, ready, watchfor, watchfor2}
use minichatclient.Html.Steps.{
  step_ready, mess_tag, stats_tag, twin_stats_tag, creation_time_tag, form_token_tag,
}
use minichatclient.Html.Page.{round, parse_loop, switch}
use minichatclient.Html.Reads.{sync_same, round_in}

-- The counters `j`, `l`, `m` and `n`.
abbrev pub Counters : Type 0
Counters = ℕ × ℕ × ℕ × ℕ

-- The counters behind one byte, where none of the strings ends.
unfoldable pub passes : Counters → ℕ → Option Counters
unfolding watchfor watchfor2
passes (j, l, m, n) c = do
  (mess, j) ← watchfor mess_tag c j
  (stats, l) ← watchfor2 stats_tag twin_stats_tag c l
  (time, m) ← watchfor creation_time_tag c m
  (token, n) ← watchfor form_token_tag c n
  if mess || stats || time || token then none else some (j, l, m, n)

-- The counters behind a text in which none of the strings ends.
unfoldable pub passed : Counters → Bytes → Option Counters
unfolding passes
passed k [] = some k
passed k (c ∷ w) = if c == 13 || c == 10 then passed k w else (do k' ← passes k c; passed k' w)

abbrev with_counters : Counters → Parser → Parser
with_counters (j, l, m, n) p = record p { j = j; l = l; m = m; n = n }

none_ends :
    (mess stats time token : Bool) (k k' : Counters)
    → (if mess || stats || time || token then none else some k) ≡ some k'
    → (mess ≡ false) × (stats ≡ false) × (time ≡ false) × (token ≡ false) × (k ≡ k')
none_ends mess stats time token k k' h = ground arith

step_ready-passes :
    (env : Env) (p : Parser) (c : ℕ) (k : Counters)
    → passes (p.j, p.l, p.m, p.n) c ≡ some k
    → step_ready p c ≡ some (with_counters k p, [])
unfolding step_ready passes
step_ready-passes env p c k h = elim (Option-cases (watchfor mess_tag c p.j)) [
  | inl a ↦ ground (arith)
  | inr ((mess, j), a) ↦ elim (Option-cases (watchfor2 stats_tag twin_stats_tag c p.l)) [
    | inl b ↦ ground (arith)
    | inr ((stats, l), b) ↦ elim (Option-cases (watchfor creation_time_tag c p.m)) [
      | inl d ↦ ground (arith)
      | inr ((time, m), d) ↦ elim (Option-cases (watchfor form_token_tag c p.n)) [
        | inl e ↦ ground (arith)
        | inr ((token, n), e) ↦
            let f = none_ends mess stats time token (j, l, m, n) k (rw (a, b, d, e) at h) in
            rw (a, b, d, e, f.0, f.1, f.2, f.3) (ap (λ k. some (with_counters k p, [])) f.4)
      ]
    ]
  ]
]

-- A text that is passed over between the parts of a page.
pub passed_run :
    (env : Env) (p : Parser) (w : Bytes) (k : Counters)
    → p.state ≡ ready
    → p.oldstate ≡ ready
    → length p.out < 2000
    → passed (p.j, p.l, p.m, p.n) w ≡ some k
    → parse_loop env p w ≡ some (with_counters k p, [])
unfolding parse_loop passed switch
passed_run env p [] k e f short h = ground arith
passed_run env p (c ∷ w) k e f short h = elim (Bool-cases (c == 13 || c == 10)) [
  | inl line ↦
      let first : round env p c ≡ some (p, []) = unfold round in rw (line, sync_same p ready e f) in
      rw (first, passed_run env p w k e f short (ground (arith, line)))
  | inr line ↦ elim (Option-cases (passes (p.j, p.l, p.m, p.n) c)) [
    | inl a ↦ ground arith
    | inr (k', a) ↦
        let q = with_counters k' p in
        let first : round env p c ≡ some (q, []) =
          round_in env p q ready c e f (ground arith) (ground arith)
            (step_ready-passes env p c k' a) short in
        rw (first, passed_run env q w k e f short (rw (line, a) at h))
  ]
]
