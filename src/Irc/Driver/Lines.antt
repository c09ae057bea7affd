-- ===== src/Irc/Driver/Lines.antt =====
-- From the bytes that the client's socket gives to the lines that `parse_buffer` gets.
use minichatclient.Base.{
  ℕ, ◌+◌, ◌≡◌, ◌≢◌, ◌<◌, ◌≤◌, refl, ap, ◌∙◌, ◌⊎◌, inl, inr, [], ◌∷◌, ◌++◌, none, some, arith, Bytes,
  ltb, All, Option-cases, Bool-cases, codes, ◌>>=◌, length, length-append, c_string, append_assoc,
  append-nil,
}
use minichatclient.Irc.Split.{split}
use minichatclient.Irc.Server.{in_channel}
use minichatclient.Irc.Handlers.{Env, Reply, arg2}
use minichatclient.Irc.Commands.{parse_buffer}
use minichatclient.Irc.Commands.Gate.{parse_buffer-undefined}
use minichatclient.Irc.Driver.{Turn, remember, linebuffer_size, end_line, feed_byte, feed}

-- However the network cuts the client's bytes, the lines that come of them are the same: two pieces
-- are read like the one text that they make.
pub feed-append :
    (env : Env) (a b : Bytes) (t : Turn) → feed env (a ++ b) t ≡ (feed env a t >>= feed env b)
unfolding feed
feed-append env [] b t = refl
feed-append env (c ∷ a) b t = elim (Option-cases (feed_byte env c t)) [
  | inl e ↦ ground arith
  | inr (t', e) ↦ ground (arith, feed-append env a b t')
]

-- A byte of a line.
abbrev pub IsPlain : ℕ → Type 0
IsPlain c = (c ≢ b'\r') × (c ≢ b'\n') × (c ≢ 0)

-- Bytes without a line end only get longer, as far as the buffer goes.
feed-plain :
    (env : Env) (s : Bytes) (t : Turn)
    → All IsPlain s
    → length t.line + length s ≤ linebuffer_size
    → feed env s t ≡ some (record t { line = t.line ++ s })
unfolding feed feed_byte
feed-plain env [] t h k = ground (arith, append-nil t.line)
feed-plain env (c ∷ s) t h k = ground (
  arith,
  feed-plain env s (record t { line = t.line ++ c ∷ [] }) h.1,
  length-append t.line (c ∷ []),
  append_assoc t.line (c ∷ []) s,
)

c_string-plain : (s : Bytes) → All IsPlain s → c_string s ≡ s
unfolding c_string
c_string-plain [] h = refl
c_string-plain (c ∷ s) h = ground (arith, c_string-plain s)

-- A line of at most 1999 plain bytes, with CR LF behind it and at the start of a line, is parsed
-- once, as it was sent, and what it returns is remembered as what the client said.
pub feed-line :
    (env : Env) (s : Bytes) (t : Turn) (r : Reply)
    → All IsPlain s
    → length s < linebuffer_size
    → t.line ≡ []
    → parse_buffer env t.irc s ≡ some r
    → feed env (s ++ b'\r' ∷ b'\n' ∷ []) t
      ≡ some (record {
        irc = remember r.returned r.after;
        line = [];
        ret = r.returned;
        outputs = t.outputs ++ r.outputs;
      })
unfolding feed feed_byte end_line
feed-line env s t r h k start runs =
    ground
      (arith, feed-append env s (b'\r' ∷ b'\n' ∷ []) t, feed-plain env s t h, c_string-plain s h)

-- Two lines that come in one piece are both parsed, in order, but only what the second returns is
-- left to be posted in the chat: what the first returned is merely remembered.
pub feed-two_lines :
    (env : Env) (s s2 : Bytes) (t : Turn) (r r2 : Reply)
    → All IsPlain s
    → All IsPlain s2
    → length s < linebuffer_size
    → length s2 < linebuffer_size
    → t.line ≡ []
    → parse_buffer env t.irc s ≡ some r
    → parse_buffer env (remember r.returned r.after) s2 ≡ some r2
    → feed env ((s ++ b'\r' ∷ b'\n' ∷ []) ++ (s2 ++ b'\r' ∷ b'\n' ∷ [])) t
      ≡ some (record {
        irc = remember r2.returned r2.after;
        line = [];
        ret = r2.returned;
        outputs = (t.outputs ++ r.outputs) ++ r2.outputs;
      })
feed-two_lines env s s2 t r r2 h h2 k k2 start runs runs2 =
    let t' : Turn = record {
      irc = remember r.returned r.after;
      line = [];
      ret = r.returned;
      outputs = t.outputs ++ r.outputs;
    } in
    feed-append env (s ++ b'\r' ∷ b'\n' ∷ []) (s2 ++ b'\r' ∷ b'\n' ∷ []) t
    ∙ rw (feed-line env s t r h k start runs) (feed-line env s2 t' r2 h2 k2 refl runs2)

-- Bytes without a line end that fill the buffer.
feed-full :
    (env : Env) (s : Bytes) (t : Turn)
    → All IsPlain s
    → length t.line ≤ linebuffer_size
    → linebuffer_size ≤ length t.line + length s
    → (u : Bytes) × (feed env s t ≡ some (record t { line = u })) × (length u ≡ linebuffer_size)
unfolding feed feed_byte
feed-full env [] t h k m = (t.line, refl, omega arith)
feed-full env (c ∷ s) t h k m = elim (Bool-cases (ltb (length t.line) linebuffer_size)) [
  | inl e ↦
      let longer = length-append t.line (c ∷ []) in
      let (u, fed, l) =
        feed-full env s (record t { line = t.line ++ c ∷ [] }) h.1 (ground arith) (ground arith) in
      (u, ground arith, l)
  | inr e ↦ let (u, fed, l) = feed-full env s t h.1 k (ground arith) in (u, ground arith, l)
]

-- A line of 2000 plain bytes or more makes the server write outside of its buffer: the guard of the
-- bytes lets them fill it, and the terminating zero has no room left.
pub feed-overflow :
    (env : Env) (s : Bytes) (t : Turn)
    → All IsPlain s
    → length t.line ≤ linebuffer_size
    → linebuffer_size ≤ length t.line + length s
    → feed env (s ++ b'\n' ∷ []) t ≡ none
unfolding feed feed_byte end_line
feed-overflow env s t h k m =
    let (u, e, l) = feed-full env s t h k m in ground (arith, feed-append env s (b'\n' ∷ []) t)

-- The two ways in which the end of a line goes wrong.
abbrev pub EndsBadly : Turn → Type 0
EndsBadly t =
    (linebuffer_size ≤ length t.line)
    ⊎ ((t.irc.clientstate ≡ in_channel)
        × (arg2 (split (c_string t.line)) ≡ some (1 ∷ codes "ACTION")))

-- A line end among the bytes, where what stands before it led to a turn that it ends badly.
pub record Fault (env : Env) (bytes : Bytes) (t : Turn) : Type 0 where
  pub before : Bytes
  pub behind : Bytes
  pub turn : Turn
  pub cut : bytes ≡ before ++ b'\n' ∷ behind
  pub leads : feed env before t ≡ some turn
  pub fault : EndsBadly turn

feed_byte-none :
    (env : Env) (c : ℕ) (t : Turn) → feed_byte env c t ≡ none → (c ≡ b'\n') × EndsBadly t
unfolding feed_byte end_line
feed_byte-none env c t n = ground (arith, parse_buffer-undefined env t.irc (c_string t.line))

-- Bytes that the server does not survive have a line end at which the buffer is full, or at which
-- a client in the channel has sent the bare mark of an action. All other bytes are read to the end.
pub feed-Fault :
    (env : Env) (bytes : Bytes) (t : Turn) → feed env bytes t ≡ none → Fault env bytes t
unfolding feed
feed-Fault env [] t n = ground arith
feed-Fault env (c ∷ bytes) t n = elim (Option-cases (feed_byte env c t)) [
  | inl e ↦
      let (nl, bad) = feed_byte-none env c t e in
      record { before = []; behind = bytes; turn = t; cut = cc; leads = refl; fault = bad }
  | inr (t', e) ↦
      let f = feed-Fault env bytes t' (ground arith) in
      record {
        before = c ∷ f.before;
        behind = f.behind;
        turn = f.turn;
        cut = ap (◌∷◌ c) f.cut;
        leads = ground (arith, f.leads);
        fault = f.fault;
      }
]
