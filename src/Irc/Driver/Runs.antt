-- ===== src/Irc/Driver/Runs.antt =====
-- The server from its start on: the states that it can reach.
use minichatclient.Base.{
  ℕ, ◌≡◌, ◌≤◌, inl, inr, Bool, true, false, ◌&&◌, ◌||◌, not, List, [], ◌∷◌, Option, none, some,
  arith, Bytes, Option-cases, is_some, length, length-append, c_string,
}
use minichatclient.Irc.Server.{
  Irc, Output, is_online, irc_set_report_away, irc_set_topic_mode, irc_topic,
  irc_topic_mode3_showtime, irc_will_reprint_my_message,
}
use minichatclient.Irc.Server.Echo.{irc_message-once}
use minichatclient.Irc.Server.Reports.{Report, joins, parts, says, topic, showtime, reprint, report}
use minichatclient.Irc.Handlers.{Env}
use minichatclient.Irc.Commands.{parse_buffer}
use minichatclient.Irc.Commands.Registration.{IsValid, Moves, parse_buffer-Moves}
use minichatclient.Irc.Driver.{
  cleared, irc_init, irc_destroy, Turn, linebuffer_size, end_line, feed_byte, feed, accept_client,
  rejoin, Received, would_block, ended, received, receive, irc_driver,
}

-- A client is only there while the server listens, and then the host, the channel and the forum's
-- user have their names.
abbrev pub IsEquipped : Irc → Type 0
IsEquipped irc =
    ((not (is_online irc.clientstate) || irc.has_sfd) ≡ true)
    × ((not irc.has_sfd
          || is_some irc.fakehost && is_some irc.channel_name && is_some irc.forum_username)
        ≡ true)

-- What holds of the state and of the line in the buffer.
abbrev pub IsReady : Irc → Bytes → Type 0
IsReady irc line = IsValid irc × IsEquipped irc × (length line ≤ linebuffer_size)

unfoldable pub TurnIsReady : Option Turn → Type 0
TurnIsReady none = Unit
TurnIsReady (some t) = IsReady t.irc t.line × (t.irc.has_sfd ≡ true)

end_line-IsReady :
    (env : Env) (t : Turn)
    → IsReady t.irc t.line
    → t.irc.has_sfd ≡ true
    → TurnIsReady (end_line env t)
unfolding TurnIsReady end_line Moves
end_line-IsReady env t h on = elim (Option-cases (parse_buffer env t.irc (c_string t.line))) [
  | inl e ↦ ground arith
  | inr (r, e) ↦ ground (arith, parse_buffer-Moves env t.irc h.0 (c_string t.line))
]

feed_byte-IsReady :
    (env : Env) (c : ℕ) (t : Turn)
    → IsReady t.irc t.line
    → t.irc.has_sfd ≡ true
    → TurnIsReady (feed_byte env c t)
unfolding TurnIsReady feed_byte
feed_byte-IsReady env c t h on =
    ground (arith, end_line-IsReady env t, length-append t.line (c ∷ []))

feed-IsReady :
    (env : Env) (bytes : Bytes) (t : Turn)
    → IsReady t.irc t.line
    → t.irc.has_sfd ≡ true
    → TurnIsReady (feed env bytes t)
unfolding TurnIsReady feed
feed-IsReady env [] t h on = (h, on)
feed-IsReady env (c ∷ bytes) t h on = elim (Option-cases (feed_byte env c t)) [
  | inl e ↦ ground arith
  | inr (t', e) ↦ ground (arith, feed_byte-IsReady env c t, feed-IsReady env bytes t')
]

rejoin-IsReady :
    (env : Env) (t : Turn)
    → IsReady t.irc t.line
    → t.irc.has_sfd ≡ true
    → TurnIsReady (some (rejoin env t))
unfolding TurnIsReady rejoin
rejoin-IsReady env t h on = ground arith

receive-IsReady :
    (env : Env) (recv : Received) (t : Turn)
    → IsReady t.irc t.line
    → t.irc.has_sfd ≡ true
    → TurnIsReady (receive env recv t)
unfolding receive
receive-IsReady env would_block t h on = rejoin-IsReady env t h on
receive-IsReady env ended t h on = unfold TurnIsReady in ground arith
receive-IsReady env (received bytes) t h on = elim (Option-cases (feed env bytes t)) [
  | inl e ↦ unfold TurnIsReady in ground arith
  | inr (t', e) ↦
      unfold TurnIsReady in ground (arith, feed-IsReady env bytes t, rejoin-IsReady env t')
]

accept-IsReady :
    (t : Turn) → IsReady t.irc t.line → t.irc.has_sfd ≡ true → TurnIsReady (some (accept_client t))
unfolding TurnIsReady accept_client
accept-IsReady t h on = ground arith

driver-IsReady :
    (env : Env) (newcfd : Bool) (recv : Received) (irc : Irc) (line : Bytes) (t : Turn)
    → IsReady irc line
    → irc_driver env newcfd recv irc line ≡ some t
    → IsReady t.irc t.line
unfolding irc_driver
driver-IsReady env newcfd recv irc line t h runs =
    let t0 : Turn = record { irc = irc; line = line; ret = none; outputs = [] } in
    unfold TurnIsReady in
    ground (
      arith,
      accept-IsReady t0,
      receive-IsReady env recv (accept_client t0),
      receive-IsReady env recv t0,
    )

report-IsReady :
    (r : Report) (irc irc' : Irc) (line : Bytes) (outputs : List Output)
    → IsReady irc line
    → report r irc ≡ some (irc', outputs)
    → IsReady irc' line
unfolding report irc_topic irc_topic_mode3_showtime irc_will_reprint_my_message
report-IsReady (joins nickname ident) irc irc' line outputs h runs = ground arith
report-IsReady (parts nickname ident partmsg) irc irc' line outputs h runs = ground arith
report-IsReady (says nickname ident message) irc irc' line outputs h runs =
    ground (arith, irc_message-once irc nickname ident message)
report-IsReady (topic t) irc irc' line outputs h runs = ground arith
report-IsReady showtime irc irc' line outputs h runs = ground arith
report-IsReady reprint irc irc' line outputs h runs = ground arith

-- One call from outside, on the state and on the line that is begun in the buffer.
pub data Step : Irc → Bytes → Irc → Bytes → Type 0 where
  starts :
      (listens : Bool) (fakehost channel_name forum_username : Option Bytes) (irc : Irc)
      (line : Bytes)
      → Step irc line (irc_init listens fakehost channel_name forum_username irc) line
  stops : (irc : Irc) (line : Bytes) → Step irc line (irc_destroy irc).0 line
  drives :
      (env : Env) (newcfd : Bool) (recv : Received) (irc : Irc) (line : Bytes) (t : Turn)
      → irc_driver env newcfd recv irc line ≡ some t
      → Step irc line t.irc t.line
  reports :
      (r : Report) (irc irc' : Irc) (line : Bytes) (outputs : List Output)
      → report r irc ≡ some (irc', outputs)
      → Step irc line irc' line
  reports_away :
      (value : Bool) (irc : Irc) (line : Bytes) → Step irc line (irc_set_report_away value irc) line
  sets_topic_mode :
      (mode : ℕ) (irc : Irc) (line : Bytes) → Step irc line (irc_set_topic_mode mode irc) line

-- From the program's start, where all is zero.
pub data IsReachable : Irc → Bytes → Type 0 where
  at_first : IsReachable (cleared false) []
  after :
      (irc irc' : Irc) (line line' : Bytes)
      → IsReachable irc line
      → Step irc line irc' line'
      → IsReachable irc' line'

Step-IsReady :
    (irc irc' : Irc) (line line' : Bytes)
    → Step irc line irc' line'
    → IsReady irc line
    → IsReady irc' line'
unfolding irc_init irc_destroy irc_set_report_away irc_set_topic_mode
Step-IsReady irc irc' line line' (starts listens f c u irc0 line0) h = ground arith
Step-IsReady irc irc' line line' (stops irc0 line0) h = ground arith
Step-IsReady irc irc' line line' (drives env newcfd recv irc0 line0 t runs) h =
    driver-IsReady env newcfd recv irc0 line0 t h runs
Step-IsReady irc irc' line line' (reports r irc0 irc1 line0 outputs runs) h =
    report-IsReady r irc0 irc1 line0 outputs h runs
Step-IsReady irc irc' line line' (reports_away value irc0 line0) h = ground arith
Step-IsReady irc irc' line line' (sets_topic_mode mode irc0 line0) h = ground arith

-- In every state that the server can reach, by starts and stops, connections, bytes of the client
-- and reports of the chat in any order, the client socket is open exactly while a client is there,
-- a client that is identified has a nickname and an ident, the server listens while a client is
-- there and then has the names of its host, its channel and the forum's user, and the line that is
-- begun fits its buffer.
pub IsReachable-IsReady : (irc : Irc) (line : Bytes) → IsReachable irc line → IsReady irc line
IsReachable-IsReady irc line at_first = ground arith
IsReachable-IsReady irc line (after irc0 irc1 line0 line1 before step) =
    Step-IsReady irc0 irc1 line0 line1 step (IsReachable-IsReady irc0 line0 before)
