-- ===== src/Irc/Driver.antt =====
-- ircserver.c: `irc_init`, `irc_destroy` and `irc_driver`, which main.c calls at each turn: a new
-- client, the bytes that have come, and the automatic JOIN. `none` is a write outside of the line
-- buffer, or what `parse_buffer` leaves open.
mod Tests
pub mod Lines
pub mod Runs
use minichatclient.Base.{
  ℕ, zero, suc, ◌+◌, Bool, true, false, ◌&&◌, ◌||◌, not, List, [], ◌∷◌, ◌++◌, Option, none, some,
  Bytes, ◌==◌, leb, ltb, if◌then◌else◌, codes, ◌>>=◌, is_some, length, c_string,
}
use minichatclient.Irc.Server.{
  Irc, Output, closed_client, closed_server, ClientState, disconnected, connected, identified,
  in_channel, is_online, is_identified, from_nobody,
}
use minichatclient.Irc.Handlers.{Env, Reply, channel_lines}
use minichatclient.Irc.Commands.{parse_buffer}

-- `memset(&irc, 0, sizeof(irc))`; `topic_changed` is no part of it.
abbrev pub cleared : Bool → Irc
cleared topic_changed = record {
  has_sfd = false;
  has_cfd = false;
  fakehost = none;
  channel_name = none;
  forum_username = none;
  client_nickname = none;
  client_ident = none;
  last_topic_know = none;
  last_thing_i_said = none;
  topic_reporting_mode = 0;
  report_away_to_client = false;
  autorejoin = 0;
  clientstate = disconnected;
  topic_changed = topic_changed;
}

-- `!s || !s[0]`
abbrev pub is_blank : Option Bytes → Bool
is_blank none = true
is_blank (some []) = true
is_blank (some (c ∷ s)) = false

-- `listens` says that `irc_listen` gave a socket; the state tells whether the server runs.
unfoldable pub irc_init : Bool → Option Bytes → Option Bytes → Option Bytes → Irc → Irc
irc_init listens fakehost channel_name forum_username irc =
    let fresh : Irc = record (cleared irc.topic_changed) { topic_reporting_mode = 1 } in
    if is_blank channel_name || is_blank forum_username || is_blank fakehost || not listens
    then fresh
    else record fresh {
      has_sfd = true;
      channel_name = channel_name;
      forum_username = forum_username;
      fakehost = fakehost;
    }

unfoldable pub irc_destroy : Irc → Irc × List Output
irc_destroy irc = (
  cleared irc.topic_changed,
  (if is_online irc.clientstate
        then from_nobody 2 "ERROR"
            (some (codes "Closing Link: MiniChatClient is exiting, bye bye !") ∷ [])
          ∷ []
        else [])
      ++ (if irc.has_cfd then closed_client ∷ [] else [])
      ++ (if irc.has_sfd then closed_server ∷ [] else []),
)

-- `sizeof(linebuffer)`
abbrev pub linebuffer_size : ℕ
linebuffer_size = 2000

-- The state, the first `o` bytes of `linebuffer`, `ret`, and what was sent in this call. The string
-- that `ret` points to lies in `linebuffer`: it is the one that was found, and where `line` is not
-- empty, these bytes have been written over the start of the buffer since.
pub record Turn : Type 0 where
  pub irc : Irc
  pub line : Bytes
  pub ret : Option Bytes
  pub outputs : List Output

abbrev pub remember : Option Bytes → Irc → Irc
remember none irc = irc
remember (some said) irc = record irc { last_thing_i_said = some said }

-- `linebuffer[o] = '\0'` and what follows it.
unfoldable pub end_line : Env → Turn → Option Turn
end_line env t =
    if ltb (length t.line) linebuffer_size
    then (do
      r ← parse_buffer env t.irc (c_string t.line)
      some (record {
        irc = remember r.returned r.after;
        line = [];
        ret = r.returned;
        outputs = t.outputs ++ r.outputs;
      }))
    else none

unfoldable pub feed_byte : Env → ℕ → Turn → Option Turn
unfolding end_line
feed_byte env c t =
    if c == b'\r'
    then some t
    else if c == b'\n'
    then end_line env t
    else if ltb (length t.line) linebuffer_size
    then some (record t { line = t.line ++ c ∷ [] })
    else some t

-- The loop over the bytes of one `recv`.
unfoldable pub feed : Env → Bytes → Turn → Option Turn
unfolding feed_byte
feed env [] t = some t
feed env (c ∷ bytes) t = do t' ← feed_byte env c t; feed env bytes t'

-- A new client throws an old one out.
unfoldable pub accept_client : Turn → Turn
accept_client t = record {
  irc = record t.irc {
    has_cfd = true;
    client_nickname = none;
    client_ident = none;
    clientstate = connected;
  };
  line = [];
  ret = t.ret;
  outputs =
      t.outputs
      ++ (if t.irc.has_cfd
          then from_nobody 2 "ERROR"
              (some (codes "Closing Link: Another incomming connection, ghosting that one...") ∷ [])
            ∷ closed_client
            ∷ []
          else []);
}

-- Behind the bytes: the automatic JOIN, five seconds after the registration.
unfoldable pub rejoin : Env → Turn → Turn
rejoin env t =
    if not (t.irc.autorejoin == 0) && leb t.irc.autorejoin env.now
    then (if is_identified t.irc.clientstate && is_some t.irc.channel_name
        then record t {
          irc = record t.irc { clientstate = in_channel; autorejoin = 0 };
          outputs = t.outputs ++ channel_lines env t.irc;
        }
        else record t { irc = record t.irc { autorejoin = 0 } })
    else t

-- What `recv` gives: nothing yet, the end, or bytes, 500 at most.
pub data Received : Type 0 where
  would_block : Received
  ended : Received
  received : Bytes → Received

unfoldable pub receive : Env → Received → Turn → Option Turn
unfolding feed rejoin
receive env would_block t = some (rejoin env t)
receive env ended t = some (record t {
  irc = record t.irc { has_cfd = false; clientstate = disconnected };
  outputs = t.outputs ++ closed_client ∷ [];
})
receive env (received bytes) t = do t' ← feed env bytes t; some (rejoin env t')

-- One call, from the state and the line that the last one left.
unfoldable pub irc_driver : Env → Bool → Received → Irc → Bytes → Option Turn
unfolding receive accept_client
irc_driver env newcfd recv irc line =
    let t : Turn = record { irc = irc; line = line; ret = none; outputs = [] } in
    if not irc.has_sfd
    then some t
    else (let t' : Turn = if newcfd then accept_client t else t in
        if is_online t'.irc.clientstate then receive env recv t' else some t')
