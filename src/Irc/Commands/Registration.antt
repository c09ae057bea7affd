-- ===== src/Irc/Commands/Registration.antt =====
-- The client's state under the commands: which changes there are, and what a registered client has.
use minichatclient.Base.{
  ◌≡◌, Bool, true, false, List, [], ◌∷◌, Option, none, some, arith, Bytes, if◌then◌else◌, is_some,
}
use minichatclient.Irc.Split.{split}
use minichatclient.Irc.Server.{
  Irc, Output, ClientState, disconnected, connected, identified, in_channel,
}
use minichatclient.Irc.Handlers.{
  Env, Reply, quietly, on_user, on_nick, on_privmsg, on_join, on_whois, on_part, on_away, on_quit,
  arg1, arg2,
}
use minichatclient.Irc.Commands.{
  is_unregistered, not_registered, registered_command, run_command, parse_buffer,
}

-- What the server knows of a client in each state.
abbrev pub Known : ClientState → Irc → Type 0
Known disconnected irc = irc.has_cfd ≡ false
Known connected irc = irc.has_cfd ≡ true
Known identified irc =
    (irc.has_cfd ≡ true) × (is_some irc.client_nickname ≡ true) × (is_some irc.client_ident ≡ true)
Known in_channel irc =
    (irc.has_cfd ≡ true) × (is_some irc.client_nickname ≡ true) × (is_some irc.client_ident ≡ true)

-- The client socket is open exactly while a client is there, and a client that is identified, in
-- the channel or not, has a nickname and an ident.
abbrev pub IsValid : Irc → Type 0
IsValid irc = Known irc.clientstate irc

-- The changes of state that a command can make: none, the end of the registration, into the
-- channel and out of it, and a registered client's QUIT.
abbrev pub allowed : ClientState → ClientState → Bool
allowed connected identified = true
allowed identified in_channel = true
allowed in_channel identified = true
allowed identified disconnected = true
allowed in_channel disconnected = true
allowed disconnected disconnected = true
allowed connected connected = true
allowed identified identified = true
allowed in_channel in_channel = true
allowed _ _ = false

-- What the start of the server set is as it was.
abbrev pub Fixed : Irc → Irc → Type 0
Fixed irc after =
    (after.has_sfd ≡ irc.has_sfd)
    × (after.fakehost ≡ irc.fakehost)
    × (after.channel_name ≡ irc.channel_name)
    × (after.forum_username ≡ irc.forum_username)

-- A valid state after a move that is allowed, with the same settings.
unfoldable pub Moves : Irc → Option Reply → Type 0
Moves irc none = Unit
Moves irc (some r) =
    IsValid r.after × (allowed irc.clientstate r.after.clientstate ≡ true) × Fixed irc r.after

if-Moves :
    (irc : Irc) (b : Bool) (x y : Option Reply)
    → Moves irc x
    → Moves irc y
    → Moves irc (if b then x else y)
unfolding Moves
if-Moves irc true x y h k = h
if-Moves irc false x y h k = k

quietly-Moves :
    (irc : Irc) (outputs : List Output) → IsValid irc → Moves irc (some (quietly irc outputs))
unfolding Moves
quietly-Moves irc outputs v = ground arith

module _ (env : Env) (irc : Irc) (v : IsValid irc) where
  on_user-Moves : (a : Option Bytes) → Moves irc (some (on_user env irc a))
  unfolding Moves on_user
  on_user-Moves a = ground arith

  on_nick-Moves : (a : Option Bytes) → Moves irc (some (on_nick env irc a))
  unfolding Moves on_nick
  on_nick-Moves a = ground arith

  on_privmsg-Moves : (a b : Option Bytes) → Moves irc (on_privmsg irc a b)
  unfolding Moves on_privmsg
  on_privmsg-Moves a none = ground arith
  on_privmsg-Moves a (some text) = ground arith

  on_join-Moves : (a : Option Bytes) → Moves irc (some (on_join env irc a))
  unfolding Moves on_join
  on_join-Moves a = ground arith

  on_part-Moves : (a : Option Bytes) → Moves irc (some (on_part irc a))
  unfolding Moves on_part
  on_part-Moves a = ground arith

  on_whois-Moves : (a b : Option Bytes) → Moves irc (some (on_whois env irc a b))
  unfolding Moves on_whois
  on_whois-Moves none b = ground arith
  on_whois-Moves (some a) none = ground arith
  on_whois-Moves (some a) (some b) = ground arith

  on_away-Moves : (a : Option Bytes) → Moves irc (some (on_away irc a))
  unfolding Moves on_away
  on_away-Moves none = ground arith
  on_away-Moves (some a) = ground arith

  on_quit-Moves : is_unregistered irc.clientstate ≡ false → Moves irc (some (on_quit irc))
  unfolding Moves on_quit
  on_quit-Moves h = ground arith

  registered_command-Moves :
      (command : Bytes) (args : List Bytes)
      → is_unregistered irc.clientstate ≡ false
      → Moves irc (registered_command env irc command args)
  unfolding Moves registered_command
  registered_command-Moves command args h = ground (
    arith,
    on_privmsg-Moves (arg1 args) (arg2 args),
    on_join-Moves (arg1 args),
    on_whois-Moves (arg1 args) (arg2 args),
    on_part-Moves (arg1 args),
    on_away-Moves (arg1 args),
    on_quit-Moves h,
  )

  run_command-Moves : (args : List Bytes) → Moves irc (run_command env irc args)
  unfolding run_command
  run_command-Moves [] = quietly-Moves irc [] v
  run_command-Moves (command ∷ args) = ground (
    arith,
    on_user-Moves (arg1 (command ∷ args)),
    on_nick-Moves (arg1 (command ∷ args)),
    registered_command-Moves command (command ∷ args),
    quietly-Moves irc (not_registered command ∷ []),
  )

  -- Whatever line the client sends, a valid state stays valid: a client that is identified has a
  -- nickname and an ident, and the socket is open exactly while a client is there. And of the
  -- changes of state only those of `allowed` occur: no client is in the channel that has not
  -- registered. The names of the host, the channel and the forum's user stay.
  -- A line without a definite outcome is left out.
  pub parse_buffer-Moves : (line : Bytes) → Moves irc (parse_buffer env irc line)
  unfolding parse_buffer
  parse_buffer-Moves line = run_command-Moves (split line)
