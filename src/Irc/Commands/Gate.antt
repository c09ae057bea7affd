-- ===== src/Irc/Commands/Gate.antt =====
-- What a line of the client can put into the chat, and which line has an outcome that depends on
-- what an earlier one left in the buffer.
use minichatclient.Base.{◌≡◌, true, List, [], ◌∷◌, Option, none, some, arith, Bytes, codes, drop}
use minichatclient.Text.Search.{starts_with}
use minichatclient.Irc.Split.{split}
use minichatclient.Irc.Server.{Irc, in_channel}
use minichatclient.Irc.Handlers.{
  Env, Reply, is_channel, on_user, on_nick, action_text, said_text, on_privmsg, on_join, on_whois,
  on_part, on_away, arg1, arg2,
}
use minichatclient.Irc.Commands.{registered_command, run_command, parse_buffer}

-- What comes of the arguments: a text only from the channel and to it, without any other effect,
-- and no definite outcome only for the bare mark of an action.
unfoldable pub Gated : Irc → List Bytes → Option Reply → Type 0
Gated irc args none = (irc.clientstate ≡ in_channel) × (arg2 args ≡ some (1 ∷ codes "ACTION"))
Gated irc args (some r) = elim r.returned [
  | none ↦ Unit
  | some said ↦
      (irc.clientstate ≡ in_channel)
      × (is_channel irc (arg1 args) ≡ true)
      × (r.after ≡ irc)
      × (r.outputs ≡ [])
]

action_text-none :
    (s : Bytes)
    → starts_with (1 ∷ []) s ≡ true
    → starts_with (codes "ACTION") (drop 1 s) ≡ true
    → action_text s ≡ none
    → s ≡ 1 ∷ codes "ACTION"
unfolding action_text starts_with
action_text-none s h k n = ground arith

said_text-none : (s : Bytes) → said_text s ≡ none → s ≡ 1 ∷ codes "ACTION"
unfolding said_text
said_text-none s n = ground (arith, action_text-none s)

module _ (env : Env) (irc : Irc) where
  on_privmsg-Gated : (args : List Bytes) → Gated irc args (on_privmsg irc (arg1 args) (arg2 args))
  unfolding on_privmsg Gated
  on_privmsg-Gated [] = ground arith
  on_privmsg-Gated (c ∷ []) = ground arith
  on_privmsg-Gated (c ∷ a ∷ []) = ground arith
  on_privmsg-Gated (c ∷ a ∷ text ∷ args) = ground (arith, said_text-none text)

  on_user-Gated : (args : List Bytes) (a : Option Bytes) → Gated irc args (some (on_user env irc a))
  unfolding on_user Gated
  on_user-Gated args a = ground arith

  on_nick-Gated : (args : List Bytes) (a : Option Bytes) → Gated irc args (some (on_nick env irc a))
  unfolding on_nick Gated
  on_nick-Gated args a = ground arith

  on_join-Gated : (args : List Bytes) (a : Option Bytes) → Gated irc args (some (on_join env irc a))
  unfolding on_join Gated
  on_join-Gated args a = ground arith

  on_part-Gated : (args : List Bytes) (a : Option Bytes) → Gated irc args (some (on_part irc a))
  unfolding on_part Gated
  on_part-Gated args a = ground arith

  on_whois-Gated :
      (args : List Bytes) (a b : Option Bytes) → Gated irc args (some (on_whois env irc a b))
  unfolding on_whois Gated
  on_whois-Gated args none b = ground arith
  on_whois-Gated args (some a) none = ground arith
  on_whois-Gated args (some a) (some b) = ground arith

  on_away-Gated : (args : List Bytes) (a : Option Bytes) → Gated irc args (some (on_away irc a))
  unfolding on_away Gated
  on_away-Gated args none = ground arith
  on_away-Gated args (some a) = ground arith

  registered_command-Gated :
      (command : Bytes) (args : List Bytes)
      → Gated irc args (registered_command env irc command args)
  unfolding Gated registered_command
  registered_command-Gated command args = ground (
    arith,
    on_privmsg-Gated args,
    on_join-Gated args (arg1 args),
    on_whois-Gated args (arg1 args) (arg2 args),
    on_part-Gated args (arg1 args),
    on_away-Gated args (arg1 args),
  )

  run_command-Gated : (args : List Bytes) → Gated irc args (run_command env irc args)
  unfolding Gated run_command
  run_command-Gated [] = ground arith
  run_command-Gated (command ∷ args) = ground (
    arith,
    on_user-Gated (command ∷ args) (arg1 (command ∷ args)),
    on_nick-Gated (command ∷ args) (arg1 (command ∷ args)),
    registered_command-Gated command (command ∷ args),
  )

-- A line makes the server return a text for the chat only if the client is in the channel and the
-- line names the channel, and then the state stays as it is and nothing is sent.
pub parse_buffer-returned :
    (env : Env) (irc : Irc) (line : Bytes) (r : Reply) (said : Bytes)
    → parse_buffer env irc line ≡ some r
    → r.returned ≡ some said
    → (irc.clientstate ≡ in_channel)
      × (is_channel irc (arg1 (split line)) ≡ true)
      × (r.after ≡ irc)
      × (r.outputs ≡ [])
unfolding parse_buffer Gated
parse_buffer-returned env irc line r said runs says =
    ground (arith, run_command-Gated env irc (split line))

-- The only line whose outcome depends on what an earlier line left in the buffer is one that a
-- client in the channel sends with a bare ACTION mark as its text.
pub parse_buffer-undefined :
    (env : Env) (irc : Irc) (line : Bytes)
    → parse_buffer env irc line ≡ none
    → (irc.clientstate ≡ in_channel) × (arg2 (split line) ≡ some (1 ∷ codes "ACTION"))
unfolding parse_buffer Gated
parse_buffer-undefined env irc line n = ground (arith, run_command-Gated env irc (split line))
