-- ===== src/Irc/Commands.antt =====
-- ircserver.c: `parse_buffer`, the commands of the client. The line is cut by `split`. `none` says
-- that the outcome depends on what lies in the buffer behind the line.
mod Tests
pub mod Registration
pub mod Gate
pub mod Channel
use minichatclient.Base.{
  String, ℕ, zero, suc, ◌+◌, ◌-◌, Bool, true, false, ◌&&◌, ◌||◌, not, List, [], ◌∷◌, ◌++◌, Option,
  none, some, Bytes, ◌==◌, leb, if◌then◌else◌, str_eq, str_case_eq, codes, ◌>>=◌, is_some, length,
  drop, set,
}
use minichatclient.Text.Search.{starts_with}
use minichatclient.Nicklist.{Entry}
use minichatclient.Nicklist.Whois.{
  Site, WhoisInfos, nicklist_list_nicknames, nicklist_get_infos_for_whois,
}
use minichatclient.Irc.Split.{split}
use minichatclient.Irc.Server.{
  Irc, Output, sent, closed_client, Handled, ClientState, disconnected, connected, identified,
  in_channel, is_identified, is_in_channel, is_connected, from_server, from_nobody, from_client,
  topic_line,
}
use minichatclient.Irc.Handlers.{
  Env, Reply, quietly, arg1, arg2, irc_send_conn_response_ok, welcome, on_user, no_nickname,
  on_nick, is_channel, action_text, said_text, on_privmsg, on_ison, channel_lines, on_join,
  on_topic, whois_lines, on_whois_of, on_whois, on_names, on_part, on_away, on_quit,
}

-- The chain of `else if` behind the test of the registration.
unfoldable pub registered_command : Env → Irc → Bytes → List Bytes → Option Reply
unfolding on_privmsg on_ison on_join on_topic on_whois on_names on_part on_away on_quit
registered_command env irc command args =
    if str_eq command (codes "PRIVMSG")
    then on_privmsg irc (arg1 args) (arg2 args)
    else if str_eq command (codes "ISON")
    then some (on_ison env irc)
    else if str_eq command (codes "PING")
    then some (quietly irc (from_nobody 2 "PONG" (arg1 args ∷ []) ∷ []))
    else if str_eq command (codes "JOIN")
    then some (on_join env irc (arg1 args))
    else if str_eq command (codes "TOPIC")
    then some (on_topic irc)
    else if str_eq command (codes "WHOIS")
    then some (on_whois env irc (arg1 args) (arg2 args))
    else if str_eq command (codes "WHO")
    then some (quietly irc [])
    else if str_eq command (codes "USERHOST")
    then some (quietly irc [])
    else if str_eq command (codes "MODE")
    then some (quietly irc [])
    else if str_eq command (codes "NAMES")
    then some (on_names env irc)
    else if str_eq command (codes "PART")
    then some (on_part irc (arg1 args))
    else if str_eq command (codes "AWAY")
    then some (on_away irc (arg1 args))
    else if str_eq command (codes "QUIT")
    then some (on_quit irc)
    else some (
        quietly irc (
          from_server 4 "421"
            (irc.client_nickname ∷ some command ∷ some (codes "Unknown command") ∷ [])
          ∷ []))

-- `irc.clientstate < IDENTIFIED`
abbrev pub is_unregistered : ClientState → Bool
is_unregistered disconnected = true
is_unregistered connected = true
is_unregistered _ = false

abbrev pub not_registered : Bytes → Output
not_registered command =
    from_server 3 "451" (some command ∷ some (codes "You have not registered") ∷ [])

-- Behind the first loop, on the array of arguments.
unfoldable pub run_command : Env → Irc → List Bytes → Option Reply
unfolding on_user on_nick registered_command
run_command env irc [] = some (quietly irc [])
run_command env irc (command ∷ args) =
    if str_eq command (codes "USER")
    then some (on_user env irc (arg1 (command ∷ args)))
    else if str_eq command (codes "NICK")
    then some (on_nick env irc (arg1 (command ∷ args)))
    else if is_unregistered irc.clientstate
    then some (quietly irc (not_registered command ∷ []))
    else registered_command env irc command (command ∷ args)

unfoldable pub parse_buffer : Env → Irc → Bytes → Option Reply
unfolding run_command
parse_buffer env irc line = run_command env irc (split line)
