-- ===== src/Irc/Handlers.antt =====
-- ircserver.c: the branches of `parse_buffer`, one function for each command that does more than
-- send a line.
use minichatclient.Base.{
  ℕ, ◌+◌, ◌-◌, Bool, false, ◌&&◌, not, List, [], ◌∷◌, ◌++◌, Option, none, some, Bytes, ◌==◌,
  if◌then◌else◌, str_case_eq, codes, ◌>>=◌, is_some, length, drop, set,
}
use minichatclient.Text.Search.{starts_with}
use minichatclient.Nicklist.{Entry}
use minichatclient.Nicklist.Whois.{
  Site, WhoisInfos, nicklist_list_nicknames, nicklist_get_infos_for_whois,
}
use minichatclient.Irc.Server.{
  Irc, Output, closed_client, disconnected, identified, in_channel, is_identified, is_in_channel,
  is_connected, from_server, from_nobody, from_client, topic_line,
}

-- What the commands read besides the server's state: the clock, the other modules, and
-- `__DATE__", "__TIME__`.
pub record Env : Type 0 where
  pub now : ℕ
  pub site : Site
  pub nicklist : List Entry
  pub compiled : Bytes

-- The string that is returned, which main.c posts in the chat, with the state and the outputs.
pub record Reply : Type 0 where
  pub returned : Option Bytes
  pub after : Irc
  pub outputs : List Output

abbrev pub quietly : Irc → List Output → Reply
quietly irc outputs = record { returned = none; after = irc; outputs = outputs }

-- `arg[i]`, as far as the branches look.
abbrev pub arg1 : List Bytes → Option Bytes
arg1 (c ∷ a ∷ args) = some a
arg1 _ = none

abbrev pub arg2 : List Bytes → Option Bytes
arg2 (c ∷ a ∷ b ∷ args) = some b
arg2 _ = none

unfoldable pub irc_send_conn_response_ok : Env → Irc → List Output
irc_send_conn_response_ok env irc =
    let nick = irc.client_nickname in
    from_server 3 "001" (nick ∷ some (codes "Welcome on the IRC side of MiniChatClient") ∷ [])
    ∷ from_server 3 "002" (nick ∷ some (codes "Your host is ... you!") ∷ [])
    ∷ from_server 3 "003"
        (nick ∷ some (codes "This server was compiled on ") ∷ some env.compiled ∷ [])
    ∷ from_server 0 "004" (nick ∷ some (codes "minichatclient.sourceforge.net") ∷ [])
    ∷ from_server 3 "375" (nick ∷ some (codes "Message of the Day") ∷ [])
    ∷ from_server 3 "372" (nick ∷ some (codes "Less code, less bugs !") ∷ [])
    ∷ from_server 3 "376" (nick ∷ some (codes "End of MOTD") ∷ [])
    ∷ []

-- `irc_send_conn_response_ok(); irc.autorejoin = time(NULL) + 5; irc.clientstate = IDENTIFIED;`, if
-- the other half of the registration is there.
abbrev pub welcome : Bool → Env → Irc → Reply
welcome both env irc =
    if both
    then quietly (record irc { autorejoin = env.now + 5; clientstate = identified })
        (irc_send_conn_response_ok env irc)
    else quietly irc []

unfoldable pub on_user : Env → Irc → Option Bytes → Reply
on_user env irc none =
    quietly irc
      (from_server 3 "461" (irc.client_nickname ∷ some (codes "Not enough parameters") ∷ []) ∷ [])
on_user env irc (some ident) =
    if is_connected irc.clientstate
    then welcome (is_some irc.client_nickname) env (record irc { client_ident = some ident })
    else quietly irc (
        from_server 3 "462" (irc.client_nickname ∷ some (codes "You may not reregister") ∷ []) ∷ [])

unfoldable pub no_nickname : Irc → Output
no_nickname irc = from_server 3 "431" (irc.client_nickname ∷ some (codes "No nickname given") ∷ [])

unfoldable pub on_nick : Env → Irc → Option Bytes → Reply
unfolding no_nickname
on_nick env irc none = quietly irc (no_nickname irc ∷ [])
on_nick env irc (some nick) =
    if is_connected irc.clientstate
    then welcome (is_some irc.client_ident) env (record irc { client_nickname = some nick })
    else quietly (record irc { client_nickname = some nick })
        (from_client irc 2 "NICK" (some nick ∷ []) ∷ [])

-- `arg && channel_name && !strcasecmp(arg, channel_name)`
abbrev pub is_channel : Irc → Option Bytes → Bool
is_channel irc none = false
is_channel irc (some a) = elim irc.channel_name [
  | none ↦ false
  | some channel ↦ str_case_eq a channel
]

-- A text with the CTCP mark: `ACTION` has its ends overwritten by stars and goes on behind the
-- word. With nothing behind it the first star falls on the terminating zero, and what the line buffer
-- holds behind that decides; `none` stands for this in every case.
unfoldable pub action_text : Bytes → Option Bytes
action_text text = elim (drop 7 text) [
  | [] ↦ none
  | c ∷ s ↦ some (set (b'*' ∷ s) (length text - 8) b'*')
]

unfoldable pub said_text : Bytes → Option Bytes
unfolding action_text
said_text text =
    if starts_with (1 ∷ []) text && starts_with (codes "ACTION") (drop 1 text)
    then action_text text
    else some text

unfoldable pub on_privmsg : Irc → Option Bytes → Option Bytes → Option Reply
unfolding said_text
on_privmsg irc target none = some (quietly irc [])
on_privmsg irc target (some text) =
    if is_channel irc target && is_in_channel irc.clientstate
    then (do
      said ← said_text text
      some (record { returned = some said; after = irc; outputs = [] }))
    else some (quietly irc [])

unfoldable pub on_ison : Env → Irc → Reply
on_ison env irc = quietly irc (
    from_server 3 "303" (irc.client_nickname ∷ some (nicklist_list_nicknames env.nicklist) ∷ [])
    ∷ [])

-- The lines behind a JOIN, of the client or of the server's own accord.
unfoldable pub channel_lines : Env → Irc → List Output
channel_lines env irc =
    from_client irc 2 "JOIN" (irc.channel_name ∷ [])
    ∷ from_server 5 "353" (
        irc.client_nickname
        ∷ some (codes "=")
        ∷ irc.channel_name
        ∷ some (nicklist_list_nicknames env.nicklist)
        ∷ [])
    ∷ from_server 4 "366"
        (irc.client_nickname ∷ irc.channel_name ∷ some (codes "End of /NAMES list") ∷ [])
    ∷ (if is_some irc.last_topic_know && not (irc.topic_reporting_mode == 0)
        then topic_line irc ∷ []
        else [])

unfoldable pub on_join : Env → Irc → Option Bytes → Reply
unfolding channel_lines
on_join env irc target =
    if is_channel irc target && is_identified irc.clientstate
    then quietly (record irc { clientstate = in_channel }) (channel_lines env irc)
    else quietly irc []

unfoldable pub on_topic : Irc → Reply
on_topic irc = quietly irc (if is_some irc.last_topic_know then topic_line irc ∷ [] else [])

unfoldable pub whois_lines : Irc → Bytes → Option WhoisInfos → List Output
whois_lines irc target none =
    from_server 4 "401"
      (irc.client_nickname ∷ some target ∷ some (codes "No such nick/channel") ∷ [])
    ∷ []
whois_lines irc target (some w) =
    from_server 4 "311" (irc.client_nickname ∷ some w.identinfos ∷ some w.realname ∷ [])
    ∷ from_server 4 "312" (irc.client_nickname ∷ some w.servinfos ∷ some w.urls ∷ [])
    ∷ from_server 4 "317"
        (irc.client_nickname ∷ some w.timesinfos ∷ some (codes "seconds idle, signon time") ∷ [])
    ∷ []

-- `fakehost` is not null once the server runs; a null pointer reads as the empty text here.
unfoldable pub on_whois_of : Env → Irc → Bytes → Reply
unfolding whois_lines
on_whois_of env irc target =
    let host : Bytes = elim irc.fakehost [ none ↦ [] | some h ↦ h ] in
    quietly irc (
      whois_lines irc target
        (nicklist_get_infos_for_whois env.site env.now target host env.nicklist)
      ++ from_server 4 "318"
          (irc.client_nickname ∷ some target ∷ some (codes "End of /WHOIS list.") ∷ [])
        ∷ [])

unfoldable pub on_whois : Env → Irc → Option Bytes → Option Bytes → Reply
unfolding on_whois_of no_nickname
on_whois env irc none second = quietly irc (no_nickname irc ∷ [])
on_whois env irc (some first) none = on_whois_of env irc first
on_whois env irc (some first) (some second) = on_whois_of env irc second

unfoldable pub on_names : Env → Irc → Reply
on_names env irc = quietly irc (
    from_server 4 "353"
      (irc.client_nickname ∷ irc.channel_name ∷ some (nicklist_list_nicknames env.nicklist) ∷ [])
    ∷ from_server 4 "366"
        (irc.client_nickname ∷ irc.channel_name ∷ some (codes "End of /NAMES list") ∷ [])
    ∷ [])

unfoldable pub on_part : Irc → Option Bytes → Reply
on_part irc target =
    if is_channel irc target && is_in_channel irc.clientstate
    then quietly (record irc { clientstate = identified })
        (from_client irc 2 "PART" (irc.channel_name ∷ []) ∷ [])
    else quietly irc []

unfoldable pub on_away : Irc → Option Bytes → Reply
on_away irc none = quietly irc (
    from_server 3 "305"
      (irc.client_nickname ∷ some (codes "You are no longer marked as being away") ∷ [])
    ∷ [])
on_away irc (some text) = quietly irc (
    from_server 3 "306"
      (irc.client_nickname ∷ some (codes "You have been marked as being away") ∷ [])
    ∷ [])

unfoldable pub on_quit : Irc → Reply
on_quit irc =
    quietly (record irc { has_cfd = false; clientstate = disconnected })
      (from_nobody 2 "ERROR" (some (codes "Closing Link: (Quit:)") ∷ []) ∷ closed_client ∷ [])
