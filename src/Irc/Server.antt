-- ===== src/Irc/Server.antt =====
-- ircserver.c: the state of the miniserver, and the calls by which the rest of the program tells it
-- of the chat. What is sent to the client, and the sockets that are closed, are the outputs of a
-- call, in order.
pub mod Echo
pub mod Reports
use minichatclient.Base.{
  String, ℕ, zero, suc, Bool, true, false, ◌&&◌, ◌||◌, not, List, [], ◌∷◌, ◌++◌, Option, none, some,
  Bytes, ◌==◌, leb, if◌then◌else◌, str_case_eq, codes, ◌>>=◌, is_some, length,
}
use minichatclient.Text.Replace.{strrep}
use minichatclient.Irc.Message.{irc_sendtoclient, irc_trim}

pub data ClientState : Type 0 where
  disconnected connected identified in_channel : ClientState

-- `sfd` and `cfd` count as their tests against 0, and the address fields belong to `accept`.
-- `topic_changed` is a variable of its own in the source.
pub record Irc : Type 0 where
  pub has_sfd : Bool
  pub has_cfd : Bool
  pub fakehost : Option Bytes
  pub channel_name : Option Bytes
  pub forum_username : Option Bytes
  pub client_nickname : Option Bytes
  pub client_ident : Option Bytes
  pub last_topic_know : Option Bytes
  pub last_thing_i_said : Option Bytes
  pub topic_reporting_mode : ℕ
  pub report_away_to_client : Bool
  pub autorejoin : ℕ
  pub clientstate : ClientState
  pub topic_changed : Bool

pub data Output : Type 0 where
  sent : Bytes → Output
  closed_client : Output
  closed_server : Output

abbrev pub Handled : Type 0
Handled = Irc × List Output

-- The comparisons that the source makes by `>=`, `<` and `==` on the enumeration.
abbrev pub is_identified : ClientState → Bool
is_identified identified = true
is_identified _ = false

abbrev pub is_in_channel : ClientState → Bool
is_in_channel in_channel = true
is_in_channel _ = false

abbrev pub is_connected : ClientState → Bool
is_connected connected = true
is_connected _ = false

-- `clientstate >= CONNECTED`
abbrev pub is_online : ClientState → Bool
is_online disconnected = false
is_online _ = true

-- The three prefixes: SERVER_PREFIX, NO_PREFIX and CLIENT_PREFIX.
abbrev pub from_server : ℕ → String → List (Option Bytes) → Output
from_server lastarg arg1 args = sent (
    irc_sendtoclient (some (codes "minichatclient.sourceforge.net")) none none lastarg
      (some (codes arg1)) args)

abbrev pub from_nobody : ℕ → String → List (Option Bytes) → Output
from_nobody lastarg arg1 args =
    sent (irc_sendtoclient none none none lastarg (some (codes arg1)) args)

abbrev pub from_client : Irc → ℕ → String → List (Option Bytes) → Output
from_client irc lastarg arg1 args = sent (
    irc_sendtoclient irc.client_nickname irc.client_ident (some (codes "me")) lastarg
      (some (codes arg1)) args)

-- A line that another person in the chat seems to send.
abbrev pub from_person : Irc → Bytes → Option Bytes → ℕ → String → List (Option Bytes) → Output
from_person irc nickname ident lastarg arg1 args = sent (
    irc_sendtoclient (some (irc_trim nickname)) ident irc.fakehost lastarg (some (codes arg1)) args)

abbrev pub is_me : Irc → Bytes → Bool
is_me irc nickname = elim irc.forum_username [ none ↦ false | some me ↦ str_case_eq nickname me ]

unfoldable pub irc_set_report_away : Bool → Irc → Irc
irc_set_report_away value irc = record irc { report_away_to_client = value }

unfoldable pub irc_join : Bytes → Option Bytes → Irc → List Output
irc_join nickname ident irc =
    if is_me irc nickname
    then (if irc.report_away_to_client
        then from_server 3 "305"
            (irc.client_nickname ∷ some (codes "You are no longer marked as being away") ∷ [])
          ∷ []
        else [])
    else if is_in_channel irc.clientstate
    then from_person irc nickname ident 2 "JOIN" (irc.channel_name ∷ []) ∷ []
    else []

unfoldable pub irc_part : Bytes → Option Bytes → Option Bytes → Irc → List Output
irc_part nickname ident partmsg irc =
    if is_me irc nickname
    then (if irc.report_away_to_client
        then from_server 3 "306"
            (irc.client_nickname ∷ some (codes "You have been marked as being away") ∷ [])
          ∷ []
        else [])
    else if is_in_channel irc.clientstate
    then from_person irc nickname ident 3 "PART" (irc.channel_name ∷ partmsg ∷ []) ∷ []
    else []

unfoldable pub irc_will_reprint_my_message : Irc → Irc
irc_will_reprint_my_message irc = record irc { last_thing_i_said = none }

-- `strrep(s, &str, " ", "")`
pub no_spaces : Bytes → Option (ℕ × Bytes)
no_spaces s = strrep (some s) none (codes " ") []

-- The message is what the client said last, spaces and letter case aside.
unfoldable pub is_echo : Irc → Bytes → Bytes → Option Bool
unfolding no_spaces
is_echo irc nickname message =
    if is_me irc nickname
    then elim irc.last_thing_i_said [
      | none ↦ some false
      | some said ↦ do
        (n, str1) ← no_spaces message
        (m, str2) ← no_spaces said
        some (str_case_eq str1 str2)
    ]
    else some false

-- The nickname and the message are not null where main.c calls it.
unfoldable pub irc_message : Bytes → Option Bytes → Bytes → Irc → Option Handled
unfolding is_echo
irc_message nickname ident message irc = do
  echo ← is_echo irc nickname message
  if echo
      then some (record irc { last_thing_i_said = none }, [])
      else some (
        irc,
        if is_in_channel irc.clientstate
            then from_person irc nickname ident 3 "PRIVMSG" (irc.channel_name ∷ some message ∷ [])
              ∷ []
            else [],
      )

-- `!strcasecmp(topic, irc.last_topic_know)`, where there is one.
abbrev pub is_known_topic : Irc → Bytes → Bool
is_known_topic irc topic = elim irc.last_topic_know [
  | none ↦ false
  | some old ↦ str_case_eq topic old
]

unfoldable pub irc_topic : Bytes → Irc → Handled
irc_topic topic irc =
    if is_known_topic irc topic then (record irc { topic_changed = false }, []) else (
      record irc { last_topic_know = some topic; topic_changed = true },
      if is_in_channel irc.clientstate && irc.topic_reporting_mode == 2
          then sent (
              irc_sendtoclient irc.fakehost none none 3 (some (codes "TOPIC"))
                (irc.channel_name ∷ some topic ∷ []))
            ∷ []
          else [],
    )

-- Numeric 332, the topic, as three places send it.
abbrev pub topic_line : Irc → Output
topic_line irc =
    from_server 4 "332" (irc.client_nickname ∷ irc.channel_name ∷ irc.last_topic_know ∷ [])

unfoldable pub irc_topic_mode3_showtime : Irc → Handled
irc_topic_mode3_showtime irc = (
  record irc { topic_changed = false },
  if irc.topic_changed && is_in_channel irc.clientstate && irc.topic_reporting_mode == 3
      then topic_line irc ∷ []
      else [],
)

-- A negative mode is refused like one above 3.
unfoldable pub irc_set_topic_mode : ℕ → Irc → Irc
irc_set_topic_mode mode irc = if leb mode 3 then record irc { topic_reporting_mode = mode } else irc
