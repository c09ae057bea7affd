-- ===== src/Irc/Driver/Tests.antt =====
-- The theorems on the driver at concrete inputs, and runs of the code.
use minichatclient.Base.{
  ◌≡◌, refl, true, false, [], ◌∷◌, ◌++◌, some, none, arith, Bytes, codes, replicate, str_eq,
  str_case_eq, to_lower, c_string,
}
use minichatclient.Text.Search.{starts_with}
use minichatclient.Irc.Samples.{server, env}
use minichatclient.Irc.Split.{split}
use minichatclient.Irc.Server.{Irc, connected, in_channel}
use minichatclient.Irc.Handlers.{Reply, on_privmsg, said_text, action_text}
use minichatclient.Irc.Commands.{parse_buffer, run_command, registered_command}
use minichatclient.Irc.Driver.{
  cleared, irc_init, Turn, remember, end_line, feed_byte, feed, accept_client, rejoin, received,
  receive, irc_driver,
}
use minichatclient.Irc.Driver.Lines.{Fault, feed-line, feed-overflow, feed-Fault}
use minichatclient.Irc.Driver.Runs.{IsReady, at_first, after, starts, drives, IsReachable-IsReady}

abbrev turn : Turn
turn = record { irc = server in_channel; line = []; ret = none; outputs = [] }

abbrev hi : Bytes
hi = codes "PRIVMSG #CHAT :hi all"

abbrev hi_reply : Reply
hi_reply = record { returned = some (codes "hi all"); after = server in_channel; outputs = [] }

hi_returned : parse_buffer env (server in_channel) hi ≡ some hi_reply
unfolding parse_buffer split run_command str_eq str_case_eq to_lower registered_command on_privmsg
    said_text starts_with
hi_returned = refl

feed-line_example :
    feed env (hi ++ b'\r' ∷ b'\n' ∷ []) turn
    ≡ some (record {
      irc = remember (some (codes "hi all")) (server in_channel);
      line = [];
      ret = some (codes "hi all");
      outputs = [];
    })
feed-line_example = feed-line env hi turn hi_reply (ground arith) (ground arith) refl hi_returned

abbrev who_reply : Reply
who_reply = record {
  returned = none;
  after = remember (some (codes "hi all")) (server in_channel);
  outputs = [];
}

who_returned :
    parse_buffer env (remember (some (codes "hi all")) (server in_channel)) (codes "WHO")
    ≡ some who_reply
unfolding parse_buffer split run_command str_eq registered_command
who_returned = refl

abbrev almost_full : Turn
almost_full = record turn { line = replicate 1999 b'a' }

feed-overflow_example : feed env (codes "b" ++ b'\n' ∷ []) almost_full ≡ none
feed-overflow_example =
    feed-overflow env (codes "b") almost_full (ground arith) (ground arith) (ground arith)

abbrev bare : Bytes
bare = codes "PRIVMSG #chat :\u{1}ACTION\n"

bare_mark : feed env bare turn ≡ none
unfolding feed feed_byte end_line c_string parse_buffer split run_command str_eq str_case_eq
    to_lower registered_command on_privmsg said_text action_text starts_with
bare_mark = refl

feed-Fault_example : Fault env bare turn
feed-Fault_example = feed-Fault env bare turn bare_mark

abbrev started : Irc
started = record (cleared false) {
  topic_reporting_mode = 1;
  has_sfd = true;
  fakehost = some (codes "mchat");
  channel_name = some (codes "#chat");
  forum_username = some (codes "Ann");
}

abbrev greeted : Turn
greeted = record {
  irc = record started { has_cfd = true; clientstate = connected };
  line = codes "NI";
  ret = none;
  outputs = [];
}

greets : irc_driver env true (received (codes "NI")) started [] ≡ some greeted
unfolding irc_driver receive accept_client feed feed_byte rejoin
greets = refl

IsReachable-IsReady_example : IsReady greeted.irc (codes "NI")
IsReachable-IsReady_example = IsReachable-IsReady greeted.irc (codes "NI") (
    after started greeted.irc [] (codes "NI")
      (after (cleared false) started [] [] at_first (
        unfold irc_init in
        starts true (some (codes "mchat")) (some (codes "#chat")) (some (codes "Ann"))
          (cleared false) []))
      (drives env true (received (codes "NI")) started [] greeted greets))
