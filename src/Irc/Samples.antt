-- ===== src/Irc/Samples.antt =====
-- A server and its surroundings for the tests on ircserver.c.
use minichatclient.Base.{true, false, [], some, none, codes}
use minichatclient.Irc.Server.{Irc, ClientState}
use minichatclient.Irc.Handlers.{Env}

abbrev pub server : ClientState → Irc
server state = record {
  has_sfd = true;
  has_cfd = true;
  fakehost = some (codes "mchat");
  channel_name = some (codes "#chat");
  forum_username = some (codes "Ann");
  client_nickname = some (codes "ann");
  client_ident = some (codes "a");
  last_topic_know = none;
  last_thing_i_said = some (codes "hello all");
  topic_reporting_mode = 3;
  report_away_to_client = false;
  autorejoin = 0;
  clientstate = state;
  topic_changed = false;
}

abbrev pub env : Env
env = record {
  now = 100;
  site = record { host = some (codes "h"); port = none; path = some (codes "/") };
  nicklist = [];
  compiled = codes "today";
}
