-- ===== src/Irc/Commands/Tests.antt =====
-- The theorems on the commands at concrete inputs, and runs of the code.
use minichatclient.Base.{
  ◌≡◌, refl, true, List, [], ◌∷◌, ◌++◌, some, none, arith, codes, str_eq, str_case_eq, to_lower,
}
use minichatclient.Irc.Samples.{server, env}
use minichatclient.Text.Search.{starts_with}
use minichatclient.Irc.Split.{split}
use minichatclient.Irc.Split.Laws.{spaced}
use minichatclient.Irc.Server.{Output, identified, in_channel}
use minichatclient.Irc.Handlers.{is_channel, arg1, arg2, on_privmsg, said_text, action_text}
use minichatclient.Irc.Commands.{run_command, registered_command, parse_buffer}
use minichatclient.Irc.Commands.Registration.{Moves, parse_buffer-Moves}
use minichatclient.Irc.Commands.Gate.{parse_buffer-returned, parse_buffer-undefined}
use minichatclient.Irc.Commands.Channel.{privmsg-says}

parse_buffer-Moves_example :
    Moves (server identified) (parse_buffer env (server identified) (codes "JOIN #chat"))
parse_buffer-Moves_example =
    parse_buffer-Moves env (server identified) (ground arith) (codes "JOIN #chat")

same_channel : str_case_eq (codes "#CHAT") (codes "#chat") ≡ true
unfolding str_case_eq to_lower str_eq
same_channel = refl

privmsg-says_example :
    parse_buffer env
      (server in_channel)
      (codes "privmsg" ++ spaced (codes "#CHAT" ∷ []) (codes "hi all"))
    ≡ some (record { returned = some (codes "hi all"); after = server in_channel; outputs = [] })
privmsg-says_example =
    privmsg-says env (server in_channel) (codes "#chat") (codes "#CHAT") refl same_channel
      (codes "privmsg") (codes "hi all") (ground arith) refl (ground arith) refl
      (unfold starts_with in refl)

hi_returned :
    parse_buffer env (server in_channel) (codes "PRIVMSG #CHAT :hi all")
    ≡ some (record { returned = some (codes "hi all"); after = server in_channel; outputs = [] })
unfolding parse_buffer split run_command str_eq str_case_eq to_lower registered_command on_privmsg
    said_text starts_with
hi_returned = refl

parse_buffer-returned_example :
    (in_channel ≡ in_channel)
    × (is_channel (server in_channel) (arg1 (split (codes "PRIVMSG #CHAT :hi all"))) ≡ true)
    × (server in_channel ≡ server in_channel)
    × (Path (List Output) [] [])
parse_buffer-returned_example =
    parse_buffer-returned env (server in_channel) (codes "PRIVMSG #CHAT :hi all")
      (record { returned = some (codes "hi all"); after = server in_channel; outputs = [] })
      (codes "hi all") hi_returned refl

bare_mark : parse_buffer env (server in_channel) (codes "PRIVMSG #chat :\u{1}ACTION") ≡ none
unfolding parse_buffer split run_command str_eq str_case_eq to_lower registered_command on_privmsg
    said_text action_text starts_with
bare_mark = refl

parse_buffer-undefined_example :
    (in_channel ≡ in_channel)
    × (arg2 (split (codes "PRIVMSG #chat :\u{1}ACTION")) ≡ some (1 ∷ codes "ACTION"))
parse_buffer-undefined_example =
    parse_buffer-undefined env (server in_channel) (codes "PRIVMSG #chat :\u{1}ACTION") bare_mark
