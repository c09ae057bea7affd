-- ===== src/Irc/Tests.antt =====
-- The theorems on ircserver.c at concrete inputs, and runs of the code.
use minichatclient.Base.{
  ◌≡◌, refl, true, [], ◌∷◌, none, arith, codes, str_eq, str_case_eq, to_lower,
}
use minichatclient.Irc.Samples.{server}
use minichatclient.Irc.Split.{split}
use minichatclient.Irc.Server.{identified, in_channel}
use minichatclient.Irc.Server.Echo.{repeats}
use minichatclient.Irc.Server.Reports.{
  joins, says, topic, showtime, run_reports, Unheard, run_reports-Unheard,
}

split_prefix : split (codes ":a b  c :d e") ≡ codes "B" ∷ codes "c" ∷ codes "d e" ∷ []
unfolding split
split_prefix = refl

does_repeat : repeats (server in_channel) (codes "ann") (codes "Hello  all") ≡ true
unfolding str_case_eq to_lower str_eq
does_repeat = refl

run_reports-Unheard_example : Unheard (server identified) (
    run_reports
      (joins (codes "bob") none
        ∷ says (codes "bob") none (codes "hi")
        ∷ topic (codes "t")
        ∷ showtime
        ∷ [])
      (server identified))
run_reports-Unheard_example =
    run_reports-Unheard
      (joins (codes "bob") none
        ∷ says (codes "bob") none (codes "hi")
        ∷ topic (codes "t")
        ∷ showtime
        ∷ [])
      (server identified) (ground arith)
