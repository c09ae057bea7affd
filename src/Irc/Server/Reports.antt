-- ===== src/Irc/Server/Reports.antt =====
-- What the chat's reports, calls that main.c and nicklist.c make, send to the client.
use minichatclient.Base.{
  ◌≡◌, false, ◌||◌, not, List, [], ◌∷◌, ◌++◌, Option, none, some, arith, Bytes, ◌==◌, ◌>>=◌, inl,
  inr, Option-cases, if◌then◌else◌, codes, str_case_eq_refl,
}
use minichatclient.Irc.Message.{irc_sendtoclient}
use minichatclient.Irc.Server.{
  Irc, Output, sent, Handled, is_in_channel, is_known_topic, irc_join, irc_part, irc_message,
  irc_will_reprint_my_message, irc_topic, irc_topic_mode3_showtime, topic_line,
}
use minichatclient.Irc.Server.Echo.{irc_message-once}

pub data Report : Type 0 where
  joins : Bytes → Option Bytes → Report
  parts : Bytes → Option Bytes → Option Bytes → Report
  says : Bytes → Option Bytes → Bytes → Report
  topic : Bytes → Report
  showtime reprint : Report

-- The call of each report.
unfoldable pub report : Report → Irc → Option Handled
report (joins nickname ident) irc = some (irc, irc_join nickname ident irc)
report (parts nickname ident partmsg) irc = some (irc, irc_part nickname ident partmsg irc)
report (says nickname ident message) irc = irc_message nickname ident message irc
report (topic t) irc = some (irc_topic t irc)
report showtime irc = some (irc_topic_mode3_showtime irc)
report reprint irc = some (irc_will_reprint_my_message irc, [])

unfoldable pub run_reports : List Report → Irc → Option Handled
unfolding report
run_reports [] irc = some (irc, [])
run_reports (r ∷ rs) irc = do
  (irc', out) ← report r irc
  (irc'', more) ← run_reports rs irc'
  some (irc'', out ++ more)

-- A client that is outside of the channel and has not asked for its own comings and goings.
abbrev pub IsOutside : Irc → Type 0
IsOutside irc = (is_in_channel irc.clientstate ≡ false) × (irc.report_away_to_client ≡ false)

-- Nothing is sent, and the client's state is what it was.
unfoldable pub Unheard : Irc → Option Handled → Type 0
Unheard irc none = ⊥
Unheard irc (some h) =
    (h.1 ≡ [])
    × (h.0.clientstate ≡ irc.clientstate)
    × (h.0.report_away_to_client ≡ irc.report_away_to_client)

report-Unheard : (r : Report) (irc : Irc) → IsOutside irc → Unheard irc (report r irc)
unfolding Unheard report irc_join irc_part irc_topic irc_topic_mode3_showtime
    irc_will_reprint_my_message
report-Unheard (joins nickname ident) irc h = ground arith
report-Unheard (parts nickname ident partmsg) irc h = ground arith
report-Unheard (says nickname ident message) irc h =
    ground (arith, irc_message-once irc nickname ident message)
report-Unheard (topic t) irc h = ground arith
report-Unheard showtime irc h = ground arith
report-Unheard reprint irc h = ground arith

-- Whatever the chat reports, and in whatever order, the calls return, and a client outside of the
-- channel that has not asked for away reports is sent nothing and keeps its state.
pub run_reports-Unheard :
    (rs : List Report) (irc : Irc) → IsOutside irc → Unheard irc (run_reports rs irc)
unfolding Unheard run_reports
run_reports-Unheard [] irc h = ground arith
run_reports-Unheard (r ∷ rs) irc h = elim (Option-cases (report r irc)) [
  | inl e ↦ ground (arith, report-Unheard r irc)
  | inr ((irc', out), e) ↦ ground (arith, report-Unheard r irc, run_reports-Unheard rs irc')
]

-- A topic, and the end of the pass in which the chat gave it.
unfoldable pub report_topic : Bytes → Irc → Handled
report_topic t irc =
    let (irc1, out1) = irc_topic t irc in
    let (irc2, out2) = irc_topic_mode3_showtime irc1 in (irc2, out1 ++ out2)

-- The lines that a topic is worth.
abbrev pub topic_lines : Bytes → Irc → List Output
topic_lines t irc =
    if is_known_topic irc t || not (is_in_channel irc.clientstate)
    then []
    else if irc.topic_reporting_mode == 2
    then sent (
        irc_sendtoclient irc.fakehost none none 3 (some (codes "TOPIC"))
          (irc.channel_name ∷ some t ∷ []))
      ∷ []
    else if irc.topic_reporting_mode == 3
    then topic_line (record irc { last_topic_know = some t }) ∷ []
    else []

-- A topic is sent once, and only if it is new but for letter case and the client is in the channel:
-- in mode 2 as a TOPIC line, in mode 3 as numeric 332 with the new topic, in no other mode at all.
pub report_topic-lines : (t : Bytes) (irc : Irc) → (report_topic t irc).1 ≡ topic_lines t irc
unfolding report_topic irc_topic irc_topic_mode3_showtime
report_topic-lines t irc = ground arith

-- The same topic again changes nothing and sends nothing, in whatever mode.
pub report_topic-again :
    (t : Bytes) (irc : Irc) → report_topic t (report_topic t irc).0 ≡ ((report_topic t irc).0, [])
unfolding report_topic irc_topic irc_topic_mode3_showtime
report_topic-again t irc = ground (arith, str_case_eq_refl t)
