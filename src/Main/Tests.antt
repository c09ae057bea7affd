-- ===== src/Main/Tests.antt =====
-- The theorems on main.c at concrete inputs, and runs of the code.
use minichatclient.Base.{
  digits, ℕ, ◌≡◌, refl, c_string, decimal, ◌++◌, true, false, List, [], ◌∷◌, some, none, arith,
  Bytes, All, codes,
}
use minichatclient.Main.Loop.{
  Loop, Response, code, posting_a_message, wait_loading_login_page, loading_login_page,
}
use minichatclient.Main.Loop.Posts.{post_answers, post_answers-end}
use minichatclient.Main.Loop.Turn.{Timings, World, turn, turn-kept}
use minichatclient.Main.Loop.Waits.{quiet_turns, quiet_turns-ends}
use minichatclient.Text.Strings.{mconcat}
use minichatclient.Text.Search.{strstr}
use minichatclient.Nicklist.{nicklist_alloc_ident}
use minichatclient.Main.Message.{Message, shows, logs, tells, minichat_message}
use minichatclient.Main.Message.Backlog.{run_messages, Reported, later, run_messages-later}
use minichatclient.Main.Response.{pos, negsuc, check_http_response, check_http_response-status}
use minichatclient.Main.Post.{encoded}
use minichatclient.Main.Post.Form.{form_decoded, IsInert, encoded-decoded}

encoded-decoded_example :
    (tmp : Bytes) × (encoded (codes "1 + 1 = 2 & 100%") ≡ some tmp)
    × (form_decoded tmp ≡ codes "1 + 1 = 2 & 100%")
    × All IsInert tmp
encoded-decoded_example = encoded-decoded (codes "1 + 1 = 2 & 100%")

abbrev sending : Loop
sending = record {
  state = posting_a_message;
  oldstate = some posting_a_message;
  t = 0;
  wait_time = 40;
  outgoingmsg = some (codes "hi");
  outgoingmsgretry = 0;
  nberr = 0;
  u = 0;
  poll_requested = false;
}

abbrev starting : Loop
starting = record sending {
  state = wait_loading_login_page;
  oldstate = none;
  wait_time = 10;
  outgoingmsg = none;
}

abbrev flood : Bytes × Response
flood = (codes "HTTP/1.1 400", code 400)

post_answers-end_example : (post_answers 12 (flood ∷ flood ∷ flood ∷ []) sending).outgoingmsg ≡ none
post_answers-end_example = post_answers-end 12 flood flood flood sending

quiet_turns-ends_example : (quiet_turns 11 starting).state ≡ loading_login_page
quiet_turns-ends_example = quiet_turns-ends 10 starting refl refl refl refl

abbrev timings : Timings
timings = record { mini = 20; maxi = 60; awake = 12 }

abbrev unreachable : World
unreachable = record {
  connected = false;
  credentials = true;
  answer = none;
  before = code 0;
  nbmessages = 0;
  display = some (codes "more");
  irc = none;
}

turn-kept_example : (turn timings unreachable sending).0.outgoingmsg ≡ some (codes "hi")
turn-kept_example = turn-kept timings unreachable sending (codes "hi") refl refl

abbrev message_with : Bytes → Message
message_with id = record {
  username = codes "ann";
  message = codes "hello";
  usericonurl = none;
  userprofileurl = some (codes "./m.php&u=7");
  msgid = id;
}

abbrev backlog : List Message
backlog =
    message_with (codes "0999") ∷ message_with (codes "1000") ∷ message_with (codes "1001") ∷ []

run_messages-later_example :
    Reported
      (codes "1000")
      backlog
      (later 1000 backlog)
      (run_messages true (some (codes "1000")) backlog)
unfolding digits nicklist_alloc_ident strstr
run_messages-later_example =
    run_messages-later 4 (codes "1000") backlog (omega arith) (ground arith) (ground arith)
      (ground arith) (refl, tt)

-- The ids are compared as texts: one with fewer digits counts as later than the known one, and its
-- message is told again.
short_id :
    run_messages true (some (codes "1000")) (message_with (codes "999") ∷ [])
    ≡ some (
      some (codes "999"),
      shows (codes "<ann> hello")
          ∷ logs (codes "<ann> hello\r\n")
          ∷ tells (codes "ann") (codes "7") (codes "hello")
          ∷ [],
    )
unfolding run_messages minichat_message mconcat strstr
short_id = refl

check_http_response-status_example :
    (shown : List (Bytes × ℕ)) × (check_http_response (
        codes "HTTP/1.1" ++ b' ' ∷ ((decimal 403 ++ b' ' ∷ codes "Forbidden") ++ b'\r' ∷ codes "x"))
      ≡ some (
        pos 403,
        (c_string ((codes "HTTP/1.1" ++ b' ' ∷ []) ++ (decimal 403 ++ b' ' ∷ codes "Forbidden")), 0)
            ∷ shown,
      ))
check_http_response-status_example =
    check_http_response-status (codes "HTTP/1.1") (codes "Forbidden") (codes "x") 403 (ground arith)
      (ground arith) (omega arith)

-- A line that ends before its code has the number 0, which is taken for no code at all.
no_number :
    check_http_response (codes "HTTP/1.1 " ++ b'\n' ∷ [])
    ≡ some (negsuc 0, (codes "HTTP/1.1 ", 0) ∷ [])
unfolding check_http_response c_string
no_number = refl
