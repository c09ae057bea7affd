-- ===== src/Main/Loop.antt =====
-- main.c: the state machine of the main loop. What the network, the display and the IRC side give
-- is an argument of each turn. Times are in units of WAITING_TIME_GRANOLOSITY, 250 milliseconds.
pub mod Turn
pub mod Waits
pub mod Posts
use minichatclient.Base.{
  ℕ, zero, suc, ◌+◌, ◌-◌, ◌*◌, ◌/◌, ◌%◌, ◌^◌, Bool, true, false, ◌&&◌, ◌||◌, not, List, [], ◌∷◌,
  ◌++◌, Option, none, some, Bytes, ◌==◌, leb, ltb, if◌then◌else◌, is_some, codes,
}

pub data State : Type 0 where
  wait_loading_login_page loading_login_page : State
  wait_submit_authentification submit_authentification : State
  wait_get_the_backlog get_the_backlog : State
  wait_watching_new_messages watching_new_messages : State
  wait_retrieving_the_list_of_users retrieving_the_list_of_users : State
  wait_posting_a_message posting_a_message : State

-- The number of the state in its enumeration.
abbrev pub rank : State → ℕ
rank wait_loading_login_page = 0
rank loading_login_page = 1
rank wait_submit_authentification = 2
rank submit_authentification = 3
rank wait_get_the_backlog = 4
rank get_the_backlog = 5
rank wait_watching_new_messages = 6
rank watching_new_messages = 7
rank wait_retrieving_the_list_of_users = 8
rank retrieving_the_list_of_users = 9
rank wait_posting_a_message = 10
rank posting_a_message = 11

-- `state++` of a waiting state, and `state--` of one that is not.
abbrev pub next : State → State
next wait_loading_login_page = loading_login_page
next wait_submit_authentification = submit_authentification
next wait_get_the_backlog = get_the_backlog
next wait_watching_new_messages = watching_new_messages
next wait_retrieving_the_list_of_users = retrieving_the_list_of_users
next wait_posting_a_message = posting_a_message
next state = state

abbrev pub previous : State → State
previous loading_login_page = wait_loading_login_page
previous submit_authentification = wait_submit_authentification
previous get_the_backlog = wait_get_the_backlog
previous watching_new_messages = wait_watching_new_messages
previous retrieving_the_list_of_users = wait_retrieving_the_list_of_users
previous posting_a_message = wait_posting_a_message
previous state = state

-- The variables of the loop. `oldstate` is -1 at first.
pub record Loop : Type 0 where
  pub state : State
  pub oldstate : Option State
  pub t : ℕ
  pub wait_time : ℕ
  pub outgoingmsg : Option Bytes
  pub outgoingmsgretry : ℕ
  pub nberr : ℕ
  pub u : ℕ
  pub poll_requested : Bool

-- The numbers of `check_http_response` that the states tell apart; `no_code` is -1. A number below
-- -1 is treated like a code without a meaning.
pub data Response : Type 0 where
  no_code : Response
  code : ℕ → Response

-- The connection to the server, in a state that does not wait.
unfoldable pub connect : Bool → Loop → Loop
connect true l = record l {
  state = if leb 30 l.nberr then loading_login_page else l.state;
  nberr = 0;
}
connect false l = record l { nberr = l.nberr + 1; wait_time = 10 * 4; state = previous l.state }

abbrev pub loaded_login_page : Loop → Loop
loaded_login_page l = record l { wait_time = 2; state = wait_submit_authentification }

-- With a username and a password in the configuration, or without one of them.
abbrev pub authenticated : Bool → Loop → Loop
authenticated true l = record l { wait_time = 4; state = wait_get_the_backlog }
authenticated false l = record l { state = get_the_backlog }

abbrev pub is_forbidden : Response → Bool
is_forbidden no_code = false
is_forbidden (code n) = n == 403

unfoldable pub got_the_backlog : Response → Loop → Loop
got_the_backlog response l =
    if is_forbidden response
    then record l { wait_time = 20; state = wait_loading_login_page }
    else if is_some l.outgoingmsg
    then record l { wait_time = 2; state = wait_posting_a_message }
    else record l { wait_time = 10 * 4; state = wait_watching_new_messages }

-- The time to the next poll, by the number of the messages that came. The addition is that of
-- `unsigned int`.
unfoldable pub adapted : ℕ → ℕ → ℕ → ℕ → ℕ
adapted wait_time_mini wait_time_maxi nbmessages old_wait_time =
    if nbmessages == 0
    then (let longer = (old_wait_time + old_wait_time / 2) % 2 ^ 32 in
        if ltb wait_time_maxi longer then wait_time_maxi else longer)
    else (let shorter = old_wait_time / (nbmessages + 1) in
        if ltb shorter wait_time_mini
        then (if ltb old_wait_time wait_time_mini then old_wait_time else wait_time_mini)
        else shorter)

unfoldable pub watched : ℕ → ℕ → Response → ℕ → Loop → Loop
unfolding adapted
watched wait_time_mini wait_time_maxi response nbmessages l =
    if is_forbidden response
    then record l { wait_time = 10 * 4; state = wait_loading_login_page }
    else (let polled : Loop = record l {
      wait_time = adapted wait_time_mini wait_time_maxi nbmessages l.wait_time;
    } in
        if ltb 4 l.u
        then record polled { u = 0; state = wait_retrieving_the_list_of_users }
        else record polled { u = l.u + 1; state = wait_watching_new_messages })

abbrev pub retrieved_the_list : Loop → Loop
retrieved_the_list l = record l { state = watching_new_messages }

-- What `irc_message` gets, the host being always the same, and whether the client's own message is
-- to be shown again (irc_will_reprint_my_message).
pub data Told : Type 0 where
  told : Bytes → Bytes → Told
  reprints : Told

-- The answer to a message that was posted, with the bytes that came first.
unfoldable pub answered : ℕ → Bytes → Response → Loop → Loop × List Told
answered wait_time_awake buf response l =
    let failed : Loop = record l { outgoingmsgretry = l.outgoingmsgretry + 1 } in
    let dropped : Loop = record failed { outgoingmsg = none; state = watching_new_messages } in
    let given_up : Loop × List Told = (
      record l {
        outgoingmsg = none;
        outgoingmsgretry = 0;
        wait_time = 12;
        state = wait_watching_new_messages;
      },
      told (codes "TOO_MUCH_RETRY") buf ∷ [],
    ) in
    elim response [
      | no_code ↦
          if ltb l.outgoingmsgretry 2
          then (dropped, told (codes "ERROR") (codes "UNKNOW ERROR") ∷ [])
          else given_up
      | code n ↦
          if n == 200
          then (
            record l {
              outgoingmsg = none;
              outgoingmsgretry = 0;
              wait_time = wait_time_awake;
              state = watching_new_messages;
            },
            if l.outgoingmsgretry == 0 then [] else reprints ∷ [],
          )
          else if ltb l.outgoingmsgretry 2
          then (if n == 400
              then (
                record failed { wait_time = 12; state = wait_posting_a_message },
                told (codes "RETRYING_TO_SEND") buf ∷ [],
              )
              else if n == 403
              then (
                record failed { wait_time = 2; state = loading_login_page },
                told (codes "RETRYING_RELOG") buf ∷ [],
              )
              else (dropped, told (codes "ERROR") buf ∷ []))
          else given_up
    ]

-- POSTING_A_MESSAGE, with the answer where one came.
unfoldable pub posted : ℕ → Option (Bytes × Response) → Loop → Loop × List Told
unfolding answered
posted wait_time_awake answer l =
    if is_some l.outgoingmsg
    then elim answer [ none ↦ (l, []) | some a ↦ answered wait_time_awake a.0 a.1 l ]
    else (record l { state = watching_new_messages }, [])

abbrev pub or_else : Option Bytes → Option Bytes → Option Bytes
or_else none b = b
or_else (some a) b = some a

abbrev pub same_state : Option State → State → Bool
same_state none state = false
same_state (some old) state = rank old == rank state

-- One turn in a waiting state. `display` and `irc` are what display_driver and irc_driver give, if
-- they are called.
unfoldable pub waited : Option Bytes → Option Bytes → Loop → Loop
waited display irc l =
    let t = if same_state l.oldstate l.state then l.t else l.wait_time in
    let ticked : Loop =
      if t == 0 then record l { t = t; state = next l.state } else record l { t = t - 1 } in
    let polled : Loop =
      if l.poll_requested
      then record ticked {
        poll_requested = false;
        wait_time = 7 * 4;
        state = retrieving_the_list_of_users;
      }
      else ticked in
    let outgoing = or_else l.outgoingmsg (or_else display irc) in
    let state =
      if is_some outgoing && leb 6 (rank polled.state) && not (rank polled.state == 10)
      then posting_a_message
      else polled.state in
    record polled { outgoingmsg = outgoing; state = state; oldstate = some state }
