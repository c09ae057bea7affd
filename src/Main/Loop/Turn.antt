-- ===== src/Main/Loop/Turn.antt =====
-- main.c: one turn of the main loop, the connection and then the `switch`.
use minichatclient.Base.{
  ℕ, ◌%◌, ◌≡◌, Bool, true, false, ◌&&◌, Option, none, some, arith, Bytes, ◌==◌, List, [],
  if◌then◌else◌, is_some,
}
use minichatclient.Main.Loop.{
  State, Loop, Response, code, Told, rank, connect, loaded_login_page, authenticated,
  got_the_backlog, watched, retrieved_the_list, posted, waited, wait_loading_login_page,
  loading_login_page, wait_submit_authentification, submit_authentification, wait_get_the_backlog,
  get_the_backlog, wait_watching_new_messages, watching_new_messages,
  wait_retrieving_the_list_of_users, retrieving_the_list_of_users, wait_posting_a_message,
  posting_a_message,
}

-- `wait_time_mini`, `wait_time_maxi` and `wait_time_awake`.
pub record Timings : Type 0 where
  pub mini : ℕ
  pub maxi : ℕ
  pub awake : ℕ

-- What a turn gets from outside: the connection, the user's name and password, the first bytes of
-- the answer with its code, the number of messages on the page, and what the user says. `before` is
-- the code of the last answer that was kept in `response`.
pub record World : Type 0 where
  pub connected : Bool
  pub credentials : Bool
  pub answer : Option (Bytes × Response)
  pub before : Response
  pub nbmessages : ℕ
  pub display : Option Bytes
  pub irc : Option Bytes

abbrev pub is_waiting : State → Bool
is_waiting state = rank state % 2 == 0

-- `response`, where it is set to a value before the answer is read.
abbrev pub response_or : Response → Option (Bytes × Response) → Response
response_or default none = default
response_or default (some a) = a.1

-- The `switch`, on the state, which is that of the loop.
unfoldable pub switch : Timings → World → State → Loop → Loop × List Told
switch timings w loading_login_page l = (loaded_login_page l, [])
switch timings w submit_authentification l = (authenticated w.credentials l, [])
switch timings w get_the_backlog l = (got_the_backlog (response_or (code 0) w.answer) l, [])
switch timings w watching_new_messages l =
    (watched timings.mini timings.maxi (response_or w.before w.answer) w.nbmessages l, [])
switch timings w retrieving_the_list_of_users l = (retrieved_the_list l, [])
switch timings w posting_a_message l = posted timings.awake w.answer l
switch timings w wait_loading_login_page l = (waited w.display w.irc l, [])
switch timings w wait_submit_authentification l = (waited w.display w.irc l, [])
switch timings w wait_get_the_backlog l = (waited w.display w.irc l, [])
switch timings w wait_watching_new_messages l = (waited w.display w.irc l, [])
switch timings w wait_retrieving_the_list_of_users l = (waited w.display w.irc l, [])
switch timings w wait_posting_a_message l = (waited w.display w.irc l, [])

unfoldable pub turn : Timings → World → Loop → Loop × List Told
unfolding switch connect
turn timings w l =
    let l1 = if is_waiting l.state then l else connect w.connected l in switch timings w l1.state l1

switch-kept :
    (timings : Timings) (w : World) (state : State) (l : Loop) (message : Bytes)
    → l.outgoingmsg ≡ some message
    → (rank state == 11 && is_some w.answer) ≡ false
    → (switch timings w state l).0.outgoingmsg ≡ some message
unfolding switch got_the_backlog watched posted waited
switch-kept timings w loading_login_page l message m a = ground arith
switch-kept timings w submit_authentification l message m a = ground arith
switch-kept timings w get_the_backlog l message m a = ground arith
switch-kept timings w watching_new_messages l message m a = ground arith
switch-kept timings w retrieving_the_list_of_users l message m a = ground arith
switch-kept timings w posting_a_message l message m a = ground arith
switch-kept timings w wait_loading_login_page l message m a = ground arith
switch-kept timings w wait_submit_authentification l message m a = ground arith
switch-kept timings w wait_get_the_backlog l message m a = ground arith
switch-kept timings w wait_watching_new_messages l message m a = ground arith
switch-kept timings w wait_retrieving_the_list_of_users l message m a = ground arith
switch-kept timings w wait_posting_a_message l message m a = ground arith

connect-posting :
    (connected : Bool) (l : Loop)
    → (rank (connect connected l).state == 11) ≡ true
    → (rank l.state == 11) ≡ true
unfolding connect
connect-posting connected l h = ground arith

connect-outgoingmsg :
    (connected : Bool) (l : Loop) → (connect connected l).outgoingmsg ≡ l.outgoingmsg
unfolding connect
connect-outgoingmsg connected l = ground arith

-- A message that waits to be sent is neither lost nor replaced in a turn, whatever the state is,
-- whether the server can be reached or not, and whatever else the user says, unless the message is
-- being posted and the server answers.
pub turn-kept :
    (timings : Timings) (w : World) (l : Loop) (message : Bytes)
    → l.outgoingmsg ≡ some message
    → (rank l.state == 11 && is_some w.answer) ≡ false
    → (turn timings w l).0.outgoingmsg ≡ some message
unfolding turn
turn-kept timings w l message m a =
    let l1 = connect w.connected l in
    ground (
      arith,
      connect-posting w.connected l,
      connect-outgoingmsg w.connected l,
      switch-kept timings w l.state l message m,
      switch-kept timings w l1.state l1 message,
    )
