-- ===== src/Html/Page.antt =====
-- parsehtml.c: `parse_minichat_mess`, called with each piece of a page that comes.
use minichatclient.Base.{
  ℕ, Bool, false, ◌||◌, List, [], ◌∷◌, ◌++◌, Option, none, some, Bytes, length, replicate, ◌==◌,
  leb, if◌then◌else◌, codes, ◌>>=◌,
}
use minichatclient.Html.{
  State, Event, Parser, Env, ready, in_creation_time, in_form_token, in_msg_id,
  looking_for_profile_url, in_profile_url, looking_for_usericon_url, in_usericon_url,
  looking_for_message, in_message, in_message_and_in_div, looking_for_username, in_username,
  looking_for_stats, looking_for_users, looking_for_users_in_a, looking_for_users_in_a_href,
  looking_for_users_in_username, creation_time, form_token, full, buffer_size,
}
use minichatclient.Html.Steps.{
  Outcome, step_ready, step_value, step_msg_id, step_watch, step_until, set_icon, set_profile,
  set_username, set_url, step_before_username, step_message, step_message_in_div, step_stats,
  step_users, step_users_in_a, step_users_in_username, message_tag,
}

-- The `switch`, in the state given, which is `p.state`.
unfoldable pub switch : Env → State → Parser → ℕ → Outcome
switch env ready p c = step_ready p c
switch env in_creation_time p c = step_value creation_time p c
switch env in_form_token p c = step_value form_token p c
switch env in_msg_id p c = step_msg_id p c
switch env looking_for_usericon_url p c = step_watch (codes "<img src=\"") in_usericon_url [] p c
switch env in_usericon_url p c = step_until env b'"' set_icon p c
switch env looking_for_profile_url p c =
    step_watch (codes "<a href=\".") in_profile_url (codes ".") p c
switch env in_profile_url p c = step_until env b'"' set_profile p c
switch env looking_for_username p c = step_before_username p c
switch env in_username p c = step_until env b'<' set_username p c
switch env looking_for_message p c = step_watch message_tag in_message [] p c
switch env in_message_and_in_div p c = step_message_in_div p c
switch env in_message p c = step_message env p c
switch env looking_for_stats p c = step_stats env p c
switch env looking_for_users p c = step_users p c
switch env looking_for_users_in_a p c = step_users_in_a p c
switch env looking_for_users_in_a_href p c = step_until env b'"' set_url p c
switch env looking_for_users_in_username p c = step_users_in_username p c

-- The number of a state in the enumeration.
unfoldable pub number : State → ℕ
number ready = 0
number in_creation_time = 1
number in_form_token = 2
number in_msg_id = 3
number looking_for_profile_url = 4
number in_profile_url = 5
number looking_for_usericon_url = 6
number in_usericon_url = 7
number looking_for_message = 8
number in_message = 9
number in_message_and_in_div = 10
number looking_for_username = 11
number in_username = 12
number looking_for_stats = 13
number looking_for_users = 14
number looking_for_users_in_a = 15
number looking_for_users_in_a_href = 16
number looking_for_users_in_username = 17

-- `if (state != oldstate) { j=0; l=0; oldstate = state; }`
unfoldable pub sync : Parser → Parser
unfolding number
sync p =
    if number p.state == number p.oldstate then p else record p { j = 0; l = 0; oldstate = p.state }

-- `if (o>=sizeof(buffer)) { o=0; display_debug(…); }`
unfoldable pub guard_full : Outcome → Outcome
guard_full outcome = do
  (p, events) ← outcome
  if leb buffer_size (length p.out)
      then some (record p { out = [] }, events ++ full ∷ [])
      else some (p, events)

-- A round of the loop.
unfoldable pub round : Env → Parser → ℕ → Outcome
unfolding switch sync guard_full
round env p c =
    let q = sync p in
    if c == 13 || c == 10 then some (q, []) else guard_full (switch env q.state q c)

unfoldable pub parse_loop : Env → Parser → Bytes → Outcome
unfolding round
parse_loop env p [] = some (p, [])
parse_loop env p (c ∷ input) = do
  (q, events) ← round env p c
  (r, more) ← parse_loop env q input
  some (r, events ++ more)

-- `if (reset) { … }`: the counters `m` and `n` stay, and `oldstate`.
abbrev pub reset : Parser → Parser
reset p = record p {
  state = ready;
  j = 0;
  l = 0;
  out = [];
  nbmessages = 0;
  username = none;
  message = none;
  usericonurl = none;
  userprofileurl = none;
  url = none;
}

-- The result is the number returned, 0 where there is no byte.
unfoldable pub parse_minichat_mess : Env → Bool → Bytes → Parser → Option (ℕ × Parser × List Event)
unfolding parse_loop
parse_minichat_mess env restart [] p = some (0, (if restart then reset p else p), [])
parse_minichat_mess env restart (c ∷ input) p = do
  (q, events) ← parse_loop env (if restart then reset p else p) (c ∷ input)
  some (q.nbmessages, q, events)

-- The loop of main.c around `network_recv`, on the pieces that come, each of one byte or more: the
-- flag `k` resets the parser at the first piece, and `nbmessages` has what the last call returned.
unfoldable pub receive : Env → Bool → ℕ → List Bytes → Parser → Option (ℕ × Parser × List Event)
unfolding parse_minichat_mess
receive env k nbmessages [] p = some (nbmessages, p, [])
receive env k nbmessages (piece ∷ pieces) p = do
  (n, q, events) ← parse_minichat_mess env k piece p
  (last, r, more) ← receive env false n pieces q
  some (last, r, events ++ more)

-- The static variables when the program starts, and a message that has no field yet.
abbrev pub initial : Parser
initial = record {
  state = ready;
  oldstate = ready;
  j = 0;
  l = 0;
  m = 0;
  n = 0;
  nbmessages = 0;
  out = [];
  url = none;
  username = none;
  message = none;
  usericonurl = none;
  userprofileurl = none;
  msgid = replicate 30 0;
}
