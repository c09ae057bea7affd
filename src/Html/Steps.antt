-- ===== src/Html/Steps.antt =====
-- parsehtml.c: the cases of the `switch` of `parse_minichat_mess`.
use minichatclient.Base.{
  ℕ, ◌+◌, ◌-◌, Bool, true, false, List, [], ◌∷◌, ◌++◌, Option, none, some, Bytes, length, take,
  ◌==◌, leb, if◌then◌else◌, codes, ◌>>=◌, write, c_string,
}
use minichatclient.Text.Replace.{strrep}
use minichatclient.Text.Strings.{html_strip_tags}
use minichatclient.Main.Message.{Message}
use minichatclient.Html.{
  State, Event, Parser, Env, ready, in_creation_time, in_form_token, in_msg_id,
  looking_for_profile_url, looking_for_usericon_url, looking_for_message, in_message,
  in_message_and_in_div, looking_for_username, in_username, looking_for_stats, looking_for_users,
  looking_for_users_in_a, looking_for_users_in_a_href, looking_for_users_in_username, says, topic,
  recup_start, recup_name, recup_end, watchfor, watchfor2, put, close, decode_into,
}

abbrev pub Outcome : Type 0
Outcome = Option (Parser × List Event)

abbrev pub mess_tag : Bytes
mess_tag = codes "<div id=\"mess"

abbrev pub stats_tag : Bytes
stats_tag = codes "<div id=\"mChatStats\" class=\"mChatStats\">"

abbrev pub twin_stats_tag : Bytes
twin_stats_tag = codes "<div class=\"mChatStats\" id=\"mChatStats\">"

abbrev pub creation_time_tag : Bytes
creation_time_tag = codes "<input type=\"hidden\" name=\"creation_time\" value=\""

abbrev pub form_token_tag : Bytes
form_token_tag = codes "<input type=\"hidden\" name=\"form_token\" value=\""

abbrev pub message_tag : Bytes
message_tag = codes "<div class=\"avatarMessage mChatMessage\">"

-- `if (watchfor(…)) { o=0; state = …; }`
abbrev pub enter_if : Bool → State → Parser → Parser
enter_if found state p = if found then record p { out = []; state = state } else p

unfoldable pub step_ready : Parser → ℕ → Outcome
unfolding watchfor watchfor2
step_ready p c = do
  (mess, j) ← watchfor mess_tag c p.j
  (stats, l) ← watchfor2 stats_tag twin_stats_tag c p.l
  (time, m) ← watchfor creation_time_tag c p.m
  (token, n) ← watchfor form_token_tag c p.n
  some (
    enter_if token in_form_token (
        enter_if time in_creation_time (
          enter_if stats looking_for_stats
            (enter_if mess in_msg_id (record p { j = j; l = l; m = m; n = n })))),
    [],
  )

-- `else { buffer[o++] = input[i]; }`
unfoldable pub keep : ℕ → Parser → Outcome
unfolding put
keep c p = do q ← put c p; some (q, [])

-- The states IN_CREATION_TIME and IN_FORM_TOKEN.
unfoldable pub step_value : (Bytes → Event) → Parser → ℕ → Outcome
unfolding keep close
step_value event p c =
    let kept = keep c p in
    if c == b'"'
    then (do text ← close p.out; some (record p { state = ready }, event text ∷ []))
    else kept

unfoldable pub step_msg_id : Parser → ℕ → Outcome
step_msg_id p c =
    let j = if leb 20 p.j then p.j - 5 else p.j in
    if c == b'"'
    then (do
      msgid ← write p.msgid p.j 0
      some (record p { msgid = msgid; state = looking_for_usericon_url }, []))
    else (do msgid ← write p.msgid j c; some (record p { msgid = msgid; j = j + 1 }, []))

-- The states that wait for one string.
unfoldable pub step_watch : Bytes → State → Bytes → Parser → ℕ → Outcome
unfolding watchfor
step_watch string state out p c = do
  (found, j) ← watchfor string c p.j
  some ((if found then record p { j = j; out = out; state = state } else record p { j = j }), [])

-- The states that read up to a byte, and give the text decoded to one of the fields of `*msg`.
unfoldable pub step_until : Env → ℕ → (Bytes → Parser → Parser) → Parser → ℕ → Outcome
unfolding keep close decode_into
step_until env end store p c =
    let kept = keep c p in
    if c == end
    then (do
      text ← close p.out
      decoded ← decode_into env (length p.out + 1) text
      some (store decoded p, []))
    else kept

abbrev pub set_icon : Bytes → Parser → Parser
set_icon text p = record p { usericonurl = some text; state = looking_for_profile_url }

abbrev pub set_profile : Bytes → Parser → Parser
set_profile text p = record p { userprofileurl = some text; state = looking_for_username }

abbrev pub set_username : Bytes → Parser → Parser
set_username text p = record p {
  username = some text;
  nbmessages = p.nbmessages + 1;
  state = looking_for_message;
}

unfoldable pub step_before_username : Parser → ℕ → Outcome
step_before_username p c = some (enter_if (c == b'>') in_username p, [])

-- `o -= strlen("</div>"); buffer[o] = '\0'`: below zero, the index is near 2 ^ 32.
unfoldable pub cut_div : Bytes → Option Bytes
cut_div out = if leb 6 (length out) then some (take (length out - 6) out) else none

-- The text of a message: what the rules make of it where there are some, decoded.
unfoldable pub message_text : Env → Bytes → Option Bytes
unfolding decode_into
message_text env out = elim env.config [
  | some rules ↦ do tmp ← rules (c_string out); decode_into env (length tmp + 1) tmp
  | none ↦ decode_into env (length out + 1) (c_string out)
]

-- `minichat_message(msg)`; a null `username` does not come here.
unfoldable pub message_of : Parser → Bytes → Option Message
message_of p text = do
  username ← p.username
  some (record {
    username = username;
    message = text;
    usericonurl = p.usericonurl;
    userprofileurl = p.userprofileurl;
    msgid = c_string p.msgid;
  })

-- `if (watchfor("</div>", …)) { … }` in IN_MESSAGE
unfoldable pub end_message : Env → Bool → Parser → Outcome
unfolding cut_div message_text message_of
end_message env false p = some (p, [])
end_message env true p = do
  out ← cut_div p.out
  text ← message_text env out
  msg ← message_of p text
  some (record p { out = out; message = some text; state = ready }, says msg ∷ [])

unfoldable pub step_message : Env → Parser → ℕ → Outcome
unfolding put watchfor watchfor2 end_message
step_message env p c = do
  p ← put c p
  (found, j) ← watchfor (codes "</div>") c p.j
  (p, events) ← end_message env found (record p { j = j })
  (opened, l) ← watchfor2 (codes "<div>") (codes "<div ") c p.l
  some (
    (if opened then record p { l = l; state = in_message_and_in_div } else record p { l = l }),
    events,
  )

unfoldable pub step_message_in_div : Parser → ℕ → Outcome
unfolding put watchfor
step_message_in_div p c = do
  p ← put c p
  (found, j) ← watchfor (codes "</div>") c p.j
  some ((if found then record p { j = j; state = in_message } else record p { j = j }), [])

-- `strrep(NULL, &tmp, needle, replace)`
unfoldable pub sanitized : Bytes → Bytes → Bytes → Option Bytes
sanitized needle replace tmp = do (_, text) ← strrep none (some tmp) needle replace; some text

-- The topic in the buffer, whose string is closed already: stripped, decoded and sanitized. The
-- block has `o` bytes, the terminating zero included.
unfoldable pub topic_of : Env → Bytes → Option Bytes
unfolding decode_into sanitized
topic_of env out = do
  tmp ← decode_into env (length out + 1) (html_strip_tags (c_string out))
  tmp ← sanitized (codes "  ") (codes " ") tmp
  tmp ← sanitized (codes "( ") (codes "(") tmp
  tmp ← sanitized (codes " )") (codes ")") tmp
  tmp ← sanitized (codes "  ") (codes " ") tmp
  sanitized (codes "  ") (codes " ") tmp

-- The two ends of the line of the topic.
unfoldable pub end_topic : Env → Bool → Parser → Outcome
unfolding close topic_of
end_topic env false p = some (p, [])
end_topic env true p = do
  _ ← close p.out
  text ← topic_of env p.out
  some (record p { out = []; state = looking_for_users }, topic text ∷ recup_start ∷ [])

unfoldable pub end_stats : Env → Bool → Parser → Outcome
unfolding cut_div topic_of
end_stats env false p = some (p, [])
end_stats env true p = do
  out ← cut_div p.out
  text ← topic_of env out
  some (record p { out = []; state = ready }, topic text ∷ recup_start ∷ recup_end ∷ [])

unfoldable pub step_stats : Env → Parser → ℕ → Outcome
unfolding put watchfor end_topic end_stats
step_stats env p c = do
  p ← put c p
  (line_ended, l) ← watchfor (codes "<br />") c p.l
  (p, events) ← end_topic env line_ended (record p { l = l })
  (div_ended, j) ← watchfor (codes "</div>") c p.j
  (p, more) ← end_stats env div_ended (record p { j = j })
  some (p, events ++ more)

unfoldable pub step_users : Parser → ℕ → Outcome
unfolding watchfor
step_users p c = do
  (ended, j) ← watchfor (codes "</div>") c p.j
  (opened, l) ← watchfor (codes "<a ") c p.l
  some (
    enter_if opened looking_for_users_in_a
        (if ended then record p { j = j; l = l; state = ready } else record p { j = j; l = l }),
    (if ended then recup_end ∷ [] else []),
  )

unfoldable pub step_users_in_a : Parser → ℕ → Outcome
unfolding watchfor
step_users_in_a p c = do
  (found, l) ← watchfor (codes "href=\"") c p.l
  some (
    enter_if found looking_for_users_in_a_href
        (enter_if (c == b'>') looking_for_users_in_username (record p { l = l })),
    [],
  )

abbrev pub set_url : Bytes → Parser → Parser
set_url text p = record p { url = some text; out = []; state = looking_for_users_in_a }

unfoldable pub step_users_in_username : Parser → ℕ → Outcome
unfolding keep close
step_users_in_username p c =
    let kept = keep c p in
    if c == b'<'
    then (do
      text ← close p.out
      some (record p { url = none; state = looking_for_users }, recup_name text p.url ∷ []))
    else kept
