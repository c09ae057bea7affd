-- ===== src/Html.antt =====
-- parsehtml.c: the parser of the pages of the chat, byte by byte: its static variables, what it
-- calls, and `watchfor`, which looks for a string across bytes. `none` is undefined behaviour: an
-- access out of the bounds of an array, or of a block of memory.
pub mod Steps
pub mod Page
pub mod Watch
pub mod Safety
pub mod Pieces
pub mod Reads
pub mod Bodies
pub mod Idle
pub mod Blocks
pub mod Messages
pub mod Values
pub mod Rules
mod Tests
use minichatclient.Base.{
  ℕ, suc, zero, ◌+◌, ◌-◌, Bool, true, false, ◌||◌, List, [], ◌∷◌, ◌++◌, Option, none, some, Bytes,
  length, get_or, ◌==◌, ltb, leb, if◌then◌else◌, ◌>>=◌, c_string,
}
use minichatclient.Main.Message.{Message}

pub data State : Type 0 where
  ready in_creation_time in_form_token in_msg_id looking_for_profile_url in_profile_url
        looking_for_usericon_url in_usericon_url looking_for_message in_message
        in_message_and_in_div looking_for_username in_username looking_for_stats looking_for_users
        looking_for_users_in_a looking_for_users_in_a_href looking_for_users_in_username :
      State

-- What is called, in order.
pub data Event : Type 0 where
  -- set_creation_time, set_form_token
  creation_time form_token : Bytes → Event
  -- minichat_message
  says : Message → Event
  -- nicklist_topic, nicklist_recup_start, nicklist_recup_name, nicklist_recup_end
  topic : Bytes → Event
  recup_start : Event
  recup_name : Bytes → Option Bytes → Event
  recup_end : Event
  -- display_debug("parsehtml.c output buffer is full, sorry.", 0)
  full : Event

-- The static variables, and `*msg`. The list `out` is the first `o` bytes of `buffer`; `msgid` is
-- the whole array.
pub record Parser : Type 0 where
  pub state : State
  pub oldstate : State
  pub j : ℕ
  pub l : ℕ
  pub m : ℕ
  pub n : ℕ
  pub nbmessages : ℕ
  pub out : Bytes
  pub url : Option Bytes
  pub username : Option Bytes
  pub message : Option Bytes
  pub usericonurl : Option Bytes
  pub userprofileurl : Option Bytes
  pub msgid : Bytes

-- The code that is called for its result: `decode_html_entities_utf8` of entities.c, which is a
-- copied library, and, where rules are loaded, `parse_html_in_message` with these rules.
pub record Env : Type 0 where
  pub decode : Bytes → Bytes
  pub config : Option (Bytes → Option Bytes)

-- `sizeof(buffer)`
abbrev pub buffer_size : ℕ
buffer_size = 2000

-- `string[counter]`, with the terminating zero.
unfoldable pub string_at : Bytes → ℕ → Option ℕ
string_at string counter =
    if leb counter (length string) then some (get_or string counter 0) else none

-- The answer, and the counter afterwards.
unfoldable pub watchfor : Bytes → ℕ → ℕ → Option (Bool × ℕ)
unfolding string_at
watchfor string c counter = do
  x ← string_at string counter
  if c == x
      then (if leb (length string) (counter + 1) then some (true, 0) else some (false, counter + 1))
      else some (false, 0)

unfoldable pub watchfor2 : Bytes → Bytes → ℕ → ℕ → Option (Bool × ℕ)
unfolding string_at
watchfor2 str1 str2 c counter = do
  x ← string_at str1 counter
  y ← string_at str2 counter
  if c == x || c == y
      then (if leb (length str1) (counter + 1) || leb (length str2) (counter + 1)
          then some (true, 0)
          else some (false, counter + 1))
      else some (false, 0)

-- `buffer[o++] = c`
unfoldable pub put : ℕ → Parser → Option Parser
put c p = if ltb (length p.out) buffer_size then some (record p { out = p.out ++ c ∷ [] }) else none

-- `buffer[o] = '\0'`, and the string that the buffer holds then.
unfoldable pub close : Bytes → Option Bytes
close out = if ltb (length out) buffer_size then some (c_string out) else none

-- `decode_html_entities_utf8(malloc(size), text)`, what is in the block.
unfoldable pub decode_into : Env → ℕ → Bytes → Option Bytes
decode_into env size text =
    if ltb (length (env.decode text)) size then some (env.decode text) else none
