-- ===== src/Main/Message.antt =====
-- main.c: `minichat_message`, what becomes of a message of the chat. `none` is undefined behaviour.
pub mod Backlog
use minichatclient.Base.{
  ℕ, zero, suc, Bool, true, false, ◌&&◌, not, List, [], ◌∷◌, ◌++◌, Option, none, some, Bytes, ◌==◌,
  ltb, if◌then◌else◌, is_some, codes, ◌>>=◌,
}
use minichatclient.Text.Strings.{mconcat}
use minichatclient.Nicklist.{nicklist_alloc_ident}

-- `strncmp(a, b, n) > 0`
unfoldable pub is_above : ℕ → Bytes → Bytes → Bool
is_above zero a b = false
is_above (suc n) [] b = false
is_above (suc n) (x ∷ a) [] = true
is_above (suc n) (x ∷ a) (y ∷ b) = let rest = is_above n a b in if x == y then rest else ltb y x

-- `msgid` is an array, so it is never null.
pub record Message : Type 0 where
  pub username : Bytes
  pub message : Bytes
  pub usericonurl : Option Bytes
  pub userprofileurl : Option Bytes
  pub msgid : Bytes

pub data Effect : Type 0 where
  -- display_conversation
  shows : Bytes → Effect
  -- the line in the log file, behind its time
  logs : Bytes → Effect
  -- nicklist_msg_update
  updates : Bytes → Option Bytes → Option Bytes → Effect
  -- irc_message
  tells : Bytes → Bytes → Bytes → Effect

-- The id that is known, unless the message's one is later.
abbrev pub still_known : Option Bytes → Bytes → Option Bytes
still_known none msgid = none
still_known (some known) msgid = if is_above 29 msgid known then none else some known

-- `if (!know_msgid && msg->msgid)`
abbrev pub known_after : Option Bytes → Bytes → Option Bytes
known_after none msgid = some msgid
known_after (some known) msgid = some known

-- `is_backlog` says that the state is GET_THE_BACKLOG; `know_msgid` is a static variable.
unfoldable pub minichat_message :
    Bool → Option Bytes → Message → Option (Option Bytes × List Effect)
unfolding is_above nicklist_alloc_ident
minichat_message is_backlog know_msgid msg =
    let known = still_known know_msgid msg.msgid in
    let shown = shows (mconcat (codes "<" ∷ msg.username ∷ codes "> " ∷ msg.message ∷ [])) in
    let logged =
      logs (mconcat (codes "<" ∷ msg.username ∷ codes "> " ∷ msg.message ∷ codes "\r\n" ∷ [])) in
    let updated =
      if is_backlog then [] else updates msg.username msg.userprofileurl msg.usericonurl ∷ [] in
    if is_backlog && is_some known then some (known_after known msg.msgid, shown ∷ updated) else (do
      ident ← nicklist_alloc_ident msg.userprofileurl
      some (
        known_after known msg.msgid,
        shown ∷ logged ∷ (updated ++ tells msg.username ident msg.message ∷ []),
      ))
