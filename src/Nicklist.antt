-- ===== src/Nicklist.antt =====
-- nicklist.c: who is in the chat. The calls that it makes of the display and of the IRC side are
-- the events that an operation returns, in order. Times are seconds, and `now` is what `time(NULL)`
-- gives at the call. `none` is undefined behaviour.
pub mod Distinct
pub mod Members
pub mod Expiry
pub mod Whois
mod Tests
use minichatclient.Base.{
  ℕ, zero, suc, ◌+◌, ◌*◌, Bool, true, false, List, [], ◌∷◌, ◌++◌, Option, none, some, Bytes, drop,
  ltb, if◌then◌else◌, str_eq, codes, ◌>>=◌,
}
use minichatclient.Text.Search.{strstr}

pub record Entry : Type 0 where
  pub nickname : Bytes
  pub ident : Option Bytes
  pub profile_url : Option Bytes
  pub icon_url : Option Bytes
  pub added : ℕ
  pub lastseen : ℕ
  -- 0 where the person has not talked
  pub lastmessage : ℕ
  pub invisible : Bool
  pub enterednow : Bool

pub data Event : Type 0 where
  -- display_nicklist
  display : Option Bytes → Event
  -- irc_join, irc_part
  join : Bytes → Option Bytes → Event
  part : Bytes → Option Bytes → Option Bytes → Event
  -- irc_topic_mode3_showtime
  show_topic : Event

abbrev pub nicklist_init : List Entry
nicklist_init = []

abbrev pub nicklist_destroy : List Entry → List Entry
nicklist_destroy l = []

-- `p = strstr(profile_url, "&u=") + 3` is never null. Without a match it points to address 3, and
-- with a null URL `strstr` is given a null pointer.
unfoldable pub nicklist_alloc_ident : Option Bytes → Option Bytes
nicklist_alloc_ident none = none
nicklist_alloc_ident (some url) = elim (strstr url (codes "&u=")) [
  | none ↦ none
  | some k ↦ some (drop 3 (drop k url))
]

-- `if (profile_url && !np->profile_url)`
abbrev pub keep_first : Option Bytes → Option Bytes → Option Bytes
keep_first none new = new
keep_first (some old) new = some old

-- `if (icon_url)`: the new one, also where the old one is the same.
abbrev pub refresh : Option Bytes → Option Bytes → Option Bytes
refresh old none = old
refresh old (some new) = some new

-- A known person talked.
abbrev pub talked : ℕ → Option Bytes → Option Bytes → Entry → Entry
talked now profile_url icon_url e = record e {
  enterednow = false;
  lastseen = now;
  lastmessage = now;
  profile_url = keep_first e.profile_url profile_url;
  icon_url = refresh e.icon_url icon_url;
}

-- A known person is in the list of the server.
abbrev pub listed : ℕ → Option Bytes → Entry → Entry
listed now profile_url e = record e {
  enterednow = false;
  invisible = false;
  lastseen = now;
  profile_url = keep_first e.profile_url profile_url;
}

-- `STAILQ_FOREACH` to the first element of that name; `none` where there is none.
unfoldable pub update_first : Bytes → (Entry → Entry) → List Entry → Option (List Entry)
update_first nickname f [] = none
update_first nickname f (e ∷ l) =
    let rest = update_first nickname f l in
    if str_eq nickname e.nickname
    then some (f e ∷ l)
    else elim rest [ none ↦ none | some r ↦ some (e ∷ r) ]

-- An entry made by `nicklist_msg_update`, and one made by `nicklist_recup_name`.
abbrev pub new_talker : ℕ → Bytes → Option Bytes → Option Bytes → Bytes → Entry
new_talker now nickname profile_url icon_url ident = record {
  nickname = nickname;
  ident = some ident;
  profile_url = profile_url;
  icon_url = icon_url;
  added = now;
  lastseen = now;
  lastmessage = now;
  invisible = true;
  enterednow = true;
}

abbrev pub new_listed : ℕ → Bytes → Option Bytes → Bytes → Entry
new_listed now nickname profile_url ident = record {
  nickname = nickname;
  ident = some ident;
  profile_url = profile_url;
  icon_url = none;
  added = now;
  lastseen = now;
  lastmessage = 0;
  invisible = false;
  enterednow = true;
}

abbrev pub Outcome : Type 0
Outcome = Option (List Entry × List Event)

unfoldable pub nicklist_msg_update :
    ℕ → Option Bytes → Option Bytes → Option Bytes → List Entry → Outcome
unfolding nicklist_alloc_ident update_first
nicklist_msg_update now none profile_url icon_url l = some (l, [])
nicklist_msg_update now (some nickname) profile_url icon_url l =
    elim (update_first nickname (talked now profile_url icon_url) l) [
      | some l' ↦ some (l', [])
      | none ↦ do
        ident ← nicklist_alloc_ident profile_url
        some (
          l ++ new_talker now nickname profile_url icon_url ident ∷ [],
          display (some nickname) ∷ join nickname (some ident) ∷ [],
        )
    ]

unfoldable pub nicklist_recup_name : ℕ → Option Bytes → Option Bytes → List Entry → Outcome
unfolding nicklist_alloc_ident update_first
nicklist_recup_name now none profile_url l = some (l, [])
nicklist_recup_name now (some nickname) profile_url l =
    elim (update_first nickname (listed now profile_url) l) [
      | some l' ↦ some (l', [])
      | none ↦ do
        ident ← nicklist_alloc_ident profile_url
        some (l ++ new_listed now nickname profile_url ident ∷ [], join nickname (some ident) ∷ [])
    ]

-- Seen last more than 20 minutes ago, or one minute for the visible.
abbrev pub is_gone : ℕ → Entry → Bool
is_gone now e = if e.invisible then ltb (e.lastseen + 20 * 60) now else ltb (e.lastseen + 60) now

abbrev pub part_message : Entry → Option Bytes
part_message e = if e.invisible then some (codes "invisible and 20mn inactive") else none

abbrev pub settled : Entry → Entry
settled e = if e.invisible then record e { enterednow = false } else e

-- The loop of `nicklist_recup_end`.
unfoldable pub sweep : ℕ → List Entry → List Entry × List Event
sweep now [] = ([], [])
sweep now (e ∷ l) =
    let (kept, events) = sweep now l in
    if is_gone now e
    then (kept, part e.nickname e.ident (part_message e) ∷ events)
    else (settled e ∷ kept, display (some e.nickname) ∷ events)

unfoldable pub nicklist_recup_end : ℕ → List Entry → List Entry × List Event
unfolding sweep
nicklist_recup_end now l =
    let (kept, events) = sweep now l in (kept, display none ∷ (events ++ show_topic ∷ []))

-- The entry of a name, as the loops find it.
unfoldable pub find : Bytes → List Entry → Option Entry
find nickname [] = none
find nickname (e ∷ l) =
    let rest = find nickname l in if str_eq nickname e.nickname then some e else rest
