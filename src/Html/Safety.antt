-- ===== src/Html/Safety.antt =====
-- parsehtml.c: what keeps the parser inside its arrays and blocks, state by state.
pub mod Cases
pub mod Texts
pub mod Runs
use mathlib.Core.Path.{subst, sym, ◌∙◌}
use minichatclient.Base.{
  ℕ, suc, zero, ◌+◌, ◌-◌, ◌<◌, ◌≤◌, ◌≡◌, ◌≢◌, refl, Bool, true, false, ◌&&◌, ◌||◌, List, [], ◌∷◌,
  ◌++◌, Option, none, some, Bytes, length, length-append, ltb, ◌==◌, take, arith, is_some, codes,
  write-set, c_string, set, length-set, length-c_string, leb, if◌then◌else◌,
}
use minichatclient.Html.{
  State, Event, Parser, Env, ready, in_creation_time, in_form_token, in_msg_id,
  looking_for_profile_url, in_profile_url, looking_for_usericon_url, in_usericon_url,
  looking_for_message, in_message, in_message_and_in_div, looking_for_username, in_username,
  looking_for_stats, looking_for_users, looking_for_users_in_a, looking_for_users_in_a_href,
  looking_for_users_in_username, put, close, decode_into,
}
use minichatclient.Html.Steps.{
  Outcome, step_ready, step_value, step_msg_id, step_watch, step_until, set_icon, set_profile,
  set_username, set_url, enter_if, step_before_username, step_message, step_message_in_div,
  step_stats, step_users, step_users_in_a, step_users_in_username, message_tag, mess_tag, stats_tag,
  twin_stats_tag, creation_time_tag, form_token_tag, keep, cut_div, message_text, message_of,
  end_message, sanitized, topic_of, end_topic, end_stats,
}
use minichatclient.Html.Watch.{watchfor-Found, watchfor2-Found}
use minichatclient.Html.Page.{switch, sync, round, guard_full, number, parse_loop, reset}

-- The two strings that the topic is searched for share their first byte, and no other place: the
-- counters are never both above one.
abbrev pub Apart : ℕ → ℕ → Type 0
Apart j l = (j == 0 || l == 0 || (j == 1 && l == 1)) ≡ true

-- What the counters index next, by the state; a message needs the name that came before.
abbrev pub Fits : State → Parser → Type 0
Fits ready p = (p.j < 13) × (p.l < 40)
Fits in_msg_id p = p.j ≤ 20
Fits looking_for_usericon_url p = p.j < 10
Fits looking_for_profile_url p = p.j < 10
Fits looking_for_message p = (p.j < 40) × (is_some p.username ≡ true)
Fits in_message p = (p.j < 6) × (p.l < 5) × (p.j ≤ length p.out) × (is_some p.username ≡ true)
Fits in_message_and_in_div p = (p.j < 6) × (is_some p.username ≡ true)
Fits looking_for_stats p = (p.j < 6) × (p.l < 6) × (p.j ≤ length p.out) × Apart p.j p.l
Fits looking_for_users p = (p.j < 6) × (p.l < 3)
Fits looking_for_users_in_a p = p.l < 6
Fits _ p = Unit

-- The same where the counters are reset before the next byte.
abbrev pub FitsAtZero : State → Option Bytes → Type 0
FitsAtZero looking_for_message username = is_some username ≡ true
FitsAtZero in_message username = is_some username ≡ true
FitsAtZero in_message_and_in_div username = is_some username ≡ true
FitsAtZero _ username = Unit

-- What holds in every state, where `s` is the state of the last round.
abbrev pub IsKept : State → Parser → Type 0
IsKept s p =
    (p.oldstate ≡ s) × (length p.msgid ≡ 30) × (p.m < 49) × (p.n < 46) × (length p.out < 2000)

-- Between two bytes.
pub record IsAfter (s : State) (p : Parser) : Type 0 where
  pub kept : IsKept s p
  pub fits : (number p.state == number s) ≡ true → Fits p.state p
  pub fits_at_zero : FitsAtZero p.state p.username

-- A round begins in the state `s`, with counters that belong to it and with room in the buffer.
pub record IsSynced (s : State) (p : Parser) : Type 0 where
  pub in_state : p.state ≡ s
  pub kept : IsKept s p
  pub fits : Fits s p
  pub room : length p.out < 1999

abbrev pub Safely : State → Outcome → Type 0
Safely s none = ⊥
Safely s (some (q, _)) = IsAfter s q

-- Decoding makes no text longer.
abbrev pub IsShrinking : Env → Type 0
IsShrinking env = (s : Bytes) → length (env.decode s) ≤ length s

-- The rules, where there are some, make a text of this one.
abbrev pub GivesText : Env → Bytes → Type 0
GivesText env s =
    (rules : Bytes → Option Bytes) → env.config ≡ some rules → is_some (rules s) ≡ true

-- Decoding makes no text longer, and rewriting by the rules always returns.
pub record IsModest (env : Env) : Type 0 where
  pub shrinks : IsShrinking env
  pub rewrites : (s : Bytes) → GivesText env s

Fits-at_zero : (s : State) (p : Parser) → Fits s p → FitsAtZero s p.username
Fits-at_zero looking_for_message p h = h.1
Fits-at_zero in_message p h = h.3
Fits-at_zero in_message_and_in_div p h = h.1
Fits-at_zero _ p h = tt

pub stays : (s : State) (p : Parser) → p.state ≡ s → IsKept s p → Fits s p → IsAfter s p
stays s p e kept fits = record {
  kept = kept;
  fits = λ _. subst (λ r. Fits r p) (sym e) fits;
  fits_at_zero = subst (λ r. FitsAtZero r p.username) (sym e) (Fits-at_zero s p fits);
}

pub moves :
    (s r : State) (p : Parser)
    → p.state ≡ r
    → IsKept s p
    → FitsAtZero r p.username
    → (number r == number s) ≡ false
    → IsAfter s p
moves s r p e kept fits ne = record {
  kept = kept;
  fits = λ same. absurd (differ p.state e same);
  fits_at_zero = subst (λ r. FitsAtZero r p.username) (sym e) fits;
}
  where
    differ : (r' : State) → r' ≡ r → (number r' == number s) ≡ true → ⊥
    differ r' e same = cc

-- The buffer gets a byte, is emptied, or is cut.
pub grown :
    (s : State) (p : Parser) (c : ℕ) → IsSynced s p → IsKept s (record p { out = p.out ++ c ∷ [] })
grown s p c v =
    (v.kept.0, v.kept.1, v.kept.2, v.kept.3, omega (arith, v.room, length-append p.out (c ∷ [])))

pub shortened :
    (s : State) (p : Parser) (out : Bytes)
    → length out ≤ length p.out
    → IsKept s p
    → IsKept s (record p { out = out })
shortened s p out le kept = (kept.0, kept.1, kept.2, kept.3, omega (arith, le, kept.4))
