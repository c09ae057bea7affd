-- ===== src/Html/Safety/Runs.antt =====
-- parsehtml.c: the loop over a page is defined wherever the buffer keeps room.
use mathlib.Core.Path.{subst, sym}
use minichatclient.Base.{
  ℕ, ◌<◌, ◌≡◌, refl, inl, inr, Bool-cases, get_or, Bool, true, false, ◌&&◌, ◌||◌, List, [], ◌∷◌,
  ◌++◌, none, some, Bytes, length, ltb, ◌==◌, arith, codes, if◌then◌else◌,
}
use minichatclient.Html.{
  State, Event, Parser, Env, ready, in_creation_time, in_form_token, in_msg_id,
  looking_for_profile_url, in_profile_url, looking_for_usericon_url, in_usericon_url,
  looking_for_message, in_message, in_message_and_in_div, looking_for_username, in_username,
  looking_for_stats, looking_for_users, looking_for_users_in_a, looking_for_users_in_a_href,
  looking_for_users_in_username, creation_time, form_token,
}
use minichatclient.Html.Steps.{
  Outcome, set_icon, set_profile, set_username, set_url, step_before_username, message_tag,
}
use minichatclient.Html.Page.{
  switch, sync, round, guard_full, number, parse_loop, reset, initial, parse_minichat_mess,
}
use minichatclient.Html.Safety.{
  Fits, FitsAtZero, IsAfter, IsSynced, Safely, IsModest, stays, moves, shortened,
}
use minichatclient.Html.Safety.Cases.{
  step_ready-Safely, step_value-Safely, step_until-Safely, step_watch-Safely, step_msg_id-Safely,
  step_message_in_div-Safely, step_users-Safely, step_users_in_a-Safely,
  step_users_in_username-Safely, enter_if-IsAfter,
}
use minichatclient.Html.Safety.Texts.{step_message-Safely, step_stats-Safely}

switch-Safely :
    (env : Env) (s : State) (p : Parser) (c : ℕ)
    → IsModest env
    → IsSynced s p
    → Safely s (switch env s p c)
unfolding switch number step_before_username
switch-Safely env ready p c modest v = step_ready-Safely p c v
switch-Safely env in_creation_time p c modest v =
    step_value-Safely creation_time in_creation_time p c refl tt v
switch-Safely env in_form_token p c modest v =
    step_value-Safely form_token in_form_token p c refl tt v
switch-Safely env in_msg_id p c modest v = step_msg_id-Safely p c v
switch-Safely env looking_for_usericon_url p c modest v =
    step_watch-Safely (codes "<img src=\"") looking_for_usericon_url in_usericon_url [] p c
      (omega arith) v.fits (λ j h. h) tt refl v
switch-Safely env in_usericon_url p c modest v =
    step_until-Safely env b'"' set_icon in_usericon_url p c modest tt
      (λ text. moves in_usericon_url looking_for_profile_url (set_icon text p) refl v.kept tt refl)
      v
switch-Safely env looking_for_profile_url p c modest v =
    step_watch-Safely (codes "<a href=\".") looking_for_profile_url in_profile_url (codes ".") p c
      (omega arith) v.fits (λ j h. h) tt refl v
switch-Safely env in_profile_url p c modest v =
    step_until-Safely env b'"' set_profile in_profile_url p c modest tt
      (λ text. moves in_profile_url looking_for_username (set_profile text p) refl v.kept tt refl) v
switch-Safely env looking_for_username p c modest v =
    enter_if-IsAfter looking_for_username (c == b'>') in_username p
      (stays looking_for_username p v.in_state v.kept tt) tt refl
switch-Safely env in_username p c modest v =
    step_until-Safely env b'<' set_username in_username p c modest tt
      (λ text. moves in_username looking_for_message (set_username text p) refl v.kept refl refl) v
switch-Safely env looking_for_message p c modest v =
    step_watch-Safely message_tag looking_for_message in_message [] p c (omega arith) v.fits.0
      (λ j h. (h, v.fits.1)) v.fits.1 refl v
switch-Safely env in_message_and_in_div p c modest v = step_message_in_div-Safely p c v
switch-Safely env in_message p c modest v = step_message-Safely env p c modest v
switch-Safely env looking_for_stats p c modest v = step_stats-Safely env p c modest v
switch-Safely env looking_for_users p c modest v = step_users-Safely p c v
switch-Safely env looking_for_users_in_a p c modest v = step_users_in_a-Safely p c v
switch-Safely env looking_for_users_in_a_href p c modest v =
    step_until-Safely env b'"' set_url looking_for_users_in_a_href p c modest tt
      (λ text.
        moves looking_for_users_in_a_href looking_for_users_in_a (set_url text p) refl
          (shortened looking_for_users_in_a_href p [] (omega arith) v.kept) tt refl)
      v
switch-Safely env looking_for_users_in_username p c modest v = step_users_in_username-Safely p c v

-- The states in the order of their numbers.
states : List State
states =
    ready ∷ in_creation_time ∷ in_form_token ∷ in_msg_id ∷ looking_for_profile_url ∷ in_profile_url
    ∷ looking_for_usericon_url ∷ in_usericon_url ∷ looking_for_message ∷ in_message
    ∷ in_message_and_in_div ∷ looking_for_username ∷ in_username ∷ looking_for_stats
    ∷ looking_for_users ∷ looking_for_users_in_a ∷ looking_for_users_in_a_href
    ∷ looking_for_users_in_username ∷ []

states-number : (s : State) → get_or states (number s) ready ≡ s
unfolding number states
states-number ready = refl
states-number in_creation_time = refl
states-number in_form_token = refl
states-number in_msg_id = refl
states-number looking_for_profile_url = refl
states-number in_profile_url = refl
states-number looking_for_usericon_url = refl
states-number in_usericon_url = refl
states-number looking_for_message = refl
states-number in_message = refl
states-number in_message_and_in_div = refl
states-number looking_for_username = refl
states-number in_username = refl
states-number looking_for_stats = refl
states-number looking_for_users = refl
states-number looking_for_users_in_a = refl
states-number looking_for_users_in_a_href = refl
states-number looking_for_users_in_username = refl

pub number-injective : (s r : State) → number s ≡ number r → s ≡ r
number-injective s r e = cc (states-number s, states-number r, e)

Fits-zero :
    (s : State) (p : Parser)
    → FitsAtZero s p.username
    → Fits s (record p { j = 0; l = 0; oldstate = p.state })
Fits-zero ready p h = ground arith
Fits-zero in_msg_id p h = ground arith
Fits-zero looking_for_usericon_url p h = ground arith
Fits-zero looking_for_profile_url p h = ground arith
Fits-zero looking_for_message p h = ground arith
Fits-zero in_message p h = ground arith
Fits-zero in_message_and_in_div p h = ground arith
Fits-zero looking_for_stats p h = ground arith
Fits-zero looking_for_users p h = ground arith
Fits-zero looking_for_users_in_a p h = ground arith
Fits-zero _ p h = tt

-- The parser between two bytes, whatever came before.
abbrev pub IsSafe : Parser → Type 0
IsSafe p = IsAfter p.oldstate p

sync-IsSynced : (p : Parser) → IsSafe p → length p.out < 1999 → IsSynced p.state (sync p)
unfolding sync
sync-IsSynced p v room = elim (Bool-cases (number p.state == number p.oldstate)) [
  | inl e ↦ rw e (record {
    in_state = refl;
    kept = (
      number-injective p.oldstate p.state (ground arith),
      v.kept.1,
      v.kept.2,
      v.kept.3,
      v.kept.4,
    );
    fits = v.fits e;
    room = room;
  })
  | inr e ↦ rw e (record {
    in_state = refl;
    kept = (refl, v.kept.1, v.kept.2, v.kept.3, v.kept.4);
    fits = Fits-zero p.state p v.fits_at_zero;
    room = room;
  })
]

-- A step that stays safe, and leaves its result as it is under the test for a full buffer.
record Steps (s : State) (o : Outcome) : Type 0 where
  after : Parser
  events : List Event
  results : o ≡ some (after, events)
  is_after : IsAfter s after

Safely-Steps : (s : State) (o : Outcome) → Safely s o → Steps s o
Safely-Steps s none v = absurd v
Safely-Steps s (some (q, events)) v = record {
  after = q;
  events = events;
  results = refl;
  is_after = v;
}

IsAfter-IsSafe : (s : State) (p : Parser) → IsAfter s p → IsSafe p
IsAfter-IsSafe s p v = subst (λ r. IsAfter r p) (sym v.kept.0) v

round-IsSafe :
    (env : Env) (p : Parser) (c : ℕ)
    → IsModest env
    → IsSafe p
    → length p.out < 1999
    → (q : Parser) × (events : List Event) × (round env p c ≡ some (q, events)) × IsSafe q
unfolding round guard_full
round-IsSafe env p c modest v room =
    let synced = sync-IsSynced p v room in
    let step =
      Safely-Steps p.state (switch env p.state (sync p) c)
        (switch-Safely env p.state (sync p) c modest synced) in
    elim (Bool-cases (c == 13 || c == 10)) [
      | inl e ↦ (
        sync p,
        [],
        rw e,
        IsAfter-IsSafe p.state (sync p)
            (stays p.state (sync p) synced.in_state synced.kept synced.fits),
      )
      | inr e ↦ (
        step.after,
        step.events,
        rw (e, synced.in_state, step.results) (ground (arith, step.is_after.kept.4)),
        IsAfter-IsSafe p.state step.after step.is_after,
      )
    ]

-- The buffer has room for two bytes wherever one is read: neither of the two writes of a round
-- passes its end.
unfoldable pub roomy : Env → Parser → Bytes → Bool
unfolding round
roomy env p [] = true
roomy env p (c ∷ input) =
    ltb (length p.out) 1999
    && elim (round env p c) [ none ↦ true | some (q, _) ↦ roomy env q input ]

parse_loop-IsSafe :
    (env : Env) (p : Parser) (input : Bytes)
    → IsModest env
    → IsSafe p
    → roomy env p input ≡ true
    → (q : Parser) × (events : List Event) × (parse_loop env p input ≡ some (q, events)) × IsSafe q
unfolding parse_loop roomy
parse_loop-IsSafe env p [] modest v room = (p, [], refl, v)
parse_loop-IsSafe env p (c ∷ input) modest v room =
    let (q, events, e, w) = round-IsSafe env p c modest v (ground arith) in
    let (r, more, f, z) = parse_loop-IsSafe env q input modest w (ground (arith, e)) in
    (r, events ++ more, rw (e, f), z)

reset-IsSafe : (p : Parser) → IsSafe p → IsSafe (reset p)
reset-IsSafe p v = record {
  kept = (refl, v.kept.1, v.kept.2, v.kept.3, omega arith);
  fits = λ _. ground arith;
  fits_at_zero = tt;
}

pub initial-IsSafe : IsSafe initial
initial-IsSafe = record {
  kept = (refl, refl, omega arith, omega arith, omega arith);
  fits = λ _. (omega arith, omega arith);
  fits_at_zero = tt;
}

abbrev pub begun : Bool → Parser → Parser
begun restart p = if restart then reset p else p

begun-IsSafe : (restart : Bool) (p : Parser) → IsSafe p → IsSafe (begun restart p)
begun-IsSafe true p v = reset-IsSafe p v
begun-IsSafe false p v = v

-- On any piece of a page, in any state that the parser can be in between two pieces, and as long
-- as the buffer has room for two bytes where a byte is read, nothing is read or written out of the
-- bounds of an array or of a block, every message that is handed over has a name, and the
-- parser is in such a state again. Decoding makes no text longer, and the rules always give a text.
pub parse_minichat_mess-IsSafe :
    (env : Env) (restart : Bool) (input : Bytes) (p : Parser)
    → IsModest env
    → IsSafe p
    → roomy env (begun restart p) input ≡ true
    → (n : ℕ) × (q : Parser) × (events : List Event) × (parse_minichat_mess env restart input p
        ≡ some (n, q, events))
      × IsSafe q
unfolding parse_minichat_mess
parse_minichat_mess-IsSafe env restart [] p modest v room =
    (0, begun restart p, [], refl, begun-IsSafe restart p v)
parse_minichat_mess-IsSafe env restart (c ∷ input) p modest v room =
    let (q, events, e, w) =
      parse_loop-IsSafe env (begun restart p) (c ∷ input) modest (begun-IsSafe restart p v) room in
    (q.nbmessages, q, events, rw e, w)
