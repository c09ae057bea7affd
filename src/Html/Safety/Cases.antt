-- ===== src/Html/Safety/Cases.antt =====
-- parsehtml.c: the cases of the `switch` keep the parser safe, but for those that end a text.
use mathlib.Core.Path.{◌∙◌}
use minichatclient.Base.{
  ℕ, ◌+◌, ◌-◌, ◌<◌, ◌≡◌, refl, Bool, true, false, [], ◌∷◌, ◌++◌, none, Bytes, length, ◌==◌, arith,
  codes, write-set, c_string, set, length-set, length-c_string, leb, if◌then◌else◌,
}
use minichatclient.Html.{
  State, Event, Parser, Env, ready, in_creation_time, in_form_token, in_msg_id,
  looking_for_usericon_url, in_message, in_message_and_in_div, looking_for_stats, looking_for_users,
  looking_for_users_in_a, looking_for_users_in_a_href, looking_for_users_in_username, put, close,
  decode_into,
}
use minichatclient.Html.Steps.{
  step_ready, step_value, step_msg_id, step_watch, step_until, enter_if, step_message_in_div,
  step_users, step_users_in_a, step_users_in_username, mess_tag, stats_tag, twin_stats_tag,
  creation_time_tag, form_token_tag, keep,
}
use minichatclient.Html.Watch.{watchfor-Found, watchfor2-Found}
use minichatclient.Html.Page.{number}
use minichatclient.Html.Safety.{
  Fits, FitsAtZero, IsKept, IsAfter, IsSynced, Safely, IsModest, stays, moves, grown, shortened,
}

pub enter_if-IsAfter :
    (s : State) (found : Bool) (state : State) (p : Parser)
    → IsAfter s p
    → FitsAtZero state p.username
    → (number state == number s) ≡ false
    → IsAfter s (enter_if found state p)
enter_if-IsAfter s false state p v fits ne = v
enter_if-IsAfter s true state p v fits ne =
    moves s state (enter_if true state p) refl (shortened s p [] (omega arith) v.kept) fits ne

pub step_ready-Safely : (p : Parser) (c : ℕ) → IsSynced ready p → Safely ready (step_ready p c)
unfolding step_ready number
step_ready-Safely p c v =
    let mess = watchfor-Found mess_tag c p.j v.fits.0 in
    let stats = watchfor2-Found stats_tag twin_stats_tag c p.l refl v.fits.1 in
    let time = watchfor-Found creation_time_tag c p.m v.kept.2 in
    let token = watchfor-Found form_token_tag c p.n v.kept.3 in
    let start =
      stays ready
        (record p { j = mess.counter; l = stats.counter; m = time.counter; n = token.counter })
        v.in_state (v.kept.0, v.kept.1, time.below, token.below, v.kept.4)
        (mess.below, stats.below) in
    rw (mess.answers, stats.answers, time.answers, token.answers)
      (enter_if-IsAfter ready token.found in_form_token _
        (enter_if-IsAfter ready time.found in_creation_time _
          (enter_if-IsAfter ready stats.found looking_for_stats _
            (enter_if-IsAfter ready mess.found in_msg_id _ start tt refl) tt refl)
          tt refl)
        tt refl)

pub step_value-Safely :
    (event : Bytes → Event) (s : State) (p : Parser) (c : ℕ)
    → (number ready == number s) ≡ false
    → Fits s (record p { out = p.out ++ c ∷ [] })
    → IsSynced s p
    → Safely s (step_value event p c)
unfolding step_value keep close put number
step_value-Safely event s p c ne fits v = ground (
  arith,
  stays s (record p { out = p.out ++ c ∷ [] }) v.in_state (grown s p c v) fits,
  moves s ready (record p { state = ready }) refl v.kept tt ne,
)

pub step_until-Safely :
    (env : Env) (end : ℕ) (store : Bytes → Parser → Parser) (s : State) (p : Parser) (c : ℕ)
    → IsModest env
    → Fits s (record p { out = p.out ++ c ∷ [] })
    → ((text : Bytes) → IsAfter s (store text p))
    → IsSynced s p
    → Safely s (step_until env end store p c)
unfolding step_until keep close put decode_into
step_until-Safely env end store s p c modest fits stored v = ground (
  arith,
  stays s (record p { out = p.out ++ c ∷ [] }) v.in_state (grown s p c v) fits,
  stored (env.decode (c_string p.out)),
  modest.shrinks (c_string p.out),
  length-c_string p.out,
)

pub step_watch-Safely :
    (string : Bytes) (s r : State) (out : Bytes) (p : Parser) (c : ℕ)
    → length out < 2000
    → p.j < length string
    → ((j : ℕ) → j < length string → Fits s (record p { j = j }))
    → FitsAtZero r p.username
    → (number r == number s) ≡ false
    → IsSynced s p
    → Safely s (step_watch string r out p c)
unfolding step_watch
step_watch-Safely string s r out p c short below fits fits_at_zero ne v =
    let watched = watchfor-Found string c p.j below in
    rw watched.answers (
      ground (
        arith,
        stays s (record p { j = watched.counter }) v.in_state v.kept
            (fits watched.counter watched.below),
        moves s r (record p { j = watched.counter; out = out; state = r }) refl
            (v.kept.0, v.kept.1, v.kept.2, v.kept.3, short) fits_at_zero ne,
      ))

pub step_msg_id-Safely :
    (p : Parser) (c : ℕ) → IsSynced in_msg_id p → Safely in_msg_id (step_msg_id p c)
unfolding step_msg_id number
step_msg_id-Safely p c v =
    let j = if leb 20 p.j then p.j - 5 else p.j in
    let kept : (k x : ℕ) → IsKept in_msg_id (record p { msgid = set p.msgid k x }) =
      λ k x. (v.kept.0, length-set p.msgid k x ∙ v.kept.1, v.kept.2, v.kept.3, v.kept.4) in
    ground (
      arith,
      write-set p.msgid p.j 0,
      write-set p.msgid j c,
      stays in_msg_id (record p { msgid = set p.msgid j c; j = j + 1 }) v.in_state (kept j c),
      moves in_msg_id looking_for_usericon_url
          (record p { msgid = set p.msgid p.j 0; state = looking_for_usericon_url }) refl
          (kept p.j 0) tt refl,
    )

pub step_message_in_div-Safely :
    (p : Parser) (c : ℕ)
    → IsSynced in_message_and_in_div p
    → Safely in_message_and_in_div (step_message_in_div p c)
unfolding step_message_in_div number put
step_message_in_div-Safely p c v =
    let watched = watchfor-Found (codes "</div>") c p.j v.fits.0 in
    let q = record p { out = p.out ++ c ∷ [] } in
    ground (
      arith,
      watched.answers,
      v.room,
      watched.below,
      stays in_message_and_in_div (record q { j = watched.counter }) v.in_state
          (grown in_message_and_in_div p c v) (watched.below, v.fits.1),
      moves in_message_and_in_div in_message (record q { j = watched.counter; state = in_message })
          refl (grown in_message_and_in_div p c v) v.fits.1 refl,
    )

pub step_users-Safely :
    (p : Parser) (c : ℕ) → IsSynced looking_for_users p → Safely looking_for_users (step_users p c)
unfolding step_users number
step_users-Safely p c v =
    let ended = watchfor-Found (codes "</div>") c p.j v.fits.0 in
    let opened = watchfor-Found (codes "<a ") c p.l v.fits.1 in
    let q = record p { j = ended.counter; l = opened.counter } in
    rw (ended.answers, opened.answers)
      (enter_if-IsAfter looking_for_users opened.found looking_for_users_in_a _
        (ground (
          arith,
          stays looking_for_users q v.in_state v.kept (ended.below, opened.below),
          moves looking_for_users ready (record q { state = ready }) refl v.kept tt refl,
        ))
        tt refl)

pub step_users_in_a-Safely :
    (p : Parser) (c : ℕ)
    → IsSynced looking_for_users_in_a p
    → Safely looking_for_users_in_a (step_users_in_a p c)
unfolding step_users_in_a number
step_users_in_a-Safely p c v =
    let watched = watchfor-Found (codes "href=\"") c p.l v.fits in
    rw watched.answers (
      enter_if-IsAfter looking_for_users_in_a watched.found looking_for_users_in_a_href _
        (enter_if-IsAfter looking_for_users_in_a (c == b'>') looking_for_users_in_username _
          (stays looking_for_users_in_a (record p { l = watched.counter }) v.in_state v.kept
            watched.below)
          tt refl)
        tt refl)

pub step_users_in_username-Safely :
    (p : Parser) (c : ℕ)
    → IsSynced looking_for_users_in_username p
    → Safely looking_for_users_in_username (step_users_in_username p c)
unfolding step_users_in_username keep close put number
step_users_in_username-Safely p c v = ground (
  arith,
  v.room,
  stays looking_for_users_in_username (record p { out = p.out ++ c ∷ [] }) v.in_state
      (grown looking_for_users_in_username p c v) tt,
  moves looking_for_users_in_username looking_for_users
      (record p { url = none; state = looking_for_users }) refl v.kept tt refl,
)
