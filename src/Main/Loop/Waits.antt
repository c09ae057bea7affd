-- ===== src/Main/Loop/Waits.antt =====
-- The times of the main loop: how long it waits, and between which bounds.
use minichatclient.Base.{ℕ, zero, suc, ◌%◌, ◌^◌, ◌≤◌, ◌<◌, ◌≡◌, false, none, some, arith}
use minichatclient.Main.Loop.{State, Loop, rank, next, same_state, adapted, waited}

-- A poll without messages makes the wait longer, up to the longest, and one with messages shorter,
-- down to the shortest: a wait between the two bounds stays between them.
pub adapted-bounds :
    (wait_time_mini wait_time_maxi nbmessages wait_time : ℕ)
    → wait_time_maxi < 2 ^ 31
    → wait_time_mini ≤ wait_time
    → wait_time ≤ wait_time_maxi
    → (wait_time_mini ≤ adapted wait_time_mini wait_time_maxi nbmessages wait_time)
      × (adapted wait_time_mini wait_time_maxi nbmessages wait_time ≤ wait_time_maxi)
unfolding adapted
adapted-bounds mini maxi n w small h k = ground arith

-- A state that waits.
abbrev pub IsWaiting : State → Type 0
IsWaiting state = rank state % 2 ≡ 0

-- Turns in which nothing comes.
unfoldable pub quiet_turns : ℕ → Loop → Loop
quiet_turns zero l = l
quiet_turns (suc n) l = quiet_turns n (waited none none l)

quiet_turns-counted :
    (n : ℕ) (l : Loop)
    → l.oldstate ≡ some l.state
    → l.t ≡ n
    → l.outgoingmsg ≡ none
    → l.poll_requested ≡ false
    → (quiet_turns (suc n) l).state ≡ next l.state
unfolding quiet_turns waited
quiet_turns-counted zero l old t o p = ground arith
quiet_turns-counted (suc n) l old t o p = ground (arith, quiet_turns-counted n (waited none none l))

-- A wait ends: where a waiting state has just been entered, and nothing comes, it takes one turn
-- more than `wait_time` says to get to the state that was waited for.
pub quiet_turns-ends :
    (n : ℕ) (l : Loop)
    → same_state l.oldstate l.state ≡ false
    → l.wait_time ≡ n
    → l.outgoingmsg ≡ none
    → l.poll_requested ≡ false
    → (quiet_turns (suc n) l).state ≡ next l.state
unfolding quiet_turns waited
quiet_turns-ends zero l fresh w o p = ground arith
quiet_turns-ends (suc n) l fresh w o p = ground (arith, quiet_turns-counted n (waited none none l))
