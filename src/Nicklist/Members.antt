-- ===== src/Nicklist/Members.antt =====
-- The list and the joins and parts that it announces agree, through every sequence of calls.
use minichatclient.Base.{
  ℕ, ◌≡◌, refl, ◌∙◌, false, List, [], ◌∷◌, ◌++◌, Option, some, arith, Bytes, str_eq, str_eq_refl,
  Option-cases, Bool-cases, inl, inr, ◌>>=◌, append_assoc,
}
use minichatclient.Nicklist.{
  Entry, Event, display, join, part, show_topic, nicklist_msg_update, nicklist_recup_name, sweep,
  nicklist_recup_end, is_gone, settled, nicklist_init,
}
use minichatclient.Nicklist.Distinct.{
  names, Absent, Distinct, Distinct-append, str_eq_swap, without, replay, Extended,
  msg_update-Extended, recup_name-Extended,
}

Extended-Distinct :
    (before after : List Bytes) (events : List Event)
    → Distinct before
    → Extended before events after
    → Distinct after
Extended-Distinct before after events d (e, inl same) = rw same d
Extended-Distinct before after events d (e, inr (n, grown, absent)) =
    rw grown (Distinct-append before n d absent)

replay-append : (ms : List Bytes) (a b : List Event) → replay ms (a ++ b) ≡ replay (replay ms a) b
replay-append ms [] b = refl
replay-append ms (display o ∷ a) b = replay-append ms a b
replay-append ms (join n ident ∷ a) b = replay-append (ms ++ n ∷ []) a b
replay-append ms (part n ident message ∷ a) b = replay-append (without n ms) a b
replay-append ms (show_topic ∷ a) b = replay-append ms a b

without-Absent : (n : Bytes) (ms : List Bytes) → Absent n ms → without n ms ≡ ms
without-Absent n [] h = refl
without-Absent n (m ∷ ms) h = ground (arith, without-Absent n ms)

without-middle :
    (n : Bytes) (pre ms : List Bytes)
    → Absent n pre
    → Absent n ms
    → without n (pre ++ n ∷ ms) ≡ pre ++ ms
without-middle n [] ms h k = ground (arith, str_eq_refl n, without-Absent n ms)
without-middle n (m ∷ pre) ms h k = ground (arith, without-middle n pre ms)

-- The names `pre` that were kept so far are none of those ahead.
abbrev Apart : List Bytes → List Bytes → Type 0
Apart pre [] = Unit
Apart pre (n ∷ ns) = Absent n pre × Apart pre ns

Absent-snoc :
    (m n : Bytes) (pre : List Bytes) → Absent m pre → str_eq m n ≡ false → Absent m (pre ++ n ∷ [])
Absent-snoc m n [] h e = (e, tt)
Absent-snoc m n (k ∷ pre) h e = (h.0, Absent-snoc m n pre h.1 e)

Apart-snoc :
    (pre ns : List Bytes) (n : Bytes) → Apart pre ns → Absent n ns → Apart (pre ++ n ∷ []) ns
Apart-snoc pre [] n h a = tt
Apart-snoc pre (m ∷ ns) n h a =
    (Absent-snoc m n pre h.0 (str_eq_swap n m a.0), Apart-snoc pre ns n h.1 a.1)

settled-nickname : (e : Entry) → (settled e).nickname ≡ e.nickname
settled-nickname e = ground arith

replay-sweep :
    (now : ℕ) (pre : List Bytes) (l : List Entry)
    → Distinct (names l)
    → Apart pre (names l)
    → replay (pre ++ names l) (sweep now l).1 ≡ pre ++ names (sweep now l).0
unfolding sweep
replay-sweep now pre [] d a = refl
replay-sweep now pre (e ∷ l) d a = elim (Bool-cases (is_gone now e)) [
  | inl gone ↦
      ground
        (arith, without-middle e.nickname pre (names l) a.0 d.0, replay-sweep now pre l d.1 a.1)
  | inr stays ↦ ground (
    arith,
    settled-nickname e,
    append_assoc pre (e.nickname ∷ []) (names l),
    append_assoc pre (e.nickname ∷ []) (names (sweep now l).0),
    replay-sweep now (pre ++ e.nickname ∷ []) l d.1 (Apart-snoc pre (names l) e.nickname a.1 d.0),
  )
]

Absent-sweep :
    (now : ℕ) (n : Bytes) (l : List Entry) → Absent n (names l) → Absent n (names (sweep now l).0)
unfolding sweep
Absent-sweep now n [] h = tt
Absent-sweep now n (e ∷ l) h = ground (arith, settled-nickname e, Absent-sweep now n l h.1)

Distinct-sweep : (now : ℕ) (l : List Entry) → Distinct (names l) → Distinct (names (sweep now l).0)
unfolding sweep
Distinct-sweep now [] d = tt
Distinct-sweep now (e ∷ l) d =
    ground (arith, settled-nickname e, Absent-sweep now e.nickname l d.0, Distinct-sweep now l d.1)

recup_end-replay :
    (now : ℕ) (l : List Entry)
    → Distinct (names l)
    → replay (names l) (nicklist_recup_end now l).1 ≡ names (nicklist_recup_end now l).0
unfolding nicklist_recup_end
recup_end-replay now l d =
    replay-append (names l) (sweep now l).1 (show_topic ∷ [])
    ∙ replay-sweep now [] l d (apart (names l))
  where
    apart : (ns : List Bytes) → Apart [] ns
    apart [] = tt
    apart (n ∷ ns) = (tt, apart ns)

-- The calls that parsehtml.c and main.c make, in any order, each with the time of the call.
pub data Call : Type 0 where
  msg_update : ℕ → Option Bytes → Option Bytes → Option Bytes → Call
  recup_name : ℕ → Option Bytes → Option Bytes → Call
  recup_end : ℕ → Call

abbrev pub apply : Call → List Entry → Option (List Entry × List Event)
apply (msg_update now nickname profile_url icon_url) l =
    nicklist_msg_update now nickname profile_url icon_url l
apply (recup_name now nickname profile_url) l = nicklist_recup_name now nickname profile_url l
apply (recup_end now) l = some (nicklist_recup_end now l)

-- The list after the calls, and all their events in order.
unfoldable pub run : List Call → List Entry → Option (List Entry × List Event)
run [] l = some (l, [])
run (c ∷ calls) l = do
  (l1, events) ← apply c l
  (l2, later) ← run calls l1
  some (l2, events ++ later)

-- One call keeps the names distinct, and its events change the channel as it changes the list.
abbrev InStep : List Entry → List Entry → List Event → Type 0
InStep l l' events = Distinct (names l') × (replay (names l) events ≡ names l')

parts :
    (r : List Entry × List Event) (l' : List Entry) (events : List Event)
    → Path (Option (List Entry × List Event)) (some r) (some (l', events))
    → (r.0 ≡ l') × (r.1 ≡ events)
parts (l, before) l' events h = (cc, cc)

recup_end-Distinct :
    (now : ℕ) (l : List Entry) → Distinct (names l) → Distinct (names (nicklist_recup_end now l).0)
unfolding nicklist_recup_end
recup_end-Distinct now l d = Distinct-sweep now l d

apply-InStep :
    (c : Call) (l l' : List Entry) (events : List Event)
    → Distinct (names l)
    → apply c l ≡ some (l', events)
    → InStep l l' events
apply-InStep (msg_update now n p i) l l' events d h =
    let x = msg_update-Extended now n p i l h in
    (Extended-Distinct (names l) (names l') events d x, x.0)
apply-InStep (recup_name now n p) l l' events d h =
    let x = recup_name-Extended now n p l h in
    (Extended-Distinct (names l) (names l') events d x, x.0)
apply-InStep (recup_end now) l l' events d h =
    let (p, q) = parts (nicklist_recup_end now l) l' events h in
    (rw p at (recup_end-Distinct now l d), rw (p, q) at (recup_end-replay now l d))

run-InStep :
    (calls : List Call) (l l' : List Entry) (events : List Event)
    → Distinct (names l)
    → run calls l ≡ some (l', events)
    → InStep l l' events
unfolding run
run-InStep [] l l' events d h = let (p, q) = parts (l, []) l' events h in rw (← p, ← q) (d, refl)
run-InStep (c ∷ calls) l l' events d h = elim (Option-cases (apply c l)) [
  | inl e ↦ ground arith
  | inr ((l1, before), e) ↦ elim (Option-cases (run calls l1)) [
    | inl e' ↦ ground arith
    | inr ((l2, later), e') ↦
        let one = apply-InStep c l l1 before d e in
        let more = run-InStep calls l1 l2 later one.0 e' in
        let (p, q) = parts (l2, before ++ later) l' events (ground arith) in
        rw (← p, ← q) (more.0, replay-append (names l) before later ∙ rw one.1 more.1)
  ]
]

-- From the empty list and through any calls, in any order and at any times, no name stands twice
-- in the list, and those whom the joins and parts have left in the channel are those in the list,
-- in its order.
pub run-agrees :
    (calls : List Call) (l : List Entry) (events : List Event)
    → run calls nicklist_init ≡ some (l, events)
    → Distinct (names l) × (replay [] events ≡ names l)
run-agrees calls l events h = run-InStep calls [] l events tt h
