-- ===== src/Nicklist/Distinct.antt =====
-- No name stands twice in the list.
use minichatclient.Base.{
  ℕ, ◌≡◌, refl, ap, sym, ◌∙◌, false, List, [], ◌∷◌, ◌++◌, Option, none, some, arith, Bytes, str_eq,
  str_eq_iff, if◌then◌else◌, Option-cases, inl, inr, ◌⊎◌,
}
use minichatclient.Nicklist.{
  Entry, Event, display, join, part, show_topic, new_talker, new_listed, update_first, talked,
  listed, nicklist_alloc_ident, nicklist_msg_update, nicklist_recup_name,
}

abbrev pub names : List Entry → List Bytes
names [] = []
names (e ∷ l) = e.nickname ∷ names l

abbrev pub Absent : Bytes → List Bytes → Type 0
Absent n [] = Unit
Absent n (m ∷ ms) = (str_eq n m ≡ false) × Absent n ms

abbrev pub Distinct : List Bytes → Type 0
Distinct [] = Unit
Distinct (n ∷ ns) = Absent n ns × Distinct ns

pub names-append : (l r : List Entry) → names (l ++ r) ≡ names l ++ names r
names-append [] r = refl
names-append (e ∷ l) r = ap (◌∷◌ e.nickname) (names-append l r)

pub str_eq_swap : (a b : Bytes) → str_eq a b ≡ false → str_eq b a ≡ false
str_eq_swap a b h = ground (arith, str_eq_iff a b, str_eq_iff b a)

pub Distinct-append :
    (ns : List Bytes) (n : Bytes) → Distinct ns → Absent n ns → Distinct (ns ++ n ∷ [])
Distinct-append [] n d a = (tt, tt)
Distinct-append (m ∷ ns) n d a = (absent ns d.0, Distinct-append ns n d.1 a.1)
  where
    absent : (ms : List Bytes) → Absent m ms → Absent m (ms ++ n ∷ [])
    absent [] h = (str_eq_swap n m a.0, tt)
    absent (k ∷ ms) h = (h.0, absent ms h.1)

-- The parts of an outcome, each the second by the first.
outcome :
    {l l' : List Entry} {events events' : List Event}
    → Path (Option (List Entry × List Event)) (some (l, events)) (some (l', events'))
    → (l' ≡ l) × (events' ≡ events)
outcome h = (cc, cc)

module _ (n : Bytes) (f : Entry → Entry) (same : (e : Entry) → (f e).nickname ≡ e.nickname) where
  pub names-update_first :
      (l : List Entry) {l' : List Entry} → update_first n f l ≡ some l' → names l' ≡ names l
  unfolding update_first
  names-update_first [] h = cc
  names-update_first (e ∷ l) h = elim (Option-cases (update_first n f l)) [
    | inl q ↦ ground (arith, same e)
    | inr (r, q) ↦ ground (arith, same e, names-update_first l q)
  ]

  pub Absent-update_first : (l : List Entry) → update_first n f l ≡ none → Absent n (names l)
  unfolding update_first
  Absent-update_first [] h = tt
  Absent-update_first (e ∷ l) h = ground (arith, Absent-update_first l)

-- What the events make of a list of those who are in the channel.
abbrev pub without : Bytes → List Bytes → List Bytes
without n [] = []
without n (m ∷ ms) = let rest = without n ms in if str_eq n m then rest else m ∷ rest

abbrev pub replay : List Bytes → List Event → List Bytes
replay ms [] = ms
replay ms (display o ∷ events) = replay ms events
replay ms (join n ident ∷ events) = replay (ms ++ n ∷ []) events
replay ms (part n ident message ∷ events) = replay (without n ms) events
replay ms (show_topic ∷ events) = replay ms events

-- Either the names stay, or one name that was absent is added behind them; and the events say so.
abbrev pub Extended : List Bytes → List Event → List Bytes → Type 0
Extended before events after =
    (replay before events ≡ after)
    × ((after ≡ before) ⊎ ((n : Bytes) × (after ≡ before ++ n ∷ []) × Absent n before))

Extended-outcome :
    (before : List Bytes) (l l' : List Entry) (events events' : List Event)
    → Path (Option (List Entry × List Event)) (some (l, events)) (some (l', events'))
    → Extended before events (names l)
    → Extended before events' (names l')
Extended-outcome before l l' events events' h x = let (p, q) = outcome h in rw (p, q) x

-- A new entry at the end of the list, with the events that announce it.
Extended-new :
    (l : List Entry) (e : Entry) (events : List Event)
    → Absent e.nickname (names l)
    → ((ms : List Bytes) → replay ms events ≡ ms ++ e.nickname ∷ [])
    → Extended (names l) events (names (l ++ e ∷ []))
Extended-new l e events absent announced =
    let grown = names-append l (e ∷ []) in
    (announced (names l) ∙ sym grown, inr (e.nickname, grown, absent))

pub msg_update-Extended :
    (now : ℕ) (nickname profile_url icon_url : Option Bytes) (l : List Entry) {l' : List Entry}
    {events : List Event}
    → nicklist_msg_update now nickname profile_url icon_url l ≡ some (l', events)
    → Extended (names l) events (names l')
unfolding nicklist_msg_update
msg_update-Extended now none profile_url icon_url l {l'} {events} h =
    Extended-outcome (names l) l l' [] events h (refl, inl refl)
msg_update-Extended now (some n) profile_url icon_url l {l'} {events} h =
    let f = talked now profile_url icon_url in
    elim (Option-cases (update_first n f l)) [
      | inl e ↦ elim (Option-cases (nicklist_alloc_ident profile_url)) [
        | inl bad ↦ ground arith
        | inr (ident, good) ↦
            let added = new_talker now n profile_url icon_url ident in
            let announced = display (some n) ∷ join n (some ident) ∷ [] in
            Extended-outcome (names l) (l ++ added ∷ []) l' announced events (ground arith) (
              Extended-new l added announced (Absent-update_first n f (λ e. refl) l e) (λ ms. refl))
      ]
      | inr (r, e) ↦
          let kept = names-update_first n f (λ e. refl) l e in
          Extended-outcome (names l) r l' [] events (ground arith) (sym kept, inl kept)
    ]

pub recup_name-Extended :
    (now : ℕ) (nickname profile_url : Option Bytes) (l : List Entry) {l' : List Entry}
    {events : List Event}
    → nicklist_recup_name now nickname profile_url l ≡ some (l', events)
    → Extended (names l) events (names l')
unfolding nicklist_recup_name
recup_name-Extended now none profile_url l {l'} {events} h =
    Extended-outcome (names l) l l' [] events h (refl, inl refl)
recup_name-Extended now (some n) profile_url l {l'} {events} h =
    let f = listed now profile_url in
    elim (Option-cases (update_first n f l)) [
      | inl e ↦ elim (Option-cases (nicklist_alloc_ident profile_url)) [
        | inl bad ↦ ground arith
        | inr (ident, good) ↦
            let added = new_listed now n profile_url ident in
            let announced = join n (some ident) ∷ [] in
            Extended-outcome (names l) (l ++ added ∷ []) l' announced events (ground arith) (
              Extended-new l added announced (Absent-update_first n f (λ e. refl) l e) (λ ms. refl))
      ]
      | inr (r, e) ↦
          let kept = names-update_first n f (λ e. refl) l e in
          Extended-outcome (names l) r l' [] events (ground arith) (sym kept, inl kept)
    ]
