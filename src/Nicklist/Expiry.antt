-- ===== src/Nicklist/Expiry.antt =====
-- Who stays in the list, and what a message leaves in it.
use mathlib.Core.Option
use minichatclient.Base.{
  ℕ, ◌+◌, ◌≡◌, refl, ap, List, [], ◌∷◌, ◌++◌, Option, none, some, arith, Bytes, str_eq, str_eq_iff,
  if◌then◌else◌, Option-cases, Bool-cases, inl, inr, leb, ◌&&◌, not, codes,
}
use minichatclient.Text.Search.{strstr}
use minichatclient.Nicklist.{
  Entry, Event, update_first, talked, listed, new_talker, nicklist_alloc_ident, nicklist_msg_update,
  nicklist_recup_name, sweep, nicklist_recup_end, is_gone, settled, find,
}
use minichatclient.Nicklist.Distinct.{names, Absent, Distinct, Absent-update_first}

find-Absent : (n : Bytes) (l : List Entry) → Absent n (names l) → find n l ≡ none
unfolding find
find-Absent n [] h = refl
find-Absent n (e ∷ l) h = ground (arith, find-Absent n l h.1)

-- The entry of a person after the end of a poll: gone, or there still.
abbrev after_poll : ℕ → Option Entry → Option Entry
after_poll now none = none
after_poll now (some e) = if is_gone now e then none else some (settled e)

Absent-swept :
    (now : ℕ) (n : Bytes) (l : List Entry) → Absent n (names l) → find n (sweep now l).0 ≡ none
unfolding sweep find
Absent-swept now n [] h = refl
Absent-swept now n (e ∷ l) h = ground (arith, Absent-swept now n l h.1)

find-sweep :
    (now : ℕ) (n : Bytes) (l : List Entry)
    → Distinct (names l)
    → find n (sweep now l).0 ≡ after_poll now (find n l)
unfolding sweep find
find-sweep now n [] d = refl
find-sweep now n (e ∷ l) d = ground (
  arith,
  find-sweep now n l d.1,
  str_eq_iff n e.nickname,
  Absent-swept now n l,
  ap (λ (m : Bytes). Absent m (names l)) {y = n},
)

-- How long a person is kept without having been seen: a minute, or 20 minutes for the invisible.
abbrev pub grace : Entry → ℕ
grace e = if e.invisible then 1200 else 60

-- What the end of a poll makes of a person's entry: who was seen within the grace stays, with all
-- as it was but the mark of a new invisible entry, and who was not is taken out.
abbrev pub kept : ℕ → Option Entry → Option Entry
kept now none = none
kept now (some e) =
    if leb now (e.lastseen + grace e)
    then some (record e { enterednow = e.enterednow && not e.invisible })
    else none

-- Where no name stands twice, the end of a poll keeps a person exactly if they were seen in the
-- last minute, or the last 20 minutes if invisible, and adds nobody.
pub recup_end-find :
    (now : ℕ) (n : Bytes) (l : List Entry)
    → Distinct (names l)
    → find n (nicklist_recup_end now l).0 ≡ kept now (find n l)
unfolding nicklist_recup_end
recup_end-find now n l d = elim (Option-cases (find n l)) [
  | inl e ↦ ground (arith, find-sweep now n l d)
  | inr (e, found) ↦ ground (arith, find-sweep now n l d)
]

module _ (n : Bytes) (f : Entry → Entry) (same : (e : Entry) → (f e).nickname ≡ e.nickname) where
  find-update_first :
      (m : Bytes) (l : List Entry) {l' : List Entry}
      → update_first n f l ≡ some l'
      → find m l' ≡ (if str_eq n m then Option.map f (find m l) else find m l)
  unfolding update_first find
  find-update_first m [] h = cc
  find-update_first m (e ∷ l) h = elim (Option-cases (update_first n f l)) [
    | inl q ↦
        ground (arith, same e, str_eq_iff n e.nickname, str_eq_iff m e.nickname, str_eq_iff n m)
    | inr (r, q) ↦ ground (
      arith,
      same e,
      find-update_first m l q,
      str_eq_iff n e.nickname,
      str_eq_iff m e.nickname,
      str_eq_iff n m,
    )
  ]

  found-update_first :
      (l : List Entry) {l' : List Entry}
      → update_first n f l ≡ some l'
      → (e : Entry) × (find n l ≡ some e)
  unfolding update_first find
  found-update_first [] h = cc
  found-update_first (e ∷ l) h = elim (Bool-cases (str_eq n e.nickname)) [
    | inl here ↦ (e, rw here)
    | inr further ↦ elim (Option-cases (update_first n f l)) [
      | inl q ↦ ground arith
      | inr (r, q) ↦ let (d, found) = found-update_first l q in (d, rw further found)
    ]
  ]

find-append_new :
    (m : Bytes) (l : List Entry) (e : Entry)
    → Absent e.nickname (names l)
    → find m (l ++ e ∷ []) ≡ (if str_eq e.nickname m then some e else find m l)
unfolding find
find-append_new m [] e a = ground (arith, str_eq_iff m e.nickname, str_eq_iff e.nickname m)
find-append_new m (d ∷ l) e a = ground (
  arith,
  find-append_new m l e a.1,
  str_eq_iff m d.nickname,
  str_eq_iff m e.nickname,
  str_eq_iff e.nickname m,
  str_eq_iff e.nickname d.nickname,
)

-- What a message changes: the entry of the one who talked is there, with the time of the call, and
-- every other entry is as before.
pub record Heard (now : ℕ) (n : Bytes) (before after : List Entry) : Type 0 where
  pub entry : Entry
  pub seen_now : entry.lastseen ≡ now
  pub talked_now : entry.lastmessage ≡ now
  pub finds : (m : Bytes) → find m after ≡ (if str_eq n m then some entry else find m before)

Heard-update_first :
    (now : ℕ) (n : Bytes) (p i : Option Bytes) (l l' : List Entry)
    → update_first n (talked now p i) l ≡ some l'
    → Heard now n l l'
Heard-update_first now n p i l l' h =
    let f = talked now p i in
    let (e, found) = found-update_first n f (λ e. refl) l h in
    record {
      entry = f e;
      seen_now = refl;
      talked_now = refl;
      finds = λ m. ground (arith, find-update_first n f (λ e. refl) m l h, found, str_eq_iff n m);
    }

Heard-new :
    (now : ℕ) (n : Bytes) (p i : Option Bytes) (l : List Entry) (ident : Bytes)
    → update_first n (talked now p i) l ≡ none
    → Heard now n l (l ++ new_talker now n p i ident ∷ [])
Heard-new now n p i l ident h = record {
  entry = new_talker now n p i ident;
  seen_now = refl;
  talked_now = refl;
  finds = λ m.
      find-append_new m l (new_talker now n p i ident)
        (Absent-update_first n (talked now p i) (λ e. refl) l h);
}

-- A message from a person, known or new, leaves their entry in the list with the time of the call,
-- and every other entry as it was.
pub msg_update-Heard :
    (now : ℕ) (n : Bytes) (profile_url icon_url : Option Bytes) (l l' : List Entry)
    (events : List Event)
    → nicklist_msg_update now (some n) profile_url icon_url l ≡ some (l', events)
    → Heard now n l l'
unfolding nicklist_msg_update
msg_update-Heard now n p i l l' events h = elim (Option-cases (update_first n (talked now p i) l)) [
  | inl e ↦ elim (Option-cases (nicklist_alloc_ident p)) [
    | inl bad ↦ ground arith
    | inr (ident, good) ↦
        let same : l ++ new_talker now n p i ident ∷ [] ≡ l' = ground arith in
        rw (← same) (Heard-new now n p i l ident e)
  ]
  | inr (r, e) ↦
      let same : r ≡ l' = ground arith in rw (← same) (Heard-update_first now n p i l r e)
]

update_first-Absent :
    (n : Bytes) (f : Entry → Entry) (l : List Entry)
    → Absent n (names l)
    → update_first n f l ≡ none
unfolding update_first
update_first-Absent n f [] a = refl
update_first-Absent n f (e ∷ l) a = ground (arith, update_first-Absent n f l a.1)

-- No URL, or one without a "&u=".
abbrev pub LacksIdent : Option Bytes → Type 0
LacksIdent none = Unit
LacksIdent (some url) = strstr url (codes "&u=") ≡ none

alloc_ident-LacksIdent : (url : Option Bytes) → LacksIdent url → nicklist_alloc_ident url ≡ none
unfolding nicklist_alloc_ident
alloc_ident-LacksIdent none h = refl
alloc_ident-LacksIdent (some url) h = rw (h, nicklist_alloc_ident)

-- Without a profile URL, or with one that has no "&u=", a person not yet in the list cannot be
-- added: both ways into the list are undefined behaviour.
pub new_person-LacksIdent :
    (now : ℕ) (n : Bytes) (profile_url icon_url : Option Bytes) (l : List Entry)
    → Absent n (names l)
    → LacksIdent profile_url
    → (nicklist_msg_update now (some n) profile_url icon_url l ≡ none)
      × (nicklist_recup_name now (some n) profile_url l ≡ none)
unfolding nicklist_msg_update nicklist_recup_name
new_person-LacksIdent now n p i l a h =
    let bad = alloc_ident-LacksIdent p h in
    (
      ground (arith, update_first-Absent n (talked now p i) l a),
      ground (arith, update_first-Absent n (listed now p) l a),
    )
