-- ===== src/Cookies/Laws.antt =====
-- The array of cookies as a map, the header that is made of it, and what `freecookies` leaves.
use minichatclient.Base.{
  suc, ◌≡◌, refl, ap, ◌⊎◌, inl, inr, Bool, true, false, ◌&&◌, ◌||◌, List, [], ◌∷◌, some, arith,
  Bytes, length, All, if◌then◌else◌, str_eq, str_eq_iff, Bool-cases,
}
use minichatclient.Cookies.{Ptr, null, live, dangling, Cookie, cookie, storecookie, getcookie}

abbrev IsLive : Ptr → Type 0
IsLive null = ⊥
IsLive (live s) = Unit
IsLive dangling = ⊥

-- Slots in use, each with a name and a value, and behind them unused slots only.
abbrev pub IsPacked : List Cookie → Type 0
IsPacked [] = Unit
IsPacked (c ∷ cookies) =
    (IsLive c.name × IsLive c.value × IsPacked cookies)
    ⊎ ((c.name ≡ null)
        × (c.value ≡ null)
        × All (λ (d : Cookie). (d.name ≡ null) × (d.value ≡ null)) cookies)

-- There is a slot for `name`: the one that holds it, or an unused one.
pub has_slot : Bytes → List Cookie → Bool
has_slot name [] = false
has_slot name (c ∷ cookies) =
    let rest = has_slot name cookies in
    elim c.name [ null ↦ true | live n ↦ str_eq n name || rest | dangling ↦ false ]

unused-IsPacked :
    (cookies : List Cookie)
    → All (λ (d : Cookie). (d.name ≡ null) × (d.value ≡ null)) cookies
    → IsPacked cookies
unused-IsPacked [] h = tt
unused-IsPacked (c ∷ cookies) h = inr (h.0.0, h.0.1, h.1)

live_string : (p : Ptr) → IsLive p → (s : Bytes) × (p ≡ live s)
live_string null h = absurd h
live_string (live s) h = (s, refl)
live_string dangling h = absurd h

record Stored (name value : Bytes) (cookies : List Cookie) : Type 0 where
  after : List Cookie
  runs : storecookie name value cookies ≡ some after
  packed : IsPacked after
  same_length : length after ≡ length cookies

stored : (name value : Bytes) (cookies : List Cookie) → IsPacked cookies → Stored name value cookies
unfolding storecookie
stored name value [] h = record { after = []; runs = refl; packed = tt; same_length = refl }
stored name value (c ∷ cookies) (inr (e, e', h)) = record {
  after = cookie name value ∷ cookies;
  runs = ground arith;
  packed = inl (tt, tt, unused-IsPacked cookies h);
  same_length = refl;
}
stored name value (c ∷ cookies) (inl (l, l', h)) =
    let (n, e) = live_string c.name l in
    let (v, e') = live_string c.value l' in
    elim (Bool-cases (str_eq n name)) [
      | inl same ↦ record {
        after = cookie name value ∷ cookies;
        runs = ground arith;
        packed = inl (tt, tt, h);
        same_length = refl;
      }
      | inr other ↦
          let r = stored name value cookies h in
          record {
            after = c ∷ r.after;
            runs = ground (arith, r.runs);
            packed = inl (l, l', r.packed);
            same_length = ap suc r.same_length;
          }
    ]

-- On an array in order `storecookie` returns, and leaves as many slots, in order again.
pub storecookie-IsPacked :
    (name value : Bytes) (cookies : List Cookie)
    → IsPacked cookies
    → (after : List Cookie) × (storecookie name value cookies ≡ some after)
      × IsPacked after
      × (length after ≡ length cookies)
storecookie-IsPacked name value cookies h =
    let r = stored name value cookies h in (r.after, r.runs, r.packed, r.same_length)

getcookie-unused :
    (cookies : List Cookie) (name : Bytes)
    → All (λ (d : Cookie). (d.name ≡ null) × (d.value ≡ null)) cookies
    → getcookie cookies name ≡ some null
unfolding getcookie
getcookie-unused [] name h = refl
getcookie-unused (c ∷ cookies) name h = ground arith

-- After `storecookie`, `getcookie` finds the value under the name that was stored, if there was a
-- slot for it, and under every other name what it found before. Without a slot nothing is stored.
pub getcookie-storecookie :
    (name value other : Bytes) (cookies : List Cookie) {after : List Cookie}
    → IsPacked cookies
    → storecookie name value cookies ≡ some after
    → getcookie after other ≡ (
        if str_eq name other && has_slot name cookies
        then some (live value)
        else getcookie cookies other)
unfolding storecookie getcookie has_slot
getcookie-storecookie name value other [] h e = ground arith
getcookie-storecookie name value other (c ∷ cookies) (inr (p, q, h)) e =
    ground (arith, getcookie-unused cookies other h)
getcookie-storecookie name value other (c ∷ cookies) (inl (l, l', h)) e =
    let (n, p) = live_string c.name l in
    let r = stored name value cookies h in
    ground (
      arith,
      live_string c.value l',
      r.runs,
      getcookie-storecookie name value other cookies h r.runs,
      str_eq_iff n name,
      str_eq_iff n other,
      str_eq_iff name other,
    )
