-- ===== src/Markup/Ends.antt =====
-- parser.c: the loops that apply the special rules end, with the fuel that they are given.
use minichatclient.Base.{
  ℕ, zero, suc, ◌+◌, ◌-◌, ◌<◌, ◌≤◌, ◌≡◌, ◌⊎◌, refl, ap, ◌∙◌, ◌==◌, true, false, ◌&&◌, ◌||◌, List,
  [], ◌∷◌, Option, none, some, Bytes, length, arith, inl, inr, str_eq, codes, Bool-cases,
  Option-cases, ltb, if◌then◌else◌,
}
use minichatclient.Markup.{Result, ok, crash, starved, ◌>>=◌, Attribute, Part, set_link}
use minichatclient.Text.Search.{strstr}
use minichatclient.Markup.Cstring.{cstring_ends_with}
use minichatclient.Markup.Special.{
  Place, count_span_data_span, remove, remove_many, step_over, name_nick, drop_comma, step_back,
  name_round, names_loop, drop_at, check_at_rule, check_reduce_link_rule, swap_link, is_reduced,
  special_loop, unlinked, stays_at, pick_href, is_at, is_link,
}

-- The run is over: with a result that `Good` says something of, or in a crash.
abbrev pub IsOver {ℓ} : {A : Type ℓ} → (A → Type 0) → Result A → Type 0
IsOver Good starved = ⊥
IsOver Good crash = Unit
IsOver Good (ok result) = Good result

-- Two runs, the second from what the first gives.
pub IsOver-bind {ℓ κ} :
    {A : Type ℓ} {B : Type κ} (Good : A → Type 0) (Better : B → Type 0) (first : Result A)
    (next : A → Result B)
    → IsOver Good first
    → ((result : A) → Good result → IsOver Better (next result))
    → IsOver Better (first >>= next)
IsOver-bind Good Better starved next over go = absurd over
IsOver-bind Good Better crash next over go = tt
IsOver-bind Good Better (ok result) next over go = go result over

IsOver-map {ℓ} :
    {A : Type ℓ} (Good : A → Type 0) (Better : A → Type 0) (run : Result A)
    → ((result : A) → Good result → Better result)
    → IsOver Good run
    → IsOver Better run
IsOver-map Good Better starved weaken over = absurd over
IsOver-map Good Better crash weaken over = tt
IsOver-map Good Better (ok result) weaken over = weaken result over

length-set_link :
    (uid : ℕ) (link : Option ℕ) (parts : List Part)
    → length (set_link uid link parts) ≡ length parts
unfolding set_link
length-set_link uid link [] = refl
length-set_link uid link (p ∷ parts) = ap suc (length-set_link uid link parts)

length-unlinked :
    (link : Option ℕ) (parts : List Part) → length (unlinked link parts) ≡ length parts
length-unlinked none parts = refl
length-unlinked (some uid) parts = length-set_link uid none parts

-- What lies ahead of a place.
abbrev ahead : Place → ℕ
ahead z = length z.1

abbrev Within : ℕ → Place → Type 0
Within n z = ahead z ≤ n

remove-Within : (z : Place) (n : ℕ) → ahead z ≤ suc n → IsOver (Within n) (remove z)
unfolding remove
remove-Within (before, []) n h = tt
remove-Within (before, p ∷ parts) n h = omega (arith, length-unlinked p.link parts)

remove_many-Within : (k : ℕ) (z : Place) (n : ℕ) → ahead z ≤ n → IsOver (Within n) (remove_many k z)
unfolding remove_many
remove_many-Within zero z n h = h
remove_many-Within (suc k) z n h =
    IsOver-bind (Within n) (Within n) (remove z) (remove_many k) (remove-Within z n (omega arith))
      (λ a w. remove_many-Within k a n w)

step_over-Within : (z : Place) (n : ℕ) → ahead z ≤ n → ahead (step_over z) ≤ n
step_over-Within (before, []) n h = h
step_over-Within (before, p ∷ parts) n h = omega arith

step_over-less : (z : Place) → 0 < ahead z → suc (ahead (step_over z)) ≡ ahead z
step_over-less (before, []) h = absurd (omega arith)
step_over-less (before, p ∷ parts) h = refl

name_nick-Within : (z : Place) (n : ℕ) → ahead z ≤ n → ahead (name_nick z) ≤ n
name_nick-Within (before, []) n h = h
name_nick-Within (before, p ∷ parts) n h = omega arith

step_back-Within : (z : Place) (n : ℕ) → ahead z + 1 ≤ n → IsOver (Within n) (step_back z)
step_back-Within (before, []) n h = tt
step_back-Within ([], p ∷ parts) n h = omega arith
step_back-Within (q ∷ before, p ∷ parts) n h = omega arith

drop_comma-Within : (z : Place) (n : ℕ) → ahead z ≤ n → IsOver (Within n) (drop_comma z)
unfolding drop_comma remove
drop_comma-Within (before, []) n h = h
drop_comma-Within (before, p ∷ parts) n h = ground (
  arith,
  step_back-Within (unlinked p.link before, unlinked p.link parts) n
      (omega (arith, length-unlinked p.link parts)),
)

name_round-Within :
    (spans : ℕ) (z : Place) (n : ℕ)
    → ahead z ≤ suc n
    → 0 < ahead z
    → IsOver (Within n) (name_round spans z)
unfolding name_round
name_round-Within spans (before, []) n h k = absurd (omega arith)
name_round-Within spans (before, p ∷ parts) n h k =
    IsOver-bind (Within n) (Within n) (remove_many (spans - 1) (name_nick (before, p ∷ parts))) _
      (remove_many-Within (spans - 1) (name_nick (before, p ∷ parts)) n (omega arith))
      λ z₁ w₁.
        IsOver-bind (Within n) (Within n) (remove_many (spans - 1) (step_over z₁)) _
          (remove_many-Within (spans - 1) (step_over z₁) n (step_over-Within z₁ n w₁))
          λ z₂ w₂. drop_comma-Within (name_nick z₂) n (name_nick-Within z₂ n w₂)

some_span : (parts : List Part) → (count_span_data_span parts == 0) ≡ false → 0 < length parts
unfolding count_span_data_span
some_span [] h = ground arith
some_span (p ∷ parts) h = omega arith

names_loop-Within :
    (fuel : ℕ) (z : Place) (n : ℕ) → ahead z ≤ n → n < fuel → IsOver (Within n) (names_loop fuel z)
unfolding names_loop
names_loop-Within zero z n h k = absurd (omega arith)
names_loop-Within (suc fuel) z zero h k = elim (Bool-cases (count_span_data_span z.1 == 0)) [
  | inl e ↦ rw e h
  | inr e ↦ ground (arith, some_span z.1 e)
]
names_loop-Within (suc fuel) z (suc n) h k = elim (Bool-cases (count_span_data_span z.1 == 0)) [
  | inl e ↦ rw e h
  | inr e ↦ rw e (
      IsOver-bind (Within n) (Within (suc n)) (name_round (count_span_data_span z.1) z)
        (names_loop fuel) (name_round-Within (count_span_data_span z.1) z n h (some_span z.1 e))
        λ z' w.
          IsOver-map (Within n) (Within (suc n)) (names_loop fuel z') (λ a b. omega (arith, b))
            (names_loop-Within fuel z' n w (omega arith)))
]

-- A check leaves the place as it is, or goes on.
abbrev Advances : List Part → Part → List Part → Place → Type 0
Advances before p parts z = (z ≡ (before, p ∷ parts)) ⊎ (ahead z ≤ length parts)

drop_at-Within :
    (before : List Part) (p : Part) (parts : List Part)
    → IsOver (Within (length parts)) (drop_at before p parts)
unfolding drop_at remove
drop_at-Within before p parts = ground (arith, length-unlinked p.link parts)

check_at_rule-Advances :
    (before : List Part) (p : Part) (parts : List Part)
    → IsOver (Advances before p parts) (check_at_rule (before, p ∷ parts))
unfolding check_at_rule
check_at_rule-Advances before p parts =
    elim (Bool-cases
      ((is_at 2 p.data_of || is_at 3 p.data_of) && ltb 0 (count_span_data_span parts))) [
        | inl e ↦ rw e (
            IsOver-bind (Within (length parts)) (Advances before p parts) (drop_at before p parts)
              (names_loop (length parts + 1)) (drop_at-Within before p parts)
              λ z w.
                IsOver-map (Within (length parts)) (Advances before p parts)
                  (names_loop (length parts + 1) z) (λ a b. inr b)
                  (names_loop-Within (length parts + 1) z (length parts) w (omega arith)))
        | inr e ↦ rw e (inl refl)
      ]

-- The part at the place stays, and the length of what lies ahead.
abbrev SamePart : Place → Place → Type 0
SamePart z z' = (ahead z' ≡ ahead z) × ((p : Part) → stays_at p z' ≡ stays_at p z)

is_reduced-IsOver : (text : Bytes) (att : Attribute) → IsOver (λ _. Unit) (is_reduced text att)
unfolding is_reduced cstring_ends_with
is_reduced-IsOver text att = elim (Bool-cases (str_eq text att.value)) [
  | inl e ↦ rw (e, is_reduced) tt
  | inr e ↦ elim (Option-cases (strstr text (codes " ... "))) [
    | inl f ↦ rw (e, f, is_reduced) tt
    | inr (i, f) ↦ rw (e, f, is_reduced) (ground arith)
  ]
]

swap_link-same :
    (before : List Part) (p q : Part) (parts : List Part)
    → IsOver (λ after. SamePart (before, p ∷ q ∷ parts) (before, after)) (swap_link p q parts)
unfolding swap_link
swap_link-same before p q parts = elim (Option-cases (pick_href p.attributes)) [
  | inl e ↦ rw (e, swap_link) (refl, λ r. refl)
  | inr ((front, att, behind), e) ↦
      rw (e, swap_link)
        (IsOver-bind (λ _. Unit) (λ after. SamePart (before, p ∷ q ∷ parts) (before, after))
          (is_reduced q.data_of att) _ (is_reduced-IsOver q.data_of att)
          λ applies _. elim (Bool-cases applies) [
            | inl f ↦ rw f (refl, λ r. refl)
            | inr f ↦ rw f (refl, λ r. refl)
          ])
]

check_reduce-SamePart : (z : Place) → IsOver (SamePart z) (check_reduce_link_rule z)
unfolding check_reduce_link_rule
check_reduce-SamePart (before, []) = (refl, λ p. refl)
check_reduce-SamePart (before, p ∷ []) = (refl, λ p. refl)
check_reduce-SamePart (before, p ∷ q ∷ parts) = elim (Bool-cases (is_link p)) [
  | inl e ↦ rw e (
      IsOver-bind (λ after. SamePart (before, p ∷ q ∷ parts) (before, after))
        (SamePart (before, p ∷ q ∷ parts)) (swap_link p q parts) _ (swap_link-same before p q parts)
        (λ after s. s))
  | inr e ↦ rw e (refl, λ p. refl)
]

-- The loop of the special rules ends: each round passes a part.
pub special_loop-IsOver :
    (fuel : ℕ) (z : Place) → ahead z < fuel → IsOver (λ _. Unit) (special_loop fuel z)
unfolding special_loop
special_loop-IsOver zero z h = absurd (omega arith)
special_loop-IsOver (suc fuel) (before, []) h = tt
special_loop-IsOver (suc fuel) (before, p ∷ parts) h =
    IsOver-bind (Advances before p parts) (λ _. Unit) (check_at_rule (before, p ∷ parts)) _
      (check_at_rule-Advances before p parts)
      λ z₁ w₁.
        IsOver-bind (SamePart z₁) (λ _. Unit) (check_reduce_link_rule z₁) _
          (check_reduce-SamePart z₁)
          λ z₂ w₂.
            special_loop-IsOver fuel (if stays_at p z₂ then step_over z₂ else z₂)
              (shorter z₁ z₂ w₁ w₂)
  where
    shorter :
        (z₁ z₂ : Place)
        → Advances before p parts z₁
        → SamePart z₁ z₂
        → ahead (if stays_at p z₂ then step_over z₂ else z₂) < fuel
    shorter z₁ z₂ (inl e) w =
        let stays : stays_at p z₂ ≡ true = w.1 p ∙ ap (stays_at p) e ∙ ground arith in
        let there : ahead z₂ ≡ suc (length parts) = w.0 ∙ ap ahead e in
        rw stays (omega (arith, step_over-less z₂ (omega arith)))
    shorter z₁ z₂ (inr le) w = elim (Bool-cases (stays_at p z₂)) [
      | inl e ↦ rw e (omega (arith, step_over-Within z₂ (length parts) (omega (arith, w.0))))
      | inr e ↦ rw e (omega (arith, w.0))
    ]
