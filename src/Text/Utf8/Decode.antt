-- ===== src/Text/Utf8/Decode.antt =====
-- What one call of the decoder consumes and returns, and that the loop over a text ends.
use minichatclient.Base.{
  ℕ, zero, suc, ◌^◌, ◌<◌, ◌≤◌, ◌≡◌, refl, ap, Option, none, some, List, [], ◌∷◌, ◌++◌, arith, Bytes,
  length, length-append, All, Bool-cases, ◌==◌, ◌⊎◌, inl, inr, Bool, true, false, if◌then◌else◌,
}
use minichatclient.Text.Utf8.{
  extract_codepoints_from_utf8, codepoints_loop, shr, Extracted, extract_two, extract_three,
  extract_four, extract_five, extract_six,
}

-- The pointer moves over one to six bytes of `s`.
pub record Consumes (s rest : Bytes) : Type 0 where
  pub read : Bytes
  pub splits : s ≡ read ++ rest
  pub some_read : 0 < length read
  pub few_read : length read ≤ 6

abbrev pub After : Bytes → Extracted → Type 0
After s (c, none) = c ≡ 0
After s (c, some rest) = Consumes s rest

if-After :
    (s : Bytes) (b : Bool) (x y : Extracted) → After s x → After s y → After s (if b then x else y)
if-After s true x y h k = h
if-After s false x y h k = k

reads : (read rest : Bytes) → 0 < length read → length read ≤ 6 → Consumes (read ++ rest) rest
reads read rest h k = record { read = read; splits = refl; some_read = h; few_read = k }

two-After : (c : ℕ) (s : Bytes) → After (c ∷ s) (extract_two c s)
unfolding extract_two
two-After c (d ∷ s) = reads (c ∷ d ∷ []) s (omega arith) (omega arith)
two-After c _ = refl

three-After : (c : ℕ) (s : Bytes) → After (c ∷ s) (extract_three c s)
unfolding extract_three
three-After c (d ∷ e ∷ s) = reads (c ∷ d ∷ e ∷ []) s (omega arith) (omega arith)
three-After c _ = refl

four-After : (c : ℕ) (s : Bytes) → After (c ∷ s) (extract_four c s)
unfolding extract_four
four-After c (d ∷ e ∷ f ∷ s) = reads (c ∷ d ∷ e ∷ f ∷ []) s (omega arith) (omega arith)
four-After c _ = refl

five-After : (c : ℕ) (s : Bytes) → After (c ∷ s) (extract_five c s)
unfolding extract_five
five-After c (d ∷ e ∷ f ∷ g ∷ s) = reads (c ∷ d ∷ e ∷ f ∷ g ∷ []) s (omega arith) (omega arith)
five-After c _ = refl

six-After : (c : ℕ) (s : Bytes) → After (c ∷ s) (extract_six c s)
unfolding extract_six
six-After c (d ∷ e ∷ f ∷ g ∷ h ∷ s) =
    reads (c ∷ d ∷ e ∷ f ∷ g ∷ h ∷ []) s (omega arith) (omega arith)
six-After c _ = refl

-- Where a call leaves a pointer to go on with, it has moved forward over one to six bytes of the
-- text; else it has left NULL and returned 0.
pub extract-After : (s : Bytes) → After s (extract_codepoints_from_utf8 (some s))
unfolding extract_codepoints_from_utf8
extract-After [] = refl
extract-After (c ∷ s) =
    if-After (c ∷ s) (shr c 7 == 0) _ _ (reads (c ∷ []) s (omega arith) (omega arith)) (
      if-After (c ∷ s) (shr c 5 == 6) _ _ (two-After c s) (
        if-After (c ∷ s) (shr c 4 == 14) _ _ (three-After c s) (
          if-After (c ∷ s) (shr c 3 == 30) _ _ (four-After c s) (
            if-After (c ∷ s) (shr c 2 == 62) _ _ (five-After c s) (
              if-After (c ∷ s) (shr c 1 == 126) _ _ (six-After c s)
                (reads (c ∷ []) s (omega arith) (omega arith)))))))

-- The value fits 31 bits, whatever the bytes are.
pub extract-lt :
    (s : Bytes) → All (λ c. c < 256) s → (extract_codepoints_from_utf8 (some s)).0 < 2 ^ 31
unfolding extract_codepoints_from_utf8
extract-lt [] h = omega arith
extract-lt (c ∷ s) h = ground arith

shrinks : (s rest : Bytes) → Consumes s rest → length rest < length s
shrinks s rest h = omega (arith, ap length h.splits, length-append h.read rest, h.some_read)

-- The bytes ahead of a pointer, with the terminating zero.
abbrev pub ahead : Option Bytes → ℕ
ahead none = 0
ahead (some s) = suc (length s)

pub extract-ahead :
    (p : Option Bytes)
    → ((extract_codepoints_from_utf8 p).0 ≡ 0)
      ⊎ ((ahead (extract_codepoints_from_utf8 p).1 < ahead p) × (1 < ahead p))
extract-ahead none = inl (unfold extract_codepoints_from_utf8 in refl)
extract-ahead (some s) = go (extract_codepoints_from_utf8 (some s)) (extract-After s)
  where
    go :
        (x : Extracted)
        → After s x
        → (x.0 ≡ 0) ⊎ ((ahead x.1 < suc (length s)) × (1 < suc (length s)))
    go (c, none) h = inl h
    go (c, some rest) h = inr (omega (arith, shrinks s rest h), omega (arith, shrinks s rest h))

-- The loop over a text ends: with more fuel than the bytes ahead it has a result.
pub codepoints_loop-total :
    (fuel : ℕ) (p : Option Bytes)
    → ahead p < fuel
    → (cs : List ℕ) × (codepoints_loop fuel p ≡ some cs)
unfolding codepoints_loop
codepoints_loop-total zero p h = absurd (omega arith)
codepoints_loop-total (suc fuel) p h = elim (Bool-cases ((extract_codepoints_from_utf8 p).0 == 0)) [
  | inl stop ↦ ([], rw stop)
  | inr more ↦
      let (cs, e) =
        codepoints_loop-total fuel (extract_codepoints_from_utf8 p).1
          (ground (arith, extract-ahead p)) in
      ((extract_codepoints_from_utf8 p).0 ∷ cs, rw (more, e))
]
