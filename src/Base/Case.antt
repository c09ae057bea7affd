-- ===== src/Base/Case.antt =====
-- `strcasecmp` and `strncasecmp` in the C locale, and decimal numbers as `printf` writes them.
use Prim.Native.Nat.{ℕ, zero, suc, ◌+◌, ◌-◌, ◌*◌, ◌/◌, ◌%◌, ◌≤◌, ◌<◌}
use mathlib.Core.Bool.{Bool, true, ◌&&◌}
use mathlib.Core.List.{[], ◌∷◌, ◌++◌, map}
use mathlib.Core.Path.{◌≡◌, refl}
use native.Mathlib.Omega.{arith}
use minichatclient.Base.Lists.{All, length}
use minichatclient.Base.Tests.{ltb, leb, if◌then◌else◌, Bytes, str_eq, str_eq_refl, Bool-cases}
use mathlib.Core.Logic.{inl, inr}

unfoldable pub to_lower : ℕ → ℕ
to_lower c = if leb b'A' c && leb c b'Z' then c + 32 else c

-- `!strcasecmp(a, b)`
unfoldable pub str_case_eq : Bytes → Bytes → Bool
unfolding to_lower str_eq
str_case_eq a b = str_eq (map to_lower a) (map to_lower b)

pub str_case_eq_refl : (a : Bytes) → str_case_eq a a ≡ true
unfolding str_case_eq
str_case_eq_refl a = str_eq_refl (map to_lower a)

-- The digits of `n` in front of `tail`; a number has no more digits than its value and one.
decimal_onto : ℕ → ℕ → Bytes → Bytes
decimal_onto zero n tail = tail
decimal_onto (suc fuel) n tail =
    let d = (n % 10 + b'0') ∷ tail in
    let more = decimal_onto fuel (n / 10) d in if ltb n 10 then d else more

unfoldable pub decimal : ℕ → Bytes
unfolding decimal_onto
decimal n = decimal_onto (n + 1) n []

-- `%ld` of `a - b`
unfoldable pub decimal_sub : ℕ → ℕ → Bytes
unfolding decimal
decimal_sub a b = if ltb a b then b'-' ∷ decimal (b - a) else decimal (a - b)

-- A number has no byte below the digits.
decimal_onto-digits :
    (fuel n : ℕ) (tail : Bytes)
    → All (λ c. b'0' ≤ c) tail
    → All (λ c. b'0' ≤ c) (decimal_onto fuel n tail)
unfolding decimal_onto
decimal_onto-digits zero n tail h = h
decimal_onto-digits (suc fuel) n tail h =
    ground (arith, decimal_onto-digits fuel (n / 10) ((n % 10 + b'0') ∷ tail) (omega arith, h))

pub decimal-digits : (n : ℕ) → All (λ c. b'0' ≤ c) (decimal n)
unfolding decimal
decimal-digits n = decimal_onto-digits (n + 1) n [] tt

abbrev pub is_digit : ℕ → Bool
is_digit c = leb b'0' c && leb c b'9'

-- The value of the digits in front, behind those of `value`, as `atoi` reads them.
unfoldable pub digits : ℕ → Bytes → ℕ
digits value [] = value
digits value (c ∷ s) =
    let more = digits (value * 10 + (c - b'0')) s in if is_digit c then more else value

decimal_onto-length : (fuel n : ℕ) (tail : Bytes) → length tail ≤ length (decimal_onto fuel n tail)
unfolding decimal_onto
decimal_onto-length zero n tail = omega arith
decimal_onto-length (suc fuel) n tail =
    ground (arith, decimal_onto-length fuel (n / 10) ((n % 10 + b'0') ∷ tail))

pub length-decimal : (n : ℕ) → 1 ≤ length (decimal n)
unfolding decimal decimal_onto
length-decimal n = ground (arith, decimal_onto-length n (n / 10) ((n % 10 + b'0') ∷ []))

-- What is written is read back, in front of a text that does not begin with a digit.
digits-onto :
    (fuel n : ℕ) (tail : Bytes) → n < fuel → digits 0 (decimal_onto fuel n tail) ≡ digits n tail
unfolding digits decimal_onto
digits-onto zero n tail h = absurd (omega arith)
digits-onto (suc fuel) n tail h = elim (Bool-cases (ltb n 10)) [
  | inl e ↦
      let same : 0 * 10 + (n % 10 + b'0' - b'0') ≡ n = ground arith in
      let is : is_digit (n % 10 + b'0') ≡ true = ground arith in rw (e, is, same)
  | inr e ↦
      let is : is_digit (n % 10 + b'0') ≡ true = ground arith in
      let whole : n / 10 * 10 + (n % 10 + b'0' - b'0') ≡ n = omega arith in
      rw (e, digits-onto fuel (n / 10) ((n % 10 + b'0') ∷ tail) (ground arith), is, whole)
]

decimal_onto-append :
    (fuel n : ℕ) (a b : Bytes) → decimal_onto fuel n a ++ b ≡ decimal_onto fuel n (a ++ b)
unfolding decimal_onto
decimal_onto-append zero n a b = refl
decimal_onto-append (suc fuel) n a b = elim (Bool-cases (ltb n 10)) [
  | inl e ↦ rw e
  | inr e ↦ rw (e, decimal_onto-append fuel (n / 10) ((n % 10 + b'0') ∷ a) b)
]

pub digits-decimal : (n : ℕ) (s : Bytes) → digits 0 (decimal n ++ s) ≡ digits n s
unfolding decimal
digits-decimal n s = rw (decimal_onto-append (n + 1) n [] s) (digits-onto (n + 1) n s (omega arith))
