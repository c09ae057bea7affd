-- ===== src/Text/Utf8.antt =====
-- strfunctions.c: `extract_codepoints_from_utf8` and `utf8_character_from_ucs_codepoint`, and the
-- loop over a text that gotcurses.c runs on the first.
-- A byte is a number below 256 and an `unsigned int` one below 2 ^ 32. `x >> k` is `shr x k`,
-- `x & (2 ^ k - 1)` is `low_bits x k`, a test of the top bits of a byte, `(c & 0xE0) == 0xC0`, is
-- `shr c 5 == 6`, and `| 0xC0` onto bits that are clear there is a sum.
pub mod Decode
pub mod RoundTrip
use mathlib.Core.Option
use minichatclient.Base.{
  ℕ, zero, suc, ◌+◌, ◌*◌, ◌/◌, ◌%◌, ◌^◌, Option, none, some, List, [], ◌∷◌, ◌==◌, leb,
  if◌then◌else◌, Bytes,
}

abbrev pub shr : ℕ → ℕ → ℕ
shr x k = x / 2 ^ k

abbrev pub low_bits : ℕ → ℕ → ℕ
low_bits x k = x % 2 ^ k

abbrev pub u32 : ℕ → ℕ
u32 x = x % 2 ^ 32

-- `value` and the new `*in`; a truncated sequence sets `*in` to NULL and returns 0.
abbrev pub Extracted : Type 0
Extracted = ℕ × Option Bytes

abbrev pub cut_short : Extracted
cut_short = (0, none)

-- The branches by the length of the sequence, each on the bytes behind the first byte `c`.
extract_two : ℕ → Bytes → Extracted
extract_two c (d ∷ rest) = (u32 (low_bits c 5 * 2 ^ 6 + low_bits d 6), some rest)
extract_two c _ = cut_short

extract_three : ℕ → Bytes → Extracted
extract_three c (d ∷ e ∷ rest) =
    (u32 (low_bits c 4 * 2 ^ 12 + low_bits d 6 * 2 ^ 6 + low_bits e 6), some rest)
extract_three c _ = cut_short

extract_four : ℕ → Bytes → Extracted
extract_four c (d ∷ e ∷ f ∷ rest) = (
  u32 (low_bits c 3 * 2 ^ 18 + low_bits d 6 * 2 ^ 12 + low_bits e 6 * 2 ^ 6 + low_bits f 6),
  some rest,
)
extract_four c _ = cut_short

extract_five : ℕ → Bytes → Extracted
extract_five c (d ∷ e ∷ f ∷ g ∷ rest) = (
  u32 (
      low_bits c 2 * 2 ^ 24
      + low_bits d 6 * 2 ^ 18
      + low_bits e 6 * 2 ^ 12
      + low_bits f 6 * 2 ^ 6
      + low_bits g 6),
  some rest,
)
extract_five c _ = cut_short

extract_six : ℕ → Bytes → Extracted
extract_six c (d ∷ e ∷ f ∷ g ∷ h ∷ rest) = (
  u32 (
      low_bits c 1 * 2 ^ 30
      + low_bits d 6 * 2 ^ 24
      + low_bits e 6 * 2 ^ 18
      + low_bits f 6 * 2 ^ 12
      + low_bits g 6 * 2 ^ 6
      + low_bits h 6),
  some rest,
)
extract_six c _ = cut_short

-- The argument is `*in`. `in` itself is never null in the program: each caller passes `&p`.
unfoldable pub extract_codepoints_from_utf8 : Option Bytes → Extracted
unfolding extract_two extract_three extract_four extract_five extract_six
extract_codepoints_from_utf8 none = (0, none)
extract_codepoints_from_utf8 (some []) = (0, none)
extract_codepoints_from_utf8 (some (c ∷ rest)) =
    if shr c 7 == 0
    then (c, some rest)
    else if shr c 5 == 6
    then extract_two c rest
    else if shr c 4 == 14
    then extract_three c rest
    else if shr c 3 == 30
    then extract_four c rest
    else if shr c 2 == 62
    then extract_five c rest
    else if shr c 1 == 126
    then extract_six c rest
    else (b'?', some rest)

-- The `k`-th byte from the end of a sequence: the bits from `s` on, under the continuation mark.
abbrev pub continuation : ℕ → ℕ → ℕ
continuation u s = low_bits (shr u s) 6 + 128

unfoldable pub utf8_character_from_ucs_codepoint : ℕ → Bytes
utf8_character_from_ucs_codepoint u =
    if u == 0
    then []
    else if leb u 0x7F
    then low_bits u 7 ∷ []
    else if leb u 0x7FF
    then (low_bits (shr u 6) 5 + 192) ∷ continuation u 0 ∷ []
    else if leb u 0xFFFF
    then (low_bits (shr u 12) 4 + 224) ∷ continuation u 6 ∷ continuation u 0 ∷ []
    else if leb u 0x1FFFFF
    then (low_bits (shr u 18) 3 + 240)
      ∷ continuation u 12
      ∷ continuation u 6
      ∷ continuation u 0
      ∷ []
    else if leb u 0x3FFFFFF
    then (low_bits (shr u 24) 2 + 248)
      ∷ continuation u 18
      ∷ continuation u 12
      ∷ continuation u 6
      ∷ continuation u 0
      ∷ []
    else if leb u 0x7FFFFFFF
    then (low_bits (shr u 30) 1 + 252)
      ∷ continuation u 24
      ∷ continuation u 18
      ∷ continuation u 12
      ∷ continuation u 6
      ∷ continuation u 0
      ∷ []
    else []

-- `while ((c = extract_codepoints_from_utf8(&p)))`, collecting each `c`; `none` means that the
-- fuel ran out.
unfoldable pub codepoints_loop : ℕ → Option Bytes → Option (List ℕ)
codepoints_loop zero p = none
codepoints_loop (suc fuel) p =
    let (c, p') = extract_codepoints_from_utf8 p in
    let rest = codepoints_loop fuel p' in if c == 0 then some [] else Option.map (λ cs. c ∷ cs) rest
