-- ===== src/Text/Charset/Display.antt =====
-- gotcurses.c: `transliterate_from_utf8`, from the text to the bytes that the terminal is given.
use mathlib.Core.Option
use minichatclient.Base.{
  ℕ, zero, suc, ◌+◌, ◌-◌, ◌≤◌, ◌≡◌, refl, Bool, List, map, Option, none, some, arith, Bytes, length,
  length-map, inl, inr, Option-cases,
}
use minichatclient.Text.Utf8.{codepoints_loop, extract_codepoints_from_utf8}
use minichatclient.Text.Utf8.Decode.{ahead, codepoints_loop-total, extract-ahead}
use minichatclient.Text.Charset.{transliterate_ucs_to_cp850, transliterate_ucs_to_iso88591}

pub data Transliteration : Type 0 where
  native_utf8 iso8859_1 cp850 : Transliteration

-- The fuel, one step for each byte and two more, covers the loop.
decoded : Bytes → Option (List ℕ)
decoded s = codepoints_loop (length s + 2) (some s)

pub transliterate_from_utf8 : Bool → Transliteration → Option Bytes → Option Bytes
unfolding decoded
transliterate_from_utf8 win32 mode none = none
transliterate_from_utf8 win32 native_utf8 (some s) = some s
transliterate_from_utf8 win32 iso8859_1 (some s) =
    Option.map (map transliterate_ucs_to_iso88591) (decoded s)
transliterate_from_utf8 win32 cp850 (some s) =
    Option.map (map (transliterate_ucs_to_cp850 win32)) (decoded s)

-- Decoding gives no more code points than the text has bytes.
length-codepoints_loop :
    (fuel : ℕ) (p : Option Bytes) (cs : List ℕ)
    → codepoints_loop fuel p ≡ some cs
    → length cs ≤ ahead p - 1
unfolding codepoints_loop
length-codepoints_loop zero p cs h = cc
length-codepoints_loop (suc fuel) p cs h =
    let p' = (extract_codepoints_from_utf8 p).1 in
    elim (Option-cases (codepoints_loop fuel p')) [
      | inl e ↦ ground arith
      | inr (r, e) ↦ ground (arith, length-codepoints_loop fuel p' r e, extract-ahead p)
    ]

-- The bytes written for one text, at each of the two branches that allocate.
abbrev Fits : Bytes → Option Bytes → Type 0
Fits s o = (out : Bytes) × (o ≡ some out) × (length out ≤ length s)

decoded-Fits : (s : Bytes) (f : ℕ → ℕ) → Fits s (Option.map (map f) (decoded s))
unfolding decoded
decoded-Fits s f =
    let (cs, e) = codepoints_loop-total (length s + 2) (some s) (omega arith) in
    (
      map f cs,
      rw e,
      omega (arith, length-map f cs, length-codepoints_loop (length s + 2) (some s) cs e),
    )

-- On a text the function returns, and what it writes fits the `strlen(in) + 1` bytes that it
-- allocates, the zero included: there are no more characters out than bytes in.
pub transliterate_from_utf8-fits :
    (win32 : Bool) (mode : Transliteration) (s : Bytes)
    → (out : Bytes) × (transliterate_from_utf8 win32 mode (some s) ≡ some out)
      × (length out + 1 ≤ length s + 1)
unfolding transliterate_from_utf8
transliterate_from_utf8-fits win32 native_utf8 s = (s, refl, omega arith)
transliterate_from_utf8-fits win32 iso8859_1 s =
    let (out, e, h) = decoded-Fits s transliterate_ucs_to_iso88591 in (out, e, omega arith)
transliterate_from_utf8-fits win32 cp850 s =
    let (out, e, h) = decoded-Fits s (transliterate_ucs_to_cp850 win32) in (out, e, omega arith)
