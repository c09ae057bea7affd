-- ===== src/Text/Charset.antt =====
-- strfunctions.c: the transliterations between Unicode and the character sets of a terminal, and
-- `transliterate_from_utf8` of gotcurses.c, which applies them to a text.
-- A chain of `else if (x == k) { return v; }` is the table of its (k, v) in order: the first entry
-- that fits is taken. `win32` says whether WIN32 is defined, which the CP850 tables depend on.
mod CpEncodeLow
mod CpEncodeHigh
mod CpDecode
pub mod Laws
pub mod Display
use CpEncodeLow.{ucs_to_cp850_low}
use CpEncodeHigh.{ucs_to_cp850_high}
use CpDecode.{cp850_to_ucs_low, cp850_to_ucs_high}
use minichatclient.Base.{
  ℕ, zero, suc, Bool, true, false, ◌&&◌, List, [], ◌∷◌, ◌++◌, Option, none, some, ◌==◌, leb,
  if◌then◌else◌, Bytes,
}

pub first_match : List (ℕ × ℕ) → ℕ → ℕ → ℕ
first_match [] x other = other
first_match ((k, v) ∷ t) x other = if x == k then v else first_match t x other

abbrev ucs_to_iso88591_table : List (ℕ × ℕ)
ucs_to_iso88591_table =
    (0x20AC, 128)
    ∷ (0x2018, b'\'')
    ∷ (0x2019, b'\'')
    ∷ (0x201A, b',')
    ∷ (0x201C, b'"')
    ∷ (0x201D, b'"')
    ∷ (0x2013, b'-')
    ∷ (0x2014, b'-')
    ∷ (0x02DC, b'~')
    ∷ (0x2502, b'|')
    ∷ []

abbrev iso88591_to_ucs_table : List (ℕ × ℕ)
iso88591_to_ucs_table =
    (128, 0x20AC)
    ∷ (130, 0x201A)
    ∷ (131, 0x0192)
    ∷ (132, 0x201E)
    ∷ (133, 0x2026)
    ∷ (134, 0x2020)
    ∷ (135, 0x2021)
    ∷ (136, 0x02C6)
    ∷ (137, 0x2030)
    ∷ (138, 0x0160)
    ∷ (139, 0x2039)
    ∷ (140, 0x0152)
    ∷ (142, 0x017D)
    ∷ (145, 0x2018)
    ∷ (146, 0x2019)
    ∷ (147, 0x201C)
    ∷ (148, 0x201D)
    ∷ (149, 0x2022)
    ∷ (150, 0x2013)
    ∷ (151, 0x2014)
    ∷ (152, 0x02DC)
    ∷ (153, 0x2122)
    ∷ (154, 0x0161)
    ∷ (155, 0x203A)
    ∷ (156, 0x0153)
    ∷ (158, 0x017E)
    ∷ (159, 0x0178)
    ∷ []

unfoldable pub transliterate_ucs_to_cp850 : Bool → ℕ → ℕ
unfolding first_match
transliterate_ucs_to_cp850 win32 u =
    if leb u 0x7E
    then u
    else if win32
    then first_match (ucs_to_cp850_low ++ ucs_to_cp850_high) u b'?'
    else b'?'

unfoldable pub transliterate_cp850_to_ucs : Bool → ℕ → ℕ
unfolding first_match
transliterate_cp850_to_ucs win32 c =
    if leb 0x20 c && leb c 0x7E
    then c
    else if win32
    then first_match (cp850_to_ucs_low ++ cp850_to_ucs_high) c b'?'
    else b'?'

unfoldable pub transliterate_ucs_to_iso88591 : ℕ → ℕ
unfolding first_match
transliterate_ucs_to_iso88591 u =
    if leb u 0x7E
    then u
    else first_match ucs_to_iso88591_table u (if leb 0xA0 u && leb u 0xFF then u else b'?')

unfoldable pub transliterate_iso88591_to_ucs : ℕ → ℕ
unfolding first_match
transliterate_iso88591_to_ucs c =
    if leb c 127 then c else if leb 160 c then c else first_match iso88591_to_ucs_table c b'?'
