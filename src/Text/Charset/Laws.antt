-- ===== src/Text/Charset/Laws.antt =====
-- Which bytes of a terminal's character set survive the way to Unicode and back.
use minichatclient.Base.{
  ℕ, ◌<◌, ◌≡◌, refl, Bool, true, false, not, ◌&&◌, ◌||◌, arith, ◌==◌, leb, holds_first,
  holds_first-at,
}
use minichatclient.Text.Charset.{
  transliterate_ucs_to_cp850, transliterate_cp850_to_ucs, transliterate_ucs_to_iso88591,
  transliterate_iso88591_to_ucs,
}

bool_eq : Bool → Bool → Bool
bool_eq true b = b
bool_eq false b = not b

bool_eq_sound : (a b : Bool) → bool_eq a b ≡ true → a ≡ b
unfolding bool_eq
bool_eq_sound a b h = ground arith

-- Of ISO 8859-1: all but DEL and the Windows-1252 extras other than the euro sign.
abbrev pub iso_survives : ℕ → Bool
iso_survives c = leb c 126 || c == 128 || leb 160 c

-- Of CP850: on Windows all but the bytes of eight characters, elsewhere printable ASCII.
abbrev pub cp850_survives : Bool → ℕ → Bool
cp850_survives true c =
    not (leb 8 c && leb c 10 || c == 13 || c == 23 || c == 0xBA || c == 0xF4 || c == 0xF5)
cp850_survives false c = leb 0x20 c && leb c 0x7E

iso_table :
    holds_first
      (λ c.
        bool_eq
          (transliterate_ucs_to_iso88591 (transliterate_iso88591_to_ucs c) == c)
          (iso_survives c))
      256
    ≡ true
unfolding holds_first bool_eq transliterate_ucs_to_iso88591 transliterate_iso88591_to_ucs
iso_table = refl

cp850_table :
    (win32 : Bool)
    → holds_first
        (λ c.
          bool_eq
            (transliterate_ucs_to_cp850 win32 (transliterate_cp850_to_ucs win32 c) == c)
            (cp850_survives win32 c))
        256
      ≡ true
unfolding holds_first bool_eq transliterate_ucs_to_cp850 transliterate_cp850_to_ucs
cp850_table true = refl
cp850_table false = refl

-- A byte of ISO 8859-1 comes back from Unicode exactly when it is one of `iso_survives`.
pub iso-round_trip :
    (c : ℕ)
    → c < 256
    → (transliterate_ucs_to_iso88591 (transliterate_iso88591_to_ucs c) == c) ≡ iso_survives c
iso-round_trip c h = bool_eq_sound _ _ (holds_first-at _ 256 c h iso_table)

-- A byte of CP850 comes back from Unicode exactly when it is one of `cp850_survives`, on Windows
-- and elsewhere.
pub cp850-round_trip :
    (win32 : Bool) (c : ℕ)
    → c < 256
    → (transliterate_ucs_to_cp850 win32 (transliterate_cp850_to_ucs win32 c) == c)
      ≡ cp850_survives win32 c
cp850-round_trip win32 c h = bool_eq_sound _ _ (holds_first-at _ 256 c h (cp850_table win32))
