-- ===== src/Text/Charset/CpEncodeLow.antt =====
-- strfunctions.c: the first branches of `transliterate_ucs_to_cp850` on Windows, up to 0x9F.
use minichatclient.Base.{ℕ, List, [], ◌∷◌}

abbrev pub ucs_to_cp850_low : List (ℕ × ℕ)
ucs_to_cp850_low =
    (0x20AC, b'E')
    ∷ (0x2018, b'\'')
    ∷ (0x2019, b'\'')
    ∷ (0x201A, b',')
    ∷ (0x201C, b'"')
    ∷ (0x201D, b'"')
    ∷ (0x2013, b'-')
    ∷ (0x2014, b'-')
    ∷ (0x02DC, b'~')
    ∷ (0x263A, 0x01)
    ∷ (0x263B, 0x02)
    ∷ (0x2665, 0x03)
    ∷ (0x2666, 0x04)
    ∷ (0x2663, 0x05)
    ∷ (0x2660, 0x06)
    ∷ (0x2022, 0x07)
    ∷ (0x2642, 0x0B)
    ∷ (0x2640, 0x0C)
    ∷ (0x266B, 0x0E)
    ∷ (0x263C, 0x0F)
    ∷ (0x25BA, 0x10)
    ∷ (0x25C4, 0x11)
    ∷ (0x2195, 0x12)
    ∷ (0x203C, 0x13)
    ∷ (0x00B6, 0x14)
    ∷ (0x00A7, 0x15)
    ∷ (0x25AC, 0x16)
    ∷ (0x25AC, 0x17)
    ∷ (0x2191, 0x18)
    ∷ (0x2193, 0x19)
    ∷ (0x2192, 0x1A)
    ∷ (0x2190, 0x1B)
    ∷ (0x221F, 0x1C)
    ∷ (0x2194, 0x1D)
    ∷ (0x25B2, 0x1E)
    ∷ (0x25BC, 0x1F)
    ∷ (0x2302, 0x7F)
    ∷ (0x00C7, 0x80)
    ∷ (0x00FC, 0x81)
    ∷ (0x00E9, 0x82)
    ∷ (0x00E2, 0x83)
    ∷ (0x00E4, 0x84)
    ∷ (0x00E0, 0x85)
    ∷ (0x00E5, 0x86)
    ∷ (0x00E7, 0x87)
    ∷ (0x00EA, 0x88)
    ∷ (0x00EB, 0x89)
    ∷ (0x00E8, 0x8A)
    ∷ (0x00EF, 0x8B)
    ∷ (0x00EE, 0x8C)
    ∷ (0x00EC, 0x8D)
    ∷ (0x00C4, 0x8E)
    ∷ (0x00C5, 0x8F)
    ∷ (0x00C9, 0x90)
    ∷ (0x00E6, 0x91)
    ∷ (0x00C6, 0x92)
    ∷ (0x00F4, 0x93)
    ∷ (0x00F6, 0x94)
    ∷ (0x00F2, 0x95)
    ∷ (0x00FB, 0x96)
    ∷ (0x00F9, 0x97)
    ∷ (0x00FF, 0x98)
    ∷ (0x00D6, 0x99)
    ∷ (0x00DC, 0x9A)
    ∷ (0x00F8, 0x9B)
    ∷ (0x00A3, 0x9C)
    ∷ (0x00D8, 0x9D)
    ∷ (0x00D7, 0x9E)
    ∷ (0x0192, 0x9F)
    ∷ []
