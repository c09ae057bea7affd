-- ===== src/Text/Charset/CpDecode.antt =====
-- strfunctions.c: the branches of `transliterate_cp850_to_ucs` on Windows, in two halves.
use minichatclient.Base.{ℕ, List, [], ◌∷◌}

abbrev pub cp850_to_ucs_low : List (ℕ × ℕ)
cp850_to_ucs_low =
    (0x00, 0x0000)
    ∷ (0x01, 0x263A)
    ∷ (0x02, 0x263B)
    ∷ (0x03, 0x2665)
    ∷ (0x04, 0x2666)
    ∷ (0x05, 0x2663)
    ∷ (0x06, 0x2660)
    ∷ (0x07, 0x2022)
    ∷ (0x08, 0x25D8)
    ∷ (0x09, 0x25CB)
    ∷ (0x0B, 0x2642)
    ∷ (0x0C, 0x2640)
    ∷ (0x0E, 0x266B)
    ∷ (0x0F, 0x263C)
    ∷ (0x10, 0x25BA)
    ∷ (0x11, 0x25C4)
    ∷ (0x12, 0x2195)
    ∷ (0x13, 0x203C)
    ∷ (0x14, 0x00B6)
    ∷ (0x15, 0x00A7)
    ∷ (0x16, 0x25AC)
    ∷ (0x17, 0x25AC)
    ∷ (0x18, 0x2191)
    ∷ (0x19, 0x2193)
    ∷ (0x1A, 0x2192)
    ∷ (0x1B, 0x2190)
    ∷ (0x1C, 0x221F)
    ∷ (0x1D, 0x2194)
    ∷ (0x1E, 0x25B2)
    ∷ (0x1F, 0x25BC)
    ∷ (0x7F, 0x2302)
    ∷ (0x80, 0x00C7)
    ∷ (0x81, 0x00FC)
    ∷ (0x82, 0x00E9)
    ∷ (0x83, 0x00E2)
    ∷ (0x84, 0x00E4)
    ∷ (0x85, 0x00E0)
    ∷ (0x86, 0x00E5)
    ∷ (0x87, 0x00E7)
    ∷ (0x88, 0x00EA)
    ∷ (0x89, 0x00EB)
    ∷ (0x8A, 0x00E8)
    ∷ (0x8B, 0x00EF)
    ∷ (0x8C, 0x00EE)
    ∷ (0x8D, 0x00EC)
    ∷ (0x8E, 0x00C4)
    ∷ (0x8F, 0x00C5)
    ∷ (0x90, 0x00C9)
    ∷ (0x91, 0x00E6)
    ∷ (0x92, 0x00C6)
    ∷ (0x93, 0x00F4)
    ∷ (0x94, 0x00F6)
    ∷ (0x95, 0x00F2)
    ∷ (0x96, 0x00FB)
    ∷ (0x97, 0x00F9)
    ∷ (0x98, 0x00FF)
    ∷ (0x99, 0x00D6)
    ∷ (0x9A, 0x00DC)
    ∷ (0x9B, 0x00F8)
    ∷ (0x9C, 0x00A3)
    ∷ (0x9D, 0x00D8)
    ∷ (0x9E, 0x00D7)
    ∷ (0x9F, 0x0192)
    ∷ []

abbrev pub cp850_to_ucs_high : List (ℕ × ℕ)
cp850_to_ucs_high =
    (0xA0, 0x00E1)
    ∷ (0xA1, 0x00ED)
    ∷ (0xA2, 0x00F3)
    ∷ (0xA3, 0x00FA)
    ∷ (0xA4, 0x00F1)
    ∷ (0xA5, 0x00D1)
    ∷ (0xA6, 0x00AA)
    ∷ (0xA7, 0x00BA)
    ∷ (0xA8, 0x00BF)
    ∷ (0xA9, 0x00AE)
    ∷ (0xAA, 0x00AC)
    ∷ (0xAB, 0x00BD)
    ∷ (0xAC, 0x00BC)
    ∷ (0xAD, 0x00A1)
    ∷ (0xAE, 0x00AB)
    ∷ (0xAF, 0x00BB)
    ∷ (0xB0, 0x2591)
    ∷ (0xB1, 0x2592)
    ∷ (0xB2, 0x2593)
    ∷ (0xB3, 0x2502)
    ∷ (0xB4, 0x2524)
    ∷ (0xB5, 0x00C1)
    ∷ (0xB6, 0x00C2)
    ∷ (0xB7, 0x00C0)
    ∷ (0xB8, 0x00A9)
    ∷ (0xB9, 0x2563)
    ∷ (0xBA, 0x2563)
    ∷ (0xBB, 0x2557)
    ∷ (0xBC, 0x255D)
    ∷ (0xBD, 0x00A2)
    ∷ (0xBE, 0x00A5)
    ∷ (0xBF, 0x2510)
    ∷ (0xC0, 0x2514)
    ∷ (0xC1, 0x2534)
    ∷ (0xC2, 0x252C)
    ∷ (0xC3, 0x251C)
    ∷ (0xC4, 0x2500)
    ∷ (0xC5, 0x253C)
    ∷ (0xC6, 0x00E3)
    ∷ (0xC7, 0x00C3)
    ∷ (0xC8, 0x255A)
    ∷ (0xC9, 0x2554)
    ∷ (0xCA, 0x2569)
    ∷ (0xCB, 0x2566)
    ∷ (0xCC, 0x2560)
    ∷ (0xCD, 0x2550)
    ∷ (0xCE, 0x256C)
    ∷ (0xCF, 0x00A4)
    ∷ (0xD0, 0x00F0)
    ∷ (0xD1, 0x00D0)
    ∷ (0xD2, 0x00CA)
    ∷ (0xD3, 0x00CB)
    ∷ (0xD4, 0x00C8)
    ∷ (0xD5, 0x0131)
    ∷ (0xD6, 0x00CD)
    ∷ (0xD7, 0x00CE)
    ∷ (0xD8, 0x00CF)
    ∷ (0xD9, 0x2518)
    ∷ (0xDA, 0x250C)
    ∷ (0xDB, 0x2588)
    ∷ (0xDC, 0x2584)
    ∷ (0xDD, 0x00A6)
    ∷ (0xDE, 0x00CC)
    ∷ (0xDF, 0x2580)
    ∷ (0xE0, 0x00D3)
    ∷ (0xE1, 0x00DF)
    ∷ (0xE2, 0x00D4)
    ∷ (0xE3, 0x00D2)
    ∷ (0xE4, 0x00F5)
    ∷ (0xE5, 0x00D5)
    ∷ (0xE6, 0x00B5)
    ∷ (0xE7, 0x00FE)
    ∷ (0xE8, 0x00DE)
    ∷ (0xE9, 0x00DA)
    ∷ (0xEA, 0x00DB)
    ∷ (0xEB, 0x00D9)
    ∷ (0xEC, 0x00FD)
    ∷ (0xED, 0x00DD)
    ∷ (0xEE, 0x00AF)
    ∷ (0xEF, 0x00B4)
    ∷ (0xF0, 0x00AD)
    ∷ (0xF1, 0x00B1)
    ∷ (0xF2, 0x2017)
    ∷ (0xF3, 0x00BE)
    ∷ (0xF4, 0x00B6)
    ∷ (0xF5, 0x00A7)
    ∷ (0xF6, 0x00F7)
    ∷ (0xF7, 0x00B8)
    ∷ (0xF8, 0x00B0)
    ∷ (0xF9, 0x00A8)
    ∷ (0xFA, 0x00B7)
    ∷ (0xFB, 0x00B9)
    ∷ (0xFC, 0x00B3)
    ∷ (0xFD, 0x00B2)
    ∷ (0xFE, 0x25A0)
    ∷ (0xFF, 0x00A0)
    ∷ []
