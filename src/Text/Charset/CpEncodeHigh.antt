-- ===== src/Text/Charset/CpEncodeHigh.antt =====
-- strfunctions.c: the other branches of `transliterate_ucs_to_cp850` on Windows, from 0xA0.
use minichatclient.Base.{ℕ, List, [], ◌∷◌}

abbrev pub ucs_to_cp850_high : List (ℕ × ℕ)
ucs_to_cp850_high =
    (0x00E1, 0xA0)
    ∷ (0x00ED, 0xA1)
    ∷ (0x00F3, 0xA2)
    ∷ (0x00FA, 0xA3)
    ∷ (0x00F1, 0xA4)
    ∷ (0x00D1, 0xA5)
    ∷ (0x00AA, 0xA6)
    ∷ (0x00BA, 0xA7)
    ∷ (0x00BF, 0xA8)
    ∷ (0x00AE, 0xA9)
    ∷ (0x00AC, 0xAA)
    ∷ (0x00BD, 0xAB)
    ∷ (0x00BC, 0xAC)
    ∷ (0x00A1, 0xAD)
    ∷ (0x00AB, 0xAE)
    ∷ (0x00BB, 0xAF)
    ∷ (0x2591, 0xB0)
    ∷ (0x2592, 0xB1)
    ∷ (0x2593, 0xB2)
    ∷ (0x2502, 0xB3)
    ∷ (0x2524, 0xB4)
    ∷ (0x00C1, 0xB5)
    ∷ (0x00C2, 0xB6)
    ∷ (0x00C0, 0xB7)
    ∷ (0x00A9, 0xB8)
    ∷ (0x2563, 0xB9)
    ∷ (0x2563, 0xBA)
    ∷ (0x2557, 0xBB)
    ∷ (0x255D, 0xBC)
    ∷ (0x00A2, 0xBD)
    ∷ (0x00A5, 0xBE)
    ∷ (0x2510, 0xBF)
    ∷ (0x2514, 0xC0)
    ∷ (0x2534, 0xC1)
    ∷ (0x252C, 0xC2)
    ∷ (0x251C, 0xC3)
    ∷ (0x2500, 0xC4)
    ∷ (0x253C, 0xC5)
    ∷ (0x00E3, 0xC6)
    ∷ (0x00C3, 0xC7)
    ∷ (0x255A, 0xC8)
    ∷ (0x2554, 0xC9)
    ∷ (0x2569, 0xCA)
    ∷ (0x2566, 0xCB)
    ∷ (0x2560, 0xCC)
    ∷ (0x2550, 0xCD)
    ∷ (0x256C, 0xCE)
    ∷ (0x00A4, 0xCF)
    ∷ (0x00F0, 0xD0)
    ∷ (0x00D0, 0xD1)
    ∷ (0x00CA, 0xD2)
    ∷ (0x00CB, 0xD3)
    ∷ (0x00C8, 0xD4)
    ∷ (0x0131, 0xD5)
    ∷ (0x00CD, 0xD6)
    ∷ (0x00CE, 0xD7)
    ∷ (0x00CF, 0xD8)
    ∷ (0x2518, 0xD9)
    ∷ (0x250C, 0xDA)
    ∷ (0x2588, 0xDB)
    ∷ (0x2584, 0xDC)
    ∷ (0x00A6, 0xDD)
    ∷ (0x00CC, 0xDE)
    ∷ (0x2580, 0xDF)
    ∷ (0x00D3, 0xE0)
    ∷ (0x00DF, 0xE1)
    ∷ (0x00D4, 0xE2)
    ∷ (0x00D2, 0xE3)
    ∷ (0x00F5, 0xE4)
    ∷ (0x00D5, 0xE5)
    ∷ (0x00B5, 0xE6)
    ∷ (0x00FE, 0xE7)
    ∷ (0x00DE, 0xE8)
    ∷ (0x00DA, 0xE9)
    ∷ (0x00DB, 0xEA)
    ∷ (0x00D9, 0xEB)
    ∷ (0x00FD, 0xEC)
    ∷ (0x00DD, 0xED)
    ∷ (0x00AF, 0xEE)
    ∷ (0x00B4, 0xEF)
    ∷ (0x00AD, 0xF0)
    ∷ (0x00B1, 0xF1)
    ∷ (0x2017, 0xF2)
    ∷ (0x00BE, 0xF3)
    ∷ (0x00B6, 0xF4)
    ∷ (0x00A7, 0xF5)
    ∷ (0x00F7, 0xF6)
    ∷ (0x00B8, 0xF7)
    ∷ (0x00B0, 0xF8)
    ∷ (0x00A8, 0xF9)
    ∷ (0x00B7, 0xFA)
    ∷ (0x00B9, 0xFB)
    ∷ (0x00B3, 0xFC)
    ∷ (0x00B2, 0xFD)
    ∷ (0x25A0, 0xFE)
    ∷ (0x00A0, 0xFF)
    ∷ []
