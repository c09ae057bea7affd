-- ===== src/Text/Utf8/RoundTrip.antt =====
-- Encoding, and decoding it again.
use minichatclient.Base.{
  ℕ, zero, suc, ◌^◌, ◌<◌, ◌≡◌, refl, some, List, [], ◌∷◌, ◌++◌, arith, Bytes, All, length,
}
use minichatclient.Text.Utf8.{
  codepoints_loop, extract_codepoints_from_utf8, utf8_character_from_ucs_codepoint,
}

-- Decoding the encoding of `u` gives `u` back, and leaves the pointer on what follows, for each
-- code point from 1 to 2 ^ 31 - 1.
pub extract-utf8_character :
    (u : ℕ) (rest : Bytes)
    → 0 < u
    → u < 2 ^ 31
    → extract_codepoints_from_utf8 (some (utf8_character_from_ucs_codepoint u ++ rest))
      ≡ (u, some rest)
unfolding extract_codepoints_from_utf8 utf8_character_from_ucs_codepoint
extract-utf8_character u rest h k = ground arith

-- `utf8_character_from_ucs_codepoint` on each code point of a text, one after the other.
abbrev pub encode_all : List ℕ → Bytes
encode_all [] = []
encode_all (u ∷ us) = utf8_character_from_ucs_codepoint u ++ encode_all us

-- The loop over the encoding of a text of code points between 1 and 2 ^ 31 - 1 gives the text.
pub codepoints_loop-encode_all :
    (fuel : ℕ) (us : List ℕ)
    → All (λ u. (0 < u) × (u < 2 ^ 31)) us
    → length us < fuel
    → codepoints_loop fuel (some (encode_all us)) ≡ some us
unfolding codepoints_loop
codepoints_loop-encode_all zero us h k = absurd (omega arith)
codepoints_loop-encode_all (suc fuel) [] h k = unfold extract_codepoints_from_utf8 in refl
codepoints_loop-encode_all (suc fuel) (u ∷ us) h k =
    rw (extract-utf8_character u (encode_all us) h.0.0 h.0.1)
      (ground (arith, codepoints_loop-encode_all fuel us h.1))
