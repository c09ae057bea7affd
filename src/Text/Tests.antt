-- ===== src/Text/Tests.antt =====
-- The theorems on strfunctions.c and gotcurses.c at concrete inputs, and runs of the code.
use minichatclient.Base.{ℕ, ◌≡◌, refl, [], ◌∷◌, ◌++◌, some, none, arith, Bytes, codes}
use minichatclient.Text.Utf8.{extract_codepoints_from_utf8, utf8_character_from_ucs_codepoint}
use minichatclient.Text.Utf8.RoundTrip.{extract-utf8_character}
use minichatclient.Text.Search.{strstr}
use minichatclient.Text.Replace.{strrep_text}
use minichatclient.Text.Replace.Pieces.{Replaced, strrep_text-Replaced}

-- U+20AC, the euro sign
abbrev euro : Bytes
euro = 0xE2 ∷ 0x82 ∷ 0xAC ∷ []

euro_encoded : utf8_character_from_ucs_codepoint 0x20AC ≡ euro
unfolding utf8_character_from_ucs_codepoint
euro_encoded = refl

euro_cut : extract_codepoints_from_utf8 (some (0xE2 ∷ 0x82 ∷ [])) ≡ (0, none)
unfolding extract_codepoints_from_utf8
euro_cut = refl

extract-utf8_character_example :
    extract_codepoints_from_utf8 (some (utf8_character_from_ucs_codepoint 0x20AC ++ codes "!"))
    ≡ (0x20AC, some (codes "!"))
extract-utf8_character_example =
    extract-utf8_character 0x20AC (codes "!") (omega arith) (omega arith)

spaces_removed : strrep_text (codes "a b c") (codes " ") [] ≡ some (2, codes "abc")
unfolding strrep_text strstr
spaces_removed = refl

strrep_text-Replaced_example :
    (n : ℕ) × (out : Bytes) × (strrep_text (codes "a b c") (codes " ") (codes "+") ≡ some (n, out))
    × Replaced (codes "a b c") (codes " ") (codes "+") n out
strrep_text-Replaced_example =
    strrep_text-Replaced (codes "a b c") (codes " ") (codes "+") (λ p. ground arith)
