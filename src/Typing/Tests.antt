-- ===== src/Typing/Tests.antt =====
-- gotcurses.c: the typing buffer at single inputs.
use minichatclient.Base.{
  ◌≡◌, refl, c_string, false, [], ◌∷◌, ◌++◌, none, some, Bytes, replicate, arith, codes,
}
use minichatclient.Text.Utf8.{utf8_character_from_ucs_codepoint}
use minichatclient.Text.Charset.Display.{native_utf8, iso8859_1}
use minichatclient.Typing.{display_driver, backspace, begin_call}
use minichatclient.Typing.Keys.{
  Safely, display_driver-Safely, display_driver-overflow, backspace-typed,
}

abbrev full : Bytes
full = replicate 999 b'a'

typed_line :
    display_driver false native_utf8 410 (codes "hi!" ++ 8 ∷ b'\n' ∷ b'x' ∷ []) none
    ≡ some (some [], some (codes "hi"))
unfolding display_driver c_string
typed_line = refl

display_driver-Safely_example :
    Safely (display_driver false native_utf8 410 (codes "ab" ++ b'\n' ∷ []) (some full))
display_driver-Safely_example =
    display_driver-Safely false 410 (codes "ab" ++ b'\n' ∷ []) (some full) (omega arith)

display_driver-overflow_example :
    display_driver false iso8859_1 410 (0x80 ∷ b'\n' ∷ []) (some full) ≡ none
display_driver-overflow_example = display_driver-overflow false 410 full refl (λ e. omega arith)

backspace-typed_example :
    backspace (some (codes "caf" ++ utf8_character_from_ucs_codepoint 233))
    ≡ begin_call (some (codes "caf"))
backspace-typed_example = backspace-typed (codes "caf") 233 (omega arith) (omega arith)
