-- ===== src/Typing.antt =====
-- gotcurses.c: the typing buffer of `display_driver`, key by key. What is drawn is not modelled,
-- nor are the keys that call for a screen, a poll or the list of names, which leave the buffer.
pub mod Keys
mod Tests
use minichatclient.Base.{
  ℕ, zero, suc, ◌+◌, ◌-◌, ◌%◌, Bool, true, false, ◌&&◌, ◌||◌, not, List, [], ◌∷◌, ◌++◌, Option,
  none, some, Bytes, length, take, get_or, ◌==◌, leb, ltb, if◌then◌else◌, c_string, ◌>>=◌,
}
use minichatclient.Text.Utf8.{shr, utf8_character_from_ucs_codepoint}
use minichatclient.Text.Charset.{transliterate_cp850_to_ucs, transliterate_iso88591_to_ucs}
use minichatclient.Text.Charset.Display.{Transliteration, native_utf8, iso8859_1, cp850}

-- `malloc(1002)`
abbrev pub typing_size : ℕ
typing_size = 1002

-- `buf`, by its first `nbrofbytes` bytes.
abbrev pub Typed : Type 0
Typed = Option Bytes

-- What a key gives: the buffer, and the text that is returned where the key ends it.
abbrev pub Pressed : Type 0
Pressed = Typed × Option Bytes

-- The last byte of a buffer that is not empty.
abbrev pub last_byte : Bytes → ℕ
last_byte buf = get_or buf (length buf - 1) 0

-- `do { nbrofbytes--; } while (nbrofbytes != 0 && (buf[nbrofbytes] & 192) != 192)`, from a number
-- of bytes that is not zero.
unfoldable pub back_to_start : Bytes → ℕ → ℕ
back_to_start buf zero = zero
back_to_start buf (suc n) =
    let before = back_to_start buf n in if n == 0 || shr (get_or buf n 0) 6 == 3 then n else before

-- How many bytes stay where the last character is taken back.
unfoldable pub taken_back : Bytes → ℕ
unfolding back_to_start
taken_back buf =
    if shr (last_byte buf) 7 == 0 then length buf - 1 else back_to_start buf (length buf)

-- The backspace key.
unfoldable pub backspace : Typed → Typed
unfolding taken_back
backspace none = none
backspace (some []) = some []
backspace (some (c ∷ buf)) =
    let n = taken_back (c ∷ buf) in if n == 0 then none else some (take n (c ∷ buf))

-- The bytes of a character that is typed: the key's code is cast to a char, and that byte is read in
-- the character set of the terminal. A zero encodes to nothing.
unfoldable pub bytes_of : Bool → Transliteration → ℕ → Bytes
bytes_of win32 native_utf8 ch = ch % 256 ∷ []
bytes_of win32 iso8859_1 ch =
    utf8_character_from_ucs_codepoint (transliterate_iso88591_to_ucs (ch % 256))
bytes_of win32 cp850 ch =
    utf8_character_from_ucs_codepoint (transliterate_cp850_to_ucs win32 (ch % 256))

-- The writes at `buf[nbrofbytes++]`; `none` is a write out of bounds.
unfoldable pub append_bytes : Bytes → Bytes → Option Bytes
append_bytes buf bytes =
    let out = buf ++ bytes in if leb (length out) typing_size then some out else none

-- A character; a buffer that holds 1000 bytes or more takes none.
unfoldable pub type_character : Bool → Transliteration → ℕ → Typed → Option Typed
unfolding bytes_of append_bytes
type_character win32 mode ch none = do
  out ← append_bytes [] (bytes_of win32 mode ch)
  some (some out)
type_character win32 mode ch (some buf) =
    if leb 1000 (length buf)
    then some (some buf)
    else (do out ← append_bytes buf (bytes_of win32 mode ch); some (some out))

-- The "enter" key closes the buffer with a zero and returns it.
unfoldable pub enter : Typed → Option Pressed
enter none = some (none, none)
enter (some buf) =
    if ltb (length buf) typing_size then some (some [], some (c_string buf)) else none

-- One key: `key_resize` is the code of KEY_RESIZE, which curses.h defines. ^L writes the zero too.
unfoldable pub press : Bool → Transliteration → ℕ → ℕ → Typed → Option Pressed
unfolding enter backspace type_character
press win32 mode key_resize ch typed =
    if ch == 10 || ch == 13
    then enter typed
    else if ch == 8 || ch == 127
    then some (backspace typed, none)
    else if ch == 12
    then (do _ ← enter typed; some (typed, none))
    else if ch == key_resize || ltb ch 32
    then some (typed, none)
    else (do t ← type_character win32 mode ch typed; some (t, none))

-- `if (!nbrofbytes && buf) { free(buf); buf=NULL; }`, where a call begins.
abbrev pub begin_call : Typed → Typed
begin_call none = none
begin_call (some []) = none
begin_call (some (c ∷ buf)) = some (c ∷ buf)

-- One call: the keys that are there, up to an "enter" that returns the text.
unfoldable pub keys_loop : Bool → Transliteration → ℕ → List ℕ → Typed → Option Pressed
unfolding press
keys_loop win32 mode key_resize [] typed = some (typed, none)
keys_loop win32 mode key_resize (ch ∷ keys) typed = do
  (t, text) ← press win32 mode key_resize ch typed
  elim text [ some s ↦ some (t, some s) | none ↦ keys_loop win32 mode key_resize keys t ]

unfoldable pub display_driver : Bool → Transliteration → ℕ → List ℕ → Typed → Option Pressed
unfolding keys_loop
display_driver win32 mode key_resize keys typed =
    keys_loop win32 mode key_resize keys (begin_call typed)
