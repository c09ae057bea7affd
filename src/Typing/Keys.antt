-- ===== src/Typing/Keys.antt =====
-- gotcurses.c: what the keys do to the typing buffer.
use minichatclient.Base.{
  ℕ, suc, ◌+◌, ◌-◌, ◌/◌, ◌%◌, ◌<◌, ◌≤◌, ◌≡◌, ◌≢◌, refl, ap, Bool, false, List, [], ◌∷◌, ◌++◌,
  Option, none, some, Bytes, length, length-append, length-take_le, take-append, get_or, arith,
  ◌==◌, leb, Bool-cases, inl, inr, ◌>>=◌,
}
use minichatclient.Text.Utf8.{continuation, utf8_character_from_ucs_codepoint}
use minichatclient.Text.Charset.{transliterate_iso88591_to_ucs}
use minichatclient.Text.Charset.Display.{native_utf8, iso8859_1}
use minichatclient.Typing.{
  Typed, Pressed, bytes_of, append_bytes, type_character, backspace, taken_back, back_to_start,
  last_byte, press, enter, keys_loop, display_driver, begin_call,
}

-- A buffer within its block, with a place for its zero.
abbrev pub HasPlace : Typed → Type 0
HasPlace none = Unit
HasPlace (some buf) = length buf ≤ 1000

-- The key, or the call, has a result, and the buffer has a place for its zero.
abbrev pub Safely : Option Pressed → Type 0
Safely none = ⊥
Safely (some (t, text)) = HasPlace t

backspace-HasPlace : (t : Typed) → HasPlace t → HasPlace (backspace t)
unfolding backspace
backspace-HasPlace none h = tt
backspace-HasPlace (some []) h = h
backspace-HasPlace (some (c ∷ buf)) h =
    ground (arith, length-take_le (taken_back (c ∷ buf)) (c ∷ buf))

press-Safely :
    (win32 : Bool) (key_resize ch : ℕ) (t : Typed)
    → HasPlace t
    → Safely (press win32 native_utf8 key_resize ch t)
unfolding press enter type_character bytes_of append_bytes
press-Safely win32 key_resize ch none h = ground arith
press-Safely win32 key_resize ch (some buf) h =
    ground (arith, backspace-HasPlace (some buf) h, length-append buf (ch % 256 ∷ []))

Safely-elim :
    (text : Option Bytes) (t : Typed) (o : Option Pressed)
    → HasPlace t
    → Safely o
    → Safely (elim text [ some s ↦ some (t, some s) | none ↦ o ])
Safely-elim none t o h k = k
Safely-elim (some s) t o h k = h

Safely-bind :
    (o : Option Pressed) (f : Typed × Option Bytes → Option Pressed)
    → Safely o
    → ((t : Typed) (text : Option Bytes) → HasPlace t → Safely (f (t, text)))
    → Safely (o >>= f)
Safely-bind none f h k = absurd h
Safely-bind (some (t, text)) f h k = k t text h

keys_loop-Safely :
    (win32 : Bool) (key_resize : ℕ) (keys : List ℕ) (t : Typed)
    → HasPlace t
    → Safely (keys_loop win32 native_utf8 key_resize keys t)
unfolding keys_loop
keys_loop-Safely win32 key_resize [] t h = h
keys_loop-Safely win32 key_resize (ch ∷ keys) t h =
    Safely-bind (press win32 native_utf8 key_resize ch t) _ (press-Safely win32 key_resize ch t h)
      λ t' text h'.
        Safely-elim text t' (keys_loop win32 native_utf8 key_resize keys t') h'
          (keys_loop-Safely win32 key_resize keys t' h')

begin_call-HasPlace : (t : Typed) → HasPlace t → HasPlace (begin_call t)
begin_call-HasPlace none h = tt
begin_call-HasPlace (some []) h = tt
begin_call-HasPlace (some (c ∷ buf)) h = h

-- On a terminal of UTF-8, a call of the driver writes nothing out of the typing buffer, whatever
-- keys come, and the buffer keeps a place for its zero.
pub display_driver-Safely :
    (win32 : Bool) (key_resize : ℕ) (keys : List ℕ) (t : Typed)
    → HasPlace t
    → Safely (display_driver win32 native_utf8 key_resize keys t)
unfolding display_driver
display_driver-Safely win32 key_resize keys t h =
    keys_loop-Safely win32 key_resize keys (begin_call t) (begin_call-HasPlace t h)

-- On a terminal of ISO 8859-1, the euro sign behind 999 bytes fills the block of 1002 bytes, and
-- the "enter" key writes its zero behind it.
pub display_driver-overflow :
    (win32 : Bool) (key_resize : ℕ) (buf : Bytes)
    → length buf ≡ 999
    → key_resize ≢ 0x80
    → display_driver win32 iso8859_1 key_resize (0x80 ∷ b'\n' ∷ []) (some buf) ≡ none
unfolding display_driver keys_loop press enter type_character append_bytes bytes_of
    utf8_character_from_ucs_codepoint transliterate_iso88591_to_ucs
display_driver-overflow win32 key_resize [] h ne = absurd (omega arith)
display_driver-overflow win32 key_resize (c ∷ buf) h ne =
    ground (arith, length-append (c ∷ buf) (bytes_of win32 iso8859_1 0x80))

get_or-at : (buf s : Bytes) (k d : ℕ) → get_or (buf ++ s) (length buf + k) d ≡ get_or s k d
get_or-at [] s k d = ap (λ n. get_or s n d) (omega arith)
get_or-at (c ∷ buf) s k d =
    let e : length (c ∷ buf) + k ≡ suc (length buf + k) = omega arith in rw e (get_or-at buf s k d)

-- Taking back as many bytes as were added.
backspace-added :
    (buf s : Bytes)
    → s ≢ []
    → taken_back (buf ++ s) ≡ length buf
    → backspace (some (buf ++ s)) ≡ begin_call (some buf)
unfolding backspace
backspace-added [] [] ne e = absurd (ne refl)
backspace-added [] (c ∷ s) ne e = rw e
backspace-added (c ∷ buf) s ne e =
    let some_left : (length (c ∷ buf) == 0) ≡ false = ground arith in
    rw (e, some_left) (ap some (take-append (c ∷ buf) s))

at_index : (buf s : Bytes) (n k d : ℕ) → n ≡ length buf + k → get_or (buf ++ s) n d ≡ get_or s k d
at_index buf s n k d e = rw e (get_or-at buf s k d)

taken_back-one : (buf : Bytes) (x : ℕ) → x < 128 → taken_back (buf ++ x ∷ []) ≡ length buf
unfolding taken_back
taken_back-one buf x h =
    let n = length-append buf (x ∷ []) in
    let last : last_byte (buf ++ x ∷ []) ≡ x =
      at_index buf (x ∷ []) (length (buf ++ x ∷ []) - 1) 0 0 (omega arith) in
    ground (arith, n, last)

taken_back-two :
    (buf : Bytes) (x y : ℕ)
    → 192 ≤ x
    → x < 256
    → 128 ≤ y
    → y < 192
    → taken_back (buf ++ x ∷ y ∷ []) ≡ length buf
unfolding taken_back back_to_start
taken_back-two buf x y h h' k k' =
    let s = x ∷ y ∷ [] in
    let n : length (buf ++ s) ≡ suc (suc (length buf)) = omega (arith, length-append buf s) in
    let last : last_byte (buf ++ s) ≡ y =
      at_index buf s (length (buf ++ s) - 1) 1 0 (omega arith) in
    let second : get_or (buf ++ s) (suc (length buf)) 0 ≡ y =
      at_index buf s (suc (length buf)) 1 0 (omega arith) in
    let first : get_or (buf ++ s) (length buf) 0 ≡ x =
      at_index buf s (length buf) 0 0 (omega arith) in
    rw (last, n, second, first) (ground arith)

taken_back-three :
    (buf : Bytes) (x y z : ℕ)
    → 192 ≤ x
    → x < 256
    → 128 ≤ y
    → y < 192
    → 128 ≤ z
    → z < 192
    → taken_back (buf ++ x ∷ y ∷ z ∷ []) ≡ length buf
unfolding taken_back back_to_start
taken_back-three buf x y z h h' k k' i i' =
    let s = x ∷ y ∷ z ∷ [] in
    let n : length (buf ++ s) ≡ suc (suc (suc (length buf))) = omega (arith, length-append buf s) in
    let last : last_byte (buf ++ s) ≡ z =
      at_index buf s (length (buf ++ s) - 1) 2 0 (omega arith) in
    let third : get_or (buf ++ s) (suc (suc (length buf))) 0 ≡ z =
      at_index buf s (suc (suc (length buf))) 2 0 (omega arith) in
    let second : get_or (buf ++ s) (suc (length buf)) 0 ≡ y =
      at_index buf s (suc (length buf)) 1 0 (omega arith) in
    let first : get_or (buf ++ s) (length buf) 0 ≡ x =
      at_index buf s (length buf) 0 0 (omega arith) in
    rw (last, n, third, second, first) (ground arith)

-- A character that is typed and taken back leaves the buffer as it was: a buffer without bytes is
-- freed. The character's code point is not zero and has 16 bits.
pub backspace-typed :
    (buf : Bytes) (u : ℕ)
    → 0 < u
    → u ≤ 0xFFFF
    → backspace (some (buf ++ utf8_character_from_ucs_codepoint u)) ≡ begin_call (some buf)
unfolding utf8_character_from_ucs_codepoint
backspace-typed buf u pos small = elim (Bool-cases (leb u 0x7F)) [
  | inl e ↦
      let is : utf8_character_from_ucs_codepoint u ≡ (u % 128) ∷ [] = ground arith in
      rw is
        (backspace-added buf (u % 128 ∷ []) (λ f. cc) (taken_back-one buf (u % 128) (omega arith)))
  | inr e ↦ elim (Bool-cases (leb u 0x7FF)) [
    | inl f ↦
        let is : utf8_character_from_ucs_codepoint u ≡ (u / 64 % 32 + 192) ∷ continuation u 0 ∷ [] =
          ground arith in
        rw is (
          backspace-added buf ((u / 64 % 32 + 192) ∷ continuation u 0 ∷ []) (λ f. cc)
            (taken_back-two buf (u / 64 % 32 + 192) (continuation u 0) (omega arith) (omega arith)
              (omega arith) (omega arith)))
    | inr f ↦
        let is : utf8_character_from_ucs_codepoint u
            ≡ (u / 4096 % 16 + 224) ∷ continuation u 6 ∷ continuation u 0 ∷ [] =
          ground arith in
        rw is (
          backspace-added buf ((u / 4096 % 16 + 224) ∷ continuation u 6 ∷ continuation u 0 ∷ [])
            (λ f. cc)
            (taken_back-three buf (u / 4096 % 16 + 224) (continuation u 6) (continuation u 0)
              (omega arith) (omega arith) (omega arith) (omega arith) (omega arith) (omega arith)))
  ]
]
