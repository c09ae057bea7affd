-- ===== src/Cookies.antt =====
-- cookies.c: the array of cookies.
-- A pointer of a slot is null, holds a string of its own, or dangles: what `free` was called on and
-- was not reset. Reading or freeing a dangling pointer is undefined behaviour, `none` here.
-- The array is a list of slots of any length; the program declares `max_cookies` of them.
-- `debug_cookie` is 0, as no code sets it, so the messages under it are left out.
pub mod Laws
pub mod Line
pub mod Header
pub mod Tokens
mod Tests
use mathlib.Core.Option
use minichatclient.Base.{
  ℕ, suc, zero, ◌+◌, Bool, true, false, List, [], ◌∷◌, ◌++◌, Option, none, some, Bytes, length,
  take, replicate, ◌==◌, if◌then◌else◌, str_eq, codes, ◌>>=◌,
}

pub data Ptr : Type 0 where
  null : Ptr
  live : Bytes → Ptr
  dangling : Ptr

pub record Cookie : Type 0 where
  pub name : Ptr
  pub value : Ptr

abbrev pub unused : Cookie
unused = record { name = null; value = null }

abbrev pub cookie : Bytes → Bytes → Cookie
cookie name value = record { name = live name; value = live value }

abbrev pub max_cookies : ℕ
max_cookies = 10

-- `memset(&cookies[0], 0, sizeof(cookies))`
abbrev pub no_cookies : List Cookie
no_cookies = replicate max_cookies unused

-- `if (p) { free(p); }`, before the pointer is set anew.
free_then {ℓ} : {A : Type ℓ} → Ptr → A → Option A
free_then null a = some a
free_then (live s) a = some a
free_then dangling a = none

-- The loop of `storecookie`. It returns 1 however it ends, so only the array is modelled.
unfoldable pub storecookie : Bytes → Bytes → List Cookie → Option (List Cookie)
unfolding free_then
storecookie name value [] = some []
storecookie name value (c ∷ cookies) =
    let rest = storecookie name value cookies in
    elim c.name [
      | null ↦ free_then c.value (cookie name value ∷ cookies)
      | live n ↦
          if str_eq n name
          then free_then c.value (cookie name value ∷ cookies)
          else Option.map (λ cs. c ∷ cs) rest
      | dangling ↦ none
    ]

-- The pointer that `getcookie` returns.
unfoldable pub getcookie : List Cookie → Bytes → Option Ptr
getcookie [] name = some null
getcookie (c ∷ cookies) name =
    let rest = getcookie cookies name in
    elim c.name [
      | null ↦ some null
      | live n ↦ if str_eq n name then some c.value else rest
      | dangling ↦ none
    ]

-- The first loop of `generate_cookies_string`, which is called with `buflen` 0: the bytes to ask
-- `malloc` for, but for the terminating zero, from slot `i` on.
unfoldable pub cookies_length : ℕ → List Cookie → Option ℕ
cookies_length i [] = some 0
cookies_length i (c ∷ cookies) = do
  rest ← cookies_length (i + 1) cookies
  elim c.name [
    | null ↦ some rest
    | live n ↦ elim c.value [
      | null ↦ some rest
      | live v ↦ some ((if i == 0 then 0 else 2) + (length n + 1 + length v) + rest)
      | dangling ↦ none
    ]
    | dangling ↦ none
  ]

-- `strncat(buf, s, buflen)`
abbrev pub strncat : Bytes → Bytes → ℕ → Bytes
strncat buf s buflen = buf ++ take buflen s

-- The second loop, onto `buf`.
unfoldable pub cookies_concat : ℕ → ℕ → Bytes → List Cookie → Option Bytes
cookies_concat buflen i buf [] = some buf
cookies_concat buflen i buf (c ∷ cookies) = elim c.name [
  | null ↦ cookies_concat buflen (i + 1) buf cookies
  | live n ↦ elim c.value [
    | null ↦ cookies_concat buflen (i + 1) buf cookies
    | live v ↦
        let buf1 = if i == 0 then buf else strncat buf (codes "; ") buflen in
        let buf2 = strncat (strncat buf1 n buflen) (codes "=") buflen in
        cookies_concat buflen (i + 1) (strncat buf2 v buflen) cookies
    | dangling ↦ none
  ]
  | dangling ↦ none
]

-- The block's size and the string in it.
unfoldable pub generate_cookies_string : List Cookie → Option (ℕ × Bytes)
unfolding cookies_length cookies_concat
generate_cookies_string cookies = do
  len ← cookies_length 0 cookies
  let buflen = len + 1
  buf ← cookies_concat buflen 0 [] cookies
  some (buflen, buf)

-- `freecookies`: both pointers of slot `i` are freed, and those of slot 0 are set to NULL.
free_slot : Ptr → Option Ptr
free_slot null = some null
free_slot (live s) = some dangling
free_slot dangling = none

free_slots : List Cookie → Option (List Cookie)
free_slots [] = some []
free_slots (c ∷ cookies) = do
  name ← free_slot c.name
  value ← free_slot c.value
  rest ← free_slots cookies
  some (record { name = name; value = value } ∷ rest)

-- Slot 0, whose pointers are set to NULL after the call of `free`. The later rounds set them to
-- NULL again, which they are by then.
free_first : Cookie → Option Cookie
free_first c = do name ← free_slot c.name; value ← free_slot c.value; some unused

unfoldable pub freecookies : List Cookie → Option (List Cookie)
unfolding free_first free_slots free_slot
freecookies [] = some []
freecookies (c ∷ cookies) = do first ← free_first c; rest ← free_slots cookies; some (first ∷ rest)
