-- ===== src/Conf.antt =====
-- conf.c: the reader of the configuration file. The file stays open from one call to the next, and
-- a search begins where the last one ended. `none` is a write outside of the buffer or a read
-- behind the key.
pub mod Finds
pub mod Lines
pub mod Wraps
mod Tests
use minichatclient.Base.{
  ℕ, zero, suc, ◌+◌, Bool, true, false, ◌&&◌, ◌||◌, not, List, [], ◌∷◌, ◌++◌, Option, none, some,
  Bytes, ◌==◌, leb, ltb, if◌then◌else◌, ◌>>=◌, length, get_or, c_string,
}

-- KEY_VALUE_BUFFER_SIZE
abbrev pub key_value_buffer_size : ℕ
key_value_buffer_size = 200

pub data State : Type 0 where
  vrfy_key wf_value wf_newline in_value end : State

-- The state, the position in the key, and the bytes of `buf` below `o`.
pub record Search : Type 0 where
  pub state : State
  pub i : ℕ
  pub buf : Bytes

abbrev pub search_start : Search
search_start = record { state = vrfy_key; i = 0; buf = [] }

abbrev pub is_newline : ℕ → Bool
is_newline c = c == b'\r' || c == b'\n'

-- `key[i]`, up to the terminating zero.
abbrev pub key_at : Bytes → ℕ → ℕ
key_at key i = get_or key i 0

abbrev pub step_vrfy_key : Bytes → Search → ℕ → Option Search
step_vrfy_key key m c =
    if m.i == 0 && (c == b'#' || c == b';')
    then some (record m { state = wf_newline })
    else if is_newline c
    then some (record m { i = 0 })
    else if ltb (length key) m.i
    then none
    else if c == b' ' || c == b'\t' || c == b'='
    then (if m.i == 0
        then some m
        else if key_at key m.i == 0
        then some (record m { state = wf_value })
        else some (record m { state = wf_newline }))
    else if not (c == key_at key m.i)
    then some (record m { state = wf_newline })
    else some (record m { i = m.i + 1 })

abbrev pub step_wf_value : Search → ℕ → Search
step_wf_value m c =
    if is_newline c
    then record m { state = vrfy_key; i = 0 }
    else if not (c == b' ') && not (c == b'\t')
    then record m { state = in_value; buf = c ∷ [] }
    else m

abbrev pub step_in_value : Search → ℕ → Search
step_in_value m c =
    if is_newline c || c == b'\t'
    then record m { state = end }
    else (let buf' = m.buf ++ c ∷ [] in
        record m {
          state = if leb key_value_buffer_size (length buf') then end else in_value;
          buf = buf';
        })

-- The `switch`, on the state, which is that of the search.
unfoldable pub conf_step : Bytes → State → Search → ℕ → Option Search
conf_step key vrfy_key m c = step_vrfy_key key m c
conf_step key wf_value m c = some (step_wf_value m c)
conf_step key wf_newline m c =
    some (if is_newline c then record m { state = vrfy_key; i = 0 } else m)
conf_step key in_value m c = some (step_in_value m c)
conf_step key end m c = some m

abbrev pub is_end : State → Bool
is_end end = true
is_end _ = false

abbrev pub is_in_value : State → Bool
is_in_value in_value = true
is_in_value _ = false

-- The loop as far as the bytes go, with those that are left.
unfoldable pub read_loop : Bytes → Search → Bytes → Option (Search × Bytes)
unfolding conf_step
read_loop key m [] = some (m, [])
read_loop key m (c ∷ rest) = elim (is_end m.state) [
  | true ↦ some (m, c ∷ rest)
  | false ↦ do m' ← conf_step key m.state m c; read_loop key m' rest
]

-- What a call returns, and where it leaves the file.
abbrev pub Read : Type 0
Read = Option Bytes × Bytes

-- Behind the loop: `buf[o] = '\0'`, and the copy for the caller.
unfoldable pub finish : Search × Bytes → Option Read
finish (m, rest) =
    if ltb (length m.buf) key_value_buffer_size
    then some (if length m.buf == 0 then none else some (c_string m.buf), rest)
    else none

-- `(char)EOF`
abbrev pub eof_char : ℕ
eof_char = 255

-- The end of the file: the first time the search starts again from the beginning, but the switch
-- still gets the character that is no character.
unfoldable pub at_eof : Bytes → Bytes → Search → Option Read
unfolding conf_step read_loop finish
at_eof key contents m = if is_end m.state || is_in_value m.state then finish (m, []) else do
  m' ← conf_step key vrfy_key (record m { state = vrfy_key; i = 0 }) eof_char
  found ← read_loop key m' contents
  finish found

-- `read_conf_string(key, pvalue, 0)` for a key that is not empty, on the contents of the file:
-- where the file is not open yet, and where it is and `position` is ahead.
unfoldable pub read_conf_string : Bytes → Bytes → Option Bytes → Option Read
unfolding read_loop at_eof finish
read_conf_string key contents none = do found ← read_loop key search_start contents; finish found
read_conf_string key contents (some position) = do
  (m, rest) ← read_loop key search_start position
  elim rest [ [] ↦ at_eof key contents m | c ∷ more ↦ finish (m, c ∷ more) ]
