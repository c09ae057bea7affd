-- ===== src/Cookies/Header.antt =====
-- cookies.c: `parsehttpheadersforgettingcookies`, the state machine that stores the cookies of an
-- HTTP header.
-- The buffers are arrays of the declared sizes, and a write out of bounds is undefined behaviour,
-- `none`. `char` is signed, so a byte from 128 on is below every ASCII character.
pub mod Safety
pub mod Stores
use minichatclient.Base.{
  ℕ, suc, zero, ◌+◌, Bool, true, false, ◌&&◌, ◌||◌, List, [], ◌∷◌, ◌++◌, Option, none, some, Bytes,
  length, take, replicate, get_or, ◌==◌, ltb, leb, if◌then◌else◌, codes, ◌>>=◌, write, c_string,
}
use minichatclient.Cookies.{Cookie, storecookie}

pub data State : Type 0 where
  waiting_for_new_line in_header header_found in_cookie_name in_cookie_value end_of_http_headers :
      State

abbrev pub max_buf_name : ℕ
max_buf_name = 50

abbrev pub max_buf_value : ℕ
max_buf_value = 200

abbrev pub header : Bytes
header = codes "Set-Cookie:"

pub record Parser : Type 0 where
  pub state : State
  pub j : ℕ
  pub bufname : Bytes
  pub bufvalue : Bytes
  pub cookies : List Cookie

-- `c < k` on `char`, for an ASCII `k`
abbrev pub char_lt : ℕ → ℕ → Bool
char_lt c k = leb 128 c || ltb c k

abbrev pub or_new_line : ℕ → State
or_new_line c = if c == b'\n' then in_header else waiting_for_new_line

-- `header[j]`, with the terminating zero behind the text; `none` out of bounds
header_at : ℕ → Option ℕ
header_at j = if leb j 11 then some (get_or header j 0) else none

step_in_header : Parser → ℕ → Option Parser
step_in_header p c =
    if c == 10
    then some (record p { state = end_of_http_headers })
    else if c == 13
    then some p
    else do
      h ← header_at p.j
      if c == h
          then (if p.j + 1 == 11
              then some (record p { j = 0; state = header_found })
              else some (record p { j = p.j + 1 }))
          else some (record p { j = 0; state = waiting_for_new_line })

step_header_found : Parser → ℕ → Option Parser
step_header_found p c =
    if c == b' '
    then some p
    else if c == b'\n'
    then some (record p { state = in_header })
    else if char_lt c b'0'
    then some (record p { state = waiting_for_new_line })
    else if c == b';'
    then some (record p { state = waiting_for_new_line })
    else do
      bufname ← write p.bufname p.j c
      some (record p { bufname = bufname; j = p.j + 1; state = in_cookie_name })

step_in_cookie_name : Parser → ℕ → Option Parser
step_in_cookie_name p c =
    if char_lt c b' ' || c == b';'
    then (do
      bufname ← write p.bufname p.j 0
      cookies ← storecookie (c_string bufname) [] p.cookies
      some (record p { bufname = bufname; j = 0; cookies = cookies; state = or_new_line c }))
    else if c == b'='
    then (do
      bufname ← write p.bufname p.j 0
      some (record p { bufname = bufname; j = 0; state = in_cookie_value }))
    else if leb max_buf_name p.j
    then (do
      bufname ← write p.bufname p.j 0
      some (record p { bufname = bufname; j = 0; state = waiting_for_new_line }))
    else do bufname ← write p.bufname p.j c; some (record p { bufname = bufname; j = p.j + 1 })

step_in_cookie_value : Parser → ℕ → Option Parser
step_in_cookie_value p c =
    if char_lt c b' ' || c == b';'
    then (do
      bufvalue ← write p.bufvalue p.j 0
      cookies ← storecookie (c_string p.bufname) (c_string bufvalue) p.cookies
      some (record p { bufvalue = bufvalue; j = 0; cookies = cookies; state = or_new_line c }))
    else if leb max_buf_value p.j
    then (do
      bufvalue ← write p.bufvalue p.j 0
      some (record p { bufvalue = bufvalue; j = 0; state = waiting_for_new_line }))
    else do bufvalue ← write p.bufvalue p.j c; some (record p { bufvalue = bufvalue; j = p.j + 1 })

-- One byte, in the state given, which is `p.state`.
unfoldable pub step_in : State → Parser → ℕ → Option Parser
unfolding step_in_header step_header_found step_in_cookie_name step_in_cookie_value header_at
step_in waiting_for_new_line p c = some (if c == 10 then record p { state = in_header } else p)
step_in in_header p c = step_in_header p c
step_in header_found p c = step_header_found p c
step_in in_cookie_name p c = step_in_cookie_name p c
step_in in_cookie_value p c = step_in_cookie_value p c
step_in end_of_http_headers p c = some p

abbrev pub step : Parser → ℕ → Option Parser
step p = step_in p.state p

-- The loop. In `end_of_http_headers` the function returns, and the bytes that follow change
-- nothing.
unfoldable pub parse_loop : Parser → Bytes → Option Parser
parse_loop p [] = some p
parse_loop p (c ∷ s) = do q ← step p c; parse_loop q s

-- The locals when the loop begins; the buffers hold no particular bytes.
abbrev pub started : Bytes → Bytes → List Cookie → Parser
started bufname bufvalue cookies = record {
  state = waiting_for_new_line;
  j = 0;
  bufname = bufname;
  bufvalue = bufvalue;
  cookies = cookies;
}

-- On the string and the number of bytes of it that may be read; a `bytes` below 1 is 0 here.
unfoldable pub parsehttpheadersforgettingcookies :
    Bytes → Bytes → List Cookie → Bytes → ℕ → Option (List Cookie)
parsehttpheadersforgettingcookies bufname bufvalue cookies s bytes = do
  p ← parse_loop (started bufname bufvalue cookies) (take bytes s)
  some p.cookies
