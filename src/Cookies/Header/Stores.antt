-- ===== src/Cookies/Header/Stores.antt =====
-- What the header parser stores: a well-formed `Set-Cookie` line, wherever it stands.
use minichatclient.Base.{
  ℕ, suc, ◌+◌, ◌<◌, ◌≤◌, ◌≡◌, ◌≢◌, refl, ap, ◌∙◌, List, [], ◌∷◌, ◌++◌, some, Bytes, length, take,
  arith, write-set, take-set, c_string, c_string-set, set, All, append_assoc, append-nil,
  length-set,
}
use minichatclient.Cookies.{Cookie, storecookie}
use minichatclient.Cookies.Header.{
  State, waiting_for_new_line, in_header, header_found, in_cookie_name, in_cookie_value, Parser,
  step_in, parse_loop, started, max_buf_name, max_buf_value, header,
}

abbrev at : State → ℕ → Bytes → Bytes → List Cookie → Parser
at state j bufname bufvalue cookies = record {
  state = state;
  j = j;
  bufname = bufname;
  bufvalue = bufvalue;
  cookies = cookies;
}

-- `s` written from index `j` on.
fill : Bytes → ℕ → Bytes → Bytes
fill buf j [] = buf
fill buf j (c ∷ s) = fill (set buf j c) (j + 1) s

length-fill : (buf : Bytes) (j : ℕ) (s : Bytes) → length (fill buf j s) ≡ length buf
unfolding fill
length-fill buf j [] = refl
length-fill buf j (c ∷ s) = length-fill (set buf j c) (j + 1) s ∙ length-set buf j c

take-fill :
    (buf : Bytes) (j k : ℕ) (s : Bytes)
    → j + length s ≡ k
    → k ≤ length buf
    → take k (fill buf j s) ≡ take j buf ++ s
unfolding fill
take-fill buf j k [] e h = let same : k ≡ j = omega arith in rw (same, append-nil)
take-fill buf j k (c ∷ s) e h =
    let next : j + 1 ≡ suc j = omega arith in
    take-fill (set buf j c) (j + 1) k s (omega arith) (omega (arith, length-set buf j c))
    ∙ rw (next, take-set buf j c (omega arith), append_assoc)

-- A byte of a name or a value: printable ASCII, and no ';'.
abbrev pub IsText : ℕ → Type 0
IsText c = (32 ≤ c) × (c < 128) × (c ≢ b';')

abbrev pub IsNameByte : ℕ → Type 0
IsNameByte c = IsText c × (c ≢ b'=')

module _ (bufname bufvalue : Bytes) (cookies : List Cookie) where
  skip_line :
      (line rest : Bytes)
      → All (λ c. c ≢ b'\n') line
      → parse_loop (at waiting_for_new_line 0 bufname bufvalue cookies) (line ++ b'\n' ∷ rest)
        ≡ parse_loop (at in_header 0 bufname bufvalue cookies) rest
  unfolding parse_loop step_in
  skip_line [] rest h = refl
  skip_line (c ∷ line) rest h = ground (arith, skip_line line rest h.1)

  take_header :
      (rest : Bytes)
      → parse_loop (at in_header 0 bufname bufvalue cookies) (header ++ b' ' ∷ rest)
        ≡ parse_loop (at header_found 0 bufname bufvalue cookies) rest
  unfolding parse_loop step_in
  take_header rest = refl

take_name :
    (bufname bufvalue : Bytes) (cookies : List Cookie) (j k : ℕ) (s rest : Bytes)
    → length bufname ≡ max_buf_name + 1
    → j + length s ≡ k
    → k ≤ max_buf_name
    → All IsNameByte s
    → parse_loop (at in_cookie_name j bufname bufvalue cookies) (s ++ rest)
      ≡ parse_loop (at in_cookie_name k (fill bufname j s) bufvalue cookies) rest
unfolding parse_loop step_in fill
take_name bufname bufvalue cookies j k [] rest h e l a = let same : k ≡ j = omega arith in rw same
take_name bufname bufvalue cookies j k (c ∷ s) rest h e l a =
    ground
      (arith, write-set bufname j c, take_name (set bufname j c) bufvalue cookies (j + 1) k s rest)

take_value :
    (bufname bufvalue : Bytes) (cookies : List Cookie) (j k : ℕ) (s rest : Bytes)
    → length bufvalue ≡ max_buf_value + 1
    → j + length s ≡ k
    → k ≤ max_buf_value
    → All IsText s
    → parse_loop (at in_cookie_value j bufname bufvalue cookies) (s ++ rest)
      ≡ parse_loop (at in_cookie_value k bufname (fill bufvalue j s) cookies) rest
unfolding parse_loop step_in fill
take_value bufname bufvalue cookies j k [] rest h e l a = let same : k ≡ j = omega arith in rw same
take_value bufname bufvalue cookies j k (c ∷ s) rest h e l a =
    ground (
      arith,
      write-set bufvalue j c,
      take_value bufname (set bufvalue j c) cookies (j + 1) k s rest,
    )

-- The first byte of a name goes to index 0.
begin_name :
    (bufname bufvalue : Bytes) (cookies : List Cookie) (c : ℕ) (rest : Bytes)
    → length bufname ≡ max_buf_name + 1
    → IsNameByte c
    → b'0' ≤ c
    → parse_loop (at header_found 0 bufname bufvalue cookies) (c ∷ rest)
      ≡ parse_loop (at in_cookie_name 1 (set bufname 0 c) bufvalue cookies) rest
unfolding parse_loop step_in
begin_name bufname bufvalue cookies c rest h a l = ground (arith, write-set bufname 0 c)

end_name :
    (bufname bufvalue : Bytes) (cookies : List Cookie) (k : ℕ) (rest : Bytes)
    → length bufname ≡ max_buf_name + 1
    → k ≤ max_buf_name
    → parse_loop (at in_cookie_name k bufname bufvalue cookies) (b'=' ∷ rest)
      ≡ parse_loop (at in_cookie_value 0 (set bufname k 0) bufvalue cookies) rest
unfolding parse_loop step_in
end_name bufname bufvalue cookies k rest h l = ground (arith, write-set bufname k 0)

end_value :
    (bufname bufvalue : Bytes) (cookies after : List Cookie) (k : ℕ) (rest : Bytes)
    → length bufvalue ≡ max_buf_value + 1
    → k ≤ max_buf_value
    → storecookie (c_string bufname) (c_string (set bufvalue k 0)) cookies ≡ some after
    → parse_loop (at in_cookie_value k bufname bufvalue cookies) (b';' ∷ rest)
      ≡ parse_loop (at waiting_for_new_line 0 bufname (set bufvalue k 0) after) rest
unfolding parse_loop step_in
end_value bufname bufvalue cookies after k rest h l e = ground (arith, write-set bufvalue k 0)

nonzero : (s : Bytes) → All IsText s → All (λ c. c ≢ 0) s
nonzero [] a = tt
nonzero (c ∷ s) a = (λ e. omega arith, nonzero s a.1)

texts : (s : Bytes) → All IsNameByte s → All IsText s
texts [] a = tt
texts (c ∷ s) a = (a.0.0, texts s a.1)

-- A `Set-Cookie` line, up to the ';' behind its value.
abbrev pub set_cookie : Bytes → Bytes → Bytes → Bytes
set_cookie name value rest = header ++ b' ' ∷ (name ++ b'=' ∷ (value ++ b';' ∷ rest))

-- After a line end, `Set-Cookie: name=value;` stores exactly that cookie, for a name of 1 to 50 and
-- a value of up to 200 printable bytes, whose name does not begin below '0'. The parser then goes
-- on as from its start, with the new array.
pub parse_loop-set_cookie :
    (bufname bufvalue : Bytes) (cookies after : List Cookie) (line : Bytes) (c : ℕ)
    (name value rest : Bytes)
    → length bufname ≡ max_buf_name + 1
    → length bufvalue ≡ max_buf_value + 1
    → All (λ d. d ≢ b'\n') line
    → b'0' ≤ c
    → All IsNameByte (c ∷ name)
    → length (c ∷ name) ≤ max_buf_name
    → All IsText value
    → length value ≤ max_buf_value
    → storecookie (c ∷ name) value cookies ≡ some after
    → (bufname' : Bytes) × (bufvalue' : Bytes) × (length bufname' ≡ max_buf_name + 1)
      × (length bufvalue' ≡ max_buf_value + 1)
      × (parse_loop
            (started bufname bufvalue cookies)
            (line ++ b'\n' ∷ set_cookie (c ∷ name) value rest)
          ≡ parse_loop (started bufname' bufvalue' after) rest)
parse_loop-set_cookie bufname bufvalue cookies after line c name value rest h h' a l an ln av lv e =
    let k = length (c ∷ name) in
    let m = length value in
    let filled = fill (set bufname 0 c) 1 name in
    let valued = fill bufvalue 0 value in
    let first_size = length-set bufname 0 c in
    let filled_size = length-fill (set bufname 0 c) 1 name in
    let valued_size = length-fill bufvalue 0 value in
    let name_read : c_string (set filled k 0) ≡ c ∷ name =
      c_string-set filled k (c ∷ name) (omega arith) (nonzero (c ∷ name) (texts (c ∷ name) an)) (
        take-fill (set bufname 0 c) 1 k name (omega arith) (omega arith)
        ∙ ap (λ (t : Bytes). t ++ name) (take-set bufname 0 c (omega arith))) in
    let value_read : c_string (set valued m 0) ≡ value =
      c_string-set valued m value (omega arith) (nonzero value av)
        (take-fill bufvalue 0 m value (omega arith) (omega arith)) in
    (
      set filled k 0,
      set valued m 0,
      omega (arith, length-set filled k 0),
      omega (arith, length-set valued m 0),
      skip_line bufname bufvalue cookies line (set_cookie (c ∷ name) value rest) a
          ∙ take_header bufname bufvalue cookies ((c ∷ name) ++ b'=' ∷ (value ++ b';' ∷ rest))
          ∙ begin_name bufname bufvalue cookies c (name ++ b'=' ∷ (value ++ b';' ∷ rest)) h an.0 l
          ∙ take_name (set bufname 0 c) bufvalue cookies 1 k name (b'=' ∷ (value ++ b';' ∷ rest))
              (omega arith) (omega arith) ln an.1
          ∙ end_name filled bufvalue cookies k (value ++ b';' ∷ rest) (omega arith) ln
          ∙ take_value (set filled k 0) bufvalue cookies 0 m value (b';' ∷ rest) h' (omega arith) lv
              av
          ∙ end_value (set filled k 0) valued cookies after m rest (omega arith) lv
              (rw (name_read, value_read) e),
    )
