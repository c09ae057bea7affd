-- ===== src/Conf/Wraps.antt =====
-- The two flaws of the reader: a search that starts again from the beginning of the file, and a
-- value that fills the buffer.
use minichatclient.Base.{
  ℕ, ◌+◌, ◌≡◌, ◌≢◌, ◌<◌, ◌≤◌, inl, inr, List, [], ◌∷◌, ◌++◌, none, some, arith, Bytes, leb, All,
  Bool-cases, length, length-append, get_or,
}
use minichatclient.Conf.{
  key_value_buffer_size, in_value, end, conf_step, read_loop, finish, eof_char, at_eof,
  read_conf_string,
}
use minichatclient.Conf.Finds.{
  IsText, IsBlank, IsSeparator, IsKey, skip_line, verify_same, skip_blanks, loop_ends,
}
use minichatclient.Conf.Lines.{Line, file, IsOther, skip_others}

-- If the file is open and the key is not in what is ahead, then the search starts again, but not on
-- the first line of the file: it finds exactly what a search in the file without its first line
-- finds.
pub read_conf_string-wraps :
    (key : Bytes) (ahead : List Line) (first more : Bytes)
    → IsKey key
    → get_or key 0 0 ≢ eof_char
    → All (IsOther key) ahead
    → All IsText first
    → read_conf_string key (first ++ b'\n' ∷ more) (some (file ahead []))
      ≡ read_conf_string key more none
unfolding read_conf_string at_eof conf_step read_loop
read_conf_string-wraps [] ahead first more k e o t = absurd k
read_conf_string-wraps (d ∷ key) ahead first more k e o t =
    ground (arith, skip_others (d ∷ key) ahead [] k o, skip_line (d ∷ key) 0 first more t)

-- A byte that the loop takes into the value.
abbrev pub IsTaken : ℕ → Type 0
IsTaken c = IsText c × (c ≢ b'\t')

fill_value :
    (key : Bytes) (i : ℕ) (buf v rest : Bytes)
    → All IsTaken v
    → 1 ≤ length buf
    → length buf < key_value_buffer_size
    → key_value_buffer_size ≤ length buf + length v
    → (u : Bytes) × (left : Bytes) × (read_loop key
          (record { state = in_value; i = i; buf = buf })
          (v ++ rest)
        ≡ some (record { state = end; i = i; buf = u }, left))
      × (length u ≡ key_value_buffer_size)
unfolding read_loop conf_step
fill_value key i buf [] rest h p l m = absurd (omega arith)
fill_value key i buf (c ∷ v) rest h p l m =
    elim (Bool-cases (leb key_value_buffer_size (length (buf ++ c ∷ [])))) [
      | inl full ↦
          let longer = length-append buf (c ∷ []) in
          (
            buf ++ c ∷ [],
            v ++ rest,
            ground (
              arith,
              loop_ends key (record { state = end; i = i; buf = buf ++ c ∷ [] }) (v ++ rest),
            ),
            ground arith,
          )
      | inr room ↦
          let longer = length-append buf (c ∷ []) in
          let (u, left, runs, size) =
            fill_value key i (buf ++ c ∷ []) v rest h.1 (omega arith) (ground arith)
              (omega arith) in
          (u, left, ground arith, size)
    ]

-- The key's line has a value of 200 bytes or more: the loop fills the buffer, and the terminating
-- zero is written behind its end.
pub read_conf_string-overflow :
    (key : Bytes) (before : List Line) (c : ℕ) (blanks : Bytes) (v : ℕ) (value rest : Bytes)
    → IsKey key
    → All (IsOther key) before
    → IsSeparator c
    → All IsBlank blanks
    → (v ≢ b' ') × IsTaken v
    → All IsTaken value
    → key_value_buffer_size ≤ length (v ∷ value)
    → read_conf_string key (file before (key ++ c ∷ (blanks ++ v ∷ (value ++ rest)))) none ≡ none
unfolding read_conf_string finish read_loop conf_step
read_conf_string-overflow [] before c blanks v value rest k h s b nb vs l = absurd k
read_conf_string-overflow (d ∷ key) before c blanks v value rest k h s b nb vs l =
    let key' = d ∷ key in
    let behind = v ∷ (value ++ rest) in
    let (u, left, runs, size) =
      fill_value key' (length key') (v ∷ []) value rest vs (omega arith) (omega arith)
        (omega arith) in
    ground (
      arith,
      skip_others key' before (key' ++ c ∷ (blanks ++ behind)) k h,
      verify_same key' (d ∷ []) key c (blanks ++ behind),
      skip_blanks key' (length key') blanks behind b,
    )
