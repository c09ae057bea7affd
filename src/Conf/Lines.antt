-- ===== src/Conf/Lines.antt =====
-- A configuration file as the lines that a user writes, and what the reader makes of it.
use minichatclient.Base.{
  ℕ, ◌≡◌, ◌≢◌, ◌<◌, refl, ◌∙◌, ◌⊎◌, inl, inr, List, [], ◌∷◌, ◌++◌, none, some, arith, Bytes, ◌==◌,
  All, length, Bool-cases, ==_iff,
}
use minichatclient.Conf.{
  key_value_buffer_size, end, search_start, conf_step, read_loop, finish, read_conf_string,
}
use minichatclient.Conf.Finds.{
  IsText, IsBlank, IsSeparator, IsKey, IsValueByte, IsValueEnd, skip_line, skip_word, verify_other,
  verify_same, skip_blanks, read_value, c_string-value,
}

-- A comment with its mark, an empty line, and a setting: a word, a separator, and the text behind.
pub data Line : Type 0 where
  comment : ℕ → Bytes → Line
  empty : Line
  setting : Bytes → ℕ → Bytes → Line

abbrev pub written : Line → Bytes → Bytes
written (comment mark text) rest = mark ∷ (text ++ b'\n' ∷ rest)
written empty rest = b'\n' ∷ rest
written (setting word c text) rest = word ++ c ∷ (text ++ b'\n' ∷ rest)

-- The lines, and what comes behind them.
abbrev pub file : List Line → Bytes → Bytes
file [] rest = rest
file (l ∷ lines) rest = written l (file lines rest)

-- A line that is none of the key's.
abbrev pub IsOther : Bytes → Line → Type 0
IsOther key (comment mark text) = ((mark ≡ b'#') ⊎ (mark ≡ b';')) × All IsText text
IsOther key empty = Unit
IsOther key (setting word c text) = IsKey word × (word ≢ key) × IsSeparator c × All IsText text

skip_other :
    (key : Bytes) (l : Line) (rest : Bytes)
    → IsKey key
    → IsOther key l
    → read_loop key search_start (written l rest) ≡ read_loop key search_start rest
unfolding read_loop conf_step
skip_other key (comment mark text) rest k h = ground (arith, skip_line key 0 text rest h.1)
skip_other key empty rest k h = refl
skip_other [] (setting word c text) rest k h = absurd k
skip_other (d ∷ key) (setting [] c text) rest k h = absurd h.0
skip_other (d ∷ key) (setting (e ∷ word) c text) rest k h = elim (Bool-cases (e == d)) [
  | inl same ↦
      let eq : e ≡ d = (==_iff e d).0 same in
      ground (
        arith,
        verify_other (d ∷ key) (d ∷ []) key word c text rest refl k.2.1 h.0.2.1
            (λ q. h.1 (cc (eq, q))) (omega arith) h.2 h.3,
      )
  | inr other ↦ ground (arith, skip_word (d ∷ key) 0 word c text rest h.0.2.1 h.2 h.3)
]

pub skip_others :
    (key : Bytes) (lines : List Line) (rest : Bytes)
    → IsKey key
    → All (IsOther key) lines
    → read_loop key search_start (file lines rest) ≡ read_loop key search_start rest
skip_others key [] rest k h = refl
skip_others key (l ∷ lines) rest k h =
    skip_other key l (file lines rest) k h.0 ∙ skip_others key lines rest k h.1

read_entry :
    (key : Bytes) (c : ℕ) (blanks : Bytes) (v : ℕ) (value : Bytes) (last : ℕ) (rest : Bytes)
    → IsKey key
    → IsSeparator c
    → All IsBlank blanks
    → (v ≢ b' ') × (v ≢ b'\t')
    → All IsValueByte (v ∷ value)
    → IsValueEnd last
    → length (v ∷ value) < key_value_buffer_size
    → read_loop key search_start (key ++ c ∷ (blanks ++ v ∷ (value ++ last ∷ rest)))
      ≡ some (record { state = end; i = length key; buf = v ∷ value }, rest)
unfolding read_loop conf_step
read_entry [] c blanks v value last rest k s b nb vs e l = absurd k
read_entry (d ∷ key) c blanks v value last rest k s b nb vs e l =
    let behind = v ∷ (value ++ last ∷ rest) in
    ground (
      arith,
      verify_same (d ∷ key) (d ∷ []) key c (blanks ++ behind),
      skip_blanks (d ∷ key) (length (d ∷ key)) blanks behind b,
      read_value (d ∷ key) (length (d ∷ key)) (v ∷ []) value last rest vs.1 e,
    )

-- In a file that was just opened, a key is found on its first line, whatever other settings,
-- comments and empty lines stand before that: the value is what follows the blanks, up to a tab or
-- the end of the line, if that is from 1 to 199 bytes without a zero byte, and the next search goes on
-- behind the byte that ended it. A key is a word without a blank, a '=' or a zero that begins with no
-- comment's mark; a blank or a '=' ends it, and the other lines end in line feeds.
pub read_conf_string-value :
    (key : Bytes) (before : List Line) (c : ℕ) (blanks : Bytes) (v : ℕ) (value : Bytes) (last : ℕ)
    (rest : Bytes)
    → IsKey key
    → All (IsOther key) before
    → IsSeparator c
    → All IsBlank blanks
    → (v ≢ b' ') × (v ≢ b'\t')
    → All IsValueByte (v ∷ value)
    → IsValueEnd last
    → length (v ∷ value) < key_value_buffer_size
    → read_conf_string key (file before (key ++ c ∷ (blanks ++ v ∷ (value ++ last ∷ rest)))) none
      ≡ some (some (v ∷ value), rest)
unfolding read_conf_string finish
read_conf_string-value key before c blanks v value last rest k h s b nb vs e l = ground (
  arith,
  skip_others key before (key ++ c ∷ (blanks ++ v ∷ (value ++ last ∷ rest))) k h,
  read_entry key c blanks v value last rest k s b nb vs e,
  c_string-value (v ∷ value) vs,
)

-- A key that no line of the file sets has no value.
pub read_conf_string-none :
    (key : Bytes) (lines : List Line)
    → IsKey key
    → All (IsOther key) lines
    → read_conf_string key (file lines []) none ≡ some (none, [])
unfolding read_conf_string finish read_loop
read_conf_string-none key lines k h = ground (arith, skip_others key lines [] k h)
