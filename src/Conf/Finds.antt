-- ===== src/Conf/Finds.antt =====
-- What a search in a file that was just opened finds: the value of the first line of its key.
use minichatclient.Base.{
  ℕ, ◌+◌, ◌≡◌, ◌≢◌, ◌<◌, ◌≤◌, refl, ap, sym, ◌∙◌, ◌⊎◌, inl, inr, [], ◌∷◌, ◌++◌, some, arith, Bytes,
  ◌==◌, All, length, length-append, append_assoc, get_or, c_string, Bool-cases, ==_iff, append-nil,
}
use minichatclient.Conf.{
  key_value_buffer_size, vrfy_key, wf_value, wf_newline, in_value, end, Search, key_at,
  search_start, conf_step, read_loop,
}

-- A byte of a line.
abbrev pub IsText : ℕ → Type 0
IsText c = (c ≢ b'\r') × (c ≢ b'\n')

abbrev pub IsBlank : ℕ → Type 0
IsBlank c = (c ≡ b' ') ⊎ (c ≡ b'\t')

-- What ends a key.
abbrev pub IsSeparator : ℕ → Type 0
IsSeparator c = IsBlank c ⊎ (c ≡ b'=')

-- A byte of a key.
abbrev pub IsKeyByte : ℕ → Type 0
IsKeyByte c = IsText c × (c ≢ b' ') × (c ≢ b'\t') × (c ≢ b'=') × (c ≢ 0)

-- A word that can be a key.
abbrev pub IsKey : Bytes → Type 0
IsKey [] = ⊥
IsKey (c ∷ k) = (c ≢ b'#') × (c ≢ b';') × All IsKeyByte (c ∷ k)

-- The rest of a line is skipped.
pub skip_line :
    (key : Bytes) (i : ℕ) (s rest : Bytes)
    → All IsText s
    → read_loop key (record { state = wf_newline; i = i; buf = [] }) (s ++ b'\n' ∷ rest)
      ≡ read_loop key search_start rest
unfolding read_loop conf_step
skip_line key i [] rest h = refl
skip_line key i (c ∷ s) rest h = ground (arith, skip_line key i s rest)

pub skip_word :
    (key : Bytes) (i : ℕ) (word : Bytes) (c : ℕ) (text rest : Bytes)
    → All IsKeyByte word
    → IsSeparator c
    → All IsText text
    → read_loop key
        (record { state = wf_newline; i = i; buf = [] })
        (word ++ c ∷ (text ++ b'\n' ∷ rest))
      ≡ read_loop key search_start rest
unfolding read_loop conf_step
skip_word key i [] c text rest w s t = ground (arith, skip_line key i text rest t)
skip_word key i (e ∷ word) c text rest w s t =
    ground (arith, skip_word key i word c text rest w.1 s t)

key_at-Cut : (key pre suf : Bytes) → key ≡ pre ++ suf → key_at key (length pre) ≡ get_or suf 0 0
key_at-Cut key pre suf h = ap (λ (k : Bytes). get_or k (length pre) 0) h ∙ behind pre
  where
    behind : (pre : Bytes) → get_or (pre ++ suf) (length pre) 0 ≡ get_or suf 0 0
    behind [] = refl
    behind (x ∷ pre) = behind pre

length-Cut : (key pre suf : Bytes) → key ≡ pre ++ suf → length key ≡ length pre + length suf
length-Cut key pre suf h = ap length h ∙ length-append pre suf

next-Cut :
    (key pre : Bytes) (d : ℕ) (suf : Bytes) → key ≡ pre ++ d ∷ suf → key ≡ (pre ++ d ∷ []) ++ suf
next-Cut key pre d suf h = h ∙ sym (append_assoc pre (d ∷ []) suf)

-- Behind the part `pre` of the key: another word. Only the first byte of a line can begin a
-- comment.
pub verify_other :
    (key pre suf word : Bytes) (c : ℕ) (text rest : Bytes)
    → key ≡ pre ++ suf
    → All IsKeyByte suf
    → All IsKeyByte word
    → word ≢ suf
    → 1 ≤ length pre
    → IsSeparator c
    → All IsText text
    → read_loop key
        (record { state = vrfy_key; i = length pre; buf = [] })
        (word ++ c ∷ (text ++ b'\n' ∷ rest))
      ≡ read_loop key search_start rest
unfolding read_loop conf_step
verify_other key pre [] [] c text rest k h w ne p s t = absurd (ne refl)
verify_other key pre (d ∷ suf) [] c text rest k h w ne p s t = ground (
  arith,
  key_at-Cut key pre (d ∷ suf) k,
  length-Cut key pre (d ∷ suf) k,
  skip_line key (length pre) text rest t,
)
verify_other key pre [] (e ∷ word) c text rest k h w ne p s t = ground (
  arith,
  key_at-Cut key pre [] k,
  length-Cut key pre [] k,
  skip_word key (length pre) word c text rest w.1 s t,
)
verify_other key pre (d ∷ suf) (e ∷ word) c text rest k h w ne p s t = elim (Bool-cases (e == d)) [
  | inl same ↦
      let eq : e ≡ d = (==_iff e d).0 same in
      ground (
        arith,
        key_at-Cut key pre (d ∷ suf) k,
        length-Cut key pre (d ∷ suf) k,
        length-append pre (d ∷ []),
        verify_other key (pre ++ d ∷ []) suf word c text rest (next-Cut key pre d suf k) h.1 w.1
            (λ q. ne (cc (eq, q))) (omega (arith, length-append pre (d ∷ []))) s t,
      )
  | inr other ↦ ground (
    arith,
    key_at-Cut key pre (d ∷ suf) k,
    length-Cut key pre (d ∷ suf) k,
    skip_word key (length pre) word c text rest w.1 s t,
  )
]

-- The key itself, from the position behind `pre` on, and what separates it from its value.
pub verify_same :
    (key pre suf : Bytes) (c : ℕ) (rest : Bytes)
    → key ≡ pre ++ suf
    → All IsKeyByte suf
    → 1 ≤ length pre
    → IsSeparator c
    → read_loop key (record { state = vrfy_key; i = length pre; buf = [] }) (suf ++ c ∷ rest)
      ≡ read_loop key (record { state = wf_value; i = length key; buf = [] }) rest
unfolding read_loop conf_step
verify_same key pre [] c rest k h p s =
    ground (arith, key_at-Cut key pre [] k, length-Cut key pre [] k)
verify_same key pre (d ∷ suf) c rest k h p s = ground (
  arith,
  key_at-Cut key pre (d ∷ suf) k,
  length-Cut key pre (d ∷ suf) k,
  length-append pre (d ∷ []),
  verify_same key (pre ++ d ∷ []) suf c rest (next-Cut key pre d suf k),
)

-- A byte of a value.
abbrev pub IsValueByte : ℕ → Type 0
IsValueByte c = IsText c × (c ≢ b'\t') × (c ≢ 0)

-- What ends a value: the end of the line, or a tab.
abbrev pub IsValueEnd : ℕ → Type 0
IsValueEnd c = (c ≡ b'\r') ⊎ (c ≡ b'\n') ⊎ (c ≡ b'\t')

pub loop_ends :
    (key : Bytes) (m : Search) (rest : Bytes)
    → m.state ≡ end
    → read_loop key m rest ≡ some (m, rest)
unfolding read_loop
loop_ends key m [] h = refl
loop_ends key m (c ∷ rest) h = ground arith

pub read_value :
    (key : Bytes) (i : ℕ) (buf v : Bytes) (last : ℕ) (rest : Bytes)
    → All IsValueByte v
    → IsValueEnd last
    → 1 ≤ length buf
    → length buf + length v < key_value_buffer_size
    → read_loop key (record { state = in_value; i = i; buf = buf }) (v ++ last ∷ rest)
      ≡ some (record { state = end; i = i; buf = buf ++ v }, rest)
unfolding read_loop conf_step
read_value key i buf [] last rest h e p l =
    ground
      (arith, e, append-nil buf, loop_ends key (record { state = end; i = i; buf = buf }) rest refl)
read_value key i buf (c ∷ v) last rest h e p l = ground (
  arith,
  length-append buf (c ∷ []),
  append_assoc buf (c ∷ []) v,
  read_value key i (buf ++ c ∷ []) v last rest h.1 e,
)

pub skip_blanks :
    (key : Bytes) (i : ℕ) (blanks rest : Bytes)
    → All IsBlank blanks
    → read_loop key (record { state = wf_value; i = i; buf = [] }) (blanks ++ rest)
      ≡ read_loop key (record { state = wf_value; i = i; buf = [] }) rest
unfolding read_loop conf_step
skip_blanks key i [] rest h = refl
skip_blanks key i (c ∷ blanks) rest h = ground (arith, skip_blanks key i blanks rest h.1)

pub c_string-value : (v : Bytes) → All IsValueByte v → c_string v ≡ v
unfolding c_string
c_string-value [] h = refl
c_string-value (c ∷ v) h = ground (arith, c_string-value v)
