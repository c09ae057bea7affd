-- ===== src/Irc/Split/Laws.antt =====
-- How a line is cut: never into more parts than the array has room for, and a line in the usual
-- form into its command, its words and its text.
use minichatclient.Base.{
  ℕ, ◌+◌, ◌≤◌, ◌<◌, ◌≡◌, ◌≢◌, refl, ◌∙◌, List, [], ◌∷◌, ◌++◌, none, arith, Bytes, length,
  length-append, map, All, append_assoc, append-nil,
}
use minichatclient.Irc.Split.{
  max_args, capital, Word, cutting, in_prefix, in_arg, Splitter, Next, goes, breaks, split_step,
  split_end, split_loop, no_args, split,
}

-- The arguments that are begun, one of them open in `in_arg`; a prefix stands before any argument.
abbrev HasRoom : Word → ℕ → Type 0
HasRoom cutting n = n + 1 ≤ max_args
HasRoom (in_prefix s) n = n + 1 ≤ max_args
HasRoom (in_arg s) n = n + 2 ≤ max_args

abbrev NextFits : Next → Type 0
NextFits (goes sp) = HasRoom sp.word (length sp.args)
NextFits (breaks args) = length args ≤ max_args

split_step-fits :
    (w : Word) (sp : Splitter) (c : ℕ) (rest : Bytes)
    → HasRoom w (length sp.args)
    → sp.word ≡ w
    → NextFits (split_step w sp c rest)
unfolding split_step
split_step-fits cutting sp c rest h e =
    ground (arith, length-append sp.args (rest ∷ []), length-append sp.args ((c ∷ rest) ∷ []))
split_step-fits (in_prefix s) sp c rest h e = ground arith
split_step-fits (in_arg s) sp c rest h e = ground (arith, length-append sp.args (s ∷ []))

split_end-fits :
    (w : Word) (sp : Splitter) → HasRoom w (length sp.args) → length (split_end w sp) ≤ max_args
unfolding split_end
split_end-fits cutting sp h = ground arith
split_end-fits (in_prefix s) sp h = omega arith
split_end-fits (in_arg s) sp h = omega (arith, length-append sp.args (s ∷ []))

split_loop-fits :
    (sp : Splitter) (s : Bytes)
    → HasRoom sp.word (length sp.args)
    → length (split_loop sp s) ≤ max_args
unfolding split_loop
split_loop-fits sp [] h = split_end-fits sp.word sp h
split_loop-fits sp (c ∷ s) h =
    on_next (split_step sp.word sp c s) (split_step-fits sp.word sp c s h refl)
      (λ sp' k. split_loop-fits sp' s k)
  where
    on_next :
        (n : Next)
        → NextFits n
        → ((sp' : Splitter)
            → HasRoom sp'.word (length sp'.args)
            → length (split_loop sp' s) ≤ max_args)
        → length
            (let r : List Bytes = elim n [ goes sp' ↦ split_loop sp' s | breaks args ↦ args ] in r)
          ≤ max_args
    on_next (goes sp') k rec = rec sp' k
    on_next (breaks args) k rec = k

-- On every line there are at most 50 arguments, so with the null pointer behind the last one all
-- writes to `arg` are inside its 51 elements.
pub length-split : (line : Bytes) → length (split line) ≤ max_args
unfolding split
length-split line = split_loop-fits no_args line (omega arith)

abbrev NoSpace : Bytes → Type 0
NoSpace = All (λ c. c ≢ b' ')

read_command :
    (w s rest : Bytes)
    → NoSpace w
    → split_loop (record { args = []; prefix = none; word = in_arg s }) (w ++ rest)
      ≡ split_loop (record { args = []; prefix = none; word = in_arg (s ++ map capital w) }) rest
unfolding split_loop split_step
read_command [] s rest h = rw append-nil
read_command (c ∷ w) s rest h = ground (
  arith,
  read_command w (s ++ capital c ∷ []) rest h.1,
  append_assoc s (capital c ∷ []) (map capital w),
)

begin_command :
    (c : ℕ) (rest : Bytes)
    → c ≢ b' '
    → c ≢ b':'
    → split_loop no_args (c ∷ rest)
      ≡ split_loop (record { args = []; prefix = none; word = in_arg (capital c ∷ []) }) rest
unfolding split_loop split_step
begin_command c rest h k = ground arith

read_word :
    (args : List Bytes) (w s rest : Bytes)
    → 0 < length args
    → NoSpace w
    → split_loop (record { args = args; prefix = none; word = in_arg s }) (w ++ rest)
      ≡ split_loop (record { args = args; prefix = none; word = in_arg (s ++ w) }) rest
unfolding split_loop split_step
read_word args [] s rest k h = rw append-nil
read_word args (c ∷ w) s rest k h =
    ground (arith, read_word args w (s ++ c ∷ []) rest k h.1, append_assoc s (c ∷ []) w)

begin_spaced :
    (args : List Bytes) (c : ℕ) (rest : Bytes)
    → c ≢ b' '
    → c ≢ b':'
    → 0 < length args
    → length args + 2 ≤ max_args
    → split_loop (record { args = args; prefix = none; word = cutting }) (c ∷ rest)
      ≡ split_loop (record { args = args; prefix = none; word = in_arg (c ∷ []) }) rest
unfolding split_loop split_step
begin_spaced args c rest h k l m = ground arith

-- A word of the line: not empty, with no space, and not led by a colon.
abbrev pub IsWord : Bytes → Type 0
IsWord [] = ⊥
IsWord (c ∷ w) = (c ≢ b':') × All (λ d. d ≢ b' ') (c ∷ w)

-- The words, each behind a space, and behind them the text with its colon.
abbrev pub spaced : List Bytes → Bytes → Bytes
spaced [] text = b' ' ∷ b':' ∷ text
spaced (w ∷ ws) text = b' ' ∷ (w ++ spaced ws text)

read_spaced :
    (args : List Bytes) (s : Bytes) (ws : List Bytes) (text : Bytes)
    → All IsWord ws
    → length args + length ws + 2 ≤ max_args
    → split_loop (record { args = args; prefix = none; word = in_arg s }) (spaced ws text)
      ≡ args ++ s ∷ (ws ++ text ∷ [])
unfolding split_loop split_step
read_spaced args s [] text h l =
    ground (arith, length-append args (s ∷ []), append_assoc args (s ∷ []) (text ∷ []))
read_spaced args s ([] ∷ ws) text h l = absurd h.0
read_spaced args s ((c ∷ w) ∷ ws) text h l =
    let args' = args ++ s ∷ [] in
    let longer = length-append args (s ∷ []) in
    begin_spaced args' c (w ++ spaced ws text) h.0.1.0 h.0.0 (omega arith) (omega arith)
    ∙ read_word args' w (c ∷ []) (spaced ws text) (omega arith) h.0.1.1
    ∙ read_spaced args' (c ∷ w) ws text h.1 (omega arith)
    ∙ append_assoc args (s ∷ []) ((c ∷ w) ∷ (ws ++ text ∷ []))

-- A line of a command, words, and a text behind a colon is cut into these: the command in
-- capitals, the words as they are, and the text with its spaces.
pub split-spaced :
    (command : Bytes) (ws : List Bytes) (text : Bytes)
    → IsWord command
    → All IsWord ws
    → length ws + 2 ≤ max_args
    → split (command ++ spaced ws text) ≡ map capital command ∷ (ws ++ text ∷ [])
unfolding split
split-spaced [] ws text k h l = absurd k
split-spaced (c ∷ w) ws text k h l =
    begin_command c (w ++ spaced ws text) k.1.0 k.0
    ∙ read_command w (capital c ∷ []) (spaced ws text) k.1.1
    ∙ read_spaced [] (map capital (c ∷ w)) ws text h (omega arith)
