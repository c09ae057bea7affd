-- ===== src/Irc/Split.antt =====
-- ircserver.c: the first loop of `parse_buffer`, which cuts a line of the client into its parts in
-- place. An argument is a pointer into the line, and ends at the first space behind it, which is
-- overwritten by a zero; an argument that the loop breaks off in goes on to the end of the line.
pub mod Laws
use minichatclient.Base.{
  ℕ, suc, ◌+◌, ◌-◌, Bool, true, false, ◌&&◌, List, [], ◌∷◌, ◌++◌, Option, none, some, Bytes, length,
  ◌==◌, leb, if◌then◌else◌,
}

abbrev pub max_args : ℕ
max_args = 50

-- `string[n] &= 0xDF` for a small letter
abbrev pub capital : ℕ → ℕ
capital c = if leb b'a' c && leb c b'z' then c - 32 else c

-- Where the loop is: between two arguments (`cutting`), in a first part that begins with a colon,
-- which counts for no argument, or in an argument.
pub data Word : Type 0 where
  cutting : Word
  in_prefix : Bytes → Word
  in_arg : Bytes → Word

-- The arguments that are complete, and `arg[0]` as a prefix left it.
pub record Splitter : Type 0 where
  pub args : List Bytes
  pub prefix : Option Bytes
  pub word : Word

pub data Next : Type 0 where
  goes : Splitter → Next
  breaks : List Bytes → Next

-- `nextarg` while the loop is between two arguments
abbrev pub nextarg : Splitter → ℕ
nextarg sp = length sp.args

-- The first byte `c` of a part, with the bytes behind it.
begin_word : Splitter → ℕ → Bytes → Next
begin_word sp c rest =
    if c == b':'
    then (if nextarg sp == 0
        then goes (record sp { word = in_prefix (c ∷ []) })
        else breaks (sp.args ++ rest ∷ []))
    else if leb max_args (nextarg sp + 1)
    then breaks (sp.args ++ (c ∷ rest) ∷ [])
    else goes (record sp { word = in_arg ((if nextarg sp == 0 then capital c else c) ∷ []) })

-- One byte, in the word given, which is `sp.word`. The command, argument 0, gets capitals.
split_step : Word → Splitter → ℕ → Bytes → Next
unfolding begin_word
split_step cutting sp c rest = if c == b' ' then goes sp else begin_word sp c rest
split_step (in_prefix s) sp c rest =
    if c == b' '
    then goes (record sp { prefix = some s; word = cutting })
    else goes (record sp { word = in_prefix (s ++ c ∷ []) })
split_step (in_arg s) sp c rest =
    if c == b' '
    then goes (record sp { args = sp.args ++ s ∷ []; word = cutting })
    else goes (record sp { word = in_arg (s ++ (if nextarg sp == 0 then capital c else c) ∷ []) })

-- The array at the end of the line. Only where there is no argument does `arg[0]` keep a prefix.
split_end : Word → Splitter → List Bytes
split_end (in_arg s) sp = sp.args ++ s ∷ []
split_end (in_prefix s) sp = s ∷ []
split_end cutting sp = elim sp.args [
  | [] ↦ elim sp.prefix [ none ↦ [] | some s ↦ s ∷ [] ]
  | a ∷ as' ↦ a ∷ as'
]

pub split_loop : Splitter → Bytes → List Bytes
unfolding split_step split_end
split_loop sp [] = split_end sp.word sp
split_loop sp (c ∷ rest) = elim (split_step sp.word sp c rest) [
  | goes sp' ↦ split_loop sp' rest
  | breaks args ↦ args
]

abbrev pub no_args : Splitter
no_args = record { args = []; prefix = none; word = cutting }

-- `arg[0]`, `arg[1]` and so on, up to the null pointer.
unfoldable pub split : Bytes → List Bytes
unfolding split_loop
split line = split_loop no_args line
