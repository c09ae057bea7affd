-- ===== src/Text/Replace.antt =====
-- strfunctions.c: `strrep`, needle and replace without recursion.
-- `none` is undefined behaviour (both `input` and `*buffer` null), or fuel that ran out: each round
-- passes a match, so one more round than the text has bytes is enough.
pub mod Pieces
pub mod Single
use mathlib.Core.Option
use minichatclient.Base.{
  ℕ, zero, suc, ◌+◌, ◌-◌, ◌*◌, Option, none, some, List, [], ◌∷◌, ◌++◌, Bytes, length, take, drop,
  if◌then◌else◌, ◌==◌, ◌>>=◌,
}
use minichatclient.Text.Search.{strstr}

-- `i2 = strstr(i2, needle); if (i2) { i2 += len_search; n++; }`
unfoldable pub count_loop : ℕ → Bytes → Bytes → Option ℕ
count_loop zero i2 needle = none
count_loop (suc fuel) i2 needle = elim (strstr i2 needle) [
  | none ↦ some 0
  | some k ↦ Option.map suc (count_loop fuel (drop (length needle) (drop k i2)) needle)
]

-- The second loop. `i1` and `i2` are equal where a round begins; `out` is what stands before `o1`.
unfoldable pub copy_loop : ℕ → Bytes → Bytes → Bytes → Bytes → Option Bytes
copy_loop zero i1 out needle replace = none
copy_loop (suc fuel) i1 out needle replace = elim (strstr i1 needle) [
  | none ↦ some (out ++ i1)
  | some k ↦
      copy_loop fuel (drop (length needle) (drop k i1)) (out ++ (take k i1 ++ replace)) needle
        replace
]

-- What `malloc` is asked for, without the terminating zero.
abbrev pub len_target : Bytes → ℕ → Bytes → Bytes → ℕ
len_target input n needle replace = length input - n * length needle + n * length replace

-- The text from the input on: the count, and what the new `*buffer` holds.
unfoldable pub strrep_text : Bytes → Bytes → Bytes → Option (ℕ × Bytes)
unfolding count_loop copy_loop
strrep_text input [] replace = some (0, input)
strrep_text input (x ∷ needle) replace = do
  n ← count_loop (length input + 1) input (x ∷ needle)
  if n == 0
      then some (0, input)
      else do out ← copy_loop (length input + 1) input [] (x ∷ needle) replace; some (n, out)

-- `strrep(input, &buffer, search, replace)`: the text is that of `input`, or of the buffer where
-- `input` is null.
unfoldable pub strrep : Option Bytes → Option Bytes → Bytes → Bytes → Option (ℕ × Bytes)
strrep (some input) buffer needle replace = strrep_text input needle replace
strrep none (some input) needle replace = strrep_text input needle replace
strrep none none needle replace = none
