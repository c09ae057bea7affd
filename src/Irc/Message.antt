-- ===== src/Irc/Message.antt =====
-- ircserver.c: `irc_len`, `irc_trim` and `irc_sendtoclient`, the line that a call sends.
pub mod Laws
use minichatclient.Base.{
  ℕ, suc, ◌+◌, Bool, true, false, ◌||◌, List, [], ◌∷◌, ◌++◌, Option, none, some, Bytes, length, map,
  ◌==◌, if◌then◌else◌, codes,
}

-- The bytes with the terminating zero; 0 for NULL.
unfoldable pub irc_len : Option Bytes → ℕ
irc_len none = 0
irc_len (some s) = length s + 1

abbrev pub dashed : ℕ → ℕ
dashed c = if c == b' ' then b'_' else c

-- Up to the first space the text stays; from there on each space becomes an underscore.
unfoldable pub irc_trim : Bytes → Bytes
irc_trim [] = []
irc_trim (c ∷ s) = let rest = irc_trim s in if c == b' ' then map dashed (c ∷ s) else c ∷ rest

-- `ARGCONCAT`: what is copied of an argument, up to its first line break.
unfoldable pub arg_concat : Bytes → Bytes
arg_concat [] = []
arg_concat (c ∷ s) = let rest = arg_concat s in if c == b'\r' || c == b'\n' then [] else c ∷ rest

-- The prefix with its colon and its space.
unfoldable pub prefix_part : Option Bytes → Option Bytes → Option Bytes → Bytes
prefix_part none ident host = []
prefix_part (some prefix) (some ident) (some host) =
    b':' ∷ (prefix ++ b'!' ∷ (ident ++ b'@' ∷ (host ++ b' ' ∷ [])))
prefix_part (some prefix) _ _ = b':' ∷ (prefix ++ b' ' ∷ [])

-- The colon before argument `i`, if it is the last one.
abbrev pub colon : ℕ → ℕ → Bytes
colon lastarg i = if lastarg == i then b':' ∷ [] else []

-- The arguments from number `i` on, each behind a space.
unfoldable pub later_args : ℕ → ℕ → List (Option Bytes) → Bytes
unfolding arg_concat
later_args lastarg i [] = []
later_args lastarg i (none ∷ args) = later_args lastarg (i + 1) args
later_args lastarg i (some arg ∷ args) =
    b' ' ∷ (colon lastarg i ++ (arg_concat arg ++ later_args lastarg (i + 1) args))

unfoldable pub first_arg : ℕ → Option Bytes → Bytes
unfolding arg_concat
first_arg lastarg none = []
first_arg lastarg (some arg) = colon lastarg 1 ++ arg_concat arg

-- The line that goes to `send`. `arg1` is the first argument, and `args` are the other four.
unfoldable pub irc_sendtoclient :
    Option Bytes → Option Bytes → Option Bytes → ℕ → Option Bytes → List (Option Bytes) → Bytes
unfolding prefix_part later_args first_arg
irc_sendtoclient prefix ident host lastarg arg1 args =
    prefix_part prefix ident host
    ++ (first_arg lastarg arg1 ++ (later_args lastarg 2 args ++ b'\r' ∷ b'\n' ∷ []))

-- The arguments' share of the block that is allocated: one byte more for each of the later four.
unfoldable pub args_size : List (Option Bytes) → ℕ
unfolding irc_len
args_size [] = 0
args_size (arg ∷ args) = 1 + irc_len arg + args_size args

unfoldable pub allocated :
    Option Bytes → Option Bytes → Option Bytes → Option Bytes → List (Option Bytes) → ℕ
unfolding args_size irc_len
allocated prefix ident host arg1 args =
    1
    + irc_len prefix
    + 1
    + irc_len ident
    + 1
    + irc_len host
    + 2
    + irc_len arg1
    + args_size args
    + 3
