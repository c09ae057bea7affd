-- ===== src/Irc/Message/Laws.antt =====
-- A line that is sent fits its block, and is one line.
use minichatclient.Base.{
  ℕ, ◌+◌, ◌≤◌, ◌≡◌, ◌≢◌, ap, List, [], ◌∷◌, ◌++◌, Option, none, some, arith, Bytes, length,
  length-append, ◌==◌, if◌then◌else◌, All, All-append, append_assoc, ltb, sym, ◌∙◌,
}
use minichatclient.Irc.Message.{
  irc_len, arg_concat, prefix_part, colon, later_args, first_arg, irc_sendtoclient, args_size,
  allocated,
}

arg_concat-le : (s : Bytes) → length (arg_concat s) ≤ length s
unfolding arg_concat
arg_concat-le [] = omega arith
arg_concat-le (c ∷ s) = ground (arith, arg_concat-le s)

length-colon : (lastarg i : ℕ) → length (colon lastarg i) ≡ (if lastarg == i then 1 else 0)
length-colon lastarg i = ground arith

later_args-fits :
    (lastarg i : ℕ) (args : List (Option Bytes))
    → length (later_args lastarg i args) ≤ args_size args + (if ltb lastarg i then 0 else 1)
unfolding later_args args_size irc_len
later_args-fits lastarg i [] = omega arith
later_args-fits lastarg i (none ∷ args) = ground (arith, later_args-fits lastarg (i + 1) args)
later_args-fits lastarg i (some arg ∷ args) = ground (
  arith,
  later_args-fits lastarg (i + 1) args,
  arg_concat-le arg,
  length-colon lastarg i,
  length-append (colon lastarg i) (arg_concat arg ++ later_args lastarg (i + 1) args),
  length-append (arg_concat arg) (later_args lastarg (i + 1) args),
)

prefix_part-fits :
    (prefix ident host : Option Bytes)
    → length (prefix_part prefix ident host)
      ≤ 2 + irc_len prefix + 1 + irc_len ident + 1 + irc_len host
unfolding prefix_part irc_len
prefix_part-fits none ident host = omega arith
prefix_part-fits (some p) none host = omega (arith, length-append p (b' ' ∷ []))
prefix_part-fits (some p) (some i) none = omega (arith, length-append p (b' ' ∷ []))
prefix_part-fits (some p) (some i) (some h) = omega (
  arith,
  length-append p (b'!' ∷ (i ++ b'@' ∷ (h ++ b' ' ∷ []))),
  length-append i (b'@' ∷ (h ++ b' ' ∷ [])),
  length-append h (b' ' ∷ []),
)

first_arg-fits : (lastarg : ℕ) (arg : Option Bytes) → length (first_arg lastarg arg) ≤ irc_len arg
unfolding first_arg irc_len
first_arg-fits lastarg none = omega arith
first_arg-fits lastarg (some arg) = ground (
  arith,
  arg_concat-le arg,
  length-colon lastarg 1,
  length-append (colon lastarg 1) (arg_concat arg),
)

-- Whatever the prefix and the arguments are, the line and its terminating zero fit the block that
-- is allocated for it.
pub irc_sendtoclient-fits :
    (prefix ident host : Option Bytes) (lastarg : ℕ) (arg1 : Option Bytes)
    (args : List (Option Bytes))
    → length (irc_sendtoclient prefix ident host lastarg arg1 args) + 1
      ≤ allocated prefix ident host arg1 args
unfolding irc_sendtoclient allocated
irc_sendtoclient-fits prefix ident host lastarg arg1 args =
    let others = later_args lastarg 2 args in
    ground (
      arith,
      prefix_part-fits prefix ident host,
      first_arg-fits lastarg arg1,
      later_args-fits lastarg 2 args,
      length-append (prefix_part prefix ident host)
          (first_arg lastarg arg1 ++ (others ++ b'\r' ∷ b'\n' ∷ [])),
      length-append (first_arg lastarg arg1) (others ++ b'\r' ∷ b'\n' ∷ []),
      length-append others (b'\r' ∷ b'\n' ∷ []),
    )

-- No line break.
abbrev pub IsUnbroken : ℕ → Type 0
IsUnbroken c = (c ≢ b'\r') × (c ≢ b'\n')

abbrev pub AllUnbroken : Option Bytes → Type 0
AllUnbroken none = Unit
AllUnbroken (some s) = All IsUnbroken s

arg_concat-IsUnbroken : (s : Bytes) → All IsUnbroken (arg_concat s)
unfolding arg_concat
arg_concat-IsUnbroken [] = tt
arg_concat-IsUnbroken (c ∷ s) = ground (arith, arg_concat-IsUnbroken s)

IsUnbroken-append : (a b : Bytes) → All IsUnbroken a → All IsUnbroken b → All IsUnbroken (a ++ b)
IsUnbroken-append a b h k = All-append IsUnbroken a b h k

IsUnbroken-byte : (c : ℕ) (s : Bytes) → IsUnbroken c → All IsUnbroken s → All IsUnbroken (c ∷ s)
IsUnbroken-byte c s h k = (h, k)

colon-IsUnbroken : (lastarg i : ℕ) → All IsUnbroken (colon lastarg i)
colon-IsUnbroken lastarg i = ground arith

later_args-IsUnbroken :
    (lastarg i : ℕ) (args : List (Option Bytes)) → All IsUnbroken (later_args lastarg i args)
unfolding later_args
later_args-IsUnbroken lastarg i [] = tt
later_args-IsUnbroken lastarg i (none ∷ args) = later_args-IsUnbroken lastarg (i + 1) args
later_args-IsUnbroken lastarg i (some arg ∷ args) = IsUnbroken-byte b' ' _ (omega arith) (
    IsUnbroken-append (colon lastarg i) _ (colon-IsUnbroken lastarg i) (
      IsUnbroken-append (arg_concat arg) _ (arg_concat-IsUnbroken arg)
        (later_args-IsUnbroken lastarg (i + 1) args)))

first_arg-IsUnbroken : (lastarg : ℕ) (arg : Option Bytes) → All IsUnbroken (first_arg lastarg arg)
unfolding first_arg
first_arg-IsUnbroken lastarg none = tt
first_arg-IsUnbroken lastarg (some arg) =
    IsUnbroken-append (colon lastarg 1) (arg_concat arg) (colon-IsUnbroken lastarg 1)
      (arg_concat-IsUnbroken arg)

prefix_part-IsUnbroken :
    (prefix ident host : Option Bytes)
    → AllUnbroken prefix
    → AllUnbroken ident
    → AllUnbroken host
    → All IsUnbroken (prefix_part prefix ident host)
unfolding prefix_part
prefix_part-IsUnbroken none ident host p i h = tt
prefix_part-IsUnbroken (some s) none host p i h =
    IsUnbroken-byte b':' _ (omega arith) (IsUnbroken-append s (b' ' ∷ []) p (omega arith))
prefix_part-IsUnbroken (some s) (some t) none p i h =
    IsUnbroken-byte b':' _ (omega arith) (IsUnbroken-append s (b' ' ∷ []) p (omega arith))
prefix_part-IsUnbroken (some s) (some t) (some u) p i h = IsUnbroken-byte b':' _ (omega arith) (
    IsUnbroken-append s (b'!' ∷ (t ++ b'@' ∷ (u ++ b' ' ∷ []))) p (
      IsUnbroken-byte b'!' _ (omega arith) (
        IsUnbroken-append t (b'@' ∷ (u ++ b' ' ∷ [])) i (
          IsUnbroken-byte b'@' _ (omega arith) (IsUnbroken-append u (b' ' ∷ []) h (omega arith))))))

-- If the prefix, the ident and the host have no line break, then what is sent is one line: a text
-- without one, and CR LF. The arguments may hold anything, as they are cut at a line break.
pub irc_sendtoclient-one_line :
    (prefix ident host : Option Bytes) (lastarg : ℕ) (arg1 : Option Bytes)
    (args : List (Option Bytes))
    → AllUnbroken prefix
    → AllUnbroken ident
    → AllUnbroken host
    → (line : Bytes) × (irc_sendtoclient prefix ident host lastarg arg1 args
        ≡ line ++ b'\r' ∷ b'\n' ∷ [])
      × All IsUnbroken line
unfolding irc_sendtoclient
irc_sendtoclient-one_line prefix ident host lastarg arg1 args p i h =
    let start = prefix_part prefix ident host in
    let first = first_arg lastarg arg1 in
    let others = later_args lastarg 2 args in
    (
      start ++ (first ++ others),
      sym (
          append_assoc start (first ++ others) (b'\r' ∷ b'\n' ∷ [])
          ∙ ap (λ (t : Bytes). start ++ t) (append_assoc first others (b'\r' ∷ b'\n' ∷ []))),
      IsUnbroken-append start (first ++ others) (prefix_part-IsUnbroken prefix ident host p i h) (
          IsUnbroken-append first others (first_arg-IsUnbroken lastarg arg1)
            (later_args-IsUnbroken lastarg 2 args)),
    )
