-- ===== src/Text/Strings.antt =====
-- strfunctions.c: `mconcat` and `html_strip_tags`. Memory is taken to be there: `malloc` succeeds.
pub mod Laws
use minichatclient.Base.{
  ℕ, ◌+◌, Bool, true, false, ◌||◌, List, [], ◌∷◌, ◌++◌, Bytes, length, ◌==◌, if◌then◌else◌,
}

-- The block that `mconcat` asks for, starting from one for the end of the string.
unfoldable pub mconcat_bytes : List Bytes → ℕ
mconcat_bytes [] = 1
mconcat_bytes (s ∷ strings) = length s + mconcat_bytes strings

-- The strings, each copied by `stpcpy` where the one before ended.
unfoldable pub mconcat : List Bytes → Bytes
mconcat [] = []
mconcat (s ∷ strings) = s ++ mconcat strings

-- The loop over `*i`, with the flag `intag`; the result is what goes to `*o`.
unfoldable pub strip_loop : Bool → Bytes → Bytes
strip_loop intag [] = []
strip_loop intag (c ∷ i) =
    let o = strip_loop (if c == b'<' then true else if c == b'>' then false else intag) i in
    if c == b'<' then o else if c == b'>' then o else if intag then o else c ∷ o

unfoldable pub html_strip_tags : Bytes → Bytes
unfolding strip_loop
html_strip_tags txt = strip_loop false txt
