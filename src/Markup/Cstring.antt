-- ===== src/Markup/Cstring.antt =====
-- CUtils/cstring.c, as far as parser.c uses it. A string holds no zero; the memory is there.
use minichatclient.Base.{
  ℕ, zero, suc, ◌-◌, Bool, false, ◌&&◌, not, List, [], ◌∷◌, ◌++◌, Option, none, some, Bytes, length,
  drop, ◌==◌, leb, if◌then◌else◌,
}
use minichatclient.Text.Search.{starts_with}

-- The element that is open, which a byte opens where there is none.
abbrev opened : Option Bytes → Bytes
opened none = []
opened (some elem) = elem

abbrev closed : Option Bytes → List Bytes
closed none = []
closed (some elem) = elem ∷ []

-- The loop of `cstring_split`, for a delimiter and a quote of one byte.
unfoldable pub split_loop : Bool → Option Bytes → Bytes → ℕ → ℕ → List Bytes
split_loop in_quote elem [] delim quote = closed elem
split_loop in_quote elem (c ∷ s) delim quote =
    if c == quote
    then split_loop (not in_quote) elem s delim quote
    else if not in_quote && c == delim
    then opened elem ∷ split_loop in_quote (some []) s delim quote
    else split_loop in_quote (some (opened elem ++ c ∷ [])) s delim quote

unfoldable pub cstring_splitc : Bytes → ℕ → ℕ → List Bytes
unfolding split_loop
cstring_splitc s delim quote = split_loop false none s delim quote

-- `cstring_replaces`: the first byte of each match brings the replacement, and `skip` bytes of the
-- match are passed over. `from` has two bytes or more.
unfoldable pub replace_loop : ℕ → Bytes → Bytes → Bytes → Bytes
replace_loop skip [] from to = []
replace_loop (suc skip) (c ∷ s) from to = replace_loop skip s from to
replace_loop zero (c ∷ s) from to =
    if starts_with from (c ∷ s)
    then to ++ replace_loop (length from - 1) s from to
    else c ∷ replace_loop zero s from to

unfoldable pub cstring_replaces : Bytes → Bytes → Bytes → Bytes
unfolding replace_loop
cstring_replaces s from to = replace_loop zero s from to

-- `cstring_ends_with(self, find, 0)`; for a string that is too short, the index is out of bounds.
unfoldable pub cstring_ends_with : Bytes → Bytes → Option Bool
cstring_ends_with s find =
    if leb (length find) (length s)
    then some (starts_with find (drop (length s - length find) s))
    else none
