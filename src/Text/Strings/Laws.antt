-- ===== src/Text/Strings/Laws.antt =====
-- What the string helpers return, and that they stay inside their blocks.
use minichatclient.Base.{
  ℕ, ◌+◌, ◌≤◌, ◌≡◌, ◌≢◌, refl, Bool, true, false, List, [], ◌∷◌, ◌++◌, arith, Bytes, length,
  length-append, All,
}
use minichatclient.Text.Strings.{mconcat_bytes, mconcat, strip_loop, html_strip_tags}

-- The block that `mconcat` allocates holds the joined strings and their terminating zero, with no
-- byte to spare.
pub mconcat-fits : (strings : List Bytes) → mconcat_bytes strings ≡ length (mconcat strings) + 1
unfolding mconcat_bytes mconcat
mconcat-fits [] = omega arith
mconcat-fits (s ∷ strings) = omega (arith, mconcat-fits strings, length-append s (mconcat strings))

abbrev pub IsBare : ℕ → Type 0
IsBare c = (c ≢ b'<') × (c ≢ b'>')

strip_loop-IsBare : (intag : Bool) (s : Bytes) → All IsBare (strip_loop intag s)
unfolding strip_loop
strip_loop-IsBare intag [] = tt
strip_loop-IsBare true (c ∷ s) = ground (arith, strip_loop-IsBare true s, strip_loop-IsBare false s)
strip_loop-IsBare false (c ∷ s) =
    ground (arith, strip_loop-IsBare true s, strip_loop-IsBare false s)

strip_loop-le : (intag : Bool) (s : Bytes) → length (strip_loop intag s) ≤ length s
unfolding strip_loop
strip_loop-le intag [] = omega arith
strip_loop-le true (c ∷ s) = ground (arith, strip_loop-le true s, strip_loop-le false s)
strip_loop-le false (c ∷ s) = ground (arith, strip_loop-le true s, strip_loop-le false s)

-- No angle bracket is left, and the write pointer never passes the read pointer.
pub html_strip_tags-IsBare :
    (s : Bytes) → All IsBare (html_strip_tags s) × (length (html_strip_tags s) ≤ length s)
unfolding html_strip_tags
html_strip_tags-IsBare s = (strip_loop-IsBare false s, strip_loop-le false s)

strip_inside :
    (tag rest : Bytes)
    → All (λ c. c ≢ b'>') tag
    → strip_loop true (tag ++ b'>' ∷ rest) ≡ strip_loop false rest
unfolding strip_loop
strip_inside [] rest h = refl
strip_inside (c ∷ tag) rest h = ground (arith, strip_inside tag rest h.1)

strip_loop-tag :
    (intag : Bool) (s tag rest : Bytes)
    → All (λ c. c ≢ b'>') tag
    → strip_loop intag (s ++ b'<' ∷ (tag ++ b'>' ∷ rest))
      ≡ strip_loop intag s ++ strip_loop false rest
unfolding strip_loop
strip_loop-tag true [] tag rest h = strip_inside tag rest h
strip_loop-tag false [] tag rest h = strip_inside tag rest h
strip_loop-tag true (c ∷ s) tag rest h =
    ground (arith, strip_loop-tag true s tag rest h, strip_loop-tag false s tag rest h)
strip_loop-tag false (c ∷ s) tag rest h =
    ground (arith, strip_loop-tag true s tag rest h, strip_loop-tag false s tag rest h)

-- A tag is taken out, and the texts before and behind it are stripped as if they stood alone.
pub html_strip_tags-tag :
    (s tag rest : Bytes)
    → All (λ c. c ≢ b'>') tag
    → html_strip_tags (s ++ b'<' ∷ (tag ++ b'>' ∷ rest)) ≡ html_strip_tags s ++ html_strip_tags rest
unfolding html_strip_tags
html_strip_tags-tag s tag rest h = strip_loop-tag false s tag rest h
