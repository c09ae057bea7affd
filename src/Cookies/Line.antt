-- ===== src/Cookies/Line.antt =====
-- The `Cookie:` line that `generate_cookies_string` makes, and what `freecookies` leaves.
use minichatclient.Base.{
  ℕ, suc, zero, ◌+◌, ◌<◌, ◌≤◌, ◌≡◌, ◌≢◌, refl, ◌∙◌, false, List, [], ◌∷◌, ◌++◌, none, some, arith,
  Bytes, length, length-append, take-all, replicate, ◌==◌, str_eq_iff, codes, ◌>>=◌, append_assoc,
  append-nil,
}
use minichatclient.Cookies.{
  dangling, Cookie, unused, cookie, storecookie, cookies_length, cookies_concat,
  generate_cookies_string, freecookies, free_slots, free_slot, strncat,
}

-- The array that holds these cookies, with `k` unused slots behind them.
abbrev pub jar : List (Bytes × Bytes) → ℕ → List Cookie
jar [] k = replicate k unused
jar ((n, v) ∷ es) k = cookie n v ∷ jar es k

abbrev pub pair : Bytes → Bytes → Bytes
pair n v = n ++ (b'=' ∷ v)

abbrev pub more_pairs : List (Bytes × Bytes) → Bytes
more_pairs [] = []
more_pairs ((n, v) ∷ es) = b';' ∷ b' ' ∷ (pair n v ++ more_pairs es)

-- "a=1; b=2; c=3"
abbrev pub cookie_line : List (Bytes × Bytes) → Bytes
cookie_line [] = []
cookie_line ((n, v) ∷ es) = pair n v ++ more_pairs es

length-pair : (n v : Bytes) → length (pair n v) ≡ length n + 1 + length v
length-pair n v = omega (arith, length-append n (b'=' ∷ v))

length-line : (n v rest : Bytes) → length (pair n v ++ rest) ≡ length n + 1 + length v + length rest
length-line n v rest = omega (arith, length-append (pair n v) rest, length-pair n v)

cookies_length-more :
    (i : ℕ) (es : List (Bytes × Bytes)) (k : ℕ)
    → 0 < i
    → cookies_length i (jar es k) ≡ some (length (more_pairs es))
unfolding cookies_length
cookies_length-more i [] zero h = refl
cookies_length-more i [] (suc k) h = ground (arith, cookies_length-more (i + 1) [] k)
cookies_length-more i ((n, v) ∷ es) k h =
    ground (arith, cookies_length-more (i + 1) es k, length-line n v (more_pairs es))

strncat-fits : (buf s : Bytes) (buflen : ℕ) → length s ≤ buflen → strncat buf s buflen ≡ buf ++ s
strncat-fits buf s buflen h = rw (take-all buflen s h)

concat_pair :
    (buflen : ℕ) (buf n v rest : Bytes)
    → length (pair n v ++ rest) ≤ buflen
    → strncat (strncat (strncat buf n buflen) (codes "=") buflen) v buflen ≡ buf ++ pair n v
concat_pair buflen buf n v rest h =
    let e = length-line n v rest in
    rw
      (
        take-all buflen n (omega arith),
        take-all buflen (codes "=") (omega arith),
        take-all buflen v (omega arith),
      )
      (simp append_assoc)

cookies_concat-more :
    (buflen i : ℕ) (buf : Bytes) (es : List (Bytes × Bytes)) (k : ℕ)
    → 0 < i
    → length (more_pairs es) ≤ buflen
    → cookies_concat buflen i buf (jar es k) ≡ some (buf ++ more_pairs es)
unfolding cookies_concat
cookies_concat-more buflen i buf [] zero h l = rw append-nil
cookies_concat-more buflen i buf [] (suc k) h l =
    cookies_concat-more buflen (i + 1) buf [] k (omega arith) l
cookies_concat-more buflen i buf ((n, v) ∷ es) k h l =
    let e = length-line n v (more_pairs es) in
    let at_front : (i == 0) ≡ false = ground arith in
    rw
      (
        at_front,
        take-all buflen (codes "; ") (omega arith),
        concat_pair buflen (buf ++ codes "; ") n v (more_pairs es) (omega arith),
      )
      (cookies_concat-more buflen (i + 1) ((buf ++ codes "; ") ++ pair n v) es k (omega arith)
          (omega arith)
        ∙ simp append_assoc)

length_first :
    (n v : Bytes) (es : List (Bytes × Bytes)) (k : ℕ)
    → cookies_length 0 (jar ((n, v) ∷ es) k) ≡ some (length (cookie_line ((n, v) ∷ es)))
unfolding cookies_length
length_first n v es k =
    ground (arith, cookies_length-more 1 es k (omega arith), length-line n v (more_pairs es))

concat_first :
    (buflen : ℕ) (n v : Bytes) (es : List (Bytes × Bytes)) (k : ℕ)
    → length (cookie_line ((n, v) ∷ es)) ≤ buflen
    → cookies_concat buflen 0 [] (jar ((n, v) ∷ es) k) ≡ some (cookie_line ((n, v) ∷ es))
unfolding cookies_concat
concat_first buflen n v es k h =
    let e = length-line n v (more_pairs es) in
    rw (concat_pair buflen [] n v (more_pairs es) h)
      (cookies_concat-more buflen 1 (pair n v) es k (omega arith) (omega arith))

-- For an array in order the block has room for the line and its terminating zero exactly, and
-- `strncat` cuts nothing off: the line has every cookie, in the order of the slots, with "; "
-- between two of them.
pub generate_cookies_string-jar :
    (es : List (Bytes × Bytes)) (k : ℕ)
    → generate_cookies_string (jar es k) ≡ some (length (cookie_line es) + 1, cookie_line es)
unfolding generate_cookies_string
generate_cookies_string-jar [] zero = refl
generate_cookies_string-jar [] (suc k) = rw (
  cookies_length-more 1 [] k (omega arith),
  cookies_concat-more 1 1 [] [] k (omega arith) (omega arith),
)
generate_cookies_string-jar ((n, v) ∷ es) k = rw (
  length_first n v es k,
  concat_first (length (pair n v ++ more_pairs es) + 1) n v es k (omega arith),
)

free_slots-jar :
    (es : List (Bytes × Bytes)) (k : ℕ) → (rest : List Cookie) × (free_slots (jar es k) ≡ some rest)
unfolding free_slots free_slot
free_slots-jar [] zero = ([], refl)
free_slots-jar [] (suc k) =
    let (rest, e) = free_slots-jar [] k in (unused ∷ rest, ground (arith, e))
free_slots-jar ((n, v) ∷ es) k =
    let (rest, e) = free_slots-jar es k in
    (record { name = dangling; value = dangling } ∷ rest, ground (arith, e))

-- `freecookies` runs on an array in order, but leaves what slot 1 holds dangling: storing two
-- cookies of different names in the array again is then undefined behaviour.
pub freecookies-dangling :
    (a b : Bytes × Bytes) (es : List (Bytes × Bytes)) (k : ℕ) (name value other value' : Bytes)
    → name ≢ other
    → ((freecookies (jar (a ∷ b ∷ es) k) >>= storecookie name value) ≢ none)
      × ((freecookies (jar (a ∷ b ∷ es) k) >>= storecookie name value >>= storecookie other value')
          ≡ none)
unfolding freecookies storecookie
freecookies-dangling a b es k name value other value' ne =
    let (rest, e) = free_slots-jar es k in
    (λ p. ground (arith, e), ground (arith, e, str_eq_iff name other))
