-- ===== src/Main/Response.antt =====
-- main.c: `check_http_response`, which reads the code of the line that a response begins with.
use minichatclient.Base.{
  ℕ, zero, suc, ◌<◌, ◌≤◌, ◌^◌, ◌≡◌, ◌≢◌, refl, ◌∙◌, Bool, true, ◌||◌, ◌&&◌, List, [], ◌∷◌, ◌++◌,
  append-nil, append_assoc, Option, none, some, Bytes, length, c_string, ◌==◌, leb, ltb,
  if◌then◌else◌, codes, ◌>>=◌, arith, All, All-map, All-append, digits, digits-decimal,
  length-decimal, decimal, decimal-digits,
}

-- The integers, as the library spells them, over native numbers.
pub data ℤ : Type 0 where
  pos : ℕ → ℤ
  negsuc : ℕ → ℤ

-- `isspace` in the C locale
abbrev is_space : ℕ → Bool
is_space c = c == 32 || leb 9 c && leb c 13

unfoldable pub skip_spaces : Bytes → Bytes
skip_spaces [] = []
skip_spaces (c ∷ s) = let rest = skip_spaces s in if is_space c then rest else c ∷ s

abbrev negative : ℕ → ℤ
negative zero = pos zero
negative (suc n) = negsuc n

-- `atoi` of the C library; a number that an int does not hold is undefined behaviour.
abbrev signed : Bytes → ℤ
signed [] = pos 0
signed (c ∷ s) =
    if c == b'-'
    then negative (digits 0 s)
    else if c == b'+'
    then pos (digits 0 s)
    else pos (digits 0 (c ∷ s))

abbrev in_range : ℤ → Bool
in_range (pos n) = ltb n (2 ^ 31)
in_range (negsuc n) = ltb n (2 ^ 31)

unfoldable pub atoi : Bytes → Option ℤ
unfolding skip_spaces
atoi s = let n = signed (skip_spaces s) in if in_range n then some n else none

-- The loop: `line` is what has been read of the line, `p` the text behind its first space. At the
-- end of the line it gives both, and without an end of a line nothing.
unfoldable pub status_loop : Bytes → Option Bytes → Bytes → Option (Bytes × Option Bytes)
status_loop line p [] = none
status_loop line none (c ∷ s) =
    if c == b' '
    then status_loop (line ++ c ∷ []) (some []) s
    else if c == b'\r' || c == b'\n'
    then some (line, none)
    else status_loop (line ++ c ∷ []) none s
status_loop line (some p) (c ∷ s) =
    if c == b'\r' || c == b'\n'
    then some (line, some p)
    else status_loop (line ++ c ∷ []) (some (p ++ c ∷ [])) s

-- The `switch`: the result, and what is shown, with the number that `display_debug` gets.
unfoldable pub response_for : ℤ → ℤ × List (Bytes × ℕ)
response_for (pos n) =
    if n == 0
    then (negsuc 0, [])
    else if n == 200
    then (pos 200, [])
    else if n == 403
    then (pos 403, (codes " [Do not want]", 1) ∷ [])
    else if n == 404
    then (pos 404, (codes " [Page not found]", 1) ∷ [])
    else (pos n, (codes " [Error] ", 1) ∷ [])
response_for (negsuc n) = (negsuc n, (codes " [Error] ", 1) ∷ [])

-- Where the line has no space, `response` stays -1.
abbrev pub number_of : Option Bytes → Option ℤ
number_of none = some (negsuc 0)
number_of (some p) = atoi p

abbrev of_line : Option (Bytes × Option Bytes) → Option (ℤ × List (Bytes × ℕ))
of_line none = some (response_for (negsuc 0))
of_line (some (line, p)) = do
  response ← number_of p
  let (result, shown) = response_for response in some (result, (c_string line, 0) ∷ shown)

-- The bytes of the response are those that came first, at least one where there is an answer.
unfoldable pub check_http_response : Bytes → Option (ℤ × List (Bytes × ℕ))
unfolding status_loop atoi response_for
check_http_response [] = some (negsuc 0, (codes "No data ?", 0) ∷ [])
check_http_response (c ∷ buf) = of_line (status_loop [] none (c ∷ buf))

skip_spaces-number :
    (s t : Bytes) → All (λ c. b'0' ≤ c) s → 1 ≤ length s → skip_spaces (s ++ t) ≡ s ++ t
unfolding skip_spaces
skip_spaces-number [] t h k = absurd (omega arith)
skip_spaces-number (c ∷ s) t h k = ground (arith, h.0)

signed-number :
    (s t : Bytes) → All (λ c. b'0' ≤ c) s → 1 ≤ length s → signed (s ++ t) ≡ pos (digits 0 (s ++ t))
signed-number [] t h k = absurd (omega arith)
signed-number (c ∷ s) t h k = ground (arith, h.0)

digits-space : (n : ℕ) (t : Bytes) → digits n (b' ' ∷ t) ≡ n
unfolding digits
digits-space n t = refl

atoi-decimal : (n : ℕ) (t : Bytes) → n < 2 ^ 31 → atoi (decimal n ++ b' ' ∷ t) ≡ some (pos n)
unfolding atoi
atoi-decimal n t h =
    let value : digits 0 (decimal n ++ b' ' ∷ t) ≡ n =
      digits-decimal n (b' ' ∷ t) ∙ digits-space n t in
    let small : ltb n (2 ^ 31) ≡ true = ground arith in
    rw (
      skip_spaces-number (decimal n) (b' ' ∷ t) (decimal-digits n) (length-decimal n),
      signed-number (decimal n) (b' ' ∷ t) (decimal-digits n) (length-decimal n),
      value,
      small,
    )

-- No end of a line, and, in the version, no space.
abbrev pub IsInLine : ℕ → Type 0
IsInLine c = (c ≢ b'\r') × (c ≢ b'\n')

status_version :
    (line s t : Bytes)
    → All (λ c. (c ≢ b' ') × IsInLine c) s
    → status_loop line none (s ++ b' ' ∷ t) ≡ status_loop (line ++ (s ++ b' ' ∷ [])) (some []) t
unfolding status_loop
status_version line [] t h = refl
status_version line (c ∷ s) t h = ground (
  arith,
  status_version (line ++ c ∷ []) s t h.1,
  h.0,
  append_assoc line (c ∷ []) (s ++ b' ' ∷ []),
)

status_rest :
    (line p s t : Bytes)
    → All IsInLine s
    → status_loop line (some p) (s ++ b'\r' ∷ t) ≡ some (line ++ s, some (p ++ s))
unfolding status_loop
status_rest line p [] t h = rw (append-nil line, append-nil p) refl
status_rest line p (c ∷ s) t h = ground (
  arith,
  status_rest (line ++ c ∷ []) (p ++ c ∷ []) s t h.1,
  h.0,
  append_assoc line (c ∷ []) s,
  append_assoc p (c ∷ []) s,
)

-- The code, as the main loop gets it.
switched :
    (n : ℕ)
    → (shown : List (Bytes × ℕ)) × (response_for (pos n)
        ≡ ((if n == 0 then negsuc 0 else pos n), shown))
unfolding response_for
switched n = ((response_for (pos n)).1, ground arith)

not_nil : (s t : Bytes) → s ++ b' ' ∷ t ≢ []
not_nil [] t e = cc
not_nil (c ∷ s) t e = cc

checked : (buf : Bytes) → buf ≢ [] → check_http_response buf ≡ of_line (status_loop [] none buf)
unfolding check_http_response
checked [] h = absurd (h refl)
checked (c ∷ buf) h = refl

-- A response that begins with a line of a version, a space, a number below 2^31, a space and a
-- reason gives this number, or -1 for a zero, and shows the line first. No line end is in the version
-- or the reason, and no space in the version; what follows the line may be anything.
pub check_http_response-status :
    (version reason rest : Bytes) (n : ℕ)
    → All (λ c. (c ≢ b' ') × IsInLine c) version
    → All IsInLine reason
    → n < 2 ^ 31
    → (shown : List (Bytes × ℕ)) × (check_http_response
          (version ++ b' ' ∷ ((decimal n ++ b' ' ∷ reason) ++ b'\r' ∷ rest))
        ≡ some (
          (if n == 0 then negsuc 0 else pos n),
          (c_string ((version ++ b' ' ∷ []) ++ (decimal n ++ b' ' ∷ reason)), 0) ∷ shown,
        ))
check_http_response-status version reason rest n plain_version plain_reason small =
    let number =
      All-map (λ c. b'0' ≤ c) IsInLine (decimal n)
        (λ c h. ((λ e. omega (arith, e, h)), (λ e. omega (arith, e, h)))) (decimal-digits n) in
    let plain =
      All-append IsInLine (decimal n) (b' ' ∷ reason) number
        (((λ e. omega arith), (λ e. omega arith)), plain_reason) in
    let rest_line = (decimal n ++ b' ' ∷ reason) ++ b'\r' ∷ rest in
    let (shown, is) = switched n in
    let read : status_loop [] none (version ++ b' ' ∷ rest_line)
        ≡ some (
          (version ++ b' ' ∷ []) ++ (decimal n ++ b' ' ∷ reason),
          some (decimal n ++ b' ' ∷ reason),
        ) =
      status_version [] version rest_line plain_version
      ∙ status_rest (version ++ b' ' ∷ []) [] (decimal n ++ b' ' ∷ reason) rest plain in
    (
      shown,
      checked (version ++ b' ' ∷ rest_line) (not_nil version rest_line)
          ∙ rw (read, atoi-decimal n reason small, is),
    )
