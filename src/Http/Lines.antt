-- ===== src/Http/Lines.antt =====
-- network.c: the lines that a server reads of a request.
use minichatclient.Base.{
  ℕ, ◌<◌, ◌≤◌, ◌≡◌, ◌≢◌, refl, ◌∙◌, Bool, true, false, not, ◌&&◌, List, [], ◌∷◌, ◌++◌, append_assoc,
  append-nil, Option, none, some, Bytes, length, arith, ◌==◌, if◌then◌else◌, ◌>>=◌, codes, All,
  All-append, All-map, decimal, decimal-digits,
}
use minichatclient.Http.{Request, http_get, http_post, sendline, header, not_empty, content_length}

-- A reader of lines, independent of the program: a line ends with "\r\n", the first empty one ends
-- the head, and what follows is the body. `line` is what has come of the line that is begun.
-- `none` is a head without an end.
unfoldable pub read_head : Bytes → Bytes → Option (List Bytes × Bytes)
read_head line [] = none
read_head line (c ∷ []) = none
read_head line (c ∷ d ∷ s) =
    let more = read_head (line ++ c ∷ []) (d ∷ s) in
    let next = read_head [] s in
    if c == b'\r' && d == b'\n'
    then (if length line == 0
        then some ([], s)
        else (do (lines, body) ← next; some (line ∷ lines, body)))
    else more

abbrev pub IsLine : Bytes → Type 0
IsLine s = (s ≢ []) × All (λ c. c ≢ b'\r') s

-- Lines as they are sent.
abbrev pub sent : List Bytes → Bytes
sent [] = []
sent (line ∷ lines) = sendline line ++ sent lines

sent-append : (a b : List Bytes) → sent (a ++ b) ≡ sent a ++ sent b
sent-append [] b = refl
sent-append (line ∷ a) b = rw (sent-append a b) (simp append_assoc)

read_skip :
    (before : Bytes) (c : ℕ) (s : Bytes)
    → c ≢ b'\r'
    → s ≢ []
    → read_head before (c ∷ s) ≡ read_head (before ++ c ∷ []) s
unfolding read_head
read_skip before c [] h ne = absurd (ne refl)
read_skip before c (d ∷ s) h ne = ground arith

not_nil : (line : Bytes) (s : Bytes) → line ++ b'\r' ∷ s ≢ []
not_nil [] s e = cc
not_nil (c ∷ line) s e = cc

-- What is read from the end of a line on.
read_next : Bytes → Option (List Bytes × Bytes) → Option (List Bytes × Bytes)
read_next line next = do (lines, body) ← next; some (line ∷ lines, body)

-- A line, with a part of it read already.
read_line :
    (before line s : Bytes)
    → All (λ c. c ≢ b'\r') line
    → (length (before ++ line) == 0) ≡ false
    → read_head before (line ++ b'\r' ∷ b'\n' ∷ s) ≡ read_next (before ++ line) (read_head [] s)
unfolding read_head read_next
read_line before [] s h ne = rw (append-nil before) (let e = rw (append-nil before) at ne in rw e)
read_line before (c ∷ line) s h ne =
    let e : (before ++ c ∷ []) ++ line ≡ before ++ c ∷ line = append_assoc before (c ∷ []) line in
    read_skip before c (line ++ b'\r' ∷ b'\n' ∷ s) h.0 (not_nil line (b'\n' ∷ s))
    ∙ rw e at (read_line (before ++ c ∷ []) line s h.1 (rw e ne))

length-some : (s : Bytes) → s ≢ [] → 0 < length s
length-some [] h = absurd (h refl)
length-some (c ∷ s) h = omega arith

-- Lines that are sent, and then an empty one, are read as these lines, and what follows is the body.
read_head-sent :
    (lines : List Bytes) (body : Bytes)
    → All IsLine lines
    → read_head [] (sent lines ++ (b'\r' ∷ b'\n' ∷ body)) ≡ some (lines, body)
unfolding read_head read_next
read_head-sent [] body h = refl
read_head-sent (line ∷ lines) body h =
    let some_line : (length line == 0) ≡ false = ground (arith, length-some line h.0.0) in
    let joined : sent (line ∷ lines) ++ (b'\r' ∷ b'\n' ∷ body)
        ≡ line ++ b'\r' ∷ b'\n' ∷ (sent lines ++ b'\r' ∷ b'\n' ∷ body) =
      simp append_assoc in
    rw joined (
      read_line [] line (sent lines ++ b'\r' ∷ b'\n' ∷ body) h.0.1 some_line
      ∙ rw (read_head-sent lines body h.1, read_next))

abbrev pub optional : Bytes → Option Bytes → List Bytes
optional name none = []
optional name (some value) = (name ++ value) ∷ []

-- The lines of the two requests.
abbrev pub common_lines : Request → List Bytes
common_lines r =
    optional (codes "Host: ") r.host
    ++ (optional (codes "User-Agent: ") r.useragent
        ++ (codes "Connection: close" ∷ optional (codes "Referer: ") r.referer))

abbrev pub get_lines : Request → List Bytes
get_lines r =
    (codes "GET " ++ (r.req ++ codes " HTTP/1.1"))
    ∷ (common_lines r
        ++ (optional (codes "Cookie: ") (not_empty r.cookies)
            ++ optional [] (not_empty r.mischeaders)))

abbrev pub post_lines : Request → Bytes → List Bytes
post_lines r datas =
    (codes "POST " ++ (r.req ++ codes " HTTP/1.1"))
    ∷ (common_lines r
        ++ (optional (codes "Cookie: ") r.cookies
            ++ (codes "Content-Type: application/x-www-form-urlencoded"
                ∷ content_length datas
                ∷ optional [] (not_empty r.mischeaders))))

sent-optional : (name : Bytes) (o : Option Bytes) → sent (optional name o) ≡ header name o
sent-optional name none = refl
sent-optional name (some value) = simp (append_assoc, append-nil)

-- Nothing that is sent has a carriage return.
abbrev pub IsClean : Bytes → Type 0
IsClean s = All (λ c. c ≢ b'\r') s

abbrev pub AreClean : Option Bytes → Type 0
AreClean none = Unit
AreClean (some s) = IsClean s

pub record IsCleanRequest (r : Request) : Type 0 where
  pub req : IsClean r.req
  pub host : AreClean r.host
  pub referer : AreClean r.referer
  pub cookies : AreClean r.cookies
  pub useragent : AreClean r.useragent
  pub mischeaders : AreClean r.mischeaders

-- Whether a text has no carriage return.
abbrev clean : Bytes → Bool
clean [] = true
clean (c ∷ s) = not (c == b'\r') && clean s

optional-IsLine :
    (name : Bytes) (o : Option Bytes)
    → name ≢ []
    → IsClean name
    → AreClean o
    → All IsLine (optional name o)
optional-IsLine name none ne h k = tt
optional-IsLine [] (some value) ne h k = absurd (ne refl)
optional-IsLine (c ∷ name) (some value) ne h k =
    (((λ e. cc), All-append (λ c. c ≢ b'\r') (c ∷ name) value h k), tt)

not_empty-IsLine : (o : Option Bytes) → AreClean o → All IsLine (optional [] (not_empty o))
not_empty-IsLine none k = tt
not_empty-IsLine (some []) k = tt
not_empty-IsLine (some (c ∷ s)) k = (((λ e. cc), k), tt)

not_empty-AreClean : (o : Option Bytes) → AreClean o → AreClean (not_empty o)
not_empty-AreClean none k = tt
not_empty-AreClean (some []) k = tt
not_empty-AreClean (some (c ∷ s)) k = k

literal : (s : Bytes) → clean s ≡ true → IsClean s
literal [] h = tt
literal (c ∷ s) h = (ground arith, literal s (ground arith))

common_lines-IsLine : (r : Request) → IsCleanRequest r → All IsLine (common_lines r)
common_lines-IsLine r h =
    All-append IsLine (optional (codes "Host: ") r.host) _
      (optional-IsLine (codes "Host: ") r.host (λ e. cc) (literal (codes "Host: ") refl) h.host)
      (All-append IsLine (optional (codes "User-Agent: ") r.useragent) _
        (optional-IsLine (codes "User-Agent: ") r.useragent (λ e. cc)
          (literal (codes "User-Agent: ") refl) h.useragent)
        (
          ((λ e. cc), literal (codes "Connection: close") refl),
          optional-IsLine (codes "Referer: ") r.referer (λ e. cc) (literal (codes "Referer: ") refl)
              h.referer,
        ))

get_lines-IsLine : (r : Request) → IsCleanRequest r → All IsLine (get_lines r)
get_lines-IsLine r h = (
  (
    (λ e. cc),
    All-append (λ c. c ≢ b'\r') (codes "GET ") _ (literal (codes "GET ") refl)
        (All-append (λ c. c ≢ b'\r') r.req (codes " HTTP/1.1") h.req
          (literal (codes " HTTP/1.1") refl)),
  ),
  All-append IsLine (common_lines r) _ (common_lines-IsLine r h) (
      All-append IsLine (optional (codes "Cookie: ") (not_empty r.cookies)) _
        (optional-IsLine (codes "Cookie: ") (not_empty r.cookies) (λ e. cc)
          (literal (codes "Cookie: ") refl) (not_empty-AreClean r.cookies h.cookies))
        (not_empty-IsLine r.mischeaders h.mischeaders)),
)

-- A server that reads lines gets from `http_get` the request line, the headers that are there, and
-- an empty body, where no part of the request has a carriage return.
pub read_head-http_get :
    (r : Request) → IsCleanRequest r → read_head [] (http_get r) ≡ some (get_lines r, [])
unfolding http_get
read_head-http_get r h =
    let e : http_get r ≡ sent (get_lines r) ++ (b'\r' ∷ b'\n' ∷ []) =
      simp (sent-append, sent-optional, append_assoc) in
    rw e (read_head-sent (get_lines r) [] (get_lines-IsLine r h))

decimal-IsClean : (n : ℕ) → IsClean (decimal n)
decimal-IsClean n =
    All-map (λ c. b'0' ≤ c) (λ c. c ≢ b'\r') (decimal n) (λ c h. ground arith) (decimal-digits n)

content_length-IsClean : (datas : Bytes) → IsClean (content_length datas)
content_length-IsClean datas =
    All-append (λ c. c ≢ b'\r') (codes "Content-Length: ") (decimal (length datas))
      (literal (codes "Content-Length: ") refl) (decimal-IsClean (length datas))

post_lines-IsLine :
    (r : Request) (datas : Bytes)
    → IsCleanRequest r
    → IsClean (content_length datas)
    → All IsLine (post_lines r datas)
post_lines-IsLine r datas h n = (
  (
    (λ e. cc),
    All-append (λ c. c ≢ b'\r') (codes "POST ") _ (literal (codes "POST ") refl)
        (All-append (λ c. c ≢ b'\r') r.req (codes " HTTP/1.1") h.req
          (literal (codes " HTTP/1.1") refl)),
  ),
  All-append IsLine (common_lines r) _ (common_lines-IsLine r h) (
      All-append IsLine (optional (codes "Cookie: ") r.cookies) _
        (optional-IsLine (codes "Cookie: ") r.cookies (λ e. cc) (literal (codes "Cookie: ") refl)
          h.cookies)
        (
          ((λ e. cc), literal (codes "Content-Type: application/x-www-form-urlencoded") refl),
          (((λ e. cc), n), not_empty-IsLine r.mischeaders h.mischeaders),
        )),
)

-- A server that reads lines gets from `http_post` the request line, the headers that are there, the
-- length of the data among them, and as the body the data and two bytes that the length does not
-- count, where no part of the request has a carriage return. The data may have any bytes.
pub read_head-http_post :
    (r : Request) (datas : Bytes)
    → IsCleanRequest r
    → read_head [] (http_post r datas) ≡ some (post_lines r datas, datas ++ b'\r' ∷ b'\n' ∷ [])
unfolding http_post
read_head-http_post r datas h =
    let e : http_post r datas
        ≡ sent (post_lines r datas) ++ (b'\r' ∷ b'\n' ∷ (datas ++ b'\r' ∷ b'\n' ∷ [])) =
      simp (sent-append, sent-optional, append_assoc) in
    rw e (
      read_head-sent (post_lines r datas) (datas ++ b'\r' ∷ b'\n' ∷ [])
        (post_lines-IsLine r datas h (content_length-IsClean datas)))
