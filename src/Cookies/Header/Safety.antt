-- ===== src/Cookies/Header/Safety.antt =====
-- The header parser is safe on every input: no write is out of bounds, and the array of cookies
-- stays in order.
use minichatclient.Base.{
  ℕ, ◌+◌, ◌≤◌, ◌≡◌, refl, List, [], ◌∷◌, Option, none, some, Bytes, length, take, arith, write-set,
  c_string, set, ◌>>=◌,
}
use minichatclient.Cookies.{Cookie}
use minichatclient.Cookies.Laws.{IsPacked, storecookie-IsPacked}
use minichatclient.Cookies.Header.{
  State, waiting_for_new_line, in_header, header_found, in_cookie_name, in_cookie_value,
  end_of_http_headers, Parser, step_in, step, parse_loop, started, max_buf_name, max_buf_value,
  parsehttpheadersforgettingcookies,
}

-- What `j` indexes next is in bounds.
abbrev pub InBounds : State → ℕ → Type 0
InBounds waiting_for_new_line j = j ≡ 0
InBounds in_header j = j ≤ 10
InBounds header_found j = j ≡ 0
InBounds in_cookie_name j = j ≤ max_buf_name
InBounds in_cookie_value j = j ≤ max_buf_value
InBounds end_of_http_headers j = Unit

pub record IsValid (n : ℕ) (p : Parser) : Type 0 where
  pub name_size : length p.bufname ≡ max_buf_name + 1
  pub value_size : length p.bufvalue ≡ max_buf_value + 1
  pub bounds : InBounds p.state p.j
  pub packed : IsPacked p.cookies
  pub slots : length p.cookies ≡ n

-- The step has a result, and the result is valid.
abbrev pub Safely : ℕ → Option Parser → Type 0
Safely n none = ⊥
Safely n (some p) = IsValid n p

step_in-Safely :
    (n : ℕ) (m : State) (p : Parser) (c : ℕ)
    → p.state ≡ m
    → IsValid n p
    → InBounds m p.j
    → Safely n (step_in m p c)
unfolding step_in
step_in-Safely n waiting_for_new_line p c e v b = ground arith
step_in-Safely n in_header p c e v b = ground arith
step_in-Safely n header_found p c e v b = ground (arith, write-set p.bufname p.j c)
step_in-Safely n in_cookie_name p c e v b = ground (
  arith,
  write-set p.bufname p.j c,
  write-set p.bufname p.j 0,
  storecookie-IsPacked (c_string (set p.bufname p.j 0)) [] p.cookies,
)
step_in-Safely n in_cookie_value p c e v b = ground (
  arith,
  write-set p.bufvalue p.j c,
  write-set p.bufvalue p.j 0,
  storecookie-IsPacked (c_string p.bufname) (c_string (set p.bufvalue p.j 0)) p.cookies,
)
step_in-Safely n end_of_http_headers p c e v b = v

Safely-bind :
    (n : ℕ) (o : Option Parser) (f : Parser → Option Parser)
    → Safely n o
    → ((q : Parser) → IsValid n q → Safely n (f q))
    → Safely n (o >>= f)
Safely-bind n none f h k = absurd h
Safely-bind n (some q) f h k = k q h

parse_loop-Safely : (n : ℕ) (p : Parser) (s : Bytes) → IsValid n p → Safely n (parse_loop p s)
unfolding parse_loop
parse_loop-Safely n p [] v = v
parse_loop-Safely n p (c ∷ s) v =
    Safely-bind n (step p c) (λ q. parse_loop q s) (step_in-Safely n p.state p c refl v v.bounds)
      (λ q h. parse_loop-Safely n q s h)

-- On every input, whatever its bytes and wherever it is cut, and from an array in order, the parser
-- returns without a write out of bounds or a use of a freed pointer, and the array has as many
-- slots as before, in order.
pub parsehttpheaders-IsPacked :
    (bufname bufvalue : Bytes) (cookies : List Cookie) (s : Bytes) (bytes : ℕ)
    → length bufname ≡ max_buf_name + 1
    → length bufvalue ≡ max_buf_value + 1
    → IsPacked cookies
    → (after : List Cookie) × (parsehttpheadersforgettingcookies bufname bufvalue cookies s bytes
        ≡ some after)
      × IsPacked after
      × (length after ≡ length cookies)
unfolding parsehttpheadersforgettingcookies
parsehttpheaders-IsPacked bufname bufvalue cookies s bytes h k packed =
    finish (parse_loop (started bufname bufvalue cookies) (take bytes s)) (
      parse_loop-Safely (length cookies) (started bufname bufvalue cookies) (take bytes s)
        (record { name_size = h; value_size = k; bounds = refl; packed = packed; slots = refl }))
  where
    finish :
        (o : Option Parser)
        → Safely (length cookies) o
        → (after : List Cookie) × ((o >>= λ q. some q.cookies) ≡ some after)
          × IsPacked after
          × (length after ≡ length cookies)
    finish none v = absurd v
    finish (some q) v = (q.cookies, refl, v.packed, v.slots)
