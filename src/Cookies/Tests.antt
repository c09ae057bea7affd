-- ===== src/Cookies/Tests.antt =====
-- The theorems on cookies.c at concrete inputs, and runs of the code.
use minichatclient.Base.{
  ◌+◌, ◌≡◌, refl, List, [], ◌∷◌, ◌++◌, some, inl, arith, Bytes, length, codes, replicate, str_eq,
  ◌&&◌, if◌then◌else◌, write, c_string,
}
use minichatclient.Cookies.{
  Cookie, cookie, unused, no_cookies, live, storecookie, getcookie, generate_cookies_string,
}
use minichatclient.Cookies.Laws.{IsPacked, has_slot, getcookie-storecookie}
use minichatclient.Cookies.Line.{jar, generate_cookies_string-jar}
use minichatclient.Cookies.Header.{
  started, max_buf_name, max_buf_value, step_in, parse_loop, parsehttpheadersforgettingcookies,
}
use minichatclient.Cookies.Header.Safety.{parsehttpheaders-IsPacked}
use minichatclient.Cookies.Header.Stores.{set_cookie, parse_loop-set_cookie}

abbrev sid : List Cookie
sid = cookie (codes "sid") (codes "1") ∷ unused ∷ []

sid-IsPacked : IsPacked sid
sid-IsPacked = inl (tt, tt, ground arith)

store_two :
    storecookie (codes "k") (codes "2") sid
    ≡ some (jar ((codes "sid", codes "1") ∷ (codes "k", codes "2") ∷ []) 0)
unfolding storecookie str_eq
store_two = refl

getcookie-storecookie_example :
    getcookie (jar ((codes "sid", codes "1") ∷ (codes "k", codes "2") ∷ []) 0) (codes "k") ≡ (
      if str_eq (codes "k") (codes "k") && has_slot (codes "k") sid
      then some (live (codes "2"))
      else getcookie sid (codes "k"))
getcookie-storecookie_example =
    getcookie-storecookie (codes "k") (codes "2") (codes "k") sid sid-IsPacked store_two

generate_cookies_string-jar_example :
    generate_cookies_string (jar ((codes "a", codes "1") ∷ (codes "b", codes "2") ∷ []) 8)
    ≡ some (length (codes "a=1; b=2") + 1, codes "a=1; b=2")
generate_cookies_string-jar_example =
    generate_cookies_string-jar ((codes "a", codes "1") ∷ (codes "b", codes "2") ∷ []) 8

abbrev two : List Cookie
two = jar ((codes "a", codes "1") ∷ (codes "b", codes "2") ∷ []) 8

abbrev name_buffer : Bytes
name_buffer = replicate 51 7

abbrev value_buffer : Bytes
value_buffer = replicate 201 7

abbrev reply : Bytes
reply = codes "HTTP/1.1 200 OK\r\nSet-Cookie: sid=42; path=/\r\nSet-Cookie: k=v\r\n\r\n<a>"

reply_parsed :
    parsehttpheadersforgettingcookies name_buffer value_buffer no_cookies reply 300
    ≡ some (jar ((codes "sid", codes "42") ∷ (codes "k", codes "v") ∷ []) 8)
unfolding parsehttpheadersforgettingcookies parse_loop step_in storecookie str_eq write c_string
reply_parsed = refl

no_cookies-IsPacked : IsPacked no_cookies
no_cookies-IsPacked = ground arith

parsehttpheaders-IsPacked_example :
    (after : List Cookie) × (parsehttpheadersforgettingcookies name_buffer value_buffer no_cookies
        reply 300
      ≡ some after)
    × IsPacked after
    × (length after ≡ length no_cookies)
parsehttpheaders-IsPacked_example =
    parsehttpheaders-IsPacked name_buffer value_buffer no_cookies reply 300 refl refl
      no_cookies-IsPacked

stored_first :
    storecookie (codes "sid") (codes "42") no_cookies
    ≡ some (jar ((codes "sid", codes "42") ∷ []) 9)
unfolding storecookie
stored_first = refl

parse_loop-set_cookie_example :
    (bufname : Bytes) × (bufvalue : Bytes) × (length bufname ≡ max_buf_name + 1)
    × (length bufvalue ≡ max_buf_value + 1)
    × (parse_loop (started name_buffer value_buffer no_cookies) (
          codes "HTTP/1.1 200 OK\r" ++ b'\n' ∷ set_cookie (codes "sid") (codes "42") (codes "\r\n"))
        ≡ parse_loop
            (started bufname bufvalue (jar ((codes "sid", codes "42") ∷ []) 9))
            (codes "\r\n"))
parse_loop-set_cookie_example =
    parse_loop-set_cookie name_buffer value_buffer no_cookies
      (jar ((codes "sid", codes "42") ∷ []) 9) (codes "HTTP/1.1 200 OK\r") b's' (codes "id")
      (codes "42") (codes "\r\n") refl refl (omega arith) (omega arith) (omega arith) (omega arith)
      (omega arith) (omega arith) stored_first
