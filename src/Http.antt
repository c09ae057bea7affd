-- ===== src/Http.antt =====
-- network.c: the requests, `http_get` and `http_post`, as the bytes that they send. What the socket
-- takes of them is not modelled: `network_send` gives them to `send` or to `SSL_write`.
pub mod Lines
mod Tests
use minichatclient.Base.{
  ℕ, Bool, true, false, List, [], ◌∷◌, ◌++◌, Option, none, some, Bytes, length, codes, decimal,
  if◌then◌else◌,
}

-- Nothing is sent for an empty string.
abbrev pub sendstr : Bytes → Bytes
sendstr buf = buf

abbrev pub sendline : Bytes → Bytes
sendline buf = buf ++ b'\r' ∷ b'\n' ∷ []

-- `if (value) { sendstr(name); sendline(value); }`
abbrev pub header : Bytes → Option Bytes → Bytes
header name none = []
header name (some value) = sendstr name ++ sendline value

-- `value && value[0] != '\0'`
abbrev pub not_empty : Option Bytes → Option Bytes
not_empty none = none
not_empty (some []) = none
not_empty (some (c ∷ s)) = some (c ∷ s)

-- The arguments of a request, but for the socket.
pub record Request : Type 0 where
  pub req : Bytes
  pub host : Option Bytes
  pub referer : Option Bytes
  pub cookies : Option Bytes
  pub useragent : Option Bytes
  pub mischeaders : Option Bytes

-- The lines that the two requests have in common, from the host to the referer.
abbrev pub common : Request → Bytes
common r =
    header (codes "Host: ") r.host
    ++ (header (codes "User-Agent: ") r.useragent
        ++ (sendline (codes "Connection: close") ++ header (codes "Referer: ") r.referer))

unfoldable pub http_get : Request → Bytes
http_get r =
    sendstr (codes "GET ")
    ++ (sendstr r.req
        ++ (sendline (codes " HTTP/1.1")
            ++ (common r
                ++ (header (codes "Cookie: ") (not_empty r.cookies)
                    ++ (header [] (not_empty r.mischeaders) ++ sendline [])))))

-- `snprintf(buf, 200, "Content-Length: %lu", strlen(datas))`
abbrev pub content_length : Bytes → Bytes
content_length datas = codes "Content-Length: " ++ decimal (length datas)

unfoldable pub http_post : Request → Bytes → Bytes
http_post r datas =
    sendstr (codes "POST ")
    ++ (sendstr r.req
        ++ (sendline (codes " HTTP/1.1")
            ++ (common r
                ++ (header (codes "Cookie: ") r.cookies
                    ++ (sendline (codes "Content-Type: application/x-www-form-urlencoded")
                        ++ (sendline (content_length datas)
                            ++ (header [] (not_empty r.mischeaders)
                                ++ (sendline [] ++ sendline datas))))))))
