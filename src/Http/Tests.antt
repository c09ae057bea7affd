-- ===== src/Http/Tests.antt =====
-- network.c: one request of each kind.
use minichatclient.Base.{◌≡◌, [], ◌∷◌, ◌++◌, none, some, codes, arith}
use minichatclient.Http.{Request, http_post}
use minichatclient.Http.Lines.{IsCleanRequest, read_head, post_lines, read_head-http_post}

abbrev request : Request
request = record {
  req = codes "/p";
  host = some (codes "forum.org");
  referer = none;
  cookies = some (codes "a=b");
  useragent = some (codes "minichat");
  mischeaders = none;
}

request-IsCleanRequest : IsCleanRequest request
request-IsCleanRequest = record {
  req = ground arith;
  host = ground arith;
  referer = tt;
  cookies = ground arith;
  useragent = ground arith;
  mischeaders = tt;
}

read_head-http_post_example :
    read_head [] (http_post request (codes "m=hello"))
    ≡ some (post_lines request (codes "m=hello"), codes "m=hello" ++ b'\r' ∷ b'\n' ∷ [])
read_head-http_post_example = read_head-http_post request (codes "m=hello") request-IsCleanRequest
