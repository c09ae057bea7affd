-- ===== src/Cookies/Tokens.antt =====
-- cookies.c: the two hidden values of the form that posts a message.
use minichatclient.Base.{Option, none, some, [], Bytes}

-- `creation_time` and `form_token`
pub record Tokens : Type 0 where
  pub creation_time : Option Bytes
  pub form_token : Option Bytes

unfoldable pub set_creation_time : Bytes → Tokens → Tokens
set_creation_time string t = record t { creation_time = some string }

unfoldable pub set_form_token : Bytes → Tokens → Tokens
set_form_token string t = record t { form_token = some string }

-- `COPY(x, "")` where `x` is null.
abbrev pub or_empty : Option Bytes → Bytes
or_empty none = []
or_empty (some s) = s

unfoldable pub get_creation_time : Tokens → Bytes × Tokens
get_creation_time t =
    (or_empty t.creation_time, record t { creation_time = some (or_empty t.creation_time) })

unfoldable pub get_form_token : Tokens → Bytes × Tokens
get_form_token t = (or_empty t.form_token, record t { form_token = some (or_empty t.form_token) })

-- `FREE(creation_time); FREE(form_token);`
abbrev pub free_tokens : Tokens → Tokens
free_tokens t = record { creation_time = none; form_token = none }
