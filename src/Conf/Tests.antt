-- ===== src/Conf/Tests.antt =====
-- The theorems on conf.c at concrete inputs, and runs of the code.
use minichatclient.Base.{
  ◌≡◌, refl, inl, inr, List, [], ◌∷◌, ◌++◌, some, none, arith, Bytes, codes, replicate, All,
}
use minichatclient.Conf.{read_conf_string}
use minichatclient.Conf.Lines.{Line, comment, empty, setting, file, IsOther, read_conf_string-value}
use minichatclient.Conf.Wraps.{read_conf_string-wraps, read_conf_string-overflow}

abbrev top : List Line
top =
    comment b'#' (codes "# caution")
    ∷ empty
    ∷ setting (codes "use_ssl") b' ' (codes "    0")
    ∷ setting (codes "ports") b'=' (codes "81")
    ∷ []

abbrev behind : Bytes
behind = codes "path /\n"

top-IsOther : All (IsOther (codes "port")) top
top-IsOther = ground arith

read_conf_string-value_example :
    read_conf_string
      (codes "port")
      (file top (codes "port" ++ b' ' ∷ (codes "  " ++ b'8' ∷ (codes "0" ++ b'\t' ∷ behind))))
      none
    ≡ some (some (codes "80"), behind)
read_conf_string-value_example =
    read_conf_string-value (codes "port") top b' ' (codes "  ") b'8' (codes "0") b'\t' behind
      (ground arith) top-IsOther (inl (inl refl)) (ground arith) (ground arith) (ground arith)
      (inr (inr refl)) (ground arith)

-- The first line sets the port, and the search that starts again does not see it.
read_conf_string-wraps_example :
    read_conf_string (codes "port") (codes "port 80" ++ b'\n' ∷ file top []) (some (file top []))
    ≡ read_conf_string (codes "port") (file top []) none
read_conf_string-wraps_example =
    read_conf_string-wraps (codes "port") top (codes "port 80") (file top []) (ground arith)
      (ground arith) top-IsOther (ground arith)

read_conf_string-overflow_example :
    read_conf_string
      (codes "port")
      (file top (codes "port" ++ b' ' ∷ ([] ++ b'8' ∷ (replicate 199 b'0' ++ b'\n' ∷ []))))
      none
    ≡ none
read_conf_string-overflow_example =
    read_conf_string-overflow (codes "port") top b' ' [] b'8' (replicate 199 b'0') (b'\n' ∷ [])
      (ground arith) top-IsOther (inl (inl refl)) tt (ground arith) (ground arith) (ground arith)
