-- ===== src/Main/Post.antt =====
-- main.c: what is posted. The characters that would disturb the form are replaced, one after the
-- other, before the text is put between the fields. `none` is never reached.
pub mod Form
use minichatclient.Base.{ℕ, Option, some, none, Bytes, List, [], ◌∷◌, codes, ◌>>=◌}
use minichatclient.Text.Replace.{strrep}
use minichatclient.Text.Strings.{mconcat}

-- The five calls of `strrep`, the later ones on the buffer.
unfoldable pub encoded : Bytes → Option Bytes
encoded outgoingmsg = do
  (a, percent) ← strrep (some outgoingmsg) none (codes "%") (codes "%25")
  (b, plus) ← strrep none (some percent) (codes "+") (codes "%2B")
  (c, ampersand) ← strrep none (some plus) (codes "&") (codes "%26")
  (d, equals) ← strrep none (some ampersand) (codes "=") (codes "%3D")
  (e, tmp) ← strrep none (some equals) (codes " ") (codes "+")
  some tmp

unfoldable pub postdata : Bytes → Bytes → Bytes → Option Bytes
unfolding encoded
postdata creation_time form_token outgoingmsg = do
  tmp ← encoded outgoingmsg
  some (
      mconcat (
        codes "mode=add&message="
        ∷ tmp
        ∷ codes
            "&helpbox=Tip%3A+Styles+can+be+applied+quickly+to+selected+text.&addbbcode20=100&addbbcode_custom=%23&creation_time="
        ∷ creation_time
        ∷ codes "&form_token="
        ∷ form_token
        ∷ []))
