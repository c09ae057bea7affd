-- ===== src/Main/Post/Form.antt =====
-- The text of a POST request as a form's decoder reads it.
use minichatclient.Base.{
  ℕ, ◌+◌, ◌*◌, ◌-◌, ◌≡◌, ◌≢◌, refl, ap, ◌∙◌, ◌&&◌, [], ◌∷◌, ◌++◌, some, arith, Bytes, ◌==◌, leb,
  if◌then◌else◌, All, All-append, codes,
}
use minichatclient.Text.Replace.{strrep}
use minichatclient.Text.Replace.Single.{replaced, replaced-append, strrep_text-replaced}
use minichatclient.Main.Post.{encoded}

-- What becomes of a byte.
abbrev pub form_byte : ℕ → Bytes
form_byte c =
    if c == b'%'
    then codes "%25"
    else if c == b'+'
    then codes "%2B"
    else if c == b'&'
    then codes "%26"
    else if c == b'='
    then codes "%3D"
    else if c == b' '
    then codes "+"
    else c ∷ []

abbrev pub form : Bytes → Bytes
form [] = []
form (c ∷ s) = form_byte c ++ form s

-- The replacements in the order of the code.
abbrev chained : Bytes → Bytes
chained s = replaced b' ' (codes "+") (
    replaced b'=' (codes "%3D")
      (replaced b'&' (codes "%26") (replaced b'+' (codes "%2B") (replaced b'%' (codes "%25") s))))

encoded-chained : (s : Bytes) → encoded s ≡ some (chained s)
unfolding encoded strrep
encoded-chained s =
    let s1 = replaced b'%' (codes "%25") s in
    let s2 = replaced b'+' (codes "%2B") s1 in
    let s3 = replaced b'&' (codes "%26") s2 in
    let s4 = replaced b'=' (codes "%3D") s3 in
    ground (
      arith,
      (strrep_text-replaced s b'%' (codes "%25")).1,
      (strrep_text-replaced s1 b'+' (codes "%2B")).1,
      (strrep_text-replaced s2 b'&' (codes "%26")).1,
      (strrep_text-replaced s3 b'=' (codes "%3D")).1,
      (strrep_text-replaced s4 b' ' (codes "+")).1,
    )

chained-form_byte : (c : ℕ) → chained (c ∷ []) ≡ form_byte c
chained-form_byte c = ground arith

chained-append : (s t : Bytes) → chained (s ++ t) ≡ chained s ++ chained t
chained-append s t =
    let s1 = replaced b'%' (codes "%25") s in
    let t1 = replaced b'%' (codes "%25") t in
    let s2 = replaced b'+' (codes "%2B") s1 in
    let t2 = replaced b'+' (codes "%2B") t1 in
    let s3 = replaced b'&' (codes "%26") s2 in
    let t3 = replaced b'&' (codes "%26") t2 in
    let s4 = replaced b'=' (codes "%3D") s3 in
    let t4 = replaced b'=' (codes "%3D") t3 in
    rw (
      replaced-append b'%' (codes "%25") s t,
      replaced-append b'+' (codes "%2B") s1 t1,
      replaced-append b'&' (codes "%26") s2 t2,
      replaced-append b'=' (codes "%3D") s3 t3,
      replaced-append b' ' (codes "+") s4 t4,
    )

chained-form : (s : Bytes) → chained s ≡ form s
chained-form [] = refl
chained-form (c ∷ s) = chained-append (c ∷ []) s ∙ cc (chained-form_byte c, chained-form s)

-- A decoder of forms: `+` is a space, and `%` with two hexadecimal digits is the byte of that
-- value.
abbrev pub hex_value : ℕ → ℕ
hex_value c =
    if leb b'0' c && leb c b'9'
    then c - b'0'
    else if leb b'A' c && leb c b'F'
    then c - b'A' + 10
    else if leb b'a' c && leb c b'f'
    then c - b'a' + 10
    else 0

abbrev pub plain_value : ℕ → ℕ
plain_value c = if c == b'+' then b' ' else c

unfoldable pub form_decoded : Bytes → Bytes
form_decoded [] = []
form_decoded (c ∷ []) = plain_value c ∷ []
form_decoded (c ∷ h ∷ []) = plain_value c ∷ plain_value h ∷ []
form_decoded (c ∷ h ∷ l ∷ s) =
    let behind = form_decoded s in
    let next = form_decoded (h ∷ l ∷ s) in
    if c == b'%' then (hex_value h * 16 + hex_value l) ∷ behind else plain_value c ∷ next

decoded-form_byte : (c : ℕ) (s : Bytes) → form_decoded (form_byte c ++ s) ≡ c ∷ form_decoded s
unfolding form_decoded
decoded-form_byte c [] = ground arith
decoded-form_byte c (h ∷ []) = ground arith
decoded-form_byte c (h ∷ l ∷ s) = ground arith

decoded-form : (s : Bytes) → form_decoded (form s) ≡ s
decoded-form [] = unfold form_decoded in refl
decoded-form (c ∷ s) = decoded-form_byte c (form s) ∙ ap (◌∷◌ c) (decoded-form s)

-- None of the characters that part the fields, and no space.
abbrev pub IsInert : ℕ → Type 0
IsInert c = (c ≢ b'&') × (c ≢ b'=') × (c ≢ b' ')

form_byte-IsInert : (c : ℕ) → All IsInert (form_byte c)
form_byte-IsInert c = ground arith

form-IsInert : (s : Bytes) → All IsInert (form s)
form-IsInert [] = tt
form-IsInert (c ∷ s) =
    All-append IsInert (form_byte c) (form s) (form_byte-IsInert c) (form-IsInert s)

-- Whatever the message is, the five replacements return a text that ends no field of the form and
-- has no space, and from which the decoder of the form gets the message back.
pub encoded-decoded :
    (outgoingmsg : Bytes)
    → (tmp : Bytes) × (encoded outgoingmsg ≡ some tmp)
      × (form_decoded tmp ≡ outgoingmsg)
      × All IsInert tmp
encoded-decoded s =
    (form s, encoded-chained s ∙ ap some (chained-form s), decoded-form s, form-IsInert s)
