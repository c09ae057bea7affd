-- ===== src/Text/Replace/Single.antt =====
-- `strrep` for a search string of one byte: each occurrence of the byte is replaced.
use minichatclient.Base.{
  ℕ, ◌≡◌, refl, ap, sym, ◌∙◌, List, [], ◌∷◌, ◌++◌, none, some, arith, Bytes, ◌==◌, if◌then◌else◌,
  All, append_assoc,
}
use minichatclient.Text.Search.{strstr, starts_with}
use minichatclient.Text.Replace.{strrep_text}
use minichatclient.Text.Replace.Pieces.{joined, strrep_text-Replaced}

-- The text with `r` for each `x`.
abbrev pub replaced : ℕ → Bytes → Bytes → Bytes
replaced x r [] = []
replaced x r (c ∷ s) = (if c == x then r else c ∷ []) ++ replaced x r s

pub replaced-append :
    (x : ℕ) (r s t : Bytes) → replaced x r (s ++ t) ≡ replaced x r s ++ replaced x r t
replaced-append x r [] t = refl
replaced-append x r (c ∷ s) t =
    ap (λ (u : Bytes). (if c == x then r else c ∷ []) ++ u) (replaced-append x r s t)
    ∙ sym (append_assoc (if c == x then r else c ∷ []) (replaced x r s) (replaced x r t))

replaced-free : (x : ℕ) (r s : Bytes) → strstr s (x ∷ []) ≡ none → replaced x r s ≡ s
unfolding strstr starts_with
replaced-free x r [] h = refl
replaced-free x r (c ∷ s) h = ground (arith, replaced-free x r s)

replaced-joined :
    (x : ℕ) (r p : Bytes) (qs : List Bytes)
    → strstr p (x ∷ []) ≡ none
    → All (λ q. strstr q (x ∷ []) ≡ none) qs
    → replaced x r (joined (x ∷ []) p qs) ≡ joined r p qs
replaced-joined x r p [] h k = replaced-free x r p h
replaced-joined x r p (q ∷ qs) h k =
    replaced-append x r p (x ∷ joined (x ∷ []) q qs)
    ∙ ground (arith, replaced-free x r p, replaced-joined x r q qs)

-- For one byte `strrep` returns the text with each occurrence replaced.
pub strrep_text-replaced :
    (s : Bytes) (x : ℕ) (r : Bytes)
    → (n : ℕ) × (strrep_text s (x ∷ []) r ≡ some (n, replaced x r s))
strrep_text-replaced s x r =
    let (n, out, e, rep) = strrep_text-Replaced s (x ∷ []) r (λ p. cc) in
    let p = rep.pieces in
    (
      n,
      ground (
        arith,
        ap (replaced x r) p.joins,
        replaced-joined x r p.first p.others p.first_free p.others_free,
        rep.rejoined,
      ),
    )
