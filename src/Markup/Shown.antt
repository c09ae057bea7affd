-- ===== src/Markup/Shown.antt =====
-- parser.c and strfunctions.c: without any rule, what is left of a message is what
-- `html_strip_tags` leaves of it.
use minichatclient.Base.{
  ℕ, ◌+◌, ◌≡◌, ◌≢◌, refl, ap, sym, ◌∙◌, false, List, [], ◌∷◌, ◌++◌, append-nil, append_assoc, Bytes,
  arith, ◌==◌, if◌then◌else◌, All, All-map, Bool-cases, inl, inr,
}
use minichatclient.Text.Strings.{html_strip_tags, strip_loop}
use minichatclient.Text.Strings.Laws.{html_strip_tags-tag, IsBare}
use minichatclient.Markup.{ok, Kind, Part, is_message}
use minichatclient.Markup.Parts.{
  create_parts, tag_part, tag_of, flushed, clone_closing, after_flush, kind_of, attributes_of,
}
use minichatclient.Markup.Cstring.{cstring_splitc}
use minichatclient.Markup.Cutting.{
  Pieces, rendered, IsPiece, parts_of, create_parts-rendered, Result-cases, last_of,
}

-- The texts of the parts, joined.
unfoldable pub texts : List Part → Bytes
texts [] = []
texts (p ∷ parts) = if is_message p.kind then p.data_of ++ texts parts else texts parts

texts-append : (a b : List Part) → texts (a ++ b) ≡ texts a ++ texts b
unfolding texts
texts-append [] b = refl
texts-append (p ∷ a) b = elim (Bool-cases (is_message p.kind)) [
  | inl e ↦ rw (e, texts-append a b) (simp append_assoc)
  | inr e ↦ rw (e, texts-append a b)
]

texts-tag :
    (p : Part) (parts : List Part) → is_message p.kind ≡ false → texts (p ∷ parts) ≡ texts parts
unfolding texts
texts-tag p parts h = rw h

texts-flushed : (uid : ℕ) (text : Bytes) → texts (flushed uid text) ≡ text
unfolding texts
texts-flushed uid [] = refl
texts-flushed uid (c ∷ text) = ap (◌∷◌ c) (append-nil text)

kind_of-tag : (text : Bytes) → is_message (kind_of text).0 ≡ false
kind_of-tag [] = refl
kind_of-tag (c ∷ s) = ground arith

tag_of-tag :
    (uid : ℕ) (kind : Kind) (l : List Bytes) (p : Part)
    → is_message kind ≡ false
    → tag_of uid kind l ≡ ok p
    → is_message p.kind ≡ false
unfolding tag_of
tag_of-tag uid kind [] p k e = ground arith
tag_of-tag uid kind (name ∷ l) p k e = elim (Result-cases (attributes_of l)) [
  | inl (atts, f) ↦ ground (arith, f)
  | inr (inl f) ↦ ground (arith, f)
  | inr (inr f) ↦ ground (arith, f)
]

tag_part-tag :
    (uid : ℕ) (text : Bytes) (p : Part) → tag_part uid text ≡ ok p → is_message p.kind ≡ false
unfolding tag_part
tag_part-tag uid text p e =
    tag_of-tag uid (kind_of text).0 (cstring_splitc (kind_of text).1 b' ' b'"') p (kind_of-tag text)
      e

html_strip_tags-bare : (s : Bytes) → All IsBare s → html_strip_tags s ≡ s
unfolding html_strip_tags strip_loop
html_strip_tags-bare [] h = refl
html_strip_tags-bare (c ∷ s) h = ground (arith, html_strip_tags-bare s h.1)

shown_loop :
    (uid : ℕ) (pieces : Pieces) (tail : Bytes) (parts : List Part)
    → All IsPiece pieces
    → All (λ piece. All IsBare (piece.0)) pieces
    → All IsBare tail
    → parts_of uid pieces tail ≡ ok parts
    → texts parts ≡ html_strip_tags (rendered pieces tail)
unfolding parts_of
shown_loop uid [] tail parts h bare k e =
    ground (arith, texts-flushed uid tail, html_strip_tags-bare tail k)
shown_loop uid ((text, tag) ∷ pieces) tail parts h bare k e =
    let n = after_flush uid text in
    elim (Result-cases (tag_part n tag)) [
      | inr (inl f) ↦ ground (arith, f)
      | inr (inr f) ↦ ground (arith, f)
      | inl (p, f) ↦
          let no_text = tag_part-tag n tag p f in
          let strips : html_strip_tags (text ++ b'<' ∷ (tag ++ b'>' ∷ rendered pieces tail))
              ≡ text ++ html_strip_tags (rendered pieces tail) =
            html_strip_tags-tag text tag (rendered pieces tail) h.0.1
            ∙ ap (λ (t : Bytes). t ++ html_strip_tags (rendered pieces tail))
                (html_strip_tags-bare text bare.0) in
          elim (Bool-cases (last_of 0 tag == b'/')) [
            | inl both ↦ elim (Result-cases (parts_of (n + 2) pieces tail)) [
              | inl (rest, g) ↦
                  let go = shown_loop (n + 2) pieces tail rest h.1 bare.1 k g in
                  let is : parts ≡ flushed uid text ++ p ∷ clone_closing (n + 1) p ∷ rest =
                    ground (arith, f, both, g) in
                  rw (
                    is,
                    texts-append (flushed uid text) (p ∷ clone_closing (n + 1) p ∷ rest),
                    texts-flushed uid text,
                    strips,
                    texts-tag p (clone_closing (n + 1) p ∷ rest) no_text,
                    texts-tag (clone_closing (n + 1) p) rest refl,
                    go,
                  )
              | inr (inl g) ↦ ground (arith, f, both, g)
              | inr (inr g) ↦ ground (arith, f, both, g)
            ]
            | inr one ↦ elim (Result-cases (parts_of (n + 1) pieces tail)) [
              | inl (rest, g) ↦
                  let go = shown_loop (n + 1) pieces tail rest h.1 bare.1 k g in
                  let is : parts ≡ flushed uid text ++ p ∷ rest = ground (arith, f, one, g) in
                  rw (
                    is,
                    texts-append (flushed uid text) (p ∷ rest),
                    texts-flushed uid text,
                    strips,
                    texts-tag p rest no_text,
                    go,
                  )
              | inr (inl g) ↦ ground (arith, f, one, g)
              | inr (inr g) ↦ ground (arith, f, one, g)
            ]
          ]
    ]

-- The texts of a message that is written as texts and tags, as `create_parts` cuts it, are together
-- what `html_strip_tags` leaves of the message, where `create_parts` gives parts: no text holds a
-- bracket, no tag a '>', and no tag is empty or just a '/'.
pub texts-html_strip_tags :
    (pieces : Pieces) (tail : Bytes) (parts : List Part)
    → All IsPiece pieces
    → All (λ piece. All IsBare (piece.0)) pieces
    → All IsBare tail
    → create_parts (rendered pieces tail) ≡ ok parts
    → texts parts ≡ html_strip_tags (rendered pieces tail)
texts-html_strip_tags pieces tail parts h bare k e = shown_loop 0 pieces tail parts h bare k (
    sym (create_parts-rendered pieces tail h (All-map IsBare (λ c. c ≢ b'<') tail (λ c b. b.0) k))
    ∙ e)
