-- ===== src/Markup/Cutting.antt =====
-- parser.c: how a message is cut into parts, by what it is made of.
use minichatclient.Base.{
  ℕ, ◌+◌, ◌<◌, ◌≡◌, ◌≢◌, refl, ◌∙◌, Bool, true, false, ◌&&◌, ◌||◌, not, List, [], ◌∷◌, ◌++◌,
  append-nil, append_assoc, Bytes, length, arith, ◌⊎◌, ◌==◌, ltb, if◌then◌else◌, All, inl, inr,
}
use minichatclient.Markup.{Result, ok, crash, starved, ◌>>=◌, Part}
use minichatclient.Markup.Parts.{
  create_parts, parts_loop, flushed, tag_part, clone_closing, after_flush,
}

-- Texts, each with the tag that follows it, without its brackets; a text may be empty.
abbrev pub Pieces : Type 0
Pieces = List (Bytes × Bytes)

abbrev pub rendered : Pieces → Bytes → Bytes
rendered [] tail = tail
rendered ((text, tag) ∷ pieces) tail = text ++ b'<' ∷ (tag ++ b'>' ∷ rendered pieces tail)

-- The last byte of a text, or `last` where there is none.
abbrev pub last_of : ℕ → Bytes → ℕ
last_of last [] = last
last_of last (c ∷ s) = last_of c s

-- No part of a tag, and no tag that the parser passes over.
abbrev pub IsPiece : Bytes × Bytes → Type 0
IsPiece piece =
    All (λ c. c ≢ b'<') (piece.0)
    × All (λ c. c ≢ b'>') (piece.1)
    × (0 < length piece.1)
    × (last_of 0 (piece.1) ≡ b'/' → 1 < length piece.1)

-- What the pieces stand for: a tag that ends with '/' is an opening and a closing one.
unfoldable pub parts_of : ℕ → Pieces → Bytes → Result (List Part)
unfolding tag_part
parts_of uid [] tail = ok (flushed uid tail)
parts_of uid ((text, tag) ∷ pieces) tail =
    let n = after_flush uid text in
    do
      p ← tag_part n tag
      if last_of 0 tag == b'/'
          then (do
            rest ← parts_of (n + 2) pieces tail
            ok (flushed uid text ++ p ∷ clone_closing (n + 1) p ∷ rest))
          else (do rest ← parts_of (n + 1) pieces tail; ok (flushed uid text ++ p ∷ rest))

-- A text is kept until its end.
text_until :
    (uid : ℕ) (prev : Bytes) (last : ℕ) (text s : Bytes)
    → All (λ c. c ≢ b'<') text
    → parts_loop uid false prev last (text ++ s)
      ≡ parts_loop uid false (prev ++ text) (last_of last text) s
unfolding parts_loop
text_until uid prev last [] s h = rw (append-nil prev)
text_until uid prev last (c ∷ text) s h =
    ground (arith, text_until uid (prev ++ c ∷ []) c text s h.1, append_assoc prev (c ∷ []) text)

tag_until :
    (uid : ℕ) (prev : Bytes) (last : ℕ) (tag s : Bytes)
    → All (λ c. c ≢ b'>') tag
    → parts_loop uid true prev last (tag ++ s)
      ≡ parts_loop uid true (prev ++ tag) (last_of last tag) s
unfolding parts_loop
tag_until uid prev last [] s h = rw (append-nil prev)
tag_until uid prev last (c ∷ tag) s h =
    ground (arith, tag_until uid (prev ++ c ∷ []) c tag s h.1, append_assoc prev (c ∷ []) tag)

tail_loop :
    (uid : ℕ) (last : ℕ) (tail : Bytes)
    → All (λ c. c ≢ b'<') tail
    → parts_loop uid false [] last tail ≡ ok (flushed uid tail)
unfolding parts_loop
tail_loop uid last tail h = rw (append-nil tail) at (text_until uid [] last tail [] h)

last_of-any : (a b : ℕ) (s : Bytes) → 0 < length s → last_of a s ≡ last_of b s
last_of-any a b [] h = absurd (omega arith)
last_of-any a b (c ∷ s) h = refl

pub Result-cases {ℓ} :
    {A : Type ℓ} (r : Result A) → ((a : A) × (r ≡ ok a)) ⊎ ((r ≡ crash) ⊎ (r ≡ starved))
Result-cases (ok a) = inl (a, refl)
Result-cases crash = inr (inl refl)
Result-cases starved = inr (inr refl)

-- The parts of a text, and those behind it.
abbrev behind : ℕ → Bytes → Result (List Part) → Result (List Part)
behind uid text r = do rest ← r; ok (flushed uid text ++ rest)

-- The parts of a tag, where those behind are given for either number of parts.
abbrev with_tag : ℕ → Bytes → Bool → Result (List Part) → Result (List Part) → Result (List Part)
with_tag n tag is_both two one = do
  p ← tag_part n tag
  if is_both
      then (do rest ← two; ok (p ∷ clone_closing (n + 1) p ∷ rest))
      else (do rest ← one; ok (p ∷ rest))

tag_loop :
    (n : ℕ) (tag s : Bytes)
    → IsPiece ([], tag)
    → parts_loop n true [] b'<' (tag ++ b'>' ∷ s)
      ≡ with_tag n tag
          (last_of 0 tag == b'/')
          (parts_loop (n + 2) false [] b'>' s)
          (parts_loop (n + 1) false [] b'>' s)
tag_loop n tag s h =
    let last = last_of b'<' tag in
    let same : last ≡ last_of 0 tag = last_of-any b'<' 0 tag h.2 in
    let shown : (length tag == 0 || last == b'/' && not (ltb 1 (length tag))) ≡ false =
      ground (arith, h.2, h.3) in
    tag_until n [] b'<' tag (b'>' ∷ s) h.1 ∙ (unfold parts_loop in rw (shown, same))

behind-with_tag :
    (uid n : ℕ) (text tag : Bytes) (is_both : Bool) (two one : Result (List Part))
    → behind uid text (with_tag n tag is_both two one) ≡ (do
      p ← tag_part n tag
      if is_both
          then (do rest ← two; ok (flushed uid text ++ p ∷ clone_closing (n + 1) p ∷ rest))
          else (do rest ← one; ok (flushed uid text ++ p ∷ rest)))
behind-with_tag uid n text tag is_both two one =
    ground (arith, Result-cases (tag_part n tag), Result-cases two, Result-cases one)

pieces_loop :
    (uid : ℕ) (last : ℕ) (pieces : Pieces) (tail : Bytes)
    → All IsPiece pieces
    → All (λ c. c ≢ b'<') tail
    → parts_loop uid false [] last (rendered pieces tail) ≡ parts_of uid pieces tail
unfolding parts_of
pieces_loop uid last [] tail h k = tail_loop uid last tail k
pieces_loop uid last ((text, tag) ∷ pieces) tail h k =
    let n = after_flush uid text in
    let opens : parts_loop uid false text (last_of last text)
          (b'<' ∷ (tag ++ b'>' ∷ rendered pieces tail))
        ≡ behind uid text (parts_loop n true [] b'<' (tag ++ b'>' ∷ rendered pieces tail)) =
      unfold parts_loop in refl in
    text_until uid [] last text (b'<' ∷ (tag ++ b'>' ∷ rendered pieces tail)) h.0.0
    ∙ opens
    ∙ rw (
      tag_loop n tag (rendered pieces tail) (tt, h.0.1, h.0.2, h.0.3),
      pieces_loop (n + 2) b'>' pieces tail h.1 k,
      pieces_loop (n + 1) b'>' pieces tail h.1 k,
      behind-with_tag uid n text tag (last_of 0 tag == b'/') (parts_of (n + 2) pieces tail)
          (parts_of (n + 1) pieces tail),
    )

-- A message that is written as texts and tags is cut into these: each text that is not empty is
-- one part, each tag one, and two where it ends with a '/', numbered in order. No text holds a '<',
-- no tag a '>', and no tag is empty or just a '/'.
pub create_parts-rendered :
    (pieces : Pieces) (tail : Bytes)
    → All IsPiece pieces
    → All (λ c. c ≢ b'<') tail
    → create_parts (rendered pieces tail) ≡ parts_of 0 pieces tail
unfolding create_parts
create_parts-rendered pieces tail h k = pieces_loop 0 0 pieces tail h k
