-- ===== src/Text/Replace/Pieces.antt =====
-- `strrep` against its specification: the text is cut at the occurrences, leftmost first, and the
-- pieces are joined again by the replacement.
use minichatclient.Base.{
  ℕ, zero, suc, ◌+◌, ◌*◌, ◌<◌, ◌≤◌, ◌≡◌, ◌≢◌, refl, ap, sym, ◌∙◌, List, [], ◌∷◌, ◌++◌, none, some,
  arith, Bytes, length, length-append, take, drop, All, inl, inr, Option-cases, append_assoc,
}
use minichatclient.Text.Search.{strstr, strstr-splits, strstr-first}
use minichatclient.Text.Replace.{count_loop, copy_loop, strrep_text, len_target}

-- The pieces with `separator` between them.
abbrev pub joined : Bytes → Bytes → List Bytes → Bytes
joined separator p [] = p
joined separator p (q ∷ qs) = p ++ (separator ++ joined separator q qs)

-- `s` is cut at `needle` into pieces that do not hold it.
pub record Pieces (s needle : Bytes) : Type 0 where
  pub first : Bytes
  pub others : List Bytes
  pub joins : s ≡ joined needle first others
  pub first_free : strstr first needle ≡ none
  pub others_free : All (λ q. strstr q needle ≡ none) others

-- What the two loops make of the pieces.
record Rounds (fuel : ℕ) (s needle : Bytes) : Type 0 where
  pieces : Pieces s needle
  counts : count_loop fuel s needle ≡ some (length pieces.others)
  copies :
      (out replace : Bytes)
      → copy_loop fuel s out needle replace
        ≡ some (out ++ joined replace pieces.first pieces.others)

shorter :
    (s needle : Bytes) (k : ℕ)
    → needle ≢ []
    → strstr s needle ≡ some k
    → length (drop (length needle) (drop k s)) < length s
shorter s [] k ne e = absurd (ne refl)
shorter s (x ∷ needle) k ne e =
    let rest = drop (length (x ∷ needle)) (drop k s) in
    omega (
      arith,
      ap length (strstr-splits s (x ∷ needle) k e),
      length-append (take k s) ((x ∷ needle) ++ rest),
      length-append (x ∷ needle) rest,
    )

rounds : (fuel : ℕ) (s needle : Bytes) → needle ≢ [] → length s < fuel → Rounds fuel s needle
unfolding count_loop copy_loop
rounds zero s needle ne h = absurd (omega arith)
rounds (suc fuel) s needle ne h = elim (Option-cases (strstr s needle)) [
  | inl e ↦ record {
    pieces = record { first = s; others = []; joins = refl; first_free = e; others_free = tt };
    counts = rw (e, count_loop);
    copies = λ out replace. rw (e, copy_loop);
  }
  | inr (k, e) ↦
      let rest = drop (length needle) (drop k s) in
      let r = rounds fuel rest needle ne (omega (arith, shorter s needle k ne e)) in
      record {
        pieces = record {
          first = take k s;
          others = r.pieces.first ∷ r.pieces.others;
          joins =
              sym (strstr-splits s needle k e)
              ∙ ap (λ (t : Bytes). take k s ++ (needle ++ t)) r.pieces.joins;
          first_free = strstr-first s needle k ne e;
          others_free = (r.pieces.first_free, r.pieces.others_free);
        };
        counts = rw (e, count_loop, r.counts);
        copies = λ out replace.
            rw (e, copy_loop) (r.copies (out ++ (take k s ++ replace)) replace ∙ simp append_assoc);
      }
]

uncut :
    (s needle replace first : Bytes) (others : List Bytes)
    → s ≡ joined needle first others
    → length others ≡ 0
    → joined replace first others ≡ s
uncut s needle replace first [] e h = sym e
uncut s needle replace first (q ∷ qs) e h = absurd (omega arith)

-- What `strrep` promises of its count and its text.
pub record Replaced (s needle replace : Bytes) (n : ℕ) (out : Bytes) : Type 0 where
  pub pieces : Pieces s needle
  pub counted : n ≡ length pieces.others
  pub rejoined : out ≡ joined replace pieces.first pieces.others

-- For a search string that is not empty `strrep` returns: the input is cut at the occurrences into
-- pieces without any, the count is that of the cuts, and the output joins the same pieces by the
-- replacement.
pub strrep_text-Replaced :
    (s needle replace : Bytes)
    → needle ≢ []
    → (n : ℕ) × (out : Bytes) × (strrep_text s needle replace ≡ some (n, out))
      × Replaced s needle replace n out
unfolding strrep_text
strrep_text-Replaced s [] replace ne = absurd (ne refl)
strrep_text-Replaced s (x ∷ needle) replace ne =
    let r = rounds (length s + 1) s (x ∷ needle) ne (omega arith) in
    let p = r.pieces in
    (
      length p.others,
      joined replace p.first p.others,
      ground (
        arith,
        r.counts,
        r.copies [] replace,
        uncut s (x ∷ needle) replace p.first p.others p.joins,
      ),
      record { pieces = p; counted = refl; rejoined = refl },
    )

length-joined :
    (separator p : Bytes) (qs : List Bytes)
    → length (joined separator p qs) ≡ length (joined [] p qs) + length qs * length separator
length-joined separator p [] = omega arith
length-joined separator p (q ∷ qs) = omega (
  arith,
  length-append p (separator ++ joined separator q qs),
  length-append separator (joined separator q qs),
  length-append p (joined [] q qs),
  length-joined separator q qs,
)

Replaced-len_target :
    (s needle replace : Bytes) (n : ℕ) (out : Bytes)
    → Replaced s needle replace n out
    → (n * length needle ≤ length s) × (length out ≡ len_target s n needle replace)
Replaced-len_target s needle replace n out r =
    let p = r.pieces in
    let e : length s ≡ length (joined [] p.first p.others) + n * length needle =
      ap length p.joins ∙ length-joined needle p.first p.others ∙ rw r.counted in
    let e' : length out ≡ length (joined [] p.first p.others) + n * length replace =
      ap length r.rejoined ∙ length-joined replace p.first p.others ∙ rw r.counted in
    (omega arith, omega arith)

-- Whatever `strrep` returns, the size that it asks `malloc` for is not computed through a
-- negative number, and the output fills that block exactly.
pub strrep_text-fits :
    (s needle replace : Bytes) (n : ℕ) (out : Bytes)
    → strrep_text s needle replace ≡ some (n, out)
    → (n * length needle ≤ length s) × (length out ≡ len_target s n needle replace)
strrep_text-fits s [] replace n out h = unfold strrep_text in ground arith
strrep_text-fits s (x ∷ needle) replace n out h =
    let (n', out', e, r) = strrep_text-Replaced s (x ∷ needle) replace (λ p. cc) in
    let (c, f) = Replaced-len_target s (x ∷ needle) replace n' out' r in ground arith
