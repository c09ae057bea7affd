-- ===== src/Text/Search.antt =====
-- `strstr` of the C library, as far as the program uses it: the offset of the first occurrence.
use mathlib.Core.Option
use minichatclient.Base.{
  ℕ, zero, suc, ◌≡◌, ◌≢◌, refl, Bool, true, false, ◌&&◌, [], ◌∷◌, ◌++◌, Option, none, some, arith,
  Bytes, length, take, drop, take-append-drop, ◌==◌, if◌then◌else◌, inl, inr, Bool-cases,
}

unfoldable pub starts_with : Bytes → Bytes → Bool
starts_with [] s = true
starts_with (x ∷ p) [] = false
starts_with (x ∷ p) (c ∷ s) = x == c && starts_with p s

unfoldable pub strstr : Bytes → Bytes → Option ℕ
unfolding starts_with
strstr [] p = if starts_with p [] then some 0 else none
strstr (c ∷ s) p = if starts_with p (c ∷ s) then some 0 else Option.map suc (strstr s p)

starts_with-splits : (p s : Bytes) → starts_with p s ≡ true → p ++ drop (length p) s ≡ s
unfolding starts_with
starts_with-splits [] s h = refl
starts_with-splits (x ∷ p) [] h = cc
starts_with-splits (x ∷ p) (c ∷ s) h = ground (arith, starts_with-splits p s)

starts_with-append : (p s rest : Bytes) → starts_with p s ≡ true → starts_with p (s ++ rest) ≡ true
unfolding starts_with
starts_with-append [] s rest h = refl
starts_with-append (x ∷ p) [] rest h = cc
starts_with-append (x ∷ p) (c ∷ s) rest h = ground (arith, starts_with-append p s rest)

starts_with-take : (p s : Bytes) (k : ℕ) → starts_with p (take k s) ≡ true → starts_with p s ≡ true
starts_with-take p s k h =
    rw (take-append-drop k s) at (starts_with-append p (take k s) (drop k s) h)

-- A match splits the text.
pub strstr-splits :
    (s p : Bytes) (k : ℕ) → strstr s p ≡ some k → take k s ++ (p ++ drop (length p) (drop k s)) ≡ s
unfolding strstr
strstr-splits [] [] zero h = refl
strstr-splits [] [] (suc k) h = cc
strstr-splits [] (x ∷ p) k h = cc
strstr-splits (c ∷ s) p zero h = elim (Bool-cases (starts_with p (c ∷ s))) [
  | inl e ↦ starts_with-splits p (c ∷ s) e
  | inr e ↦ ground arith
]
strstr-splits (c ∷ s) p (suc k) h = ground (arith, strstr-splits s p k)

-- It is the first: the text before it holds no occurrence.
pub strstr-first : (s p : Bytes) (k : ℕ) → p ≢ [] → strstr s p ≡ some k → strstr (take k s) p ≡ none
unfolding strstr
strstr-first s [] k ne h = absurd (ne refl)
strstr-first [] (x ∷ p) k ne h = cc
strstr-first (c ∷ s) (x ∷ p) zero ne h = refl
strstr-first (c ∷ s) (x ∷ p) (suc k) ne h =
    ground (arith, strstr-first s (x ∷ p) k ne, starts_with-take (x ∷ p) (c ∷ s) (suc k))
