-- ===== src/Html/Watch.antt =====
-- parsehtml.c: what `watchfor` and `watchfor2` do to their counter.
use minichatclient.Base.{
  ℕ, suc, ◌+◌, ◌<◌, ◌≤◌, ◌≡◌, refl, Bool, true, Option, none, some, Bytes, length, arith,
}
use minichatclient.Html.{watchfor, watchfor2, string_at}

-- The counter stays below `size`, grows by one at most, and the string is found at its last byte.
abbrev Watched : ℕ → ℕ → Option (Bool × ℕ) → Type 0
Watched size k none = ⊥
Watched size k (some (found, k')) = (k' < size) × (k' ≤ k + 1) × (found ≡ true → suc k ≡ size)

watchfor-Watched :
    (string : Bytes) (c k : ℕ) → k < length string → Watched (length string) k (watchfor string c k)
unfolding watchfor string_at
watchfor-Watched string c k h = ground arith

watchfor2-Watched :
    (str1 str2 : Bytes) (c k : ℕ)
    → length str2 ≡ length str1
    → k < length str1
    → Watched (length str1) k (watchfor2 str1 str2 c k)
unfolding watchfor2 string_at
watchfor2-Watched str1 str2 c k e h = ground arith

-- A counter in bounds is read, and the answer is one of the above.
pub record Found (size k : ℕ) (o : Option (Bool × ℕ)) : Type 0 where
  pub found : Bool
  pub counter : ℕ
  pub answers : o ≡ some (found, counter)
  pub below : counter < size
  pub grows : counter ≤ k + 1
  pub at_end : found ≡ true → suc k ≡ size

Watched-Found : (size k : ℕ) (o : Option (Bool × ℕ)) → Watched size k o → Found size k o
Watched-Found size k none w = absurd w
Watched-Found size k (some (found, k')) w = record {
  found = found;
  counter = k';
  answers = refl;
  below = w.0;
  grows = w.1;
  at_end = w.2;
}

pub watchfor-Found :
    (string : Bytes) (c k : ℕ) → k < length string → Found (length string) k (watchfor string c k)
watchfor-Found string c k h =
    Watched-Found (length string) k (watchfor string c k) (watchfor-Watched string c k h)

pub watchfor2-Found :
    (str1 str2 : Bytes) (c k : ℕ)
    → length str2 ≡ length str1
    → k < length str1
    → Found (length str1) k (watchfor2 str1 str2 c k)
watchfor2-Found str1 str2 c k e h =
    Watched-Found (length str1) k (watchfor2 str1 str2 c k) (watchfor2-Watched str1 str2 c k e h)
