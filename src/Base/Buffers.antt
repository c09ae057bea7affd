-- ===== src/Base/Buffers.antt =====
-- A buffer of fixed size: writes within its bounds, and the string that begins at its start.
use Prim.Native.Nat.{ℕ, zero, suc, ◌<◌, ◌≤◌}
use mathlib.Core.Path.{◌≡◌, refl, ap}
use mathlib.Core.Logic.{◌≢◌}
use mathlib.Core.Option.{Option, none, some}
use mathlib.Core.List.{[], ◌∷◌, ◌++◌}
use native.Mathlib.Omega.{arith}
use minichatclient.Base.Lists.{length, set, length-set, take, All}
use minichatclient.Base.Tests.{ltb, ◌==◌, if◌then◌else◌, Bytes}

-- `buf[i] = c`; `none` is a write out of bounds.
unfoldable pub write : Bytes → ℕ → ℕ → Option Bytes
write buf i c = if ltb i (length buf) then some (set buf i c) else none

-- The string at the start of a buffer.
unfoldable pub c_string : Bytes → Bytes
c_string [] = []
c_string (c ∷ buf) = let rest = c_string buf in if c == 0 then [] else c ∷ rest

pub length-c_string : (buf : Bytes) → length (c_string buf) ≤ length buf
unfolding c_string
length-c_string [] = omega arith
length-c_string (c ∷ buf) = ground (arith, length-c_string buf)

pub c_string-all : (s : Bytes) → All (λ c. c ≢ 0) s → c_string s ≡ s
unfolding c_string
c_string-all [] h = refl
c_string-all (c ∷ s) h = ground (arith, c_string-all s h.1)

pub write-set :
    (buf : Bytes) (i c : ℕ)
    → i < length buf
    → (write buf i c ≡ some (set buf i c)) × (length (set buf i c) ≡ length buf)
unfolding write
write-set buf i c h = (ground arith, length-set buf i c)

-- What was written byte by byte from the start, and closed by a zero, is read back.
pub take-set :
    (buf : Bytes) (i c : ℕ) → i < length buf → take (suc i) (set buf i c) ≡ take i buf ++ c ∷ []
take-set [] i c h = absurd (omega arith)
take-set (x ∷ buf) zero c h = refl
take-set (x ∷ buf) (suc i) c h = ap (◌∷◌ x) (take-set buf i c (omega arith))

pub c_string-set :
    (buf : Bytes) (i : ℕ) (s : Bytes)
    → i < length buf
    → All (λ c. c ≢ 0) s
    → take i buf ≡ s
    → c_string (set buf i 0) ≡ s
unfolding c_string
c_string-set [] i s h a e = absurd (omega arith)
c_string-set (x ∷ buf) zero s h a e = e
c_string-set (x ∷ buf) (suc i) [] h a e = cc
c_string-set (x ∷ buf) (suc i) (c ∷ s) h a e =
    ground (arith, c_string-set buf i s (omega arith) a.1)
