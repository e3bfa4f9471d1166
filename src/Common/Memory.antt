-- ===== src/Common/Memory.antt =====
-- Byte buffers behind a pointer: a list of bytes, with reads and writes that fault (`none`) out of
-- range, where the C code has undefined behaviour.
pub mod Laws
pub mod Bounds
use Prim.Native.Nat.{ℕ, zero, suc, ◌%◌, bit_or}
use mathlib.Core.Bool.{Bool, true, false}
use mathlib.Core.List.{List, [], ◌∷◌, ◌++◌}
use mathlib.Core.Option.{Option, none, some}
use osdlp.Common.Lists.{length, get_elem?, take, drop}
use osdlp.Common.Tests.{leb, u8, if◌then◌else◌}

infixl 5 ◌>>=◌
abbrev pub ◌>>=◌ {ℓ κ} : {A : Type ℓ} {B : Type κ} → Option A → (A → Option B) → Option B
none >>= f = none
some a >>= f = f a

-- `buf[i]`
abbrev pub load : List ℕ → ℕ → Option ℕ
load buf i = get_elem? buf i

-- `buf[i] = v`, for a buffer of uint8_t
abbrev pub store : List ℕ → ℕ → ℕ → Option (List ℕ)
store [] i v = none
store (x ∷ xs) zero v = some (u8 v ∷ xs)
store (x ∷ xs) (suc i) v = store xs i v >>= λ ys. some (x ∷ ys)

-- `buf[i] |= v`
abbrev pub store_or : List ℕ → ℕ → ℕ → Option (List ℕ)
store_or buf i v = load buf i >>= λ x. store buf i (bit_or x v)

-- The first `n` bytes behind a pointer.
abbrev pub read_bytes : List ℕ → ℕ → Option (List ℕ)
read_bytes buf n = if leb n (length buf) then some (take n buf) else none

-- The pointer `&buf[i]`; one past the end is a pointer too.
abbrev pub pointer_at : List ℕ → ℕ → Option (List ℕ)
pointer_at buf zero = some buf
pointer_at [] (suc i) = none
pointer_at (x ∷ xs) (suc i) = pointer_at xs i

-- Writes `bytes` over the front of `buf`.
abbrev pub overwrite : List ℕ → List ℕ → Option (List ℕ)
overwrite buf [] = some buf
overwrite [] (b ∷ bytes) = none
overwrite (x ∷ xs) (b ∷ bytes) = overwrite xs bytes >>= λ ys. some (b ∷ ys)

-- Writes `bytes` at `&buf[i]`.
abbrev pub write_at : List ℕ → ℕ → List ℕ → Option (List ℕ)
write_at buf zero bytes = overwrite buf bytes
write_at [] (suc i) bytes = none
write_at (x ∷ xs) (suc i) bytes = write_at xs i bytes >>= λ ys. some (x ∷ ys)

-- `memcpy(&dst[at], src, n)`
abbrev pub memcpy : List ℕ → ℕ → List ℕ → ℕ → Option (List ℕ)
memcpy dst at src n = read_bytes src n >>= λ bytes. write_at dst at bytes
