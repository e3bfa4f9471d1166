-- ===== src/Common/Memory/Bounds.antt =====
-- Accesses in range succeed, and a buffer keeps its length.
use osdlp.Common.{
  ℕ, zero, suc, ◌+◌, ◌≤◌, ◌<◌, ◌≡◌, refl, List, [], ◌∷◌, Option, none, some, arith, length,
  length-take, take,
}
use osdlp.Common.Memory.{◌>>=◌, load, store, overwrite, write_at, memcpy, pointer_at}

-- The access has succeeded, and the buffer is `n` bytes long.
abbrev pub Kept : ℕ → Option (List ℕ) → Type 0
Kept n none = ⊥
Kept n (some buf) = length buf ≡ n

pub Kept-some :
    (n : ℕ) (o : Option (List ℕ)) → Kept n o → (buf : List ℕ) × (o ≡ some buf) × (length buf ≡ n)
Kept-some n none k = absurd k
Kept-some n (some buf) k = (buf, refl, k)

pub bind-Kept :
    (n : ℕ) (o : Option (List ℕ)) (f : List ℕ → Option (List ℕ))
    → Kept n o
    → ((buf : List ℕ) → length buf ≡ n → Kept n (f buf))
    → Kept n (o >>= f)
bind-Kept n none f k g = k
bind-Kept n (some buf) f k g = g buf k

cons-Kept : (x n : ℕ) (o : Option (List ℕ)) → Kept n o → Kept (suc n) (o >>= λ ys. some (x ∷ ys))
cons-Kept x n none k = k
cons-Kept x n (some ys) k = omega arith

pub store-Kept : (buf : List ℕ) (i v : ℕ) → i < length buf → Kept (length buf) (store buf i v)
store-Kept [] i v h = elim h [ ]
store-Kept (x ∷ xs) zero v h = refl
store-Kept (x ∷ xs) (suc i) v h =
    cons-Kept x (length xs) (store xs i v) (store-Kept xs i v (omega arith))

overwrite-Kept :
    (buf bytes : List ℕ) → length bytes ≤ length buf → Kept (length buf) (overwrite buf bytes)
overwrite-Kept buf [] h = refl
overwrite-Kept [] (b ∷ bytes) h = elim h [ ]
overwrite-Kept (x ∷ xs) (b ∷ bytes) h =
    cons-Kept b (length xs) (overwrite xs bytes) (overwrite-Kept xs bytes (omega arith))

pub write_at-Kept :
    (buf : List ℕ) (i : ℕ) (bytes : List ℕ)
    → i + length bytes ≤ length buf
    → Kept (length buf) (write_at buf i bytes)
write_at-Kept buf zero bytes h = overwrite-Kept buf bytes (omega arith)
write_at-Kept [] (suc i) bytes h = absurd (omega arith)
write_at-Kept (x ∷ xs) (suc i) bytes h =
    cons-Kept x (length xs) (write_at xs i bytes) (write_at-Kept xs i bytes (omega arith))

pub memcpy-Kept :
    (dst : List ℕ) (at : ℕ) (src : List ℕ) (n : ℕ)
    → n ≤ length src
    → at + n ≤ length dst
    → Kept (length dst) (memcpy dst at src n)
memcpy-Kept dst at src n h g = ground (arith, length-take n src, write_at-Kept dst at (take n src))

pub load_in_range : (buf : List ℕ) (i : ℕ) → i < length buf → (b : ℕ) × (load buf i ≡ some b)
load_in_range [] i h = elim h [ ]
load_in_range (x ∷ xs) zero h = (x, refl)
load_in_range (x ∷ xs) (suc i) h = load_in_range xs i (omega arith)

pub pointer_in_range :
    (buf : List ℕ) (i : ℕ)
    → i ≤ length buf
    → (p : List ℕ) × (pointer_at buf i ≡ some p) × (length p + i ≡ length buf)
pointer_in_range buf zero h = (buf, refl, omega arith)
pointer_in_range [] (suc i) h = absurd (omega arith)
pointer_in_range (x ∷ xs) (suc i) h =
    let (p, at, size) = pointer_in_range xs i (omega arith) in (p, at, omega (arith, size))
