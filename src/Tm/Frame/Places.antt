-- ===== src/Tm/Frame/Places.antt =====
-- Reads and writes in the middle of a buffer, by the lists in front of the place.
use osdlp.Common.{ℕ, zero, suc, ◌+◌, ◌≤◌, ◌≡◌, refl, List, [], ◌∷◌, ◌++◌, some, arith, length, u8}
use osdlp.Common.Memory.{load, store, overwrite, write_at, memcpy, pointer_at}
use osdlp.Common.Memory.Laws.{read_bytes-append}

pub write_behind :
    (x y z new : List ℕ) (i at : ℕ)
    → write_at y i new ≡ some z
    → at ≡ length x + i
    → write_at (x ++ y) at new ≡ some (x ++ z)
write_behind [] y z new i at e place = ground (arith, e, place)
write_behind (b ∷ x) y z new i zero e place = absurd (omega arith)
write_behind (b ∷ x) y z new i (suc at) e place =
    rw (write_behind x y z new i at e (omega arith)) refl

pub overwrite_same :
    (old new back : List ℕ)
    → length new ≡ length old
    → overwrite (old ++ back) new ≡ some (new ++ back)
overwrite_same [] [] back n = refl
overwrite_same [] (b ∷ new) back n = absurd (omega arith)
overwrite_same (x ∷ old) [] back n = absurd (omega arith)
overwrite_same (x ∷ old) (b ∷ new) back n = rw (overwrite_same old new back (omega arith)) refl

pub memcpy-eq-write_at :
    (dst bytes more : List ℕ) (at : ℕ)
    → memcpy dst at (bytes ++ more) (length bytes) ≡ write_at dst at bytes
memcpy-eq-write_at dst bytes more at = rw (read_bytes-append bytes more) refl

pub load_behind : (x y : List ℕ) (i at : ℕ) → at ≡ length x + i → load (x ++ y) at ≡ load y i
load_behind [] y i at place = ground (arith, place)
load_behind (b ∷ x) y i zero place = absurd (omega arith)
load_behind (b ∷ x) y i (suc at) place = load_behind x y i at (omega arith)

pub pointer_behind : (x y : List ℕ) (at : ℕ) → at ≡ length x → pointer_at (x ++ y) at ≡ some y
pointer_behind [] y zero place = refl
pointer_behind [] y (suc at) place = absurd (omega arith)
pointer_behind (b ∷ x) y zero place = absurd (omega arith)
pointer_behind (b ∷ x) y (suc at) place = pointer_behind x y at (omega arith)

-- A store of a byte in front of a list that follows
pub store_behind :
    (x y : List ℕ) (b v at : ℕ) → at ≡ length x → store (x ++ (b ∷ y)) at v ≡ some (x ++ (u8 v ∷ y))
store_behind [] y b v zero place = refl
store_behind [] y b v (suc at) place = absurd (omega arith)
store_behind (c ∷ x) y b v zero place = absurd (omega arith)
store_behind (c ∷ x) y b v (suc at) place = rw (store_behind x y b v at (omega arith)) refl

-- A list of that length at least, in two parts
pub split_at :
    (n : ℕ) (xs : List ℕ)
    → n ≤ length xs
    → (front : List ℕ) × (back : List ℕ) × (xs ≡ front ++ back)
      × (length front ≡ n)
      × (n + length back ≡ length xs)
split_at zero xs h = ([], xs, refl, refl, omega arith)
split_at (suc n) [] h = absurd (omega arith)
split_at (suc n) (x ∷ xs) h =
    let (front, back, e, p, q) = split_at n xs (omega arith) in
    (x ∷ front, back, rw e refl, omega arith, omega arith)
