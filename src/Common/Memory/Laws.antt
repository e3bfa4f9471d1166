-- ===== src/Common/Memory/Laws.antt =====
-- What copies into and out of a buffer do when they stay in range.
use Prim.Native.Nat.{ℕ, zero, suc, ◌+◌, ◌≤◌}
use mathlib.Core.Path.{◌≡◌, refl}
use mathlib.Core.List.{List, [], ◌∷◌, ◌++◌}
use mathlib.Core.Option.{some}
use native.Mathlib.Omega.{arith}
use osdlp.Common.Lists.{length, drop, take-append, length-append}
use osdlp.Common.Memory.{read_bytes, overwrite, write_at, memcpy, pointer_at}

pub overwrite-eq :
    (buf bytes : List ℕ)
    → length bytes ≤ length buf
    → overwrite buf bytes ≡ some (bytes ++ drop (length bytes) buf)
overwrite-eq buf [] h = refl
overwrite-eq [] (b ∷ bytes) h = elim h [ ]
overwrite-eq (x ∷ xs) (b ∷ bytes) h = rw (overwrite-eq xs bytes (omega arith))

pub write_at-append :
    (front buf bytes : List ℕ)
    → length bytes ≤ length buf
    → write_at (front ++ buf) (length front) bytes
      ≡ some (front ++ (bytes ++ drop (length bytes) buf))
write_at-append [] buf bytes h = overwrite-eq buf bytes h
write_at-append (x ∷ front) buf bytes h = rw (write_at-append front buf bytes h)

pub read_bytes-append :
    (bytes rest : List ℕ) → read_bytes (bytes ++ rest) (length bytes) ≡ some bytes
read_bytes-append bytes rest = ground (arith, length-append bytes rest, take-append bytes rest)

-- `memcpy` of a whole list of bytes behind `front`.
pub memcpy-append :
    (front buf bytes rest : List ℕ)
    → length bytes ≤ length buf
    → memcpy (front ++ buf) (length front) (bytes ++ rest) (length bytes)
      ≡ some (front ++ (bytes ++ drop (length bytes) buf))
memcpy-append front buf bytes rest h =
    rw (read_bytes-append bytes rest) (write_at-append front buf bytes h)

pub length-pointer_at :
    (buf : List ℕ) (i : ℕ) (p : List ℕ) → pointer_at buf i ≡ some p → length p + i ≡ length buf
length-pointer_at buf zero p e = ground arith
length-pointer_at [] (suc i) p e = cc
length-pointer_at (x ∷ xs) (suc i) p e = omega (arith, length-pointer_at xs i p e)
