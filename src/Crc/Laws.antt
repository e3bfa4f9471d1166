-- ===== src/Crc/Laws.antt =====
-- The table-driven loop computes the division, and a message that carries its checksum leaves 0.
use osdlp.Common.{
  ℕ, zero, suc, ◌+◌, ◌*◌, ◌/◌, ◌%◌, ◌<◌, ◌≡◌, refl, ap, ◌∙◌, bit_xor, u16, List, [], ◌∷◌, ◌++◌,
  some, arith, length, All, All-append, length-append,
}
use osdlp.Common.Bits.Fields.{and_mask, xor_split, bit_xor-lt, bit_xor-zero, bit_xor_self, zero_xor}
use osdlp.Crc.{crc_step, crc_loop, calc_crc}
use osdlp.Crc.Table.{crc_table}
use osdlp.Crc.Bitwise.{crc_byte, crc_bytes, entry, shift_bits-eq-entry, entry_lem}

abbrev pub IsByte : ℕ → Type 0
IsByte b = b < 256

crc_byte-eq-entry :
    (hi lo b : ℕ)
    → hi < 256
    → lo < 256
    → b < 256
    → crc_byte (hi * 256 + lo) b ≡ bit_xor (entry (bit_xor hi b)) (lo * 256)
unfolding crc_byte
crc_byte-eq-entry hi lo b h g k = ground (
  arith,
  xor_split 8 hi b lo 0,
  bit_xor-zero lo,
  bit_xor-lt 8 hi b,
  shift_bits-eq-entry (bit_xor hi b) lo,
)

entry_shifted :
    (hi lo e : ℕ)
    → lo < 256
    → e < 65536
    → u16 (bit_xor e (hi * 65536 + lo * 256)) ≡ bit_xor e (lo * 256)
entry_shifted hi lo e g k =
    ground (arith, xor_split 16 0 hi e (lo * 256), bit_xor-lt 16 e (lo * 256))

crc_step-parts :
    (hi lo b : ℕ)
    → hi < 256
    → lo < 256
    → b < 256
    → crc_step (hi * 256 + lo) b ≡ some (bit_xor (entry (bit_xor hi b)) (lo * 256))
unfolding crc_step
crc_step-parts hi lo b h g k = ground (
  arith,
  and_mask 8 (bit_xor hi b),
  bit_xor-lt 8 hi b,
  entry_lem (bit_xor hi b),
  entry_shifted hi lo (entry (bit_xor hi b)),
)

-- A round of the loop takes one byte into the register.
crc_step-eq-crc_byte : (r b : ℕ) → r < 65536 → b < 256 → crc_step r b ≡ some (crc_byte r b)
crc_step-eq-crc_byte r b h k =
    ground (arith, crc_step-parts (r / 256) (r % 256) b, crc_byte-eq-entry (r / 256) (r % 256) b)

pub crc_byte-lt : (r b : ℕ) → r < 65536 → b < 256 → crc_byte r b < 65536
crc_byte-lt r b h k = ground (
  arith,
  crc_byte-eq-entry (r / 256) (r % 256) b,
  bit_xor-lt 8 (r / 256) b,
  entry_lem (bit_xor (r / 256) b),
  bit_xor-lt 16 (entry (bit_xor (r / 256) b)) (r % 256 * 256),
)

pub crc_bytes-lt : (r : ℕ) (bs : List ℕ) → r < 65536 → All IsByte bs → crc_bytes r bs < 65536
unfolding crc_bytes
crc_bytes-lt r [] h k = h
crc_bytes-lt r (b ∷ bs) h k = crc_bytes-lt (crc_byte r b) bs (crc_byte-lt r b h k.0) k.1

suc-add-one : (i : ℕ) → suc i + 1 ≡ suc (i + 1)
suc-add-one i = omega arith

-- The loop does not look behind its index.
crc_loop-cons :
    (x : ℕ) (bs : List ℕ) (n i r : ℕ) → crc_loop (x ∷ bs) n (suc i) r ≡ crc_loop bs n i r
unfolding crc_loop
crc_loop-cons x bs zero i r = refl
crc_loop-cons x bs (suc n) i r = simp (suc-add-one i, crc_loop-cons x bs n)

crc_loop-eq-crc_bytes :
    (bs rest : List ℕ) (r : ℕ)
    → r < 65536
    → All IsByte bs
    → crc_loop (bs ++ rest) (length bs) 0 r ≡ some (crc_bytes r bs)
unfolding crc_loop crc_bytes
crc_loop-eq-crc_bytes [] rest r h k = refl
crc_loop-eq-crc_bytes (b ∷ bs) rest r h k = rw (crc_step-eq-crc_byte r b h k.0) (
    crc_loop-cons b (bs ++ rest) (length bs) 0 (crc_byte r b)
    ∙ crc_loop-eq-crc_bytes bs rest (crc_byte r b) (crc_byte-lt r b h k.0) k.1)

-- For a message `bs` of bytes at the front of a buffer, `osdlp_calc_crc` stays in range of the
-- buffer and of its table, and returns the remainder of the bitwise division of the message, from
-- a register of ones.
pub calc_crc-eq-crc_bytes :
    (bs rest : List ℕ)
    → All IsByte bs
    → calc_crc (bs ++ rest) (length bs) ≡ some (crc_bytes 0xffff bs)
unfolding calc_crc
calc_crc-eq-crc_bytes bs rest k = crc_loop-eq-crc_bytes bs rest 0xffff (omega arith) k

pub crc_bytes-append :
    (r : ℕ) (bs cs : List ℕ) → crc_bytes r (bs ++ cs) ≡ crc_bytes (crc_bytes r bs) cs
unfolding crc_bytes
crc_bytes-append r [] cs = refl
crc_bytes-append r (b ∷ bs) cs = crc_bytes-append (crc_byte r b) bs cs

entry-zero : entry 0 ≡ 0
unfolding entry crc_table
entry-zero = refl

-- A register fed its own top byte keeps the low byte only.
crc_byte_self : (hi lo : ℕ) → hi < 256 → lo < 256 → crc_byte (hi * 256 + lo) hi ≡ lo * 256
crc_byte_self hi lo h g = ground (
  arith,
  crc_byte-eq-entry hi lo hi,
  bit_xor_self hi,
  entry-zero,
  xor_split 8 0 lo 0 0,
  bit_xor-zero 0,
  zero_xor lo,
)

abbrev pub crc_field : ℕ → List ℕ
crc_field c = c / 256 ∷ (c % 256) ∷ []

crc_field_residue : (c : ℕ) → c < 65536 → crc_bytes c (crc_field c) ≡ 0
unfolding crc_bytes
crc_field_residue c h = ground (arith, crc_byte_self (c / 256) (c % 256), crc_byte_self (c % 256) 0)

-- A message that its checksum follows, high byte first, has the checksum 0.
pub calc_crc_residue :
    (bs rest : List ℕ)
    → All IsByte bs
    → let c = crc_bytes 0xffff bs in calc_crc (bs ++ crc_field c ++ rest) (length bs + 2) ≡ some 0
calc_crc_residue bs rest k =
    let c : ℕ = crc_bytes 0xffff bs in
    let small : c < 65536 = crc_bytes-lt 0xffff bs (omega arith) k in
    let framed : All IsByte (bs ++ crc_field c) =
      All-append bs (crc_field c) IsByte k (omega arith, (omega arith, tt)) in
    rw (← length-append bs (crc_field c)) (
      calc_crc-eq-crc_bytes (bs ++ crc_field c) rest framed
      ∙ ap some (crc_bytes-append 0xffff bs (crc_field c) ∙ crc_field_residue c small))
