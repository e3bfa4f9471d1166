-- ===== src/Tc/Frame/Checksum.antt =====
-- The checksum that `osdlp_tc_pack` puts behind a frame, and what the receiver's functions read there.
use osdlp.Common.{
  ℕ, ◌+◌, ◌*◌, ◌/◌, ◌%◌, ◌<◌, ◌≡◌, refl, ◌>>>◌, bit_and, List, [], ◌∷◌, ◌++◌, some, arith, length,
  All, u8, pos,
}
use osdlp.Common.Bits.Fields.{and_mask, or_add}
use osdlp.Common.Memory.{◌>>=◌, load, store}
use osdlp.Crc.Bitwise.{crc_bytes}
use osdlp.Crc.Laws.{IsByte, crc_bytes-lt, crc_field, calc_crc-eq-crc_bytes}
use osdlp.Tc.Frame.{store_crc, load_crc, load_before, crc_check}

-- Two stores, one behind the other.
pub stores-append :
    (front : List ℕ) (a b v w : ℕ) (rest : List ℕ)
    → (store (front ++ (a ∷ b ∷ rest)) (length front) v >>= λ out. store out (length front + 1) w)
      ≡ some (front ++ (u8 v ∷ u8 w ∷ rest))
stores-append [] a b v w rest = refl
stores-append (x ∷ front) a b v w rest = ground (arith, stores-append front a b v w rest)

pub store_crc-eq :
    (body : List ℕ) (a b : ℕ) (rest : List ℕ)
    → All IsByte body
    → length body < 65536
    → let c = crc_bytes 0xffff body in
      store_crc (length body + 1) (body ++ (a ∷ b ∷ rest)) ≡ some (body ++ (crc_field c ++ rest), c)
unfolding store_crc
store_crc-eq body a b rest bytes small =
    let c : ℕ = crc_bytes 0xffff body in
    ground (
      arith,
      calc_crc-eq-crc_bytes body (a ∷ b ∷ rest) bytes,
      crc_bytes-lt 0xffff body (omega arith) bytes,
      and_mask 8 (c / 256),
      and_mask 8 c,
      stores-append body a b (bit_and (c >>> 8) 0xff) (bit_and c 0xff) rest,
    )

pub loads-append :
    (front : List ℕ) (a b : ℕ) (rest : List ℕ)
    → (load_before (front ++ (a ∷ b ∷ rest)) (length front + 1) ≡ some a)
      × (load (front ++ (a ∷ b ∷ rest)) (length front + 1) ≡ some b)
loads-append [] a b rest = (refl, refl)
loads-append (x ∷ front) a b rest = ground (arith, loads-append front a b rest)

pub load_crc-eq :
    (body : List ℕ) (c : ℕ) (rest : List ℕ)
    → c < 65536
    → load_crc (body ++ (crc_field c ++ rest)) (length body + 1) ≡ some c
unfolding load_crc
load_crc-eq body c rest h =
    ground (arith, loads-append body (c / 256) (c % 256) rest, or_add 8 (c / 256 * 256) (c % 256))

pub crc_check-eq :
    (body rest : List ℕ)
    → All IsByte body
    → length body < 65536
    → crc_check (body ++ (crc_field (crc_bytes 0xffff body) ++ rest)) (length body + 1)
      ≡ some (pos 0)
unfolding crc_check
crc_check-eq body rest bytes small =
    let c : ℕ = crc_bytes 0xffff body in
    ground (
      arith,
      calc_crc-eq-crc_bytes body (crc_field c ++ rest) bytes,
      crc_bytes-lt 0xffff body (omega arith) bytes,
      loads-append body (c / 256) (c % 256) rest,
      and_mask 8 (c / 256),
      and_mask 8 (c % 256),
      or_add 8 (c / 256 * 256) (c % 256),
    )
