-- ===== src/Tm/Frame/Sum.antt =====
-- The body of a frame, its bytes and length, and the checksum behind it.
use osdlp.Common.{
  ℕ, zero, suc, ◌+◌, ◌-◌, ◌/◌, ◌≤◌, ◌≡◌, false, inl, inr, Bool-cases, List, ◌∷◌, ◌++◌, some, arith,
  length, length-append, ◌==◌, ltb, All, All-append, bit_and, ◌>>>◌,
}
use mathlib.Core.List.{append_assoc}
use osdlp.Common.Bits.Fields.{and_mask}
use osdlp.Crc.Bitwise.{crc_bytes}
use osdlp.Crc.Laws.{IsByte, crc_bytes-lt, crc_field, calc_crc-eq-crc_bytes}
use osdlp.Tc.Frame.Checksum.{stores-append}
use osdlp.Tm.Types.{TmPrimaryHdr}
use osdlp.Tm.{repeated, tm_idle_packet, store_tm_crc}
use osdlp.Tm.Bounds.{length-repeated}
use osdlp.Tm.Frame.{TmLayout, tm_hdr_bytes, sec_hdr_bytes, ocf_bytes, tm_body, IsTmHdr, IsTmLayout}

pub tm_crc_stored :
    (body : List ℕ) (a b n : ℕ) (rest : List ℕ)
    → All IsByte body
    → n ≡ length body + 2
    → let c = crc_bytes 0xffff body in
      store_tm_crc n (body ++ (a ∷ b ∷ rest)) ≡ some (body ++ (crc_field c ++ rest), c)
unfolding store_tm_crc
tm_crc_stored body a b n rest bytes len =
    let c : ℕ = crc_bytes 0xffff body in
    let first : n - 2 ≡ length body = omega arith in
    let second : n - 1 ≡ length body + 1 = omega arith in
    let long : ltb n 2 ≡ false = ground arith in
    rw (long, first, second)
      (ground (
        arith,
        calc_crc-eq-crc_bytes body (0 ∷ 0 ∷ rest) bytes,
        crc_bytes-lt 0xffff body (omega arith) bytes,
        and_mask 8 (c / 256),
        and_mask 8 c,
        stores-append body a b 0 0 rest,
        stores-append body 0 0 (bit_and (c >>> 8) 0xff) (bit_and c 0xff) rest,
      ))

repeated_bytes : (n : ℕ) → All IsByte (repeated n tm_idle_packet)
repeated_bytes zero = tt
repeated_bytes (suc n) = (omega arith, repeated_bytes n)

sec_hdr_bytes_bytes :
    (h : TmPrimaryHdr) (l : TmLayout) → IsTmLayout l → All IsByte (sec_hdr_bytes h l.secondary_hdr)
sec_hdr_bytes_bytes h l v = elim (Bool-cases (h.status.sec_hdr == 1)) [
  | inl e ↦ rw e (omega (arith, v.sec_version, v.sec_len), v.sec_bytes)
  | inr e ↦ rw e tt
]

ocf_bytes_bytes : (h : TmPrimaryHdr) (l : TmLayout) → IsTmLayout l → All IsByte (ocf_bytes h l.ocf)
ocf_bytes_bytes h l v = elim (Bool-cases (h.ocf == 1)) [
  | inl e ↦ rw e v.ocf_bytes
  | inr e ↦ rw e tt
]

pub tm_body_bytes :
    (h : TmPrimaryHdr) (l : TmLayout) (bytes : List ℕ)
    → IsTmHdr h
    → IsTmLayout l
    → All IsByte bytes
    → All IsByte (tm_body h l bytes)
unfolding tm_body
tm_body_bytes h l bytes v m are = All-append (tm_hdr_bytes h) _ IsByte (ground arith) (
    All-append (sec_hdr_bytes h l.secondary_hdr) _ IsByte (sec_hdr_bytes_bytes h l m) (
      All-append bytes _ IsByte are (
        All-append (repeated (l.max_data_len - length bytes) tm_idle_packet) _ IsByte
          (repeated_bytes _) (ocf_bytes_bytes h l m))))

pub length-tm_body :
    (h : TmPrimaryHdr) (l : TmLayout) (bytes : List ℕ)
    → length bytes ≤ l.max_data_len
    → length (tm_body h l bytes)
      ≡ 6 + length (sec_hdr_bytes h l.secondary_hdr) + l.max_data_len + length (ocf_bytes h l.ocf)
unfolding tm_body
length-tm_body h l bytes fits =
    let sec = sec_hdr_bytes h l.secondary_hdr in
    let ocf = ocf_bytes h l.ocf in
    let idle = repeated (l.max_data_len - length bytes) tm_idle_packet in
    omega (
      arith,
      length-append sec (bytes ++ (idle ++ ocf)),
      length-append bytes (idle ++ ocf),
      length-append idle ocf,
      length-repeated (l.max_data_len - length bytes) tm_idle_packet,
    )

pub tm_body-append :
    (h : TmPrimaryHdr) (l : TmLayout) (bytes back : List ℕ)
    → tm_hdr_bytes h
        ++ (sec_hdr_bytes h l.secondary_hdr
            ++ (bytes
                ++ (repeated (l.max_data_len - length bytes) tm_idle_packet
                    ++ (ocf_bytes h l.ocf ++ back))))
      ≡ tm_body h l bytes ++ back
unfolding tm_body
tm_body-append h l bytes back = simp append_assoc
