-- ===== src/Tc/Frame/Bounds.antt =====
-- Packing a frame into a buffer with room for it stays in range, whatever the channel holds.
use osdlp.Common.{
  Bool-cases, inl, inr, ℕ, zero, suc, ◌+◌, ◌-◌, ◌%◌, ◌^◌, ◌≤◌, ◌<◌, ◌≡◌, refl, List, [], ◌∷◌, some,
  arith, length, bit_and, bit_xor, ◌>>>◌, if◌then◌else◌, ◌==◌, ◌∙◌, ◌<<<◌, true, false,
}
use osdlp.Common.Bits.Fields.{and_mask}
use osdlp.Common.Memory.{◌>>=◌, store, store_or, memcpy}
use osdlp.Common.Memory.Bounds.{Kept, store-Kept, memcpy-Kept, load_in_range, Kept-some}
use osdlp.Crc.{crc_step, crc_loop, calc_crc}
use osdlp.Crc.Bitwise.{entry_lem}
use osdlp.Tc.Types.{FopConfig, TransferFrame, TcSegHdr, TcMissionParams}
use osdlp.Tc.Setup.{overhead}
use osdlp.Tc.Frame.{store_primary_hdr, store_fdf, store_fields, store_crc, tc_pack}

crc_step_returns : (crc b : ℕ) → (next : ℕ) × (crc_step crc b ≡ some next)
unfolding crc_step
crc_step_returns crc b =
    let i = bit_and (bit_xor (crc >>> 8) b) 0xff in
    let found = (entry_lem i (omega (arith, and_mask 8 (bit_xor (crc >>> 8) b)))).0 in
    rw found (_, refl)

crc_loop_returns :
    (bytes : List ℕ) (left i crc : ℕ)
    → i + left ≤ length bytes
    → (out : ℕ) × (crc_loop bytes left i crc ≡ some out)
unfolding crc_loop
crc_loop_returns bytes zero i crc h = (crc, refl)
crc_loop_returns bytes (suc left) i crc h =
    let (b, at_i) = load_in_range bytes i (omega arith) in
    let (next, stepped) = crc_step_returns crc b in
    rw (at_i, stepped) (crc_loop_returns bytes left (i + 1) next (omega arith))

-- Over a buffer of at least `n` bytes the checksum stays in range of the buffer and of its table.
pub calc_crc_returns :
    (bytes : List ℕ) (n : ℕ) → n ≤ length bytes → (out : ℕ) × (calc_crc bytes n ≡ some out)
unfolding calc_crc
calc_crc_returns bytes n h = crc_loop_returns bytes n 0 0xffff (omega arith)

store_fdf-Kept :
    (seg : TcSegHdr) (flag len a b c d e : ℕ) (bytes buf : List ℕ)
    → len ≤ length bytes
    → (if flag == 0 then 0 else 1) + len ≤ length buf
    → let out = a ∷ b ∷ c ∷ d ∷ e ∷ buf in Kept (length out) (store_fdf seg flag bytes len out)
unfolding store_fdf
store_fdf-Kept seg flag len a b c d e bytes buf h g = elim (Bool-cases (flag == 0)) [
  | inl on ↦ rw on (memcpy-Kept (a ∷ b ∷ c ∷ d ∷ e ∷ buf) 5 bytes len h (ground arith))
  | inr off ↦ rw off (header_at buf (ground arith))
]
  where
    header_at :
        (buf : List ℕ)
        → 1 + len ≤ length buf
        → let out = a ∷ b ∷ c ∷ d ∷ e ∷ buf in
          Kept (length out) (
            store out 5 (bit_and seg.seq_flag 0x03 <<< 6) >>= λ out.
            store_or out 5 (bit_and seg.map_id 0x3f) >>= λ out. memcpy out 6 bytes len)
    header_at [] g = absurd (omega arith)
    header_at (x ∷ buf) g = memcpy-Kept (a ∷ b ∷ c ∷ d ∷ e ∷ _ ∷ buf) 6 bytes len h (omega arith)

store_fields-Kept :
    (tf : TransferFrame FopConfig) (packet_len len : ℕ) (bytes buf : List ℕ)
    → len ≤ length bytes
    → 5 + (if tf.mission.seg_hdr_flag == 0 then 0 else 1) + len ≤ length buf
    → Kept (length buf) (store_fields tf packet_len bytes len buf)
unfolding store_fields store_primary_hdr
store_fields-Kept tf packet_len len bytes (a ∷ b ∷ c ∷ d ∷ e ∷ buf) h g =
    store_fdf-Kept tf.frame_data.seg_hdr tf.mission.seg_hdr_flag len _ _ _ _ _ bytes buf h
      (omega arith)
store_fields-Kept tf packet_len len bytes buf h g = absurd (omega arith)

store_crc_returns :
    (packet_len : ℕ) (buf : List ℕ)
    → 1 ≤ packet_len
    → packet_len < length buf
    → packet_len < 65536
    → (out : List ℕ) × (crc : ℕ) × (store_crc packet_len buf ≡ some (out, crc))
      × (length out ≡ length buf)
unfolding store_crc
store_crc_returns packet_len buf pos room small =
    let (crc, summed) = calc_crc_returns buf ((packet_len + 2 ^ 32 - 1) % 2 ^ 32) (omega arith) in
    let (hi, at_hi, n) =
      Kept-some _ _ (store-Kept buf (packet_len - 1) (bit_and (crc >>> 8) 0xff) (omega arith)) in
    let (lo, at_lo, m) =
      Kept-some _ _ (store-Kept hi packet_len (bit_and crc 0xff) (omega arith)) in
    (lo, crc, rw (summed, at_hi, at_lo) refl, omega arith)

-- `fixed_overhead_len` agrees with the channel's flags, and the buffer has room for the frame.
pub record HasRoom (m : TcMissionParams) (len : ℕ) (buf : List ℕ) : Type 0 where
  pub seg_hdr_flag : m.seg_hdr_flag < 2
  pub fixed_overhead_len : m.fixed_overhead_len ≡ overhead m.seg_hdr_flag m.crc_flag
  pub size : m.fixed_overhead_len + len ≤ 65536
  pub room : m.fixed_overhead_len + len ≤ length buf

-- `osdlp_tc_pack` returns, with a buffer of the same length and nothing changed but the checksum.
unfoldable pub ReturnsPacked : TransferFrame FopConfig → List ℕ → List ℕ → ℕ → Type 0
ReturnsPacked tf buf bytes len =
    (out : List ℕ) × (crc : ℕ) × (tc_pack tf buf bytes len ≡ some (out, record tf { crc = crc }))
    × (length out ≡ length buf)

pack_filled :
    (tf : TransferFrame FopConfig) (buf bytes filled out : List ℕ) (len packet_len crc : ℕ)
    → packet_len ≡ (tf.mission.fixed_overhead_len + len + 65536 - 1) % 65536
    → store_fields tf packet_len bytes len buf ≡ some filled
    → (tf.mission.crc_flag == 1) ≡ true
    → store_crc packet_len filled ≡ some (out, crc)
    → tc_pack tf buf bytes len ≡ some (out, record tf { crc = crc })
unfolding tc_pack
pack_filled tf buf bytes filled out len packet_len crc p fields on sum =
    rw⁻¹ p (rw (fields, on, sum) refl)

pack_without :
    (tf : TransferFrame FopConfig) (buf bytes filled : List ℕ) (len packet_len : ℕ)
    → packet_len ≡ (tf.mission.fixed_overhead_len + len + 65536 - 1) % 65536
    → store_fields tf packet_len bytes len buf ≡ some filled
    → (tf.mission.crc_flag == 1) ≡ false
    → tc_pack tf buf bytes len ≡ some (filled, tf)
unfolding tc_pack
pack_without tf buf bytes filled len packet_len p fields off = rw⁻¹ p (rw (fields, off) refl)

-- Given as many bytes of data as it is told, and a buffer with room for the frame, `osdlp_tc_pack`
-- stays in range of both buffers, whatever the header's members hold. It changes nothing of the
-- channel but the checksum.
pub tc_pack_in_range :
    (tf : TransferFrame FopConfig) (buf bytes : List ℕ) (len : ℕ)
    → len ≤ length bytes
    → HasRoom tf.mission len buf
    → ReturnsPacked tf buf bytes len
unfolding ReturnsPacked
tc_pack_in_range tf buf bytes len h v =
    let packet_len : ℕ = (tf.mission.fixed_overhead_len + len + 65536 - 1) % 65536 in
    let (filled, fields, n) =
      Kept-some _ _ (store_fields-Kept tf packet_len len bytes buf h (ground arith)) in
    elim (Bool-cases (tf.mission.crc_flag == 1)) [
      | inl on ↦
          let (out, crc, sum, m) =
            store_crc_returns packet_len filled (ground arith) (ground arith) (ground arith) in
          (
            out,
            crc,
            pack_filled tf buf bytes filled out len packet_len crc refl fields on sum,
            m ∙ n,
          )
      | inr off ↦
          (filled, tf.crc, pack_without tf buf bytes filled len packet_len refl fields off, n)
    ]
