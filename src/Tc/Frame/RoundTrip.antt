-- ===== src/Tc/Frame/RoundTrip.antt =====
-- The frame that `osdlp_tc_pack` builds, byte by byte.
use osdlp.Common.{
  ℕ, zero, suc, ◌+◌, ◌-◌, ◌*◌, ◌/◌, ◌%◌, ◌≤◌, ◌<◌, ◌≡◌, refl, List, [], ◌∷◌, ◌++◌, some, arith,
  length, drop, All, ◌==◌, if◌then◌else◌, inl, inr, Bool-cases,
}
use osdlp.Crc.Bitwise.{crc_bytes}
use osdlp.Crc.Laws.{IsByte, crc_field}
use osdlp.Tc.Types.{FopConfig, TransferFrame}
use osdlp.Tc.Frame.{store_fields, tc_pack}
use osdlp.Tc.Frame.Checksum.{store_crc-eq}
use osdlp.Tc.Setup.{overhead}
use osdlp.Tc.Frame.Fields.{
  IsTcHdr, hdr_bytes, seq_num_of, seg_bytes, store_primary_hdr-eq, store_fdf-eq,
}

-- The frame before its checksum, on a channel, with `bytes` in the data field.
abbrev pub frame_size : TransferFrame FopConfig → List ℕ → ℕ
frame_size tf bytes = overhead tf.mission.seg_hdr_flag tf.mission.crc_flag + length bytes

unfoldable pub frame_body : TransferFrame FopConfig → List ℕ → List ℕ
frame_body tf bytes =
    hdr_bytes tf.primary_hdr (frame_size tf bytes - 1) (seq_num_of tf.primary_hdr tf.cop_cfg.vs)
    ++ (seg_bytes tf.frame_data.seg_hdr tf.mission.seg_hdr_flag ++ bytes)

abbrev pub frame_crc : TransferFrame FopConfig → List ℕ → ℕ
frame_crc tf bytes =
    if tf.mission.crc_flag == 1 then crc_bytes 0xffff (frame_body tf bytes) else tf.crc

-- The whole frame, and what follows it in a buffer.
abbrev pub frame : TransferFrame FopConfig → List ℕ → List ℕ → List ℕ
frame tf bytes rest =
    frame_body tf bytes
    ++ (if tf.mission.crc_flag == 1
        then crc_field (crc_bytes 0xffff (frame_body tf bytes)) ++ rest
        else rest)

-- A channel and data that make a frame of at most 1024 bytes.
pub record IsSendable (tf : TransferFrame FopConfig) (bytes : List ℕ) : Type 0 where
  pub hdr : IsTcHdr tf.primary_hdr
  pub seq_flag : tf.frame_data.seg_hdr.seq_flag < 4
  pub map_id : tf.frame_data.seg_hdr.map_id < 64
  pub vs : tf.cop_cfg.vs < 256
  pub seg_hdr_flag : tf.mission.seg_hdr_flag < 2
  pub crc_flag : tf.mission.crc_flag < 2
  pub fixed_overhead_len :
      tf.mission.fixed_overhead_len ≡ overhead tf.mission.seg_hdr_flag tf.mission.crc_flag
  pub are_bytes : All IsByte bytes
  pub size : frame_size tf bytes ≤ 1024

pub frame_body_bytes :
    (tf : TransferFrame FopConfig) (bytes : List ℕ)
    → IsSendable tf bytes
    → All IsByte (frame_body tf bytes)
unfolding frame_body
frame_body_bytes tf bytes v = ground arith

pub length-frame_body :
    (tf : TransferFrame FopConfig) (bytes : List ℕ)
    → IsSendable tf bytes
    → length (frame_body tf bytes) + (if tf.mission.crc_flag == 1 then 2 else 0)
      ≡ frame_size tf bytes
unfolding frame_body
length-frame_body tf bytes v = ground arith

drop-two :
    (k : ℕ) (buf : List ℕ)
    → k + 2 ≤ length buf
    → (a b : ℕ) × (drop k buf ≡ a ∷ b ∷ drop (k + 2) buf)
drop-two zero (a ∷ b ∷ buf) h = (a, b, refl)
drop-two zero (a ∷ []) h = absurd (omega arith)
drop-two k [] h = absurd (omega arith)
drop-two (suc k) (a ∷ buf) h = ground (arith, drop-two k buf)

abbrev fields_len : TransferFrame FopConfig → List ℕ → ℕ
fields_len tf bytes =
    length (seg_bytes tf.frame_data.seg_hdr tf.mission.seg_hdr_flag) + length bytes

packet_len-eq :
    (tf : TransferFrame FopConfig) (bytes : List ℕ)
    → IsSendable tf bytes
    → (tf.mission.fixed_overhead_len + length bytes + 65536 - 1) % 65536 ≡ frame_size tf bytes - 1
packet_len-eq tf bytes v = ground arith

store_fields-eq :
    (tf : TransferFrame FopConfig) (a b c d e : ℕ) (bytes more buf : List ℕ)
    → IsSendable tf bytes
    → fields_len tf bytes ≤ length buf
    → store_fields tf
        (frame_size tf bytes - 1)
        (bytes ++ more)
        (length bytes)
        (a ∷ b ∷ c ∷ d ∷ e ∷ buf)
      ≡ some (frame_body tf bytes ++ drop (fields_len tf bytes) buf)
unfolding store_fields frame_body
store_fields-eq tf a b c d e bytes more buf v room = ground (
  arith,
  store_primary_hdr-eq tf.primary_hdr (frame_size tf bytes - 1) tf.cop_cfg.vs a b c d e buf v.hdr,
  store_fdf-eq tf.frame_data.seg_hdr tf.mission.seg_hdr_flag
      (tf.primary_hdr.version_num * 64
        + tf.primary_hdr.bypass * 32
        + tf.primary_hdr.ctrl_cmd * 16
        + tf.primary_hdr.rsvd_spare * 4
        + tf.primary_hdr.spacecraft_id / 256)
      (tf.primary_hdr.spacecraft_id % 256)
      (tf.primary_hdr.vcid * 4 + (frame_size tf bytes - 1) / 256) ((frame_size tf bytes - 1) % 256)
      (seq_num_of tf.primary_hdr tf.cop_cfg.vs) bytes more buf,
)

tc_pack-plain :
    (tf : TransferFrame FopConfig) (a b c d e : ℕ) (bytes more buf : List ℕ)
    → IsSendable tf bytes
    → tf.mission.crc_flag ≡ 0
    → fields_len tf bytes ≤ length buf
    → tc_pack tf (a ∷ b ∷ c ∷ d ∷ e ∷ buf) (bytes ++ more) (length bytes)
      ≡ some (frame_body tf bytes ++ drop (fields_len tf bytes) buf, tf)
unfolding tc_pack
tc_pack-plain tf a b c d e bytes more buf v flag room =
    rw (packet_len-eq tf bytes v, store_fields-eq tf a b c d e bytes more buf v room, flag) refl

tc_pack-summed :
    (tf : TransferFrame FopConfig) (a b c d e : ℕ) (bytes more buf : List ℕ)
    → IsSendable tf bytes
    → tf.mission.crc_flag ≡ 1
    → fields_len tf bytes + 2 ≤ length buf
    → let crc = crc_bytes 0xffff (frame_body tf bytes) in
      tc_pack tf (a ∷ b ∷ c ∷ d ∷ e ∷ buf) (bytes ++ more) (length bytes)
      ≡ some (
        frame_body tf bytes ++ (crc_field crc ++ drop (fields_len tf bytes + 2) buf),
        record tf { crc = crc },
      )
unfolding tc_pack
tc_pack-summed tf a b c d e bytes more buf v flag room =
    let (x, y, two) = drop-two (fields_len tf bytes) buf room in
    let size : frame_size tf bytes - 1 ≡ length (frame_body tf bytes) + 1 =
      ground (arith, length-frame_body tf bytes v) in
    rw
      (
        packet_len-eq tf bytes v,
        store_fields-eq tf a b c d e bytes more buf v (omega arith),
        two,
        size,
      )
      (ground (
        arith,
        store_crc-eq (frame_body tf bytes) x y (drop (fields_len tf bytes + 2) buf)
            (frame_body_bytes tf bytes v),
      ))

fields_end :
    (tf : TransferFrame FopConfig) (bytes : List ℕ)
    → IsSendable tf bytes
    → frame_size tf bytes
      ≡ suc (
          suc (suc (suc (suc (fields_len tf bytes + (if tf.mission.crc_flag == 1 then 2 else 0))))))
fields_end tf bytes v = ground arith

-- Into a buffer with room for it, `osdlp_tc_pack` writes the frame of the standard, with the length field set, V(S) in type-A frames and the checksum where the channel has one, and writes nothing behind it.
pub tc_pack-eq-frame :
    (tf : TransferFrame FopConfig) (bytes more buf : List ℕ)
    → IsSendable tf bytes
    → frame_size tf bytes ≤ length buf
    → tc_pack tf buf (bytes ++ more) (length bytes)
      ≡ some
          (frame tf bytes (drop (frame_size tf bytes) buf), record tf { crc = frame_crc tf bytes })
tc_pack-eq-frame tf bytes more (a ∷ b ∷ c ∷ d ∷ x ∷ buf) v room =
    elim (Bool-cases (tf.mission.crc_flag == 1)) [
      | inl e ↦
          rw (fields_end tf bytes v, e)
            (tc_pack-summed tf a b c d x bytes more buf v (ground arith)
              (ground (arith, fields_end tf bytes v)))
      | inr e ↦
          rw (fields_end tf bytes v, e)
            (ground (arith, tc_pack-plain tf a b c d x bytes more buf v))
    ]
tc_pack-eq-frame tf bytes more buf v room = absurd (ground arith)
