-- ===== src/Tc/Frame/Receive.antt =====
-- What the receiver's functions make of a packed frame.
use osdlp.Common.{
  ℕ, ◌+◌, ◌-◌, ◌%◌, ◌≤◌, ◌<◌, ◌≡◌, refl, Bool, true, false, List, ◌++◌, Option, some, arith, length,
  drop, pos, ℤ, ◌==◌, if◌then◌else◌,
}
use mathlib.Core.List.{append_assoc}
use osdlp.Common.Memory.{◌>>=◌}
use osdlp.Crc.Bitwise.{crc_bytes}
use osdlp.Crc.Laws.{crc_field, crc_bytes-lt}
use osdlp.Tc.Types.{TcPrimaryHdr, FopConfig, TransferFrame}
use osdlp.Tc.Frame.{
  tc_pack, tc_unpack, frame_validation_check, load_crc, crc_check, load_primary_hdr, load_fdf,
}
use osdlp.Tc.Frame.Checksum.{load_crc-eq, crc_check-eq}
use osdlp.Tc.Frame.Fields.{seq_num_of, seg_bytes, load_primary_hdr-eq, load_fdf-eq}
use osdlp.Tc.Frame.RoundTrip.{
  IsSendable, frame, frame_body, frame_size, tc_pack-eq-frame, frame_body_bytes, length-frame_body,
}

-- A receiver's channel, set up like the sender's.
pub record Matches {C : Type 0} (tf : TransferFrame FopConfig) (rx : TransferFrame C) : Type 0 where
  pub seg_hdr_flag : rx.mission.seg_hdr_flag ≡ tf.mission.seg_hdr_flag
  pub crc_flag : rx.mission.crc_flag ≡ tf.mission.crc_flag
  pub fixed_overhead_len : rx.mission.fixed_overhead_len ≡ tf.mission.fixed_overhead_len

-- The header as received: the sender's, with the length and the sequence number.
abbrev pub hdr_received : TransferFrame FopConfig → List ℕ → TcPrimaryHdr
hdr_received tf bytes = record (tf.primary_hdr) {
  frame_len = frame_size tf bytes - 1;
  frame_seq_num = seq_num_of tf.primary_hdr tf.cop_cfg.vs;
}

-- What follows the data in the buffer
abbrev pub trailer : TransferFrame FopConfig → List ℕ → List ℕ → List ℕ
trailer tf bytes rest =
    if tf.mission.crc_flag == 1
    then crc_field (crc_bytes 0xffff (frame_body tf bytes)) ++ rest
    else rest

abbrev pub received :
    {C : Type 0} → TransferFrame FopConfig → TransferFrame C → List ℕ → List ℕ → TransferFrame C
received tf rx bytes rest = record rx {
  primary_hdr = hdr_received tf bytes;
  frame_data = record {
    seg_hdr = if tf.mission.seg_hdr_flag == 0 then rx.frame_data.seg_hdr else tf.frame_data.seg_hdr;
    bytes = bytes ++ trailer tf bytes rest;
    data_len = length bytes;
  };
  crc = if tf.mission.crc_flag == 1 then crc_bytes 0xffff (frame_body tf bytes) else rx.crc;
}

frame_hdr :
    (tf : TransferFrame FopConfig) (bytes rest : List ℕ)
    → IsSendable tf bytes
    → load_primary_hdr (frame tf bytes rest) ≡ some (hdr_received tf bytes)
unfolding frame_body
frame_hdr tf bytes rest v =
    load_primary_hdr-eq tf.primary_hdr (frame_size tf bytes - 1)
      (seq_num_of tf.primary_hdr tf.cop_cfg.vs)
      ((seg_bytes tf.frame_data.seg_hdr tf.mission.seg_hdr_flag ++ bytes) ++ trailer tf bytes rest)
      v.hdr (ground arith)

frame_fdf :
    {C : Type 0} (tf : TransferFrame FopConfig) (rx : TransferFrame C) (bytes rest : List ℕ)
    → IsSendable tf bytes
    → load_fdf rx.frame_data tf.mission.seg_hdr_flag (frame tf bytes rest) (length bytes)
      ≡ some (received tf rx bytes rest).frame_data
unfolding frame_body
frame_fdf tf rx bytes rest v =
    rw
      (append_assoc (seg_bytes tf.frame_data.seg_hdr tf.mission.seg_hdr_flag) bytes
        (trailer tf bytes rest))
      (load_fdf-eq rx.frame_data tf.frame_data.seg_hdr tf.mission.seg_hdr_flag _ _ _ _ _
        (length bytes) (bytes ++ trailer tf bytes rest) v.seq_flag v.map_id)

body_end :
    (tf : TransferFrame FopConfig) (bytes : List ℕ)
    → IsSendable tf bytes
    → (tf.mission.crc_flag == 1) ≡ true
    → frame_size tf bytes - 1 ≡ length (frame_body tf bytes) + 1
body_end tf bytes v flag = ground (arith, length-frame_body tf bytes v)

frame_sum :
    (tf : TransferFrame FopConfig) (bytes rest : List ℕ)
    → IsSendable tf bytes
    → (tf.mission.crc_flag == 1) ≡ true
    → load_crc (frame tf bytes rest) (frame_size tf bytes - 1)
      ≡ some (crc_bytes 0xffff (frame_body tf bytes))
frame_sum tf bytes rest v flag =
    let c : ℕ = crc_bytes 0xffff (frame_body tf bytes) in
    let small : c < 65536 =
      crc_bytes-lt 0xffff (frame_body tf bytes) (omega arith) (frame_body_bytes tf bytes v) in
    rw (body_end tf bytes v flag) (ground (arith, load_crc-eq (frame_body tf bytes) c rest small))

if_some :
    {A : Type 0} (b : Bool) (o : Option A) (a d : A)
    → (b ≡ true → o ≡ some a)
    → (if b then o else some d) ≡ some (if b then a else d)
if_some true o a d h = h refl
if_some false o a d h = refl

-- What `osdlp_tc_unpack` makes of a sender's frame, on a channel set up like the sender's
pub tc_unpack-frame :
    {C : Type 0} (tf : TransferFrame FopConfig) (rx : TransferFrame C) (bytes rest : List ℕ)
    → IsSendable tf bytes
    → Matches tf rx
    → tc_unpack rx (frame tf bytes rest) ≡ some (received tf rx bytes rest)
unfolding tc_unpack
tc_unpack-frame tf rx bytes rest v m =
    let len : (frame_size tf bytes - 1 + 1 + 65536 - rx.mission.fixed_overhead_len) % 65536
        ≡ length bytes =
      ground arith in
    let sum =
      if_some (tf.mission.crc_flag == 1) (load_crc (frame tf bytes rest) (frame_size tf bytes - 1))
        (crc_bytes 0xffff (frame_body tf bytes)) rx.crc (frame_sum tf bytes rest v) in
    rw
      (
        frame_hdr tf bytes rest v,
        len,
        m.seg_hdr_flag,
        m.crc_flag,
        frame_fdf tf rx bytes rest v,
        sum,
      )
      refl

frame_checks :
    (tf : TransferFrame FopConfig) (bytes rest : List ℕ)
    → IsSendable tf bytes
    → (tf.mission.crc_flag == 1) ≡ true
    → crc_check (frame tf bytes rest) (frame_size tf bytes - 1) ≡ some (pos 0)
frame_checks tf bytes rest v flag = rw (body_end tf bytes v flag) (
    ground (
      arith,
      length-frame_body tf bytes v,
      crc_check-eq (frame_body tf bytes) rest (frame_body_bytes tf bytes v),
    ))

-- Such a frame passes `osdlp_frame_validation_check`
pub received_checks :
    {C : Type 0} (tf : TransferFrame FopConfig) (rx : TransferFrame C) (bytes rest : List ℕ)
    → IsSendable tf bytes
    → Matches tf rx
    → rx.mission.version_num ≡ tf.primary_hdr.version_num
    → rx.mission.spacecraft_id ≡ tf.primary_hdr.spacecraft_id
    → frame_validation_check (received tf rx bytes rest) (frame tf bytes rest) ≡ some (pos 0)
unfolding frame_validation_check
received_checks tf rx bytes rest v m ver id = ground (arith, frame_checks tf bytes rest v)

-- A frame that `osdlp_tc_pack` builds in a buffer with room for it is read back by `osdlp_tc_unpack`, on a channel set up like the sender's: the header with the frame's length and V(S), the segment header where there is one, the data and its length, and the checksum. On a channel of the same version and spacecraft it passes `osdlp_frame_validation_check`.
pub tc_unpack-tc_pack :
    {C : Type 0} (tf : TransferFrame FopConfig) (rx : TransferFrame C) (bytes more buf : List ℕ)
    → IsSendable tf bytes
    → Matches tf rx
    → rx.mission.version_num ≡ tf.primary_hdr.version_num
    → rx.mission.spacecraft_id ≡ tf.primary_hdr.spacecraft_id
    → frame_size tf bytes ≤ length buf
    → (tc_pack tf buf (bytes ++ more) (length bytes) >>= λ packed. tc_unpack rx packed.0 >>= λ got.
        frame_validation_check got packed.0 >>= λ ret.
        let both : TransferFrame C × ℤ = (got, ret) in some both)
      ≡ some (received tf rx bytes (drop (frame_size tf bytes) buf), pos 0)
tc_unpack-tc_pack tf rx bytes more buf v m ver id room =
    let rest : List ℕ = drop (frame_size tf bytes) buf in
    rw
      (
        tc_pack-eq-frame tf bytes more buf v room,
        tc_unpack-frame tf rx bytes rest v m,
        received_checks tf rx bytes rest v m ver id,
      )
      refl
