-- ===== src/Tc/Frame.antt =====
-- src/osdlp_tc.c: packing and unpacking a frame, and the checks on a received one. `none` is an
-- access out of range of a buffer.
pub mod Checksum
pub mod Fields
pub mod RoundTrip
pub mod Receive
pub mod Bounds
use osdlp.Common.{
  ℕ, zero, suc, ◌+◌, ◌-◌, ◌%◌, ◌^◌, ◌<<<◌, ◌>>>◌, bit_and, bit_or, ℤ, pos, negsuc, Bool, List, [],
  ◌∷◌, Option, none, some, leb, ◌==◌, if◌then◌else◌, u8, u16, not,
}
use osdlp.Common.Memory.{◌>>=◌, load, store, store_or, pointer_at, memcpy}
use osdlp.Clcw.{ClcwFrame, clcw_pack}
use osdlp.Crc.{calc_crc}
use osdlp.Tc.Types.{
  type_a, type_b, tc_data, tc_command, tc_loop_closed, seg_ended, tc_unseg, setvr_byte1,
  setvr_byte2, TcPrimaryHdr, TcSegHdr, TcFdf, TcUtilBuf, TcMissionParams, SegmentStatus, FarmConfig,
  FopConfig, TransferFrame,
}

-- The primary header as `osdlp_tc_unpack` reads it.
unfoldable pub load_primary_hdr : List ℕ → Option TcPrimaryHdr
load_primary_hdr pkt_in = do
  b0 ← load pkt_in 0
  b1 ← load pkt_in 1
  b2 ← load pkt_in 2
  b3 ← load pkt_in 3
  b4 ← load pkt_in 4
  some (record {
    version_num = bit_and (b0 >>> 6) 0x03;
    bypass = bit_and (b0 >>> 5) 0x01;
    ctrl_cmd = bit_and (b0 >>> 4) 0x01;
    rsvd_spare = bit_and (b0 >>> 2) 0x03;
    spacecraft_id = bit_or (bit_and b0 0x03 <<< 8) b1;
    vcid = bit_and (b2 >>> 2) 0x3f;
    frame_len = bit_or (bit_and b2 0x03 <<< 8) b3;
    frame_seq_num = b4;
  })

-- `buf[i - 1]` with an `int` index
abbrev pub load_before : List ℕ → ℕ → Option ℕ
load_before buf zero = none
load_before buf (suc i) = load buf i

-- The two bytes before and at `frame_len`, as a checksum.
unfoldable pub load_crc : List ℕ → ℕ → Option ℕ
load_crc buf frame_len = do
  hi ← load_before buf frame_len
  lo ← load buf frame_len
  some (bit_or (u16 (hi <<< 8)) lo)

-- The data field: the segment header if the channel has one, and the pointer behind it.
unfoldable pub load_fdf : TcFdf → ℕ → List ℕ → ℕ → Option TcFdf
load_fdf fdf seg_hdr_flag pkt_in data_len =
    if seg_hdr_flag == 0
    then (pointer_at pkt_in 5 >>= λ p. some (record fdf { bytes = p; data_len = data_len }))
    else (load pkt_in 5 >>= λ b5. pointer_at pkt_in 6 >>= λ p. some (record {
      seg_hdr = record { seq_flag = bit_and (b5 >>> 6) 0x03; map_id = bit_and b5 0x3f };
      bytes = p;
      data_len = data_len;
    }))

-- `osdlp_tc_unpack`
unfoldable pub tc_unpack : {C : Type 0} → TransferFrame C → List ℕ → Option (TransferFrame C)
tc_unpack tf pkt_in = do
  hdr ← load_primary_hdr pkt_in
  fdf ←
      load_fdf tf.frame_data tf.mission.seg_hdr_flag pkt_in
        ((hdr.frame_len + 1 + 65536 - tf.mission.fixed_overhead_len) % 65536)
  crc ← if tf.mission.crc_flag == 1 then load_crc pkt_in hdr.frame_len else some tf.crc
  some (record tf { primary_hdr = hdr; frame_data = fdf; crc = crc })

-- The primary header as `osdlp_tc_pack` writes it.
unfoldable pub store_primary_hdr : TcPrimaryHdr → ℕ → ℕ → List ℕ → Option (List ℕ)
store_primary_hdr h packet_len vs pkt_out = do
  pkt_out ← store pkt_out 0 (bit_and h.version_num 0x03 <<< 6)
  pkt_out ← store_or pkt_out 0 (bit_and h.bypass 0x01 <<< 5)
  pkt_out ← store_or pkt_out 0 (bit_and h.ctrl_cmd 0x01 <<< 4)
  pkt_out ← store_or pkt_out 0 (bit_and h.rsvd_spare 0x03 <<< 2)
  pkt_out ← store_or pkt_out 0 (bit_and (h.spacecraft_id >>> 8) 0x03)
  pkt_out ← store pkt_out 1 (bit_and h.spacecraft_id 0xff)
  pkt_out ← store pkt_out 2 (bit_and h.vcid 0x3f <<< 2)
  pkt_out ← store_or pkt_out 2 (bit_and (packet_len >>> 8) 0x03)
  pkt_out ← store pkt_out 3 (bit_and packet_len 0xff)
  store pkt_out 4 (if h.bypass == type_a then bit_and vs 0xff else 0)

-- The segment header, if the channel has one, and the data.
unfoldable pub store_fdf : TcSegHdr → ℕ → List ℕ → ℕ → List ℕ → Option (List ℕ)
store_fdf seg seg_hdr_flag data_in len pkt_out =
    if seg_hdr_flag == 0
    then memcpy pkt_out 5 data_in len
    else (store pkt_out 5 (bit_and seg.seq_flag 0x03 <<< 6) >>= λ out.
        store_or out 5 (bit_and seg.map_id 0x3f) >>= λ out. memcpy out 6 data_in len)

-- The checksum of the frame so far, behind it; also returned. A length of 0 wraps, as in C, to more
-- bytes than a buffer has.
unfoldable pub store_crc : ℕ → List ℕ → Option (List ℕ × ℕ)
store_crc packet_len pkt_out = do
  crc ← calc_crc pkt_out ((packet_len + 2 ^ 32 - 1) % 2 ^ 32)
  pkt_out ← store pkt_out (packet_len - 1) (bit_and (crc >>> 8) 0xff)
  pkt_out ← store pkt_out packet_len (bit_and crc 0xff)
  some (pkt_out, crc)

-- Everything in front of the checksum.
unfoldable pub store_fields : TransferFrame FopConfig → ℕ → List ℕ → ℕ → List ℕ → Option (List ℕ)
store_fields tf packet_len data_in len pkt_out = do
  pkt_out ← store_primary_hdr tf.primary_hdr packet_len tf.cop_cfg.vs pkt_out
  store_fdf tf.frame_data.seg_hdr tf.mission.seg_hdr_flag data_in len pkt_out

-- `osdlp_tc_pack`: the output buffer, and the frame with its checksum
unfoldable pub tc_pack :
    TransferFrame FopConfig → List ℕ → List ℕ → ℕ → Option (List ℕ × TransferFrame FopConfig)
tc_pack tf pkt_out data_in len = do
  let packet_len = (tf.mission.fixed_overhead_len + len + 65536 - 1) % 65536
  pkt_out ← store_fields tf packet_len data_in len pkt_out
  if tf.mission.crc_flag == 1
      then (store_crc packet_len pkt_out >>= λ out. some (out.0, record tf { crc = out.1 }))
      else some (pkt_out, tf)

-- The last test of `osdlp_frame_validation_check`: the checksum, computed and received.
unfoldable pub crc_check : List ℕ → ℕ → Option ℤ
crc_check rx_buffer frame_len = do
  crc ← calc_crc rx_buffer ((frame_len + 2 ^ 32 - 1) % 2 ^ 32)
  hi ← load_before rx_buffer frame_len
  lo ← load rx_buffer frame_len
  let rx_crc = bit_or (bit_and hi 0xff <<< 8) (bit_and lo 0xff)
  if not (crc == rx_crc) then some (negsuc 0) else some (pos 0)

-- `osdlp_frame_validation_check`
unfoldable pub frame_validation_check : {C : Type 0} → TransferFrame C → List ℕ → Option ℤ
frame_validation_check tf rx_buffer =
    let hdr = tf.primary_hdr in
    if not (tf.mission.version_num == hdr.version_num)
    then some (negsuc 0)
    else if not (tf.mission.spacecraft_id == hdr.spacecraft_id)
    then some (negsuc 0)
    else if tf.mission.crc_flag == 0
    then some (pos 0)
    else crc_check rx_buffer hdr.frame_len
