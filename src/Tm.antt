-- ===== src/Tm.antt =====
-- src/osdlp_tm.c: telemetry transfer frames, packed and unpacked.
pub mod Types
pub mod Bounds
pub mod Host
pub mod Setup
pub mod Frame
pub mod Receive
pub mod Transmit
pub mod Link
use osdlp.Common.{
  ℕ, zero, suc, ◌+◌, ◌-◌, ◌%◌, ◌^◌, Bool, true, false, not, ◌&&◌, ◌||◌, List, [], ◌∷◌, Option, none,
  some, ltb, ◌==◌, if◌then◌else◌, bit_and, bit_or, ◌<<<◌, ◌>>>◌, u16,
}
use osdlp.Common.Memory.{◌>>=◌, load, store, store_or, pointer_at, read_bytes, write_at, memcpy}
use osdlp.Crc.{calc_crc}
use osdlp.Tm.Types.{TmPrimaryHdr, TmSecHdr, TmMissionParams, TmTransferFrame}

-- `TM_IDLE_PACKET`
abbrev pub tm_idle_packet : ℕ
tm_idle_packet = 0xe0

abbrev pub repeated : ℕ → ℕ → List ℕ
repeated zero v = []
repeated (suc n) v = v ∷ repeated n v

-- `memset(&dst[at], v, n)`
abbrev pub memset : List ℕ → ℕ → ℕ → ℕ → Option (List ℕ)
memset dst at v n = write_at dst at (repeated n v)

-- The primary header as `osdlp_tm_pack` writes it
unfoldable pub store_tm_hdr : TmPrimaryHdr → List ℕ → Option (List ℕ)
store_tm_hdr h pkt_out = do
  pkt_out ← store pkt_out 0 (bit_and h.mcid.version_num 0x03 <<< 6)
  pkt_out ← store_or pkt_out 0 (bit_and (h.mcid.spacecraft_id >>> 4) 0x3f)
  pkt_out ← store pkt_out 1 (bit_and h.mcid.spacecraft_id 0x0f <<< 4)
  pkt_out ← store_or pkt_out 1 (bit_and h.vcid 0x07 <<< 1)
  pkt_out ← store_or pkt_out 1 (bit_and h.ocf 0x01)
  pkt_out ← store pkt_out 2 (bit_and h.mc_frame_cnt 0xff)
  pkt_out ← store pkt_out 3 (bit_and h.vc_frame_cnt 0xff)
  pkt_out ← store pkt_out 4 (bit_and h.status.sec_hdr 0x01 <<< 7)
  pkt_out ← store_or pkt_out 4 (bit_and h.status.sync 0x01 <<< 6)
  pkt_out ← store_or pkt_out 4 (bit_and h.status.pkt_order 0x01 <<< 5)
  pkt_out ← store_or pkt_out 4 (bit_and h.status.seg_len_id 0x03 <<< 3)
  pkt_out ← store_or pkt_out 4 (bit_and (h.status.first_hdr_ptr >>> 8) 0x07)
  store pkt_out 5 (bit_and h.status.first_hdr_ptr 0xff)

-- The secondary header
unfoldable pub store_sec_hdr : TmSecHdr → List ℕ → Option (List ℕ)
store_sec_hdr h pkt_out = do
  pkt_out ← store pkt_out 6 (bit_and h.sec_hdr_id.version_num 0x03 <<< 6)
  pkt_out ← store_or pkt_out 6 (bit_and h.sec_hdr_id.length 0x3f)
  memcpy pkt_out 7 h.sec_hdr_data_field h.sec_hdr_id.length

-- The checksum at the end of the frame; a frame of less than two bytes has no place for it.
unfoldable pub store_tm_crc : ℕ → List ℕ → Option (List ℕ × ℕ)
store_tm_crc frame_len pkt_out = if ltb frame_len 2 then none else (do
  pkt_out ← store pkt_out (frame_len - 2) 0
  pkt_out ← store pkt_out (frame_len - 1) 0
  crc ← calc_crc pkt_out (frame_len - 2)
  pkt_out ← store pkt_out (frame_len - 2) (bit_and (crc >>> 8) 0xff)
  pkt_out ← store pkt_out (frame_len - 1) (bit_and crc 0xff)
  some (pkt_out, crc))

-- What stands between the primary header and the checksum
unfoldable pub store_tm_data : TmTransferFrame → List ℕ → ℕ → List ℕ → Option (List ℕ)
store_tm_data tf data_in len pkt_out = do
  let m = tf.mission
  pkt_out ←
      if tf.primary_hdr.status.sec_hdr == 1
      then store_sec_hdr tf.secondary_hdr pkt_out
      else some pkt_out
  pkt_out ← if not (len == 0) then memcpy pkt_out m.header_len data_in len else some pkt_out
  pkt_out ←
      if tf.primary_hdr.ocf == 1
      then memcpy pkt_out (m.header_len + m.max_data_len) tf.ocf 4
      else some pkt_out
  if ltb len m.max_data_len
      then memset pkt_out (m.header_len + len) tm_idle_packet (m.max_data_len - len)
      else some pkt_out

-- The last part of `osdlp_tm_pack`: the checksum, where the channel has one
unfoldable pub seal_tm : TmTransferFrame → List ℕ → Option (List ℕ × TmTransferFrame)
seal_tm tf pkt_out =
    if tf.mission.crc_present == 1
    then (store_tm_crc tf.mission.frame_len pkt_out >>= λ out.
        some (out.0, record tf { crc = out.1 }))
    else some (pkt_out, tf)

-- `osdlp_tm_pack`: the output buffer, and the frame with its checksum
unfoldable pub tm_pack : TmTransferFrame → List ℕ → List ℕ → ℕ → Option (List ℕ × TmTransferFrame)
tm_pack tf pkt_out data_in len = do
  pkt_out ← store_tm_hdr tf.primary_hdr pkt_out
  pkt_out ← store_tm_data tf data_in len pkt_out
  seal_tm tf pkt_out

-- The primary header as `osdlp_tm_unpack` reads it. The version number is the truth value of
-- `(pkt_in[0] >> 6) && 0x03`.
unfoldable pub load_tm_hdr : List ℕ → Option TmPrimaryHdr
load_tm_hdr pkt_in = do
  b0 ← load pkt_in 0
  b1 ← load pkt_in 1
  b2 ← load pkt_in 2
  b3 ← load pkt_in 3
  b4 ← load pkt_in 4
  b5 ← load pkt_in 5
  some (record {
    mcid = record {
      version_num = if (b0 >>> 6) == 0 then 0 else 1;
      spacecraft_id = bit_or (bit_and b0 0x3f <<< 4) (bit_and (b1 >>> 4) 0x0f);
    };
    vcid = bit_and (b1 >>> 1) 0x07;
    ocf = bit_and b1 0x01;
    mc_frame_cnt = b2;
    vc_frame_cnt = b3;
    status = record {
      sec_hdr = bit_and (b4 >>> 7) 0x01;
      sync = bit_and (b4 >>> 6) 0x01;
      pkt_order = bit_and (b4 >>> 5) 0x01;
      seg_len_id = bit_and (b4 >>> 3) 0x03;
      first_hdr_ptr = bit_or (bit_and b4 0x07 <<< 8) b5;
    };
  })

-- `osdlp_tm_unpack`
unfoldable pub tm_unpack : TmTransferFrame → List ℕ → Option TmTransferFrame
tm_unpack tf pkt_in = do
  let m = tf.mission
  hdr ← load_tm_hdr pkt_in
  sec ←
      if hdr.status.sec_hdr == 1
      then (load pkt_in 6 >>= λ b6. some (record (tf.secondary_hdr) {
        sec_hdr_id = record { version_num = bit_and (b6 >>> 6) 0x03; length = bit_and b6 0x3f };
      }))
      else some tf.secondary_hdr
  bytes ← pointer_at pkt_in m.header_len
  ocf ←
      if hdr.ocf == 1
      then (pointer_at pkt_in (m.header_len + m.max_data_len) >>= λ p. read_bytes p 4)
      else some tf.ocf
  crc ←
      if m.crc_present == 1
      then (if ltb m.frame_len 2 then none else (do
        hi ← load pkt_in (m.frame_len - 2)
        lo ← load pkt_in (m.frame_len - 1)
        some (bit_or (u16 (hi <<< 8)) lo)))
      else some tf.crc
  some (record tf { primary_hdr = hdr; secondary_hdr = sec; bytes = bytes; ocf = ocf; crc = crc })
