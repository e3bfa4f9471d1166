-- ===== src/Tm/Frame.antt =====
-- The telemetry frame of the standard, byte by byte: what `osdlp_tm_pack` is to build.
pub mod Fields
pub mod Places
pub mod Steps
pub mod Sum
pub mod Pack
pub mod Unpack
use osdlp.Common.{
  ℕ, ◌+◌, ◌-◌, ◌*◌, ◌/◌, ◌%◌, ◌≤◌, ◌<◌, ◌≡◌, List, [], ◌∷◌, ◌++◌, ◌==◌, if◌then◌else◌, length, All,
}
use osdlp.Crc.Bitwise.{crc_bytes}
use osdlp.Crc.Laws.{IsByte, crc_field}
use osdlp.Tm.Types.{TmPrimaryHdr, TmSecHdr, TmTransferFrame}
use osdlp.Tm.{repeated, tm_idle_packet}

-- What a frame depends on beside its primary header and its data
pub record TmLayout : Type 0 where
  pub secondary_hdr : TmSecHdr
  pub ocf : List ℕ
  pub max_data_len : ℕ
  pub crc_present : ℕ

abbrev pub layout : TmTransferFrame → TmLayout
layout tf = record {
  secondary_hdr = tf.secondary_hdr;
  ocf = tf.ocf;
  max_data_len = tf.mission.max_data_len;
  crc_present = tf.mission.crc_present;
}

abbrev pub tm_hdr_bytes : TmPrimaryHdr → List ℕ
tm_hdr_bytes h =
    (h.mcid.version_num * 64 + h.mcid.spacecraft_id / 16)
    ∷ (h.mcid.spacecraft_id % 16 * 16 + h.vcid * 2 + h.ocf)
    ∷ h.mc_frame_cnt
    ∷ h.vc_frame_cnt
    ∷ (h.status.sec_hdr * 128
        + h.status.sync * 64
        + h.status.pkt_order * 32
        + h.status.seg_len_id * 8
        + h.status.first_hdr_ptr / 256)
    ∷ (h.status.first_hdr_ptr % 256)
    ∷ []

abbrev pub sec_hdr_bytes : TmPrimaryHdr → TmSecHdr → List ℕ
sec_hdr_bytes h sec =
    if h.status.sec_hdr == 1
    then (sec.sec_hdr_id.version_num * 64 + sec.sec_hdr_id.length) ∷ sec.sec_hdr_data_field
    else []

abbrev pub ocf_bytes : TmPrimaryHdr → List ℕ → List ℕ
ocf_bytes h ocf = if h.ocf == 1 then ocf else []

-- What follows the headers, up to the checksum
abbrev pub field_bytes : TmPrimaryHdr → TmLayout → List ℕ → List ℕ
field_bytes h l bytes =
    bytes ++ (repeated (l.max_data_len - length bytes) tm_idle_packet ++ ocf_bytes h l.ocf)

unfoldable pub tm_body : TmPrimaryHdr → TmLayout → List ℕ → List ℕ
tm_body h l bytes = tm_hdr_bytes h ++ (sec_hdr_bytes h l.secondary_hdr ++ field_bytes h l bytes)

abbrev pub tm_sum : TmPrimaryHdr → TmLayout → List ℕ → ℕ
tm_sum h l bytes = crc_bytes 0xffff (tm_body h l bytes)

-- The whole frame
unfoldable pub tm_frame : TmPrimaryHdr → TmLayout → List ℕ → List ℕ
tm_frame h l bytes =
    tm_body h l bytes ++ (if l.crc_present == 1 then crc_field (tm_sum h l bytes) else [])

-- Every field fits its bit-field.
pub record IsTmHdr (h : TmPrimaryHdr) : Type 0 where
  pub version_num : h.mcid.version_num < 4
  pub spacecraft_id : h.mcid.spacecraft_id < 1024
  pub vcid : h.vcid < 8
  pub ocf : h.ocf < 2
  pub mc_frame_cnt : h.mc_frame_cnt < 256
  pub vc_frame_cnt : h.vc_frame_cnt < 256
  pub sec_hdr : h.status.sec_hdr < 2
  pub sync : h.status.sync < 2
  pub pkt_order : h.status.pkt_order < 2
  pub seg_len_id : h.status.seg_len_id < 4
  pub first_hdr_ptr : h.status.first_hdr_ptr < 2048

-- The secondary header and the operational control field are bytes of the lengths told.
pub record IsTmLayout (l : TmLayout) : Type 0 where
  pub sec_version : l.secondary_hdr.sec_hdr_id.version_num < 4
  pub sec_len : l.secondary_hdr.sec_hdr_id.length < 64
  pub sec_data : length l.secondary_hdr.sec_hdr_data_field ≡ l.secondary_hdr.sec_hdr_id.length
  pub sec_bytes : All IsByte l.secondary_hdr.sec_hdr_data_field
  pub ocf : length l.ocf ≡ 4
  pub ocf_bytes : All IsByte l.ocf

-- The parts of a channel's frames add up to its frame length.
pub record HasLayout (tf : TmTransferFrame) (h : TmPrimaryHdr) (l : TmLayout) : Type 0 where
  pub header_len : tf.mission.header_len ≡ 6 + length (sec_hdr_bytes h l.secondary_hdr)
  pub max_data_len : tf.mission.max_data_len ≡ l.max_data_len
  pub crc_present : tf.mission.crc_present ≡ l.crc_present
  pub frame_len :
      tf.mission.frame_len
      ≡ tf.mission.header_len
        + l.max_data_len
        + length (ocf_bytes h l.ocf)
        + (if l.crc_present == 1 then 2 else 0)
  pub width : tf.mission.frame_len < 65536
