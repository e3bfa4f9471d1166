-- ===== src/Tm/Setup.antt =====
-- src/osdlp_tm.c: setting a telemetry channel up, and the switches of its segmentation and stuffing.
use osdlp.Common.{
  ℕ, ◌+◌, ◌-◌, ◌%◌, ℤ, pos, negsuc, List, Option, some, leb, ◌==◌, if◌then◌else◌, bit_and,
}
use osdlp.Common.Memory.{◌>>=◌, memcpy}
use osdlp.Tm.Types.{TmSecHdr, TmUtilBuf, TmTransferFrame}

-- `tm_loop_state_t`, `tm_stuff_state_t`
abbrev pub tm_loop_open : ℕ
tm_loop_open = 0

abbrev pub tm_loop_closed : ℕ
tm_loop_closed = 1

abbrev pub tm_stuffing_on : ℕ
tm_stuffing_on = 0

abbrev pub tm_stuffing_off : ℕ
tm_stuffing_off = 1

-- TM_PRIMARY_HDR_LEN, TM_OCF_LENGTH, TM_CRC_LENGTH
abbrev pub tm_primary_hdr_len : ℕ
tm_primary_hdr_len = 6

abbrev pub tm_ocf_length : ℕ
tm_ocf_length = 4

abbrev pub tm_crc_length : ℕ
tm_crc_length = 2

-- TM_FIRST_HDR_PTR_NO_PKT_START, TM_FIRST_HDR_PTR_OID
abbrev pub tm_first_hdr_ptr_no_pkt_start : ℕ
tm_first_hdr_ptr_no_pkt_start = 0x07ff

abbrev pub tm_first_hdr_ptr_oid : ℕ
tm_first_hdr_ptr_oid = 0x07fe

-- `mission.util` set in the channel
abbrev pub set_tm_util : TmTransferFrame → TmUtilBuf → TmTransferFrame
set_tm_util tf util = record tf { mission = record (tf.mission) { util = util } }

-- The loop closed, with nothing buffered
abbrev pub close_loop : TmTransferFrame → TmTransferFrame
close_loop tf =
    set_tm_util tf (record (tf.mission.util) { loop_state = tm_loop_closed; buffered_length = 0 })

-- What the caller of `osdlp_tm_init` chooses
pub record TmConfig : Type 0 where
  pub spacecraft_id : ℕ
  pub mc_count : ℕ
  pub vcid : ℕ
  pub ocf_flag : ℕ
  pub ocf_type : ℕ
  pub sec_hdr_flag : ℕ
  pub sync_flag : ℕ
  pub sec_hdr_len : ℕ
  pub sec_hdr : List ℕ
  pub crc_flag : ℕ
  pub frame_size : ℕ
  pub max_sdu_len : ℕ
  pub max_vcs : ℕ
  pub max_fifo_size : ℕ
  pub stuffing : ℕ
  pub util_buffer : List ℕ

-- The secondary header, if the channel has one
unfoldable pub init_sec_hdr : TmConfig → TmSecHdr → Option TmSecHdr
init_sec_hdr c sec =
    if bit_and c.sec_hdr_flag 0x01 == 1
    then (memcpy sec.sec_hdr_data_field 0 c.sec_hdr c.sec_hdr_len >>= λ out. some (record {
      sec_hdr_id = record { version_num = 0; length = c.sec_hdr_len % 64 };
      sec_hdr_data_field = out;
    }))
    else some sec

-- `occupied_header`, and what `occupied` has more at the end
abbrev pub occupied_header : TmConfig → ℕ
occupied_header c =
    tm_primary_hdr_len + (if bit_and c.sec_hdr_flag 0x01 == 1 then c.sec_hdr_len % 64 + 1 else 0)

abbrev pub occupied_trailer : TmConfig → ℕ
occupied_trailer c =
    (if bit_and c.ocf_flag 0x01 == 1 then tm_ocf_length else 0)
    + (if c.crc_flag == 1 then tm_crc_length else 0)

-- `osdlp_tm_init`. It does not set `first_hdr_ptr`, `ocf`, `crc` and `data`.
unfoldable pub tm_init : TmTransferFrame → TmConfig → Option (ℤ × TmTransferFrame)
tm_init tf c =
    if leb c.frame_size tm_primary_hdr_len
    then some (negsuc 0, tf)
    else (init_sec_hdr c tf.secondary_hdr >>= λ sec. some (
      pos 0,
      record tf {
        primary_hdr = record {
          mcid = record { version_num = 0; spacecraft_id = bit_and c.spacecraft_id 0x03ff };
          vcid = c.vcid % 8;
          ocf = bit_and c.ocf_flag 0x01;
          mc_frame_cnt = c.mc_count;
          vc_frame_cnt = 0;
          status = record (tf.primary_hdr.status) {
            sec_hdr = bit_and c.sec_hdr_flag 0x01;
            sync = bit_and c.sync_flag 0x01;
            pkt_order = 0;
            seg_len_id = 3;
          };
        };
        secondary_hdr = sec;
        mission = record {
          util = record {
            buffer = c.util_buffer;
            buffered_length = 0;
            loop_state = tm_loop_closed;
            expected_pkt_len = 0;
          };
          frame_len = c.frame_size;
          header_len = occupied_header c;
          max_data_len = (c.frame_size + 65536 - (occupied_header c + occupied_trailer c)) % 65536;
          max_sdu_len = c.max_sdu_len;
          crc_present = c.crc_flag;
          max_vcs = c.max_vcs;
          tx_fifo_max_size = c.max_fifo_size;
          vcid = c.vcid;
          stuff_state = c.stuffing;
          ocf_type = c.ocf_type;
        };
      },
    ))

-- `osdlp_abort_segmentation`
unfoldable pub abort_segmentation : TmTransferFrame → TmTransferFrame
abort_segmentation tf = close_loop tf

-- `osdlp_disable_packet_stuffing`
unfoldable pub disable_packet_stuffing : TmTransferFrame → TmTransferFrame
disable_packet_stuffing tf = record tf {
  mission = record (tf.mission) { stuff_state = tm_stuffing_off };
}

-- `osdlp_enable_packet_stuffing`
unfoldable pub enable_packet_stuffing : TmTransferFrame → TmTransferFrame
enable_packet_stuffing tf = record tf {
  mission = record (tf.mission) { stuff_state = tm_stuffing_on };
}
