-- ===== src/Tc/Setup.antt =====
-- src/osdlp_tc.c: setting a channel up, and the functions that prepare a frame or a report word.
pub mod Report
use osdlp.Common.{
  ℕ, zero, suc, ◌+◌, ◌-◌, ◌%◌, ◌^◌, ◌<<<◌, ◌>>>◌, bit_and, bit_or, ℤ, pos, negsuc, Bool, List, [],
  ◌∷◌, Option, none, some, leb, ◌==◌, if◌then◌else◌, u8, u16, not,
}
use osdlp.Common.Memory.{◌>>=◌, load, store, store_or, pointer_at, memcpy}
use osdlp.Clcw.{ClcwFrame, clcw_pack}
use osdlp.Crc.{calc_crc}
use osdlp.Tc.Types.{
  type_a, type_b, tc_data, tc_command, tc_loop_closed, seg_ended, tc_unseg, setvr_byte1,
  setvr_byte2, TcPrimaryHdr, TcSegHdr, TcFdf, TcUtilBuf, TcMissionParams, SegmentStatus, FarmConfig,
  FopConfig, TransferFrame,
}

-- TC_TRANSFER_FRAME_PRIMARY_HEADER
abbrev pub primary_header_len : ℕ
primary_header_len = 5

-- `fixed_overhead_len` by the two flags of the channel
abbrev pub overhead : ℕ → ℕ → ℕ
overhead seg_hdr_flag crc_flag =
    primary_header_len + (if seg_hdr_flag == 1 then 1 else 0) + (if crc_flag == 1 then 2 else 0)

-- `osdlp_tc_init`. Members that it does not set keep the values of the struct, or of the
-- uninitialised local `m`, given as `raw`.
unfoldable pub tc_init :
    {C : Type 0}
    → TransferFrame C
    → TcMissionParams
    → ℕ
    → ℕ
    → ℕ
    → ℕ
    → ℕ
    → ℕ
    → ℕ
    → ℕ
    → ℕ
    → ℕ
    → List ℕ
    → C
    → ℤ × TransferFrame C
tc_init tf raw scid max_sdu_len max_frame_len rx_fifo_size vcid mapid crc_flag seg_hdr_flag bypass
      ctrl_cmd util_buffer cop =
    if leb max_frame_len primary_header_len then (negsuc 0, tf) else (
      pos 0,
      record tf {
        primary_hdr = record {
          version_num = 0;
          spacecraft_id = bit_and scid 0x03ff;
          vcid = vcid % 64;
          bypass = bypass % 2;
          ctrl_cmd = ctrl_cmd % 2;
          frame_len = 0;
          frame_seq_num = 0;
          rsvd_spare = 0;
        };
        mission = record raw {
          util = record (raw.util) { buffer = util_buffer; loop_state = tc_loop_closed };
          version_num = 0;
          spacecraft_id = scid;
          vcid = vcid;
          crc_flag = crc_flag;
          seg_hdr_flag = seg_hdr_flag;
          max_frame_len = max_frame_len;
          max_sdu_len = max_sdu_len;
          max_data_len = (max_frame_len + 65536 - overhead seg_hdr_flag crc_flag) % 65536;
          rx_fifo_max_size = rx_fifo_size;
          fixed_overhead_len = overhead seg_hdr_flag crc_flag;
          unlock_cmd = 0;
          set_vr_cmd = (setvr_byte1, setvr_byte2, raw.set_vr_cmd.2);
        };
        frame_data = record (tf.frame_data) {
          seg_hdr = record (tf.frame_data.seg_hdr) { map_id = bit_and mapid 0x3f };
        };
        cop_cfg = cop;
        seg_status = record { flag = seg_ended; octets_txed = 0 };
      },
    )

-- `osdlp_prepare_typea_data_frame` and `osdlp_prepare_typeb_data_frame`, by the type
unfoldable pub prepare_data_frame :
    {C : Type 0} → ℕ → TransferFrame C → List ℕ → ℕ → ℕ → TransferFrame C
prepare_data_frame bypass tf buffer len mapid = record tf {
  primary_hdr = record (tf.primary_hdr) { bypass = bypass; ctrl_cmd = tc_data };
  frame_data = record {
    seg_hdr = record (tf.frame_data.seg_hdr) { map_id = mapid % 64 };
    bytes = buffer;
    data_len = len;
  };
}

-- `osdlp_prepare_typeb_setvr`; the data pointer goes to the command in the struct itself.
unfoldable pub prepare_typeb_setvr : {C : Type 0} → TransferFrame C → ℕ → TransferFrame C
prepare_typeb_setvr tf vr =
    let cmd = tf.mission.set_vr_cmd in
    record tf {
      primary_hdr = record (tf.primary_hdr) { bypass = type_b; ctrl_cmd = tc_command };
      mission = record (tf.mission) { set_vr_cmd = (cmd.0, cmd.1, vr) };
      frame_data = record {
        seg_hdr = record (tf.frame_data.seg_hdr) { seq_flag = tc_unseg };
        bytes = cmd.0 ∷ cmd.1 ∷ vr ∷ [];
        data_len = 3;
      };
    }

-- `osdlp_prepare_typeb_unlock`
unfoldable pub prepare_typeb_unlock : {C : Type 0} → TransferFrame C → TransferFrame C
prepare_typeb_unlock tf = record tf {
  primary_hdr = record (tf.primary_hdr) { bypass = type_b; ctrl_cmd = tc_command };
  frame_data = record {
    seg_hdr = record (tf.frame_data.seg_hdr) { seq_flag = tc_unseg };
    bytes = tf.mission.unlock_cmd ∷ [];
    data_len = 1;
  };
}

-- The report word that `osdlp_prepare_clcw` fills in; each value is cut to its bit-field.
unfoldable pub report : TransferFrame FarmConfig → ClcwFrame
report tf =
    let farm = tf.cop_cfg in
    record (tf.mission.clcw) {
      ctrl_word_type = 0;
      cop_in_effect = 1;
      farm_b_counter = farm.farmb_cnt % 4;
      lockout = farm.lockout % 2;
      rt = farm.retransmit % 2;
      wait = farm.wait % 2;
      report_value = farm.vr;
      vcid = tf.mission.vcid % 64;
      clcw_version_num = 0;
    }

-- `osdlp_prepare_clcw`: the channel, and the packed word
unfoldable pub prepare_clcw :
    TransferFrame FarmConfig → List ℕ → Option (TransferFrame FarmConfig × List ℕ)
prepare_clcw tf ocf =
    let clcw = report tf in
    clcw_pack clcw ocf >>= λ packed.
    some (record tf { mission = record (tf.mission) { clcw = clcw } }, packed)
