-- ===== src/Tc/Types.antt =====
-- include/osdlp_tc.h: the data of a telecommand virtual channel. A pointer to bytes is the list of
-- the bytes behind it. Flags and states that C keeps in a uint8_t are numbers here too.
-- `struct cop_config` is a union: a channel is either the sender's, with a `FopConfig`, or the
-- receiver's, with a `FarmConfig`, and no function reads the member that the channel does not have.
-- So `TransferFrame` takes the type of its `cop_cfg`.
use osdlp.Common.{ℕ, List}
use osdlp.Clcw.{ClcwFrame}

-- `tc_bypass_t`
abbrev pub type_a : ℕ
type_a = 0

abbrev pub type_b : ℕ
type_b = 1

-- `tc_ctrl_t`
abbrev pub tc_data : ℕ
tc_data = 0

abbrev pub tc_command : ℕ
tc_command = 1

-- `tc_loop_state_t`
abbrev pub tc_loop_open : ℕ
tc_loop_open = 0

abbrev pub tc_loop_closed : ℕ
tc_loop_closed = 1

-- `seg_status_t`
abbrev pub seg_ended : ℕ
seg_ended = 0

abbrev pub seg_in_progress : ℕ
seg_in_progress = 1

-- `tc_seq_flag_t`
abbrev pub tc_cont_seg : ℕ
tc_cont_seg = 0

abbrev pub tc_first_seg : ℕ
tc_first_seg = 1

abbrev pub tc_last_seg : ℕ
tc_last_seg = 2

abbrev pub tc_unseg : ℕ
tc_unseg = 3

-- SETVR_BYTE1 and SETVR_BYTE2
abbrev pub setvr_byte1 : ℕ
setvr_byte1 = 0x82

abbrev pub setvr_byte2 : ℕ
setvr_byte2 = 0

-- `farm_result_t`
pub data FarmResult : Type 0 where
  cop_ok cop_enq cop_priority_enq cop_discard cop_error : FarmResult

-- `notification_t`
pub data Notification : Type 0 where
  accept_dir reject_dir positive_dir negative_dir suspend : Notification
  alert_limit alert_t1 alert_lockout alert_synch alert_nnr alert_clcw alert_llif alert_term :
      Notification
  accept_tx reject_tx positive_tx negative_tx delay_resp undef_error ignore na : Notification

-- `struct tc_primary_hdr`
pub record TcPrimaryHdr : Type 0 where
  pub version_num : ℕ
  pub bypass : ℕ
  pub ctrl_cmd : ℕ
  pub rsvd_spare : ℕ
  pub spacecraft_id : ℕ
  pub vcid : ℕ
  pub frame_len : ℕ
  pub frame_seq_num : ℕ

-- `struct tc_seg_hdr`
pub record TcSegHdr : Type 0 where
  pub seq_flag : ℕ
  pub map_id : ℕ

-- `struct tc_fdf`; `bytes` is what the pointer `data` points to.
pub record TcFdf : Type 0 where
  pub seg_hdr : TcSegHdr
  pub bytes : List ℕ
  pub data_len : ℕ

-- `struct tc_util_buf`
pub record TcUtilBuf : Type 0 where
  pub buffer : List ℕ
  pub buffered_length : ℕ
  pub loop_state : ℕ

-- `struct tc_mission_params`
pub record TcMissionParams : Type 0 where
  pub util : TcUtilBuf
  pub crc_flag : ℕ
  pub seg_hdr_flag : ℕ
  pub max_sdu_len : ℕ
  pub max_data_len : ℕ
  pub max_frame_len : ℕ
  pub rx_fifo_max_size : ℕ
  pub fixed_overhead_len : ℕ
  pub spacecraft_id : ℕ
  pub vcid : ℕ
  pub version_num : ℕ
  pub unlock_cmd : ℕ
  pub set_vr_cmd : ℕ × ℕ × ℕ
  pub clcw : ClcwFrame

-- `struct segment_status`
pub record SegmentStatus : Type 0 where
  pub flag : ℕ
  pub octets_txed : ℕ

-- `struct farm_config`
pub record FarmConfig : Type 0 where
  pub state : ℕ
  pub lockout : ℕ
  pub wait : ℕ
  pub retransmit : ℕ
  pub vr : ℕ
  pub farmb_cnt : ℕ
  pub w : ℕ
  pub pw : ℕ
  pub nw : ℕ

-- `struct fop_config`
pub record FopConfig : Type 0 where
  pub state : ℕ
  pub vs : ℕ
  pub out_flag : ℕ
  pub nnr : ℕ
  pub t1_init : ℕ
  pub tx_lim : ℕ
  pub tx_cnt : ℕ
  pub slide_wnd : ℕ
  pub tt : ℕ
  pub ss : ℕ
  pub signal : Notification

-- `struct tc_transfer_frame`
pub record TransferFrame (C : Type 0) : Type 0 where
  pub primary_hdr : TcPrimaryHdr
  pub mission : TcMissionParams
  pub cop_cfg : C
  pub frame_data : TcFdf
  pub seg_status : SegmentStatus
  pub crc : ℕ
