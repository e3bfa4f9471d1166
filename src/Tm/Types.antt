-- ===== src/Tm/Types.antt =====
-- include/osdlp_tm.h: the data of a telemetry channel. Members of bit-fields are numbers, and the
-- counter of the master channel, which the channels share by a pointer, is its value.
use osdlp.Common.{ℕ, List}

-- `struct tm_master_channel_id`
pub record TmMasterChannelId : Type 0 where
  pub version_num : ℕ
  pub spacecraft_id : ℕ

-- `struct tm_df_status`
pub record TmDfStatus : Type 0 where
  pub sec_hdr : ℕ
  pub sync : ℕ
  pub pkt_order : ℕ
  pub seg_len_id : ℕ
  pub first_hdr_ptr : ℕ

-- `struct tm_primary_hdr`
pub record TmPrimaryHdr : Type 0 where
  pub mcid : TmMasterChannelId
  pub vcid : ℕ
  pub ocf : ℕ
  pub mc_frame_cnt : ℕ
  pub vc_frame_cnt : ℕ
  pub status : TmDfStatus

-- `struct tm_sec_hdr_id`
pub record TmSecHdrId : Type 0 where
  pub version_num : ℕ
  pub length : ℕ

-- `struct tm_sec_hdr`
pub record TmSecHdr : Type 0 where
  pub sec_hdr_id : TmSecHdrId
  pub sec_hdr_data_field : List ℕ

-- `struct tm_util_buf`
pub record TmUtilBuf : Type 0 where
  pub buffer : List ℕ
  pub buffered_length : ℕ
  pub loop_state : ℕ
  pub expected_pkt_len : ℕ

-- `struct tm_mission_params`
pub record TmMissionParams : Type 0 where
  pub util : TmUtilBuf
  pub frame_len : ℕ
  pub header_len : ℕ
  pub max_data_len : ℕ
  pub max_sdu_len : ℕ
  pub crc_present : ℕ
  pub max_vcs : ℕ
  pub tx_fifo_max_size : ℕ
  pub vcid : ℕ
  pub stuff_state : ℕ
  pub ocf_type : ℕ

-- `struct tm_transfer_frame`; `bytes` is what the pointer `data` points to.
pub record TmTransferFrame : Type 0 where
  pub primary_hdr : TmPrimaryHdr
  pub secondary_hdr : TmSecHdr
  pub ocf : List ℕ
  pub crc : ℕ
  pub bytes : List ℕ
  pub mission : TmMissionParams
