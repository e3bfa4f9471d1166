-- ===== src/Examples/Frames.antt =====
-- Telecommand frames and reports at concrete inputs.
use osdlp.Common.{ℕ, ◌≡◌, refl, List, [], ◌∷◌, some, ℤ, pos, arith}
use osdlp.Common.Memory.{◌>>=◌}
use osdlp.Clcw.{ClcwFrame, clcw_unpack}
use osdlp.Tc.Types.{
  TcPrimaryHdr, TcFdf, TcMissionParams, FopConfig, FarmConfig, TransferFrame, ignore,
}
use osdlp.Tc.Setup.{prepare_clcw}
use osdlp.Tc.Setup.Report.{clcw_unpack-prepare_clcw}
use osdlp.Tc.Frame.{tc_pack, tc_unpack, frame_validation_check}
use osdlp.Tc.Frame.RoundTrip.{frame, frame_crc, tc_pack-eq-frame}
use osdlp.Tc.Frame.Receive.{received, tc_unpack-tc_pack}

abbrev pub no_word : ClcwFrame
no_word = record {
  ctrl_word_type = 0;
  clcw_version_num = 0;
  status_field = 0;
  cop_in_effect = 1;
  vcid = 5;
  rsvd_spare1 = 0;
  rf_avail = 0;
  bit_lock = 0;
  lockout = 0;
  wait = 0;
  rt = 0;
  farm_b_counter = 0;
  rsvd_spare2 = 0;
  report_value = 0;
}

-- A channel with segment headers and checksums.
abbrev pub mission : TcMissionParams
mission = record {
  util = record {
    buffer = 0 ∷ 0 ∷ 0 ∷ 0 ∷ 0 ∷ 0 ∷ 0 ∷ 0 ∷ 0 ∷ 0 ∷ 0 ∷ 0 ∷ 0 ∷ 0 ∷ [];
    buffered_length = 0;
    loop_state = 1;
  };
  crc_flag = 1;
  seg_hdr_flag = 1;
  max_sdu_len = 12;
  max_data_len = 6;
  max_frame_len = 14;
  rx_fifo_max_size = 4;
  fixed_overhead_len = 8;
  spacecraft_id = 0x155;
  vcid = 5;
  version_num = 0;
  unlock_cmd = 0;
  set_vr_cmd = (0x82, 0, 0);
  clcw = no_word;
}

abbrev pub primary_hdr : TcPrimaryHdr
primary_hdr = record {
  version_num = 0;
  bypass = 0;
  ctrl_cmd = 0;
  rsvd_spare = 0;
  spacecraft_id = 0x155;
  vcid = 5;
  frame_len = 0;
  frame_seq_num = 0;
}

abbrev pub frame_data : List ℕ → ℕ → TcFdf
frame_data bytes len = record {
  seg_hdr = record { seq_flag = 3; map_id = 9 };
  bytes = bytes;
  data_len = len;
}

abbrev pub fop : FopConfig
fop = record {
  state = 0;
  vs = 7;
  out_flag = 0;
  nnr = 5;
  t1_init = 10;
  tx_lim = 3;
  tx_cnt = 1;
  slide_wnd = 4;
  tt = 0;
  ss = 0;
  signal = ignore;
}

abbrev pub farm : FarmConfig
farm = record {
  state = 0;
  lockout = 0;
  wait = 0;
  retransmit = 0;
  vr = 7;
  farmb_cnt = 1;
  w = 10;
  pw = 5;
  nw = 5;
}

abbrev pub channel : {C : Type 0} → C → TransferFrame C
channel cop = record {
  primary_hdr = primary_hdr;
  mission = mission;
  cop_cfg = cop;
  frame_data = frame_data (0xaa ∷ 0xbb ∷ 0xcc ∷ []) 3;
  seg_status = record { flag = 0; octets_txed = 0 };
  crc = 0;
}

abbrev out_buf : List ℕ
out_buf = 1 ∷ 1 ∷ 1 ∷ 1 ∷ 1 ∷ 1 ∷ 1 ∷ 1 ∷ 1 ∷ 1 ∷ 1 ∷ 1 ∷ []

abbrev payload : List ℕ
payload = 0xaa ∷ 0xbb ∷ 0xcc ∷ []

tc_pack-eq-frame_example :
    tc_pack (channel fop) out_buf (0xaa ∷ 0xbb ∷ 0xcc ∷ 0xdd ∷ []) 3
    ≡ some (
      frame (channel fop) payload (1 ∷ []),
      record (channel fop) { crc = frame_crc (channel fop) payload },
    )
tc_pack-eq-frame_example =
    tc_pack-eq-frame (channel fop) payload (0xdd ∷ []) out_buf (omega arith) (omega arith)

tc_unpack-tc_pack_example :
    (tc_pack (channel fop) out_buf (0xaa ∷ 0xbb ∷ 0xcc ∷ 0xdd ∷ []) 3 >>= λ packed.
    tc_unpack (channel farm) packed.0 >>= λ got. frame_validation_check got packed.0 >>= λ ret.
    let both : TransferFrame FarmConfig × ℤ = (got, ret) in some both)
    ≡ some (received (channel fop) (channel farm) payload (1 ∷ []), pos 0)
tc_unpack-tc_pack_example =
    tc_unpack-tc_pack (channel fop) (channel farm) payload (0xdd ∷ []) out_buf (omega arith)
      (record { seg_hdr_flag = refl; crc_flag = refl; fixed_overhead_len = refl }) refl refl
      (omega arith)

clcw_unpack-prepare_clcw_example :
    (prepare_clcw (channel farm) (0 ∷ 0 ∷ 0 ∷ 0 ∷ []) >>= λ done. clcw_unpack done.1)
    ≡ some (record no_word { farm_b_counter = 1; report_value = 7 })
clcw_unpack-prepare_clcw_example =
    clcw_unpack-prepare_clcw (channel farm) 0 0 0 0 [] (omega arith) (omega arith)
