-- ===== src/Examples/Telemetry.antt =====
-- Telemetry frames at concrete inputs.
use osdlp.Common.{ℕ, ◌≡◌, refl, List, [], ◌∷◌, some, arith, length}
use osdlp.Tm.Types.{TmTransferFrame}
use osdlp.Tm.{tm_pack}
use osdlp.Tm.Bounds.{tm_pack_in_range}

-- A frame of fourteen bytes: six of header, two of data, four behind them, and two of checksum
abbrev frame : TmTransferFrame
frame = record {
  primary_hdr = record {
    mcid = record { version_num = 0; spacecraft_id = 0x155 };
    vcid = 3;
    ocf = 1;
    mc_frame_cnt = 7;
    vc_frame_cnt = 8;
    status = record { sec_hdr = 0; sync = 0; pkt_order = 0; seg_len_id = 3; first_hdr_ptr = 0 };
  };
  secondary_hdr = record {
    sec_hdr_id = record { version_num = 0; length = 0 };
    sec_hdr_data_field = [];
  };
  ocf = 1 ∷ 20 ∷ 0 ∷ 7 ∷ [];
  crc = 0;
  bytes = [];
  mission = record {
    util = record { buffer = []; buffered_length = 0; loop_state = 1; expected_pkt_len = 0 };
    frame_len = 14;
    header_len = 6;
    max_data_len = 2;
    max_sdu_len = 8;
    crc_present = 1;
    max_vcs = 8;
    tx_fifo_max_size = 4;
    vcid = 3;
    stuff_state = 1;
    ocf_type = 0;
  };
}

abbrev pkt_out : List ℕ
pkt_out = 0 ∷ 0 ∷ 0 ∷ 0 ∷ 0 ∷ 0 ∷ 0 ∷ 0 ∷ 0 ∷ 0 ∷ 0 ∷ 0 ∷ 0 ∷ 0 ∷ []

tm_pack_in_range_example :
    (out : List ℕ) × (crc : ℕ) × (tm_pack frame pkt_out (0xaa ∷ []) 1
      ≡ some (out, record frame { crc = crc }))
    × (length out ≡ length pkt_out)
tm_pack_in_range_example = tm_pack_in_range frame pkt_out (0xaa ∷ []) 1 (record {
  header_len = omega arith;
  sec_hdr = λ e. absurd (omega (arith, e));
  sec_hdr_data = omega arith;
  ocf = refl;
  data_len = omega arith;
  has = omega arith;
  frame_len = omega arith;
  crc = omega arith;
  room = omega arith;
})
