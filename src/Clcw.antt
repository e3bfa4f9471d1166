-- ===== src/Clcw.antt =====
-- src/osdlp_clcw.c, include/osdlp_clcw.h: the report word that the receiver sends back.
pub mod RoundTrip
use osdlp.Common.{ℕ, ◌<<<◌, ◌>>>◌, bit_and, List, Option, none, some}
use osdlp.Common.Memory.{◌>>=◌, load, store, store_or}

-- `struct clcw_frame`
pub record ClcwFrame : Type 0 where
  pub ctrl_word_type : ℕ
  pub clcw_version_num : ℕ
  pub status_field : ℕ
  pub cop_in_effect : ℕ
  pub vcid : ℕ
  pub rsvd_spare1 : ℕ
  pub rf_avail : ℕ
  pub bit_lock : ℕ
  pub lockout : ℕ
  pub wait : ℕ
  pub rt : ℕ
  pub farm_b_counter : ℕ
  pub rsvd_spare2 : ℕ
  pub report_value : ℕ

-- `osdlp_clcw_pack`
pub clcw_pack : ClcwFrame → List ℕ → Option (List ℕ)
clcw_pack c packet = do
  packet ← store packet 0 (bit_and c.ctrl_word_type 0x01 <<< 7)
  packet ← store_or packet 0 (bit_and c.clcw_version_num 0x03 <<< 5)
  packet ← store_or packet 0 (bit_and c.status_field 0x07 <<< 2)
  packet ← store_or packet 0 (bit_and c.cop_in_effect 0x03)
  packet ← store packet 1 (bit_and c.vcid 0x3f <<< 2)
  packet ← store_or packet 1 (bit_and c.rsvd_spare1 0x03)
  packet ← store packet 2 (bit_and c.rf_avail 0x01 <<< 7)
  packet ← store_or packet 2 (bit_and c.bit_lock 0x01 <<< 6)
  packet ← store_or packet 2 (bit_and c.lockout 0x01 <<< 5)
  packet ← store_or packet 2 (bit_and c.wait 0x01 <<< 4)
  packet ← store_or packet 2 (bit_and c.rt 0x01 <<< 3)
  packet ← store_or packet 2 (bit_and c.farm_b_counter 0x03 <<< 1)
  packet ← store_or packet 2 (bit_and c.rsvd_spare2 0x01)
  store packet 3 c.report_value

-- `osdlp_clcw_unpack`
unfoldable pub clcw_unpack : List ℕ → Option ClcwFrame
clcw_unpack packet = do
  p0 ← load packet 0
  p1 ← load packet 1
  p2 ← load packet 2
  p3 ← load packet 3
  some (record {
    ctrl_word_type = bit_and (p0 >>> 7) 0x01;
    clcw_version_num = bit_and (p0 >>> 5) 0x03;
    status_field = bit_and (p0 >>> 2) 0x07;
    cop_in_effect = bit_and p0 0x03;
    vcid = bit_and (p1 >>> 2) 0x3f;
    rsvd_spare1 = bit_and p1 0x03;
    rf_avail = bit_and (p2 >>> 7) 0x01;
    bit_lock = bit_and (p2 >>> 6) 0x01;
    lockout = bit_and (p2 >>> 5) 0x01;
    wait = bit_and (p2 >>> 4) 0x01;
    rt = bit_and (p2 >>> 3) 0x01;
    farm_b_counter = bit_and (p2 >>> 1) 0x03;
    rsvd_spare2 = bit_and p2 0x01;
    report_value = p3;
  })
