-- ===== src/Cop/Farm/Window.antt =====
-- The windows of FARM-1 by distance: how far a frame's N(S) is ahead of V(R), modulo 256.
use osdlp.Common.{
  ℕ, ◌+◌, ◌-◌, ◌%◌, ◌≤◌, ◌<◌, ◌≡◌, ◌≢◌, Bool, false, not, ◌&&◌, arith, ltb, leb, ◌==◌,
  if◌then◌else◌,
}
use osdlp.Tc.Types.{cop_discard, TransferFrame, FarmConfig}
use osdlp.Cop.Farm.{
  farm_state_open, farm_state_lockout, farm_e1, farm_e2, farm_e3, farm_e4, farm_e5,
  condition_farm_e3, condition_farm_e4, handle_farm_typea,
}

-- V(R) is a byte, and the two halves of the window are as `osdlp_prepare_farm` sets them for an even
-- width from 2 to 254.
pub record IsWindow (farm : FarmConfig) : Type 0 where
  pub vr_byte : farm.vr < 256
  pub halves : farm.nw ≡ farm.pw
  pub open_window : 1 ≤ farm.pw
  pub proper : farm.pw ≤ 127

-- How far `seq` is ahead of V(R).
abbrev pub ahead : FarmConfig → ℕ → ℕ
ahead farm seq = (seq + 256 - farm.vr) % 256

-- The far end of the positive window, reached over the wrap from 255 to 0.
abbrev pub is_wrapped_end : FarmConfig → ℕ → Bool
is_wrapped_end farm seq = ltb seq farm.vr && (ahead farm seq == farm.pw - 1)

-- The frame before V(R) = 0.
abbrev pub is_before_zero : FarmConfig → ℕ → Bool
is_before_zero farm seq = (farm.vr == 0) && (seq == 255)

abbrev pub in_positive : FarmConfig → ℕ → Bool
in_positive farm seq = ltb (ahead farm seq) farm.pw && not (is_wrapped_end farm seq)

abbrev pub in_negative : FarmConfig → ℕ → Bool
in_negative farm seq = leb (256 - farm.pw) (ahead farm seq) && not (is_before_zero farm seq)

module _ (farm : FarmConfig) (seq : ℕ) (v : IsWindow farm) (byte : seq < 256)
    (other : seq ≢ farm.vr) where
  e3-eq : condition_farm_e3 farm seq ≡ in_positive farm seq
  unfolding condition_farm_e3
  e3-eq = ground arith

  e4-eq : condition_farm_e3 farm seq ≡ false → condition_farm_e4 farm seq ≡ in_negative farm seq
  unfolding condition_farm_e4 condition_farm_e3
  e4-eq no_e3 = ground arith

-- What the handler of type-A frames does, by distance alone: E1 or E2 for the expected frame, E3
-- ahead of it in the positive window, E4 behind it in the negative window, and E5 elsewhere.
-- Conditions: V(R) and N(S) are bytes, and the window's halves are equal, from 1 to 127. Two
-- frames fall outside their window: the far end of the positive one, when it lies behind the wrap,
-- and number 255 when V(R) is 0.
pub handle_farm_typea-windows :
    (rx_queue_full : Bool) (tf : TransferFrame FarmConfig)
    → IsWindow tf.cop_cfg
    → tf.primary_hdr.frame_seq_num < 256
    → let farm = tf.cop_cfg in
      let seq = tf.primary_hdr.frame_seq_num in
      handle_farm_typea rx_queue_full tf ≡ (
        if ahead farm seq == 0
        then (if rx_queue_full then farm_e2 farm else farm_e1 farm)
        else if in_positive farm seq
        then farm_e3 farm
        else if in_negative farm seq
        then farm_e4 farm
        else farm_e5 farm)
handle_farm_typea-windows rx_queue_full tf v byte =
    let farm = tf.cop_cfg in
    let seq = tf.primary_hdr.frame_seq_num in
    unfold handle_farm_typea in ground (arith, e3-eq farm seq v byte, e4-eq farm seq v byte)

-- The frame just before the expected one is a repetition, to be discarded. When V(R) is 0 an open
-- receiver goes to lockout on it instead, whatever its window, from 2 to 254.
pub repeated_frame_locks_out :
    (rx_queue_full : Bool) (tf : TransferFrame FarmConfig)
    → IsWindow tf.cop_cfg
    → tf.cop_cfg.state ≡ farm_state_open
    → tf.cop_cfg.vr ≡ 0
    → tf.primary_hdr.frame_seq_num ≡ 255
    → handle_farm_typea rx_queue_full tf
      ≡ (cop_discard, record (tf.cop_cfg) { state = farm_state_lockout; lockout = 1 })
repeated_frame_locks_out rx_queue_full tf v open_state zero_vr last =
    let farm = tf.cop_cfg in
    rw (handle_farm_typea-windows rx_queue_full tf v (omega arith)) (unfold farm_e5 in ground arith)

-- An open receiver goes to lockout on the last frame of its positive window, V(R) + PW - 1, exactly
-- when that number has wrapped (PW is at least 2); otherwise it asks for retransmission and stays
-- open.
pub window_end_locks_out_iff :
    (rx_queue_full : Bool) (tf : TransferFrame FarmConfig)
    → IsWindow tf.cop_cfg
    → 2 ≤ tf.cop_cfg.pw
    → tf.cop_cfg.state ≡ farm_state_open
    → tf.primary_hdr.frame_seq_num ≡ (tf.cop_cfg.vr + tf.cop_cfg.pw - 1) % 256
    → handle_farm_typea rx_queue_full tf ≡ (
        if ltb (tf.cop_cfg.vr + tf.cop_cfg.pw - 1) 256
        then (cop_discard, record (tf.cop_cfg) { retransmit = 1 })
        else (cop_discard, record (tf.cop_cfg) { state = farm_state_lockout; lockout = 1 }))
window_end_locks_out_iff rx_queue_full tf v wide open_state last =
    rw (handle_farm_typea-windows rx_queue_full tf v (omega arith))
      (unfold farm_e3 farm_e5 in ground arith)
