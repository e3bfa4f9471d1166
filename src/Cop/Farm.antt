-- ===== src/Cop/Farm.antt =====
-- src/osdlp_cop.c, the receiver's side (FARM-1): what it does with a frame, by the frame's type and
-- sequence number. The receiving queue is the application's: `rx_queue_full` is what
-- `osdlp_tc_rx_queue_full` answers for the frame's channel. `none` is a read behind the command's
-- bytes.
pub mod Window
pub mod Invariant
pub mod Sequence
use osdlp.Common.{
  ℕ, ◌+◌, ◌-◌, ◌/◌, ◌%◌, Bool, true, false, not, ◌&&◌, ◌||◌, Option, none, some, ltb, leb, ◌==◌,
  if◌then◌else◌, ℤ, pos, sub_ℕ, ltb_ℤ, leb_ℤ,
}
use osdlp.Common.Memory.{◌>>=◌, load}
use osdlp.Tc.Types.{
  type_a, type_b, tc_data, tc_command, setvr_byte1, setvr_byte2, FarmResult, cop_ok, cop_enq,
  cop_priority_enq, cop_discard, cop_error, TransferFrame, FarmConfig,
}

-- `farm_state_t`
abbrev pub farm_state_open : ℕ
farm_state_open = 0

abbrev pub farm_state_wait : ℕ
farm_state_wait = 1

abbrev pub farm_state_lockout : ℕ
farm_state_lockout = 2

-- `osdlp_prepare_farm`
pub prepare_farm : FarmConfig → ℕ → ℕ → FarmConfig
prepare_farm farm state window_width = record farm {
  state = state;
  w = window_width;
  pw = window_width / 2;
  nw = window_width / 2;
}

-- `osdlp_reset_wait`, which is also all that `osdlp_buffer_release` does
pub reset_wait : FarmConfig → FarmConfig
reset_wait farm = record farm { state = farm_state_open; wait = 0 }

-- `switch (farm.state)` with a case for each state and a default
abbrev pub by_state {ℓ} : {A : Type ℓ} → FarmConfig → A → A → A → A → A
by_state farm in_open in_wait in_lockout otherwise =
    if farm.state == farm_state_open
    then in_open
    else if farm.state == farm_state_wait
    then in_wait
    else if farm.state == farm_state_lockout
    then in_lockout
    else otherwise

pub farm_e1 : FarmConfig → FarmResult × FarmConfig
farm_e1 farm =
    by_state farm
      (
        cop_enq,
        record farm {
          vr = (farm.vr + 1) % 256;
          retransmit = if farm.retransmit == 0 then farm.retransmit else 0;
        },
      )
      (cop_error, farm) (cop_discard, farm) (cop_error, farm)

pub farm_e2 : FarmConfig → FarmResult × FarmConfig
farm_e2 farm =
    by_state farm (cop_discard, record farm { retransmit = 1; wait = 1; state = farm_state_wait })
      (cop_discard, farm) (cop_discard, farm) (cop_error, farm)

pub farm_e3 : FarmConfig → FarmResult × FarmConfig
farm_e3 farm =
    by_state farm (cop_discard, record farm { retransmit = 1 }) (cop_discard, farm)
      (cop_discard, farm) (cop_error, farm)

pub farm_e4 : FarmConfig → FarmResult × FarmConfig
farm_e4 farm =
    by_state farm (cop_discard, farm) (cop_discard, farm) (cop_discard, farm) (cop_error, farm)

pub farm_e5 : FarmConfig → FarmResult × FarmConfig
farm_e5 farm =
    by_state farm (cop_discard, record farm { state = farm_state_lockout; lockout = 1 })
      (cop_discard, record farm { state = farm_state_lockout; lockout = 1 }) (cop_discard, farm)
      (cop_error, farm)

pub farm_e6 : FarmConfig → FarmResult × FarmConfig
farm_e6 farm =
    by_state farm (cop_priority_enq, record farm { farmb_cnt = (farm.farmb_cnt + 1) % 4 })
      (cop_priority_enq, record farm { farmb_cnt = (farm.farmb_cnt + 1) % 4 })
      (cop_priority_enq, record farm { farmb_cnt = (farm.farmb_cnt + 1) % 4 }) (cop_error, farm)

pub farm_e7 : FarmConfig → FarmResult × FarmConfig
farm_e7 farm =
    by_state farm (cop_ok, record farm { farmb_cnt = (farm.farmb_cnt + 1) % 4; retransmit = 0 })
      (
        cop_ok,
        record farm {
          farmb_cnt = (farm.farmb_cnt + 1) % 4;
          retransmit = 0;
          wait = 0;
          state = farm_state_open;
        },
      )
      (
        cop_ok,
        record farm {
          farmb_cnt = (farm.farmb_cnt + 1) % 4;
          retransmit = 0;
          wait = 0;
          lockout = 0;
          state = farm_state_open;
        },
      )
      (cop_error, farm)

-- `farm_e8` reads the new V(R) from the command in the states that take it.
pub farm_e8 : TransferFrame FarmConfig → Option (FarmResult × FarmConfig)
farm_e8 tf =
    let farm = tf.cop_cfg in
    by_state farm
      (load tf.frame_data.bytes 2 >>= λ new_vr.
        some (
          cop_ok,
          record farm { vr = new_vr; farmb_cnt = (farm.farmb_cnt + 1) % 4; retransmit = 0 },
        ))
      (load tf.frame_data.bytes 2 >>= λ new_vr. some (
        cop_ok,
        record farm {
          vr = new_vr;
          farmb_cnt = (farm.farmb_cnt + 1) % 4;
          retransmit = 0;
          wait = 0;
          state = farm_state_open;
        },
      ))
      (some (cop_ok, record farm { farmb_cnt = (farm.farmb_cnt + 1) % 4 })) (some (cop_error, farm))

-- `vr + pw - 1`, computed in `int`
abbrev pub window_top : FarmConfig → ℤ
window_top farm = sub_ℕ (farm.vr + farm.pw) 1

-- `(vr + pw - 1) % 256`: C's remainder of -1 is -1.
abbrev pub window_top_wrapped : FarmConfig → ℤ
window_top_wrapped farm =
    if leb 1 (farm.vr + farm.pw) then pos ((farm.vr + farm.pw - 1) % 256) else window_top farm

-- `condition_farm_e3`
pub condition_farm_e3 : FarmConfig → ℕ → Bool
condition_farm_e3 farm seq =
    (ltb farm.vr seq && leb_ℤ (pos seq) (window_top farm))
    || (ltb_ℤ (window_top_wrapped farm) (pos farm.vr)
        && (ltb seq farm.vr && ltb_ℤ (pos seq) (window_top_wrapped farm)))

-- `condition_farm_e4`
pub condition_farm_e4 : FarmConfig → ℕ → Bool
condition_farm_e4 farm seq =
    (ltb seq farm.vr && leb_ℤ (sub_ℕ farm.vr farm.nw) (pos seq))
    || (leb farm.vr ((seq + farm.pw) % 256)
        && ltb_ℤ (pos ((seq + farm.pw) % 256)) (window_top farm))

-- `handle_farm_typea`
pub handle_farm_typea : Bool → TransferFrame FarmConfig → FarmResult × FarmConfig
handle_farm_typea rx_queue_full tf =
    let farm = tf.cop_cfg in
    let seq = tf.primary_hdr.frame_seq_num in
    if seq == farm.vr
    then (if not rx_queue_full then farm_e1 farm else farm_e2 farm)
    else if condition_farm_e3 farm seq
    then farm_e3 farm
    else if condition_farm_e4 farm seq
    then farm_e4 farm
    else farm_e5 farm

-- `handle_farm_typeb_cmd`
pub handle_farm_typeb_cmd : TransferFrame FarmConfig → Option (FarmResult × FarmConfig)
handle_farm_typeb_cmd tf =
    let bytes = tf.frame_data.bytes in
    load bytes 0 >>= λ b0.
    if b0 == 0
    then some (farm_e7 tf.cop_cfg)
    else if b0 == setvr_byte1
    then (load bytes 1 >>= λ b1.
        if b1 == setvr_byte2 then farm_e8 tf else some (cop_error, tf.cop_cfg))
    else some (cop_error, tf.cop_cfg)

-- `osdlp_farm_1`: the result, and the channel with its FARM's new state
pub farm_1 : Bool → TransferFrame FarmConfig → Option (FarmResult × FarmConfig)
farm_1 rx_queue_full tf =
    let hdr = tf.primary_hdr in
    if hdr.bypass == type_a
    then some (handle_farm_typea rx_queue_full tf)
    else if hdr.bypass == type_b
    then (if hdr.ctrl_cmd == tc_data
        then some (farm_e6 tf.cop_cfg)
        else if hdr.ctrl_cmd == tc_command
        then handle_farm_typeb_cmd tf
        else some (cop_error, tf.cop_cfg))
    else some (cop_discard, tf.cop_cfg)
