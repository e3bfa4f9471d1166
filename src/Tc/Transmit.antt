-- ===== src/Tc/Transmit.antt =====
-- src/osdlp_tc.c: `osdlp_tc_transmit`, which cuts a unit into segments and hands them to the sender.
pub mod Progress
use osdlp.Common.{
  ℕ, zero, suc, ◌+◌, ◌-◌, ◌*◌, ◌/◌, ◌%◌, ◌^◌, ℤ, pos, negsuc, List, Option, none, some, ltb, leb,
  ◌==◌, if◌then◌else◌,
}
use osdlp.Common.Memory.{pointer_at}
use osdlp.Tc.Types.{
  tc_cont_seg, tc_first_seg, tc_last_seg, tc_unseg, seg_ended, seg_in_progress, FopConfig,
  TransferFrame, SegmentStatus, Notification, reject_tx, delay_resp, accept_tx, ignore, undef_error,
}
use osdlp.Cop.Host.{Host}
use osdlp.Cop.Sender.{Fop, ◌>>=◌, ◌>>◌, pure, fault, get_tf, set_tf, set_fop, ask, filled}
use osdlp.Cop.Dispatch.{req_transfer_fdu}

-- `tc_tx_result_t`; the errors are returned as negative numbers.
abbrev pub tc_tx_ok : ℤ
tc_tx_ok = pos 0

abbrev pub tc_tx_delay : ℤ
tc_tx_delay = negsuc 1

abbrev pub tc_tx_cop_err : ℤ
tc_tx_cop_err = negsuc 2

-- The length of the next segment, of the bytes that remain
abbrev pub next_len : ℕ → ℕ → ℕ
next_len max_data_len remaining =
    if ltb 0 (remaining / max_data_len) then max_data_len else remaining

-- Its sequence flag, by whether a segmentation has begun
unfoldable pub next_flag : ℕ → ℕ → ℕ → ℕ
next_flag status max_data_len remaining =
    if status == 0
    then (if leb remaining (next_len max_data_len remaining) then tc_unseg else tc_first_seg)
    else if ltb max_data_len remaining
    then tc_cont_seg
    else tc_last_seg

-- What is noted when `remaining` bytes of `len` are left
abbrev pub progress : ℕ → ℕ → SegmentStatus
progress len remaining =
    if remaining == 0
    then record { flag = seg_ended; octets_txed = 0 }
    else record { flag = seg_in_progress; octets_txed = (len + 2 ^ 32 - remaining) % 65536 }

-- The bytes that remain when the function is called
abbrev pub remaining_at : SegmentStatus → ℕ → ℕ
remaining_at status len =
    if status.flag == 0 then len % 65536 else (len + 2 ^ 32 - status.octets_txed) % 65536

-- The frame that carries the next segment, with the pointer to its data
abbrev pub next_frame : ℕ → List ℕ → TransferFrame FopConfig → TransferFrame FopConfig
next_frame remaining bytes tf =
    let max_data_len = tf.mission.max_data_len in
    let bytes_avail = next_len max_data_len remaining in
    record tf {
      primary_hdr = record (tf.primary_hdr) {
        frame_len = (tf.mission.fixed_overhead_len + bytes_avail + 1024 - 1) % 1024;
      };
      frame_data = record {
        seg_hdr = record (tf.frame_data.seg_hdr) {
          seq_flag = next_flag tf.seg_status.flag max_data_len remaining;
        };
        bytes = bytes;
        data_len = bytes_avail;
      };
    }

module _ {Q : Type 0} (h : Host Q) where
  unfoldable pub set_seg_status : SegmentStatus → Fop Q (Unit {0})
  set_seg_status status = do tf ← get_tf; set_tf (record tf { seg_status = status })

  -- The signal and the error that go with it
  unfoldable pub signal_error : Notification → Fop Q ℤ
  signal_error n = do set_fop (λ fop. record fop { signal = n }); pure tc_tx_cop_err

  unfoldable pub end_with : Notification → Fop Q ℤ
  end_with n = do set_seg_status (record { flag = seg_ended; octets_txed = 0 }); signal_error n

  -- `switch (notif)`, with `remaining` bytes left and `more` for the rest of the loop
  unfoldable pub handle_response : ℕ → ℕ → Fop Q ℤ → Notification → Fop Q ℤ
  handle_response len remaining more reject_tx = end_with reject_tx
  handle_response len remaining more delay_resp = do
    set_seg_status (progress len remaining)
    pure tc_tx_delay
  handle_response len remaining more accept_tx = do set_seg_status (progress len remaining); more
  handle_response len remaining more ignore = do set_seg_status (progress len remaining); more
  handle_response len remaining more _ = end_with undef_error

  -- The loop. Dividing by a `max_data_len` of 0 is a fault; otherwise each round takes a byte at least,
  -- so that `remaining + 1` rounds are enough.
  unfoldable pub transmit_loop : ℕ → List ℕ → ℕ → ℕ → Fop Q ℤ
  transmit_loop zero buffer len remaining = fault
  transmit_loop (suc rounds) buffer len remaining =
      let more = transmit_loop rounds buffer len in
      if remaining == 0
      then (do set_fop (λ fop. record fop { signal = accept_tx }); pure tc_tx_ok)
      else (do
        tf ← get_tf
        if tf.mission.max_data_len == 0 then fault else (do
          bytes ← filled (pointer_at buffer ((len + 2 ^ 32 - remaining) % 2 ^ 32))
          set_tf (next_frame remaining bytes tf)
          full ← ask h.tx_queue_full
          if full then signal_error reject_tx else (do
            notif ← req_transfer_fdu h
            let left = remaining - next_len tf.mission.max_data_len remaining
            handle_response len left (more left) notif)))

  -- `osdlp_tc_transmit`
  unfoldable pub tc_transmit : List ℕ → ℕ → Fop Q ℤ
  tc_transmit buffer len = do
    tf ← get_tf
    let remaining = remaining_at tf.seg_status len
    transmit_loop (remaining + 1) buffer len remaining
