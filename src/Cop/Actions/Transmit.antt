-- ===== src/Cop/Actions/Transmit.antt =====
-- src/osdlp_cop.c, the sender's side (FOP-1): the actions that send frames.
use osdlp.Common.{ℕ, ◌+◌, ◌-◌, ◌%◌, ℤ, pos, negsuc, List, Option, none, some, if◌then◌else◌, is_neg}
use osdlp.Tc.Types.{type_a, type_b, Notification, accept_tx, delay_resp, undef_error, ignore}
use osdlp.Tc.Frame.{tc_pack}
use osdlp.Cop.Host.{Host}
use osdlp.Cop.Sender.{
  Fop, ◌>>=◌, ◌>>◌, pure, get_tf, set_tf, set_fop, signal_and_return, call, call_item, ask, filled,
}
use osdlp.Cop.Actions.{or_minus_one, or_undef, may_transmit}

module _ {Q : Type 0} (h : Host Q) where
  -- `osdlp_tc_pack(tc_tf, util.buffer, data, len)`
  unfoldable pub pack_into_util : List ℕ → ℕ → Fop Q (Unit {0})
  pack_into_util bytes len s = elim (tc_pack s.tf s.tf.mission.util.buffer bytes len) [
    | none ↦ none
    | some (out, tf) ↦ some (
      tt,
      record s {
        tf = record tf {
          mission = record (tf.mission) { util = record (tf.mission.util) { buffer = out } };
        };
      },
    )
  ]

  -- The copy of the frame just packed, put into the sent queue, and its result
  unfoldable pub enqueue_sent : ℕ → Fop Q ℤ
  enqueue_sent kind = do
    tf ← get_tf
    call λ vcid.
        h.sent_queue_enqueue vcid (record {
          kind = kind;
          fdu = tf.mission.util.buffer;
          rt_flag = 0;
          seq_num = tf.cop_cfg.vs;
        })

  -- `osdlp_tc_tx_queue_enqueue(util.buffer, vcid)`, with -1 for an error
  unfoldable pub enqueue_tx : Fop Q ℤ
  enqueue_tx =
      or_minus_one (do tf ← get_tf; call (λ vcid. h.tx_queue_enqueue vcid tf.mission.util.buffer))
        (pure (pos 0))

  -- `osdlp_transmit_type_ad`; the results of dequeuing and of starting the timer are not looked at.
  unfoldable pub transmit_type_ad : Fop Q ℤ
  transmit_type_ad = do
    next ← call_item h.wait_queue_dequeue
    wait_item ← filled next.1
    pack_into_util wait_item.frame_data.bytes wait_item.frame_data.data_len
    nothing_sent ← ask h.sent_queue_empty
    set_fop (λ fop. if nothing_sent then record fop { tx_cnt = 1 } else fop)
    _ ← call h.timer_start
    ret ← enqueue_sent type_a
    set_fop (λ fop. record fop { vs = (fop.vs + 1) % 256 })
    if is_neg ret then pure (negsuc 0) else enqueue_tx

  -- The frame's length, as the transmitting functions set it
  unfoldable pub set_frame_len : Fop Q (Unit {0})
  set_frame_len = do
    tf ← get_tf
    set_tf (record tf {
      primary_hdr = record (tf.primary_hdr) {
        frame_len = (tf.mission.fixed_overhead_len + tf.frame_data.data_len + 1024 - 1) % 1024;
      };
    })

  -- `osdlp_transmit_type_bc`
  unfoldable pub transmit_type_bc : Fop Q ℤ
  transmit_type_bc = do
    tf ← get_tf
    pack_into_util tf.frame_data.bytes tf.frame_data.data_len
    set_fop (λ fop. record fop { tx_cnt = 1 })
    set_frame_len
    _ ← call h.timer_start
    or_minus_one (enqueue_sent type_b) enqueue_tx

  -- `osdlp_transmit_type_bd`
  unfoldable pub transmit_type_bd : Fop Q ℤ
  transmit_type_bd = do
    tf ← get_tf
    pack_into_util tf.frame_data.bytes tf.frame_data.data_len
    set_frame_len
    enqueue_tx

  -- `osdlp_look_for_fdu`, its first part: a frame that is marked for retransmission goes out again.
  -- `none` says to go on.
  unfoldable pub retransmit_marked : Fop Q (Option Notification)
  retransmit_marked = do
    nothing_sent ← ask h.sent_queue_empty
    if nothing_sent then pure none else (do
      first ← call_item h.get_first_ad_rt_frame
      if is_neg first.0 then pure none else (do
        item ← filled first.1
        ret ← call (λ vcid. h.reset_rt_frame vcid item)
        if is_neg ret then pure (some undef_error) else (do
          ret ← call (λ vcid. h.tx_queue_enqueue vcid item.fdu)
          if is_neg ret then (do n ← signal_and_return undef_error; pure (some n)) else pure none)))

  -- Its second part: the next waiting frame, if the window has room.
  unfoldable pub transmit_waiting : Fop Q Notification
  transmit_waiting = do
    nothing_waits ← ask h.wait_queue_empty
    if nothing_waits then pure ignore else (do
      tf ← get_tf
      if may_transmit tf.cop_cfg
          then or_undef transmit_type_ad (signal_and_return accept_tx)
          else signal_and_return delay_resp)

  -- `osdlp_look_for_fdu`
  unfoldable pub look_for_fdu : Fop Q Notification
  look_for_fdu = do
    stopped ← retransmit_marked
    elim stopped [ some n ↦ pure n | none ↦ transmit_waiting ]

  -- `osdlp_initiate_ad_retransmission` and `osdlp_initiate_bc_retransmission`, by the function that
  -- marks the frames
  unfoldable pub initiate_retransmission : (ℕ → Q → ℤ × Q) → Fop Q ℤ
  initiate_retransmission mark = do
    _ ← call (λ _. h.cancel_lower_ops)
    set_fop (λ fop. record fop { tx_cnt = (fop.tx_cnt + 1) % 256 })
    or_minus_one (call h.timer_start) (or_minus_one (call mark) (pure (pos 0)))
