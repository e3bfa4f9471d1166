-- ===== src/Cop/Events.antt =====
-- src/osdlp_cop.c, the sender's side (FOP-1): what each event does in each of the six states. The
-- events that a report word causes take its N(R), `report_value`.
use osdlp.Common.{ℕ, ℤ, is_neg, if◌then◌else◌}
use osdlp.Tc.Types.{
  Notification, accept_dir, positive_dir, suspend, alert_limit, alert_t1, alert_lockout,
  alert_synch, alert_nnr, alert_clcw, accept_tx, reject_tx, delay_resp, undef_error, ignore, na,
}
use osdlp.Cop.Host.{Host}
use osdlp.Cop.Sender.{
  fop_state_active, fop_state_rt_no_wait, fop_state_rt_wait, fop_state_init, Fop, ◌>>=◌, ◌>>◌, pure,
  get_tf, set_fop, set_state, signal_and_return, call, conclude, by_fop_state,
}
use osdlp.Cop.Actions.{or_undef, alert, alert_with}
use osdlp.Cop.Actions.Transmit.{look_for_fdu, initiate_retransmission, transmit_type_bd}
use osdlp.Cop.Actions.Sent.{look_for_directive, remove_acked_frames, release_copy_of_bc}

-- The default of every switch
abbrev pub unknown_state : {Q : Type 0} → Fop Q Notification
unknown_state = signal_and_return undef_error

-- `fop.ss = n; fop.state = FOP_STATE_INIT; return SUSPEND`
abbrev pub suspend_with : {Q : Type 0} → ℕ → Fop Q Notification
suspend_with n = do set_fop (λ fop. record fop { ss = n; state = fop_state_init }); pure suspend

module _ {Q : Type 0} (h : Host Q) where
  -- `fop_e1`. Its `ret` is a `notification_t`, an unsigned type, so that no result counts as negative:
  -- what `osdlp_alert` and `osdlp_release_copy_of_bc` return is not looked at.
  unfoldable pub fop_e1 : Fop Q Notification
  fop_e1 =
      by_fop_state (pure ignore)
        (do _ ← alert h; set_state fop_state_init; signal_and_return alert_synch)
        (do _ ← alert h; set_state fop_state_init; signal_and_return alert_synch)
        (do set_state fop_state_active; _ ← call h.timer_cancel; signal_and_return positive_dir)
        (do
          _ ← release_copy_of_bc h
          set_state fop_state_active
          _ ← call h.timer_cancel
          signal_and_return positive_dir)
        (pure ignore) unknown_state

  -- What `fop_e2` does in its first three states
  unfoldable pub accept_report : ℕ → Fop Q Notification
  accept_report nr =
      or_undef (remove_acked_frames h nr)
        (do _ ← call h.timer_cancel; n ← look_for_fdu h; conclude n)

  unfoldable pub fop_e2 : ℕ → Fop Q Notification
  fop_e2 nr =
      by_fop_state (accept_report nr) (accept_report nr) (accept_report nr) (pure na) (pure na)
        (pure ignore) unknown_state

  unfoldable pub fop_e3 : Fop Q Notification
  fop_e3 =
      by_fop_state (alert_with h alert_clcw) (alert_with h alert_clcw) (alert_with h alert_clcw)
        (alert_with h alert_clcw) (alert_with h alert_clcw) (pure ignore) unknown_state

  unfoldable pub fop_e4 : Fop Q Notification
  fop_e4 =
      by_fop_state (alert_with h alert_synch) (alert_with h alert_synch) (alert_with h alert_synch)
        (alert_with h alert_synch) (pure ignore) (do set_state fop_state_init; pure ignore)
        unknown_state

  unfoldable pub fop_e5 : Fop Q Notification
  fop_e5 =
      by_fop_state (pure ignore) (alert_with h alert_synch) (alert_with h alert_synch) (pure na)
        (pure na) (pure ignore) unknown_state

  unfoldable pub fop_e6 : ℕ → Fop Q Notification
  fop_e6 nr =
      by_fop_state (or_undef (remove_acked_frames h nr) (look_for_fdu h >>= conclude))
        (or_undef (remove_acked_frames h nr)
          (do set_state fop_state_active; n ← look_for_fdu h; conclude n))
        (or_undef (remove_acked_frames h nr)
          (do n ← look_for_fdu h; set_state fop_state_active; conclude n))
        (pure na) (pure na) (pure ignore) unknown_state

  unfoldable pub fop_e7 : Fop Q Notification
  fop_e7 =
      by_fop_state (alert_with h alert_clcw) (alert_with h alert_clcw) (alert_with h alert_clcw)
        (pure na) (pure na) (pure ignore) unknown_state

  -- In the waiting state the result of removing frames is not looked at. In the state with a
  -- command on its way the function returns 0, which is ACCEPT_DIR.
  unfoldable pub fop_e101 : ℕ → Fop Q Notification
  fop_e101 nr =
      by_fop_state (or_undef (remove_acked_frames h nr) (alert_with h alert_limit))
        (or_undef (remove_acked_frames h nr) (alert_with h alert_limit))
        (do _ ← remove_acked_frames h nr; alert_with h alert_limit) (pure na) (pure accept_dir)
        (pure ignore) unknown_state

  unfoldable pub fop_e102 : Fop Q Notification
  fop_e102 =
      by_fop_state (alert_with h alert_limit) (alert_with h alert_limit) (alert_with h alert_limit)
        (pure na) (pure na) (pure ignore) unknown_state

  -- Sends again what is marked, with `then_set` after it.
  abbrev pub resend : Fop Q (Unit {0}) → Fop Q Notification
  resend then_set =
      or_undef (initiate_retransmission h h.mark_ad_as_rt)
        (do n ← look_for_fdu h; then_set; conclude n)

  unfoldable pub fop_e8 : ℕ → Fop Q Notification
  fop_e8 nr =
      by_fop_state (or_undef (remove_acked_frames h nr) (resend (set_state fop_state_rt_no_wait)))
        (or_undef (remove_acked_frames h nr) (resend (pure tt)))
        (or_undef (remove_acked_frames h nr) (resend (set_state fop_state_rt_no_wait))) (pure na)
        (pure na) (pure ignore) unknown_state

  unfoldable pub fop_e9 : ℕ → Fop Q Notification
  fop_e9 nr =
      by_fop_state
        (or_undef (remove_acked_frames h nr) (do set_state fop_state_rt_wait; pure ignore))
        (or_undef (remove_acked_frames h nr) (do set_state fop_state_rt_wait; pure ignore))
        (or_undef (remove_acked_frames h nr) (do set_state fop_state_rt_wait; pure ignore))
        (pure na) (pure na) (pure ignore) unknown_state

  unfoldable pub fop_e10 : Fop Q Notification
  fop_e10 =
      by_fop_state (resend (set_state fop_state_rt_no_wait)) (pure ignore)
        (resend (set_state fop_state_rt_no_wait)) (pure na) (pure na) (pure ignore) unknown_state

  unfoldable pub fop_e11 : Fop Q Notification
  fop_e11 =
      by_fop_state (do set_state fop_state_rt_wait; pure ignore)
        (do set_state fop_state_rt_wait; pure ignore) (pure ignore) (pure ignore) (pure ignore)
        (pure ignore) unknown_state

  unfoldable pub fop_e12 : Fop Q Notification
  fop_e12 =
      by_fop_state (do set_state fop_state_rt_no_wait; pure ignore) (pure ignore)
        (do set_state fop_state_rt_no_wait; pure ignore) (pure na) (pure na) (pure ignore)
        unknown_state

  unfoldable pub fop_e103 : Fop Q Notification
  fop_e103 =
      by_fop_state (do set_state fop_state_rt_wait; pure ignore)
        (do set_state fop_state_rt_wait; pure ignore) (pure ignore) (pure na) (pure na)
        (pure ignore) unknown_state

  unfoldable pub fop_e13 : Fop Q Notification
  fop_e13 =
      by_fop_state (alert_with h alert_nnr) (alert_with h alert_nnr) (alert_with h alert_nnr)
        (alert_with h alert_nnr) (pure ignore) (pure ignore) unknown_state

  unfoldable pub fop_e14 : Fop Q Notification
  fop_e14 =
      by_fop_state (alert_with h alert_lockout) (alert_with h alert_lockout)
        (alert_with h alert_lockout) (alert_with h alert_lockout) (pure ignore) (pure ignore)
        unknown_state

  -- The command on its way is sent again.
  abbrev pub resend_directive : ℕ → Fop Q Notification
  resend_directive rounds =
      or_undef (initiate_retransmission h h.mark_bc_as_rt)
        (look_for_directive h rounds >>= conclude)

  unfoldable pub fop_e16 : ℕ → Fop Q Notification
  fop_e16 rounds =
      by_fop_state (resend (pure tt)) (resend (pure tt)) (pure ignore) (alert_with h alert_t1)
        (resend_directive rounds) (pure na) unknown_state

  unfoldable pub fop_e104 : ℕ → Fop Q Notification
  fop_e104 rounds =
      by_fop_state (resend (pure tt)) (resend (pure tt)) (pure ignore) (suspend_with 4)
        (resend_directive rounds) (pure na) unknown_state

  unfoldable pub fop_e17 : Fop Q Notification
  fop_e17 =
      by_fop_state (alert_with h alert_t1) (alert_with h alert_t1) (alert_with h alert_t1)
        (alert_with h alert_t1) (alert_with h alert_t1) (pure na) unknown_state

  unfoldable pub fop_e18 : Fop Q Notification
  fop_e18 =
      by_fop_state (suspend_with 1) (suspend_with 2) (suspend_with 3) (suspend_with 4)
        (alert_with h alert_t1) (pure na) unknown_state

  -- The frame that is to be sent goes to the wait queue.
  abbrev pub enqueue_wait : Fop Q ℤ
  enqueue_wait = do tf ← get_tf; call (λ vcid. h.wait_queue_enqueue vcid tf)

  unfoldable pub fop_e19 : Fop Q Notification
  fop_e19 =
      by_fop_state (or_undef enqueue_wait (look_for_fdu h >>= conclude))
        (or_undef enqueue_wait (look_for_fdu h >>= conclude))
        (or_undef enqueue_wait (signal_and_return delay_resp)) (signal_and_return reject_tx)
        (signal_and_return reject_tx) (signal_and_return reject_tx) unknown_state

  unfoldable pub fop_e20 : Fop Q Notification
  fop_e20 =
      by_fop_state (signal_and_return reject_tx) (signal_and_return reject_tx)
        (signal_and_return reject_tx) (signal_and_return reject_tx) (signal_and_return reject_tx)
        (signal_and_return reject_tx) unknown_state

  abbrev transmit_bd : Fop Q Notification
  transmit_bd = do
    ret ← transmit_type_bd h
    if is_neg ret then signal_and_return reject_tx else signal_and_return accept_tx

  unfoldable pub fop_e21 : Fop Q Notification
  fop_e21 =
      by_fop_state transmit_bd transmit_bd transmit_bd transmit_bd transmit_bd transmit_bd
        unknown_state
