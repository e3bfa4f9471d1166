-- ===== src/Cop/Actions.antt =====
-- src/osdlp_cop.c, the sender's side (FOP-1): the actions that its events are made of.
pub mod Transmit
pub mod Sent
use osdlp.Common.{
  ℕ, zero, suc, ◌+◌, ◌-◌, ◌%◌, ℤ, pos, negsuc, Bool, ◌&&◌, ◌||◌, List, Option, none, some, ltb, leb,
  ◌==◌, if◌then◌else◌, is_neg,
}
use osdlp.Tc.Types.{
  type_a, type_b, FopConfig, TransferFrame, Notification, accept_dir, alert_llif, accept_tx,
  negative_tx, delay_resp, undef_error, ignore,
}
use osdlp.Tc.Frame.{tc_pack}
use osdlp.Cop.Host.{Host, QueueItem}
use osdlp.Cop.Sender.{
  fop_state_init, Sender, Fop, ◌>>=◌, ◌>>◌, pure, fault, get_tf, set_tf, set_fop, set_state,
  signal_and_return, call, call_item, ask, filled, conclude, by_fop_state,
}

-- `osdlp_prepare_fop`; every member is set, `out_flag` apart.
unfoldable pub prepare_fop : FopConfig → ℕ → ℕ → ℕ → ℕ → ℕ → FopConfig
prepare_fop fop slide_wnd state t1_init timeout_type tx_lim = record {
  nnr = 0;
  slide_wnd = slide_wnd % 256;
  ss = 0;
  state = state;
  t1_init = t1_init;
  tt = timeout_type;
  tx_cnt = 0;
  tx_lim = tx_lim;
  vs = 0;
  out_flag = fop.out_flag;
  signal = ignore;
}

-- `ret = f(…); if (ret < 0) return -1;` before the rest
unfoldable pub or_minus_one : {Q : Type 0} → Fop Q ℤ → Fop Q ℤ → Fop Q ℤ
or_minus_one m rest = do ret ← m; if is_neg ret then pure (negsuc 0) else rest

-- `ret = f(…); if (ret < 0) { fop.signal = UNDEF_ERROR; return UNDEF_ERROR; }` before the rest
unfoldable pub or_undef : {Q : Type 0} → Fop Q ℤ → Fop Q Notification → Fop Q Notification
or_undef m rest = do ret ← m; if is_neg ret then signal_and_return undef_error else rest

-- `condition_fop_inwindow`
unfoldable pub condition_fop_inwindow : FopConfig → Bool
condition_fop_inwindow fop = leb fop.nnr fop.vs || ltb fop.vs ((fop.nnr + fop.slide_wnd) % 256)

-- The test of `osdlp_look_for_fdu` before it sends the next frame
unfoldable pub may_transmit : FopConfig → Bool
may_transmit fop =
    if leb 256 (fop.nnr + fop.slide_wnd)
    then condition_fop_inwindow fop
    else ltb fop.vs (fop.nnr + fop.slide_wnd)

module _ {Q : Type 0} (h : Host Q) where
  -- `osdlp_purge_wait_queue`
  unfoldable pub purge_wait_queue : Fop Q ℤ
  purge_wait_queue = or_minus_one (call h.wait_queue_clear) (pure (pos 0))

  -- `osdlp_purge_sent_queue`
  unfoldable pub purge_sent_queue : Fop Q ℤ
  purge_sent_queue = or_minus_one (call h.sent_queue_clear) (pure (pos 0))

  -- `osdlp_initialize_cop`
  unfoldable pub initialize_cop : Fop Q ℤ
  initialize_cop = or_minus_one purge_wait_queue (
      or_minus_one purge_sent_queue
        (do set_fop (λ fop. record fop { tx_cnt = 1; ss = 0 }); pure (pos 0)))

  -- `osdlp_alert`
  unfoldable pub alert : Fop Q ℤ
  alert = or_minus_one (call h.timer_cancel) (
      or_minus_one purge_wait_queue (
        or_minus_one purge_sent_queue
          (do set_fop (λ fop. record fop { signal = negative_tx }); pure (pos 0))))

  -- `osdlp_resume`
  unfoldable pub resume : Fop Q ℤ
  resume =
      or_minus_one (call h.timer_start) (do set_fop (λ fop. record fop { ss = 0 }); pure (pos 0))

  -- An alert that ends in the initial state: `osdlp_alert`, the state, and the signal
  unfoldable pub alert_with : Notification → Fop Q Notification
  alert_with n = or_undef alert (do set_state fop_state_init; signal_and_return n)

  -- `osdlp_bc_reject`, and so `osdlp_ad_reject` and `osdlp_bd_reject`
  unfoldable pub lower_layer_reject : Fop Q Notification
  lower_layer_reject =
      by_fop_state (alert_with alert_llif) (alert_with alert_llif) (alert_with alert_llif)
        (alert_with alert_llif) (alert_with alert_llif)
        (or_undef alert (signal_and_return alert_llif)) (signal_and_return undef_error)
