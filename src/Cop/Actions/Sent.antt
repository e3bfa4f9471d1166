-- ===== src/Cop/Actions/Sent.antt =====
-- src/osdlp_cop.c, the sender's side (FOP-1): the actions on the frames that have been sent.
use osdlp.Common.{ℕ, zero, suc, ◌+◌, ℤ, pos, negsuc, ◌&&◌, ltb, ◌==◌, if◌then◌else◌, is_neg}
use osdlp.Tc.Types.{type_b, Notification, accept_dir, undef_error, ignore}
use osdlp.Cop.Host.{Host}
use osdlp.Cop.Sender.{
  Fop, ◌>>=◌, ◌>>◌, pure, fault, get_tf, set_fop, signal_and_return, call, call_item, filled,
  conclude, by_fop_state,
}
use osdlp.Cop.Actions.{or_minus_one, lower_layer_reject}

module _ {Q : Type 0} (h : Host Q) where
  -- `osdlp_remove_acked_frames`: the loop with `rounds` to go; more than `slide_wnd` are never made.
  unfoldable pub remove_acked_loop : ℕ → ℕ → ℕ → Fop Q ℤ
  remove_acked_loop zero counter nr = fault
  remove_acked_loop (suc rounds) counter nr =
      let rest = remove_acked_loop rounds (counter + 1) nr in
      do
        head ← call_item h.sent_queue_head
        if is_neg head.0 then pure (pos 0) else (do
          item ← filled head.1
          if item.seq_num == nr
              then pure (pos 0)
              else or_minus_one (do gone ← call_item h.sent_queue_dequeue; pure gone.0)
                  (do
                    set_fop (λ fop. record fop { nnr = nr; tx_cnt = 1 })
                    tf ← get_tf
                    if ltb tf.cop_cfg.slide_wnd (counter + 1) then pure (pos 1) else rest))

  unfoldable pub remove_acked_frames : ℕ → Fop Q ℤ
  remove_acked_frames nr = do tf ← get_tf; remove_acked_loop (tf.cop_cfg.slide_wnd + 1) 0 nr

  -- `osdlp_release_copy_of_bc`
  unfoldable pub release_copy_of_bc : Fop Q ℤ
  release_copy_of_bc = do
    head ← call_item h.sent_queue_head
    if is_neg head.0 then pure (negsuc 0) else (do
      item ← filled head.1
      if item.kind == type_b
          then or_minus_one (do gone ← call_item h.sent_queue_dequeue; pure gone.0) (pure (pos 0))
          else pure (pos 0))

  -- `osdlp_bc_accept`, given `osdlp_look_for_directive`
  unfoldable pub bc_accept_by : Fop Q Notification → Fop Q Notification
  bc_accept_by look_for_directive =
      by_fop_state (pure ignore) (pure ignore) (pure ignore) (pure ignore)
        (look_for_directive >>= conclude) (pure ignore) (signal_and_return undef_error)

  -- `osdlp_look_for_directive`. It calls itself through `osdlp_bc_accept`, as long as the application
  -- reports a command that is to be sent again: `rounds` bounds how often.
  unfoldable pub look_for_directive : ℕ → Fop Q Notification
  look_for_directive zero = fault
  look_for_directive (suc rounds) =
      let again = look_for_directive rounds in
      do
        head ← call_item h.sent_queue_head
        if is_neg head.0 then signal_and_return undef_error else (do
          item ← filled head.1
          if (item.rt_flag == 1) && (item.kind == type_b)
              then (do
                ret ← call (λ vcid. h.tx_queue_enqueue vcid item.fdu)
                if is_neg ret then lower_layer_reject h else (do
                  ret ← call (λ vcid. h.reset_rt_frame vcid (record item { rt_flag = 0 }))
                  if is_neg ret then pure undef_error else bc_accept_by again))
              else pure accept_dir)
