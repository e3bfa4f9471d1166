-- ===== src/Cop/Directives.antt =====
-- src/osdlp_cop.c, the sender's side (FOP-1): the directives of the management and the answers of
-- the lower layers.
use osdlp.Common.{ℕ, ◌==◌, if◌then◌else◌}
use osdlp.Tc.Types.{
  Notification, accept_dir, reject_dir, positive_dir, accept_tx, undef_error, ignore, na,
}
use osdlp.Tc.Setup.{prepare_typeb_setvr, prepare_typeb_unlock}
use osdlp.Cop.Host.{Host}
use osdlp.Cop.Sender.{
  fop_state_active, fop_state_rt_no_wait, fop_state_rt_wait, fop_state_init_no_bc,
  fop_state_init_bc, Fop, ◌>>=◌, ◌>>◌, pure, get_tf, set_tf, set_fop, set_state, signal_and_return,
  call, conclude, by_fop_state,
}
use osdlp.Cop.Actions.{or_undef, alert_with, initialize_cop, resume}
use osdlp.Cop.Actions.Transmit.{transmit_type_bc, look_for_fdu}
use osdlp.Cop.Actions.Sent.{look_for_directive, bc_accept_by}
use osdlp.Cop.Events.{unknown_state}

-- The same answer in each of the six states
abbrev pub in_every_state : {Q : Type 0} → Fop Q Notification → Fop Q Notification
in_every_state m = by_fop_state m m m m m m unknown_state

-- One answer in the first five states, another in the initial one
abbrev pub only_init : {Q : Type 0} → Fop Q Notification → Fop Q Notification → Fop Q Notification
only_init other m = by_fop_state other other other other other m unknown_state

module _ {Q : Type 0} (h : Host Q) where
  -- `osdlp_initiate_no_clcw`
  unfoldable pub initiate_no_clcw : Fop Q Notification
  initiate_no_clcw =
      only_init (signal_and_return reject_dir) (
        or_undef (initialize_cop h) (do set_state fop_state_active; signal_and_return positive_dir))

  -- `osdlp_initiate_with_clcw`
  unfoldable pub initiate_with_clcw : Fop Q Notification
  initiate_with_clcw = only_init (signal_and_return reject_dir) (
      or_undef (initialize_cop h)
        (do _ ← call h.timer_start; set_state fop_state_init_no_bc; signal_and_return accept_dir))

  -- The command that has been prepared is sent, and the state is the one that waits for it.
  abbrev send_command : Fop Q Notification
  send_command =
      or_undef (transmit_type_bc h) (do set_state fop_state_init_bc; signal_and_return accept_dir)

  -- `osdlp_initiate_with_unlock`
  unfoldable pub initiate_with_unlock : Fop Q Notification
  initiate_with_unlock =
      only_init (pure reject_dir) (
        or_undef (initialize_cop h)
          (do tf ← get_tf; set_tf (prepare_typeb_unlock tf); send_command))

  -- `osdlp_initiate_with_setvr`
  unfoldable pub initiate_with_setvr : ℕ → Fop Q Notification
  initiate_with_setvr new_vr = only_init (pure reject_dir) (
      or_undef (initialize_cop h) (do
        set_fop (λ fop. record fop { vs = new_vr; nnr = new_vr })
        tf ← get_tf
        set_tf (prepare_typeb_setvr tf new_vr)
        send_command))

  -- `osdlp_terminate_ad`
  unfoldable pub terminate_ad : Fop Q Notification
  terminate_ad = only_init (alert_with h positive_dir) (signal_and_return positive_dir)

  -- The initial state's answer to a resumption, for the state that was suspended
  abbrev resume_in : ℕ → Fop Q Notification
  resume_in n =
      only_init (pure na) (or_undef (resume h) (do set_state n; signal_and_return positive_dir))

  -- `osdlp_resume_ad`
  unfoldable pub resume_ad : Fop Q Notification
  resume_ad = do
    tf ← get_tf
    let ss = tf.cop_cfg.ss
    if ss == 0
        then in_every_state (pure reject_dir)
        else if ss == 1
        then resume_in fop_state_active
        else if ss == 2
        then resume_in fop_state_rt_no_wait
        else if ss == 3
        then resume_in fop_state_rt_wait
        else if ss == 4
        then resume_in fop_state_init_no_bc
        else signal_and_return undef_error

  -- `osdlp_ad_accept`
  unfoldable pub ad_accept : Fop Q Notification
  ad_accept =
      by_fop_state (look_for_fdu h >>= conclude) (look_for_fdu h >>= conclude) (pure ignore)
        (pure ignore) (pure ignore) (pure ignore) unknown_state

  -- `osdlp_bc_accept`
  unfoldable pub bc_accept : ℕ → Fop Q Notification
  bc_accept rounds = bc_accept_by h (look_for_directive h rounds)

module _ {Q : Type 0} where
  -- `osdlp_set_new_vs`
  unfoldable pub set_new_vs : ℕ → Fop Q Notification
  set_new_vs new_vs = only_init (pure reject_dir) (do
    tf ← get_tf
    if tf.cop_cfg.ss == 0
        then (do
          set_fop (λ fop. record fop { vs = new_vs; nnr = new_vs })
          signal_and_return positive_dir)
        else pure reject_dir)

  -- `osdlp_set_sliding_window`
  unfoldable pub set_sliding_window : ℕ → Fop Q Notification
  set_sliding_window new_wnd =
      in_every_state
        (do set_fop (λ fop. record fop { slide_wnd = new_wnd }); signal_and_return positive_dir)

  -- `osdlp_set_timer`
  unfoldable pub set_timer : ℕ → Fop Q Notification
  set_timer new_t1 =
      in_every_state
        (do set_fop (λ fop. record fop { t1_init = new_t1 }); signal_and_return positive_dir)

  -- `osdlp_set_tx_limit`
  unfoldable pub set_tx_limit : ℕ → Fop Q Notification
  set_tx_limit new_lim =
      in_every_state
        (do set_fop (λ fop. record fop { tx_lim = new_lim }); signal_and_return positive_dir)

  -- `osdlp_set_tt`
  unfoldable pub set_tt : ℕ → Fop Q Notification
  set_tt new_tt =
      in_every_state
        (do set_fop (λ fop. record fop { tt = new_tt }); signal_and_return positive_dir)

  -- `osdlp_bd_accept`
  unfoldable pub bd_accept : Fop Q Notification
  bd_accept = in_every_state (signal_and_return accept_tx)
