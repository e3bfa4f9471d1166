-- ===== src/Cop/Table/Timer.antt =====
-- The timer: at its limit, and in general.
use osdlp.Common.{ℕ, ◌≡◌, ◌≤◌, arith, some, ◌==◌, suc, ltb, ◌&&◌, if◌then◌else◌, ◌+◌}
use osdlp.Tc.Types.{Notification, undef_error, suspend, ignore, na, alert_t1}
use osdlp.Cop.Serves.{Serves, Ready}
use osdlp.Cop.Events.{resend, resend_directive, suspend_with, fop_e17, fop_e18, fop_e16, fop_e104}
use osdlp.Cop.Keeps.{Leaves-some, get_tf-Keeps, pure-Keeps}
use osdlp.Cop.Keeps.Returns.{
  Returns, bind-Returns, or_undef-Returns, Keeps-Returns, if-Returns, by_fop_state-Returns,
  next-Returns, set_fop-Returns,
}
use osdlp.Cop.Keeps.Directive.{look_for_directive-Returns, alert_with-Returns}
use osdlp.Cop.Keeps.Sending.{initiate_retransmission-Keeps, look_for_fdu-Keeps}
use osdlp.Cop.Host.{Host}
use osdlp.Cop.Table.Lockout.{CanPurge, alert_with-ends}
use osdlp.Cop.Table.Suspension.{suspended}
use osdlp.Cop.Table.Directives.{ended}
use osdlp.Cop.Sender.{by_fop_state, Sender, ◌>>=◌, get_tf, set_fop, pure, ◌>>◌}
use osdlp.Cop.Dispatch.{handle_timer_expired}
use osdlp.Cop.Keeps.Calls.{signal-Keeps, conclude-Keeps}

-- What the timer answers at its limit, and the sender it leaves
abbrev pub limit_table : {Q : Type 0} → Host Q → Sender Q → Notification × Sender Q
limit_table h s =
    let fop = s.tf.cop_cfg in
    if fop.state == 5
    then (na, s)
    else if (fop.tt == 1) && ltb fop.state 4
    then (suspend, suspended (fop.state + 1) s)
    else (alert_t1, ended h alert_t1 s)

module _ {Q : Type 0} (h : Host Q) where
  -- Over an application that can cancel its timer and clear its queues, `osdlp_handle_timer_expired` at the transmission limit ends or suspends the service that is going on in one of the first five states, and the FOP is in the initial state: under timeout type 1 a service that is active, retransmits, waits or awaits its first report is suspended, with its state noted and its queues kept, and the function returns SUSPEND; under timeout type 0, and where a command is on its way, the timer is cancelled, both queues are purged, and the function returns and signals ALERT_T1. In the initial state it returns NA and changes nothing.
  pub handle_timer_expired-at_limit :
      (rounds : ℕ) (s : Sender Q)
      → CanPurge h
      → s.tf.cop_cfg.tt ≤ 1
      → s.tf.cop_cfg.state ≤ 5
      → s.tf.cop_cfg.tx_lim ≤ s.tf.cop_cfg.tx_cnt
      → handle_timer_expired h rounds s ≡ some (limit_table h s)
  unfolding handle_timer_expired fop_e17 fop_e18 by_fop_state ◌>>=◌ ◌>>◌ get_tf set_fop pure
  handle_timer_expired-at_limit rounds s can type known limit =
      ground (arith, alert_with-ends h s alert_t1 can)

module _ {Q : Type 0} (h : Host Q) (Ok : Q → Type 0) (size : ℕ) (serves : Serves h Ok size) where
  resend-Returns : Returns (Ready Ok size) (resend h (pure tt))
  resend-Returns =
      or_undef-Returns (Keeps-Returns (initiate_retransmission-Keeps serves _ serves.mark_ad_as_rt))
        (bind-Returns (Keeps-Returns (look_for_fdu-Keeps serves))
          λ n. next-Returns (Keeps-Returns (pure-Keeps tt)) (Keeps-Returns (conclude-Keeps n)))

  resend_directive-Returns :
      (rounds : ℕ) → Returns (Ready Ok size) (resend_directive h (suc (suc rounds)))
  resend_directive-Returns rounds =
      or_undef-Returns (Keeps-Returns (initiate_retransmission-Keeps serves _ serves.mark_bc_as_rt))
        (bind-Returns (look_for_directive-Returns serves rounds)
          λ n. Keeps-Returns (conclude-Keeps n))

  e16-Returns : (rounds : ℕ) → Returns (Ready Ok size) (fop_e16 h (suc (suc rounds)))
  unfolding fop_e16
  e16-Returns rounds =
      by_fop_state-Returns resend-Returns resend-Returns (Keeps-Returns (pure-Keeps ignore))
        (alert_with-Returns serves alert_t1) (resend_directive-Returns rounds)
        (Keeps-Returns (pure-Keeps na)) (Keeps-Returns (signal-Keeps undef_error))

  suspended-Returns : (n : ℕ) → Returns (Ready Ok size) (suspend_with n)
  suspended-Returns n = next-Returns (set_fop-Returns _) (Keeps-Returns (pure-Keeps suspend))

  e104-Returns : (rounds : ℕ) → Returns (Ready Ok size) (fop_e104 h (suc (suc rounds)))
  unfolding fop_e104
  e104-Returns rounds =
      by_fop_state-Returns resend-Returns resend-Returns (Keeps-Returns (pure-Keeps ignore))
        (suspended-Returns 4) (resend_directive-Returns rounds) (Keeps-Returns (pure-Keeps na))
        (Keeps-Returns (signal-Keeps undef_error))

  e17-Returns : Returns (Ready Ok size) (fop_e17 h)
  unfolding fop_e17
  e17-Returns =
      let alerted = alert_with-Returns serves alert_t1 in
      by_fop_state-Returns alerted alerted alerted alerted alerted (Keeps-Returns (pure-Keeps na))
        (Keeps-Returns (signal-Keeps undef_error))

  e18-Returns : Returns (Ready Ok size) (fop_e18 h)
  unfolding fop_e18
  e18-Returns =
      by_fop_state-Returns (suspended-Returns 1) (suspended-Returns 2) (suspended-Returns 3)
        (suspended-Returns 4) (alert_with-Returns serves alert_t1) (Keeps-Returns (pure-Keeps na))
        (Keeps-Returns (signal-Keeps undef_error))

  timer_expired-Returns :
      (rounds : ℕ) → Returns (Ready Ok size) (handle_timer_expired h (suc (suc rounds)))
  unfolding handle_timer_expired
  timer_expired-Returns rounds =
      let other = Keeps-Returns (signal-Keeps undef_error) in
      bind-Returns (Keeps-Returns get_tf-Keeps) λ tf.
        if-Returns (ltb tf.cop_cfg.tx_cnt tf.cop_cfg.tx_lim)
          (if-Returns (tf.cop_cfg.tt == 0) (e16-Returns rounds)
            (if-Returns (tf.cop_cfg.tt == 1) (e104-Returns rounds) other))
          (if-Returns (tf.cop_cfg.tt == 0) e17-Returns
            (if-Returns (tf.cop_cfg.tt == 1) e18-Returns other))

  -- Over an application that serves the sender (`Serves`), whose functions change the queues alone, `osdlp_handle_timer_expired` of a sender that is ready (its queues in order, the data of the frame at hand complete and of at most `size` bytes, and room for a packed frame of them) returns in every state and at every count, with two rounds or more allowed for `osdlp_look_for_directive`, and leaves the sender ready.
  pub handle_timer_expired-returns :
      (rounds : ℕ) (s : Sender Q)
      → 2 ≤ rounds
      → Ready Ok size s
      → (n : Notification) × (t : Sender Q) × (handle_timer_expired h rounds s ≡ some (n, t))
        × Ready Ok size t
  handle_timer_expired-returns (suc (suc rounds)) s enough r =
      Leaves-some (λ _ t. Ready Ok size t) _ ((timer_expired-Returns rounds).apply s r)
  handle_timer_expired-returns rounds s enough r = absurd (omega arith)
