-- ===== src/Cop/Table/Suspension.antt =====
-- A service that the timer has suspended, and its resumption.
use osdlp.Common.{ℕ, ◌≡◌, ◌<◌, ◌≤◌, ◌+◌, false, some, arith, is_neg, refl}
use osdlp.Tc.Types.{suspend, positive_dir}
use osdlp.Cop.Host.{Host}
use osdlp.Cop.Sender.{
  Sender, ◌>>=◌, ◌>>◌, pure, get_tf, set_fop, set_state, signal_and_return, call, by_fop_state,
}
use osdlp.Cop.Actions.{or_undef, or_minus_one, resume}
use osdlp.Cop.Events.{fop_e18}
use osdlp.Cop.Dispatch.{handle_timer_expired}
use osdlp.Cop.Directives.{resume_ad}

-- The sender with a number for the suspended state, and in the initial state
abbrev pub suspended : {Q : Type 0} → ℕ → Sender Q → Sender Q
suspended n s = record s {
  tf = record (s.tf) { cop_cfg = record (s.tf.cop_cfg) { ss = n; state = 5 } };
}

abbrev resumed : {Q : Type 0} → Host Q → ℕ → Sender Q → Sender Q
resumed h n s = record {
  tf = record (s.tf) {
    cop_cfg = record (s.tf.cop_cfg) { ss = 0; state = n; signal = positive_dir };
  };
  queues = (h.timer_start s.tf.primary_hdr.vcid s.queues).1;
}

module _ {Q : Type 0} (h : Host Q) where
  pub timer-suspends :
      (rounds : ℕ) (s : Sender Q)
      → s.tf.cop_cfg.tt ≡ 1
      → s.tf.cop_cfg.tx_lim ≤ s.tf.cop_cfg.tx_cnt
      → s.tf.cop_cfg.state < 4
      → handle_timer_expired h rounds s ≡ some (suspend, suspended (s.tf.cop_cfg.state + 1) s)
  unfolding handle_timer_expired fop_e18 by_fop_state ◌>>=◌ ◌>>◌ get_tf set_fop pure
  timer-suspends rounds s timeout limit going = ground arith

  resume-resumes :
      (n : ℕ) (s : Sender Q)
      → ((vcid : ℕ) (q : Q) → is_neg (h.timer_start vcid q).0 ≡ false)
      → n < 4
      → resume_ad h (suspended (n + 1) s) ≡ some (positive_dir, resumed h n s)
  unfolding resume_ad by_fop_state resume or_undef or_minus_one call ◌>>=◌ ◌>>◌ get_tf set_fop
      set_state pure signal_and_return
  resume-resumes n s starts going = ground (arith, starts s.tf.primary_hdr.vcid s.queues)

  -- Over an application whose timer always starts, a service that is active, retransmits, waits or awaits its first report, and whose timer expires at the transmission limit under timeout type 1, is suspended: `osdlp_handle_timer_expired` returns SUSPEND with the FOP in the initial state. The directive to resume then brings the service back: `osdlp_resume_ad` returns POSITIVE_DIR in the state the service was in, with no suspension noted and the timer started, and the rest of the channel as it was.
  pub resume_ad-handle_timer_expired :
      (rounds : ℕ) (s : Sender Q)
      → ((vcid : ℕ) (q : Q) → is_neg (h.timer_start vcid q).0 ≡ false)
      → s.tf.cop_cfg.tt ≡ 1
      → s.tf.cop_cfg.tx_lim ≤ s.tf.cop_cfg.tx_cnt
      → s.tf.cop_cfg.state < 4
      → (t : Sender Q) × (handle_timer_expired h rounds s ≡ some (suspend, t))
        × (t.tf.cop_cfg.state ≡ 5)
        × (resume_ad h t
            ≡ some (
              positive_dir,
              record {
                tf = record (s.tf) {
                  cop_cfg = record (s.tf.cop_cfg) { ss = 0; signal = positive_dir };
                };
                queues = (h.timer_start s.tf.primary_hdr.vcid s.queues).1;
              },
            ))
  resume_ad-handle_timer_expired rounds s starts timeout limit going = (
    suspended (s.tf.cop_cfg.state + 1) s,
    timer-suspends rounds s timeout limit going,
    refl,
    resume-resumes s.tf.cop_cfg.state s starts going,
  )
