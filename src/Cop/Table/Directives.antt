-- ===== src/Cop/Table/Directives.antt =====
-- The directives that begin and end a service without sending a command: what each answers and does.
use osdlp.Common.{ℕ, ◌≡◌, ◌≤◌, ◌∙◌, refl, pos, some, arith, ◌==◌, if◌then◌else◌}
use osdlp.Tc.Types.{Notification, reject_dir, positive_dir, accept_dir}
use osdlp.Cop.Host.{Host}
use osdlp.Cop.Sender.{
  Sender, Fop, ◌>>=◌, ◌>>◌, pure, call, set_fop, set_state, signal_and_return, by_fop_state,
}
use osdlp.Cop.Actions.{initialize_cop, purge_wait_queue, purge_sent_queue}
use osdlp.Cop.Directives.{initiate_no_clcw, initiate_with_clcw, terminate_ad}
use osdlp.Cop.Table.Lockout.{
  CanPurge, purged, or_minus_one-goes_on, or_undef-goes_on, alert_with-ends,
}

pub data Directive : Type 0 where
  no_clcw with_clcw terminate : Directive

pub run_directive : {Q : Type 0} → Host Q → Directive → Fop Q Notification
run_directive h no_clcw = initiate_no_clcw h
run_directive h with_clcw = initiate_with_clcw h
run_directive h terminate = terminate_ad h

-- The queues with nothing in them
abbrev pub cleared : {Q : Type 0} → Host Q → ℕ → Q → Q
cleared h vcid q = (h.sent_queue_clear vcid (h.wait_queue_clear vcid q).1).1

abbrev pub signals : {Q : Type 0} → Notification → Sender Q → Sender Q
signals n s = record s { tf = record (s.tf) { cop_cfg = record (s.tf.cop_cfg) { signal = n } } }

-- A service that begins in the state `n`
abbrev pub begun : {Q : Type 0} → ℕ → Notification → Q → Sender Q → Sender Q
begun n answer q s = record {
  tf = record (s.tf) {
    cop_cfg = record (s.tf.cop_cfg) { tx_cnt = 1; ss = 0; state = n; signal = answer };
  };
  queues = q;
}

-- A service that has ended with the queues purged
abbrev pub ended : {Q : Type 0} → Host Q → Notification → Sender Q → Sender Q
ended h answer s = record {
  tf = record (s.tf) { cop_cfg = record (s.tf.cop_cfg) { state = 5; signal = answer } };
  queues = purged h s.tf.primary_hdr.vcid s.queues;
}

-- What a directive answers, and the sender it leaves
abbrev pub directive_table : {Q : Type 0} → Host Q → Directive → Sender Q → Notification × Sender Q
directive_table h no_clcw s =
    if s.tf.cop_cfg.state == 5
    then (positive_dir, begun 0 positive_dir (cleared h s.tf.primary_hdr.vcid s.queues) s)
    else (reject_dir, signals reject_dir s)
directive_table h with_clcw s =
    let vcid = s.tf.primary_hdr.vcid in
    if s.tf.cop_cfg.state == 5
    then (accept_dir, begun 3 accept_dir (h.timer_start vcid (cleared h vcid s.queues)).1 s)
    else (reject_dir, signals reject_dir s)
directive_table h terminate s =
    if s.tf.cop_cfg.state == 5
    then (positive_dir, signals positive_dir s)
    else (positive_dir, ended h positive_dir s)

module _ {Q : Type 0} (h : Host Q) where
  initialize-clears :
      (s : Sender Q)
      → CanPurge h
      → initialize_cop h s
        ≡ some (
          pos 0,
          record {
            tf = record (s.tf) { cop_cfg = record (s.tf.cop_cfg) { tx_cnt = 1; ss = 0 } };
            queues = cleared h s.tf.primary_hdr.vcid s.queues;
          },
        )
  unfolding initialize_cop purge_wait_queue purge_sent_queue ◌>>◌ ◌>>=◌ pure call set_fop
  initialize-clears s can =
      let vcid : ℕ = s.tf.primary_hdr.vcid in
      let q = (h.wait_queue_clear vcid s.queues).1 in
      let t : Sender Q = record s { queues = q } in
      let u : Sender Q = record s { queues = cleared h vcid s.queues } in
      or_minus_one-goes_on _ _ s t (pos 0)
        (or_minus_one-goes_on _ _ s t _ refl (can.wait_queue_clear vcid s.queues)) refl
      ∙ or_minus_one-goes_on _ _ t u (pos 0)
          (or_minus_one-goes_on _ _ t u _ refl (can.sent_queue_clear vcid q)) refl

  -- Over an application that can cancel its timer and clear its queues, each of the directives that initiate a service without a command, and the one that terminates it, returns in every one of the six states, and does this: `osdlp_initiate_no_clcw` and `osdlp_initiate_with_clcw` in the initial state clear both queues, set the count of transmissions to 1 with no suspension noted, and enter the active state with POSITIVE_DIR, or, with the timer started, the state that awaits a first report with ACCEPT_DIR; in every other state they return REJECT_DIR and change nothing but the signal. `osdlp_terminate_ad` returns POSITIVE_DIR: in the initial state it changes nothing but the signal, in the others it cancels the timer, purges both queues and enters the initial state.
  pub run_directive-table :
      (d : Directive) (s : Sender Q)
      → CanPurge h
      → s.tf.cop_cfg.state ≤ 5
      → run_directive h d s ≡ some (directive_table h d s)
  unfolding run_directive initiate_no_clcw initiate_with_clcw terminate_ad by_fop_state ◌>>=◌ ◌>>◌
      set_state set_fop signal_and_return call
  run_directive-table no_clcw s can known = ground (
    arith,
    or_undef-goes_on (initialize_cop h) (do set_state 0; signal_and_return positive_dir) s _ (pos 0)
        (initialize-clears s can) refl,
  )
  run_directive-table with_clcw s can known = ground (
    arith,
    or_undef-goes_on (initialize_cop h)
        (do _ ← call h.timer_start; set_state 3; signal_and_return accept_dir) s _ (pos 0)
        (initialize-clears s can) refl,
  )
  run_directive-table terminate s can known = ground (arith, alert_with-ends h s positive_dir can)
