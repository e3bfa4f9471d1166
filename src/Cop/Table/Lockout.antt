-- ===== src/Cop/Table/Lockout.antt =====
-- The way of a report word with the lockout flag through the sender.
use osdlp.Common.{ℕ, ◌≡◌, ◌<◌, refl, ◌∙◌, ℤ, pos, List, ◌++◌, false, some, arith, is_neg}
use osdlp.Clcw.{ClcwFrame}
use osdlp.Clcw.RoundTrip.{IsClcw, clcw_bytes, unpack-bytes}
use osdlp.Tc.Types.{Notification, negative_tx, alert_lockout}
use osdlp.Cop.Host.{Host}
use osdlp.Cop.Sender.{
  Sender, Fop, ◌>>=◌, ◌>>◌, pure, get_tf, set_tf, filled, call, set_fop, set_state,
  signal_and_return, by_fop_state,
}
use osdlp.Cop.Actions.{
  or_minus_one, or_undef, purge_wait_queue, purge_sent_queue, alert, alert_with,
}
use osdlp.Cop.Events.{fop_e14}
use osdlp.Cop.Dispatch.{handle_clcw, report_event, e14, run_report_event}

-- The application can always cancel the timer and clear its queues.
pub record CanPurge {Q : Type 0} (h : Host Q) : Type 0 where
  pub timer_cancel : (vcid : ℕ) (q : Q) → is_neg (h.timer_cancel vcid q).0 ≡ false
  pub wait_queue_clear : (vcid : ℕ) (q : Q) → is_neg (h.wait_queue_clear vcid q).0 ≡ false
  pub sent_queue_clear : (vcid : ℕ) (q : Q) → is_neg (h.sent_queue_clear vcid q).0 ≡ false

-- The queues after the purge
abbrev pub purged : {Q : Type 0} → Host Q → ℕ → Q → Q
purged h vcid q = (h.sent_queue_clear vcid (h.wait_queue_clear vcid (h.timer_cancel vcid q).1).1).1

-- A call that reports no error is followed by the rest.
pub or_minus_one-goes_on :
    {Q : Type 0} (m rest : Fop Q ℤ) (s t : Sender Q) (r : ℤ)
    → m s ≡ some (r, t)
    → is_neg r ≡ false
    → or_minus_one m rest s ≡ rest t
unfolding or_minus_one ◌>>=◌
or_minus_one-goes_on m rest s t r e ok = ground arith

pub or_undef-goes_on :
    {Q : Type 0} (m : Fop Q ℤ) (rest : Fop Q Notification) (s t : Sender Q) (r : ℤ)
    → m s ≡ some (r, t)
    → is_neg r ≡ false
    → or_undef m rest s ≡ rest t
unfolding or_undef ◌>>=◌
or_undef-goes_on m rest s t r e ok = ground arith

alert-purges :
    {Q : Type 0} (h : Host Q) (s : Sender Q)
    → CanPurge h
    → alert h s
      ≡ some (
        pos 0,
        record {
          tf = record (s.tf) { cop_cfg = record (s.tf.cop_cfg) { signal = negative_tx } };
          queues = purged h s.tf.primary_hdr.vcid s.queues;
        },
      )
unfolding alert purge_wait_queue purge_sent_queue ◌>>◌ ◌>>=◌ pure call set_fop
alert-purges h s can =
    let vcid : ℕ = s.tf.primary_hdr.vcid in
    let q = (h.timer_cancel vcid s.queues).1 in
    let q' = (h.wait_queue_clear vcid q).1 in
    or_minus_one-goes_on _ _ s (record s { queues = q }) _ refl (can.timer_cancel vcid s.queues)
    ∙ or_minus_one-goes_on _ _ (record s { queues = q }) (record s { queues = q' }) (pos 0)
        (or_minus_one-goes_on _ _ (record s { queues = q }) (record s { queues = q' }) _ refl
          (can.wait_queue_clear vcid q))
        refl
    ∙ or_minus_one-goes_on _ _ (record s { queues = q' })
        (record s { queues = purged h vcid s.queues }) (pos 0)
        (or_minus_one-goes_on _ _ (record s { queues = q' })
          (record s { queues = purged h vcid s.queues }) _ refl (can.sent_queue_clear vcid q'))
        refl

pub alert_with-ends :
    {Q : Type 0} (h : Host Q) (s : Sender Q) (n : Notification)
    → CanPurge h
    → alert_with h n s
      ≡ some (
        n,
        record {
          tf = record (s.tf) { cop_cfg = record (s.tf.cop_cfg) { state = 5; signal = n } };
          queues = purged h s.tf.primary_hdr.vcid s.queues;
        },
      )
unfolding alert_with ◌>>◌ ◌>>=◌ set_fop set_state signal_and_return
alert_with-ends h s n can = or_undef-goes_on _ _ s _ (pos 0) (alert-purges h s can) refl

locked_out-e14 :
    {Q : Type 0} (s : Sender Q) (c : ClcwFrame) → c.lockout ≡ 1 → report_event s.tf.cop_cfg c ≡ e14
unfolding report_event
locked_out-e14 s c e = ground arith

-- Over an application that can cancel its timer and clear its queues, a report word with the lockout flag set, received in one of the four states in which the FOP sends or waits for the first report, ends the service: `osdlp_handle_clcw` stores the word, purges both queues, cancels the timer, enters the initial state, and returns and signals ALERT_LOCKOUT.
pub handle_clcw_lockout :
    {Q : Type 0} (h : Host Q) (s : Sender Q) (c : ClcwFrame) (rest : List ℕ)
    → CanPurge h
    → IsClcw c
    → c.lockout ≡ 1
    → s.tf.cop_cfg.state < 4
    → handle_clcw h (clcw_bytes c ++ rest) s
      ≡ some (
        alert_lockout,
        record {
          tf = record (s.tf) {
            mission = record (s.tf.mission) { clcw = c };
            cop_cfg = record (s.tf.cop_cfg) { state = 5; signal = alert_lockout };
          };
          queues = purged h s.tf.primary_hdr.vcid s.queues;
        },
      )
unfolding handle_clcw run_report_event ◌>>=◌ ◌>>◌ filled get_tf set_tf fop_e14 by_fop_state
handle_clcw_lockout h s c rest can v locked going =
    rw (unpack-bytes c rest v, locked_out-e14 s c locked)
      (ground (
        arith,
        alert_with-ends h
            (record s { tf = record (s.tf) { mission = record (s.tf.mission) { clcw = c } } })
            alert_lockout can,
      ))
