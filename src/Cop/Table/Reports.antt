-- ===== src/Cop/Table/Reports.antt =====
-- The table for the events that report words cause.
use osdlp.Common.{ℕ, ◌≡◌, refl, ◌⊎◌, inr, some, List, arith, true}
use osdlp.Common.{List}
use osdlp.Clcw.{ClcwFrame, clcw_unpack}
use osdlp.Cop.Actions.{alert, alert_with}
use osdlp.Cop.Actions.Transmit.{look_for_fdu, initiate_retransmission}
use osdlp.Cop.Actions.Sent.{remove_acked_frames, release_copy_of_bc}
use osdlp.Cop.Keeps.Calls.{call-Keeps}
use osdlp.Tc.Types.{Notification, undef_error, FopConfig}
use osdlp.Cop.Host.{Host}
use osdlp.Cop.Sender.{Sender, signal_and_return, call, ◌>>=◌, ◌>>◌, get_tf, set_tf, filled}
use osdlp.Cop.Events.{
  fop_e1, accept_report, fop_e2, fop_e3, fop_e4, fop_e5, fop_e6, fop_e7, fop_e8, fop_e9, fop_e10,
  fop_e11, fop_e12, fop_e13, fop_e14, fop_e101, fop_e102, fop_e103,
}
use osdlp.Cop.Dispatch.{
  ReportEvent, e1, e2, e3, e4, e5, e6, e7, e8, e9, e10, e11, e12, e13, e14, e101, e102, e103,
  no_limit, run_report_event, handle_clcw, report_event, report_in_bounds,
}
use osdlp.Cop.Keeps.{Leaves, Keeps, Leaves-some}
use osdlp.Cop.Keeps.Sending.{alert-Keeps, look_for_fdu-Keeps, initiate_retransmission-Keeps}
use osdlp.Cop.Keeps.Sent.{remove_acked_frames-Keeps, release_copy_of_bc-Keeps}
use osdlp.Cop.Table.{
  goes, next_state, Follows, by_fop_state-Follows, Serves, Goes, Ready, alert_with, alert,
  alert_with-Goes, Ends,
}

-- The states in which each event leaves the FOP, from the states 0 to 5
abbrev pub state_table : ReportEvent → ℕ → ℕ
state_table e1 = next_state 0 5 5 0 0 5
state_table e2 = next_state 0 1 2 3 4 5
state_table e3 = next_state 5 5 5 5 5 5
state_table e4 = next_state 5 5 5 5 4 5
state_table e5 = next_state 0 5 5 3 4 5
state_table e6 = next_state 0 0 0 3 4 5
state_table e7 = next_state 5 5 5 3 4 5
state_table e8 = next_state 1 1 1 3 4 5
state_table e9 = next_state 2 2 2 3 4 5
state_table e10 = next_state 1 1 1 3 4 5
state_table e11 = next_state 2 2 2 3 4 5
state_table e12 = next_state 1 1 1 3 4 5
state_table e13 = next_state 5 5 5 5 4 5
state_table e14 = next_state 5 5 5 5 4 5
state_table e101 = next_state 5 5 5 3 4 5
state_table e102 = next_state 5 5 5 3 4 5
state_table e103 = next_state 2 2 2 3 4 5
state_table no_limit = next_state 0 1 2 3 4 5

-- A word that asks for retransmission, where the transmission limit is 0
pub record WithoutLimit (fop : FopConfig) (c : ClcwFrame) : Type 0 where
  pub unlocked : c.lockout ≡ 0
  pub not_last : ¬ (fop.vs ≡ c.report_value)
  pub in_bounds : report_in_bounds fop c.report_value ≡ true
  pub asks : ¬ (c.rt ≡ 0)
  pub limit : fop.tx_lim ≡ 0

without_limit :
    (fop : FopConfig) (c : ClcwFrame) → WithoutLimit fop c → report_event fop c ≡ no_limit
unfolding report_event
without_limit fop c w = ground arith

module _ {Q : Type 0} (h : Host Q) (Ok : Q → Type 0) (size : ℕ) (serves : Serves h Ok size) where
  alert_to : (from : ℕ) (n : Notification) → Goes (Ready Ok size) from 5 (alert_with h n)
  alert_to from n = alert_with-Goes serves from n

  alert-runs : Keeps (Ready Ok size) (alert h)
  alert-runs = alert-Keeps serves

  look_for_fdu-runs : Keeps (Ready Ok size) (look_for_fdu h)
  look_for_fdu-runs = look_for_fdu-Keeps serves

  release-runs : Keeps (Ready Ok size) (release_copy_of_bc h)
  release-runs = release_copy_of_bc-Keeps serves

  remove-runs : (nr : ℕ) → Keeps (Ready Ok size) (remove_acked_frames h nr)
  remove-runs nr = (remove_acked_frames-Keeps serves) nr

  retransmission-runs : Keeps (Ready Ok size) (initiate_retransmission h h.mark_ad_as_rt)
  retransmission-runs = initiate_retransmission-Keeps serves _ serves.mark_ad_as_rt

  cancel-runs : Keeps (Ready Ok size) (call h.timer_cancel)
  cancel-runs = call-Keeps _ serves.timer_cancel

  ruleset acting = (
    by_fop_state-Follows, goes, alert_to, alert-runs, look_for_fdu-runs, release-runs, remove-runs,
    retransmission-runs, cancel-runs,
  )

  e1-Follows : Follows (Ready Ok size) (state_table e1) (fop_e1 h)
  unfolding fop_e1
  e1-Follows = search acting depth 24

  e3-Follows : Follows (Ready Ok size) (state_table e3) (fop_e3 h)
  unfolding fop_e3
  e3-Follows = search acting depth 24

  e2-Follows : (nr : ℕ) → Follows (Ready Ok size) (state_table e2) (fop_e2 h nr)
  unfolding fop_e2 accept_report
  e2-Follows nr = search acting depth 24

  e4-Follows : Follows (Ready Ok size) (state_table e4) (fop_e4 h)
  unfolding fop_e4
  e4-Follows = search acting depth 24

  e5-Follows : Follows (Ready Ok size) (state_table e5) (fop_e5 h)
  unfolding fop_e5
  e5-Follows = search acting depth 24

  e6-Follows : (nr : ℕ) → Follows (Ready Ok size) (state_table e6) (fop_e6 h nr)
  unfolding fop_e6
  e6-Follows nr = search acting depth 24

  e7-Follows : Follows (Ready Ok size) (state_table e7) (fop_e7 h)
  unfolding fop_e7
  e7-Follows = search acting depth 24

  e8-Follows : (nr : ℕ) → Follows (Ready Ok size) (state_table e8) (fop_e8 h nr)
  unfolding fop_e8
  e8-Follows nr = search acting depth 24

  e9-Follows : (nr : ℕ) → Follows (Ready Ok size) (state_table e9) (fop_e9 h nr)
  unfolding fop_e9
  e9-Follows nr = search acting depth 24

  e10-Follows : Follows (Ready Ok size) (state_table e10) (fop_e10 h)
  unfolding fop_e10
  e10-Follows = search acting depth 24

  e11-Follows : Follows (Ready Ok size) (state_table e11) (fop_e11 h)
  unfolding fop_e11
  e11-Follows = search acting depth 24

  e12-Follows : Follows (Ready Ok size) (state_table e12) (fop_e12 h)
  unfolding fop_e12
  e12-Follows = search acting depth 24

  e13-Follows : Follows (Ready Ok size) (state_table e13) (fop_e13 h)
  unfolding fop_e13
  e13-Follows = search acting depth 24

  e14-Follows : Follows (Ready Ok size) (state_table e14) (fop_e14 h)
  unfolding fop_e14
  e14-Follows = search acting depth 24

  e101-Follows : (nr : ℕ) → Follows (Ready Ok size) (state_table e101) (fop_e101 h nr)
  unfolding fop_e101
  e101-Follows nr = search acting depth 24

  e102-Follows : Follows (Ready Ok size) (state_table e102) (fop_e102 h)
  unfolding fop_e102
  e102-Follows = search acting depth 24

  e103-Follows : Follows (Ready Ok size) (state_table e103) (fop_e103 h)
  unfolding fop_e103
  e103-Follows = search acting depth 24

  report_event-Follows :
      (e : ReportEvent) (nr : ℕ) → Follows (Ready Ok size) (state_table e) (run_report_event h e nr)
  unfolding run_report_event signal_and_return
  report_event-Follows e1 nr = e1-Follows
  report_event-Follows e2 nr = e2-Follows nr
  report_event-Follows e3 nr = e3-Follows
  report_event-Follows e4 nr = e4-Follows
  report_event-Follows e5 nr = e5-Follows
  report_event-Follows e6 nr = e6-Follows nr
  report_event-Follows e7 nr = e7-Follows
  report_event-Follows e8 nr = e8-Follows nr
  report_event-Follows e9 nr = e9-Follows nr
  report_event-Follows e10 nr = e10-Follows
  report_event-Follows e11 nr = e11-Follows
  report_event-Follows e12 nr = e12-Follows
  report_event-Follows e13 nr = e13-Follows
  report_event-Follows e14 nr = e14-Follows
  report_event-Follows e101 nr = e101-Follows nr
  report_event-Follows e102 nr = e102-Follows
  report_event-Follows e103 nr = e103-Follows
  report_event-Follows no_limit nr = record { apply = λ s r. inr (refl, refl) }

  -- The table holds for every report word that can be read: the function returns.
  handle_clcw-Follows :
      (ocf : List ℕ) (c : ClcwFrame) (s : Sender Q)
      → clcw_unpack ocf ≡ some c
      → Ready Ok size s
      → Leaves
          (Ends s.tf.cop_cfg.state (state_table (report_event s.tf.cop_cfg c) s.tf.cop_cfg.state))
          (handle_clcw h ocf s)
  unfolding handle_clcw ◌>>=◌ ◌>>◌ get_tf set_tf filled
  handle_clcw-Follows ocf c s e r =
      let t : Sender Q = record s {
        tf = record (s.tf) { mission = record (s.tf.mission) { clcw = c } };
      } in
      let ready : Ready Ok size t = record {
        queues = r.queues;
        frame = r.frame;
        room = ground (arith, r.room);
      } in
      rw e ((report_event-Follows (report_event s.tf.cop_cfg c) c.report_value).apply t ready)

  -- The answer without an event
  unlimited_answer :
      (ocf : List ℕ) (c : ClcwFrame) (s t : Sender Q) (n : Notification)
      → clcw_unpack ocf ≡ some c
      → handle_clcw h ocf s ≡ some (n, t)
      → WithoutLimit s.tf.cop_cfg c
      → (n ≡ undef_error)
        × (t.tf.cop_cfg.signal ≡ undef_error)
        × (t.tf.cop_cfg.state ≡ s.tf.cop_cfg.state)
  unfolding handle_clcw run_report_event signal_and_return ◌>>=◌ ◌>>◌ get_tf set_tf filled
  unlimited_answer ocf c s t n e run w =
      let event = without_limit s.tf.cop_cfg c w in ground (arith, rw (e, event) at run)

  -- Over an application that serves the sender (`Serves`), whose functions change the queues alone, a report word that can be read is answered in every state, where the sender is ready (its queues in order, the data of the frame at hand complete and of at most `size` bytes, and room for a packed frame of them): `osdlp_handle_clcw` returns, and the FOP is then in the state that the table gives for the event the word causes, or has reported an error and kept its state. A word without lockout that asks for retransmission, with N(R) within the code's bounds and not V(S), has no event in the code where the transmission limit is 0: `osdlp_handle_clcw` then returns and signals UNDEF_ERROR and keeps the state.
  pub handle_clcw-table :
      (ocf : List ℕ) (c : ClcwFrame) (s : Sender Q)
      → clcw_unpack ocf ≡ some c
      → Ready Ok size s
      → (n : Notification) × (t : Sender Q) × (handle_clcw h ocf s ≡ some (n, t))
        × ((t.tf.cop_cfg.state ≡ state_table (report_event s.tf.cop_cfg c) s.tf.cop_cfg.state)
            ⊎ ((n ≡ undef_error) × (t.tf.cop_cfg.state ≡ s.tf.cop_cfg.state)))
        × (WithoutLimit s.tf.cop_cfg c
            → ((n ≡ undef_error)
                × (t.tf.cop_cfg.signal ≡ undef_error)
                × (t.tf.cop_cfg.state ≡ s.tf.cop_cfg.state)))
  handle_clcw-table ocf c s e r =
      let (n, t, run, ends) = Leaves-some _ _ (handle_clcw-Follows ocf c s e r) in
      (n, t, run, ends, unlimited_answer ocf c s t n e run)
