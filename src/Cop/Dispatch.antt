-- ===== src/Cop/Dispatch.antt =====
-- src/osdlp_cop.c, the sender's side (FOP-1): which event a report word, a timer or a request causes.
use osdlp.Common.{ℕ, Bool, List, not, ◌&&◌, ◌||◌, ltb, leb, ◌==◌, if◌then◌else◌}
use osdlp.Clcw.{ClcwFrame, clcw_unpack}
use osdlp.Tc.Types.{type_a, type_b, tc_data, FopConfig, Notification, undef_error}
use osdlp.Cop.Host.{Host}
use osdlp.Cop.Sender.{Fop, ◌>>=◌, ◌>>◌, get_tf, set_tf, signal_and_return, ask, filled}
use osdlp.Cop.Events.{
  fop_e1, fop_e2, fop_e3, fop_e4, fop_e5, fop_e6, fop_e7, fop_e8, fop_e9, fop_e10, fop_e11, fop_e12,
  fop_e13, fop_e14, fop_e16, fop_e17, fop_e18, fop_e19, fop_e20, fop_e21, fop_e101, fop_e102,
  fop_e103, fop_e104,
}

-- The events that a report word can cause; `no_limit` is the transmission limit 0, for which the
-- code has no event.
pub data ReportEvent : Type 0 where
  e1 e2 e3 e4 e5 e6 e7 e8 e9 e10 e11 e12 e13 e14 e101 e102 e103 no_limit : ReportEvent

-- The test that N(R) lies between NN(R) and V(S), where it is not V(S).
unfoldable pub report_in_bounds : FopConfig → ℕ → Bool
report_in_bounds fop nr =
    (ltb nr fop.vs && leb fop.nnr nr)
    || (ltb fop.vs nr && ltb fop.nnr nr)
    || (ltb nr fop.vs && ltb nr fop.nnr)

-- The tests of `osdlp_handle_clcw`, in their order
unfoldable pub report_event : FopConfig → ClcwFrame → ReportEvent
report_event fop clcw =
    let nr = clcw.report_value in
    if clcw.lockout == 0
    then (if fop.vs == nr
        then (if clcw.rt == 0
            then (if clcw.wait == 0 then (if nr == fop.nnr then e1 else e2) else e3)
            else e4)
        else if report_in_bounds fop nr
        then (if clcw.rt == 0
            then (if clcw.wait == 0 then (if nr == fop.nnr then e5 else e6) else e7)
            else if fop.tx_lim == 1
            then (if not (nr == fop.nnr) then e101 else e102)
            else if ltb 1 fop.tx_lim
            then (if not (nr == fop.nnr)
                then (if clcw.wait == 0 then e8 else e9)
                else if ltb fop.tx_cnt fop.tx_lim
                then (if clcw.wait == 0 then e10 else e11)
                else (if clcw.wait == 0 then e12 else e103))
            else no_limit)
        else e13)
    else e14

module _ {Q : Type 0} (h : Host Q) where
  -- The call that an event makes
  unfoldable pub run_report_event : ReportEvent → ℕ → Fop Q Notification
  run_report_event e1 nr = fop_e1 h
  run_report_event e2 nr = fop_e2 h nr
  run_report_event e3 nr = fop_e3 h
  run_report_event e4 nr = fop_e4 h
  run_report_event e5 nr = fop_e5 h
  run_report_event e6 nr = fop_e6 h nr
  run_report_event e7 nr = fop_e7 h
  run_report_event e8 nr = fop_e8 h nr
  run_report_event e9 nr = fop_e9 h nr
  run_report_event e10 nr = fop_e10 h
  run_report_event e11 nr = fop_e11 h
  run_report_event e12 nr = fop_e12 h
  run_report_event e13 nr = fop_e13 h
  run_report_event e14 nr = fop_e14 h
  run_report_event e101 nr = fop_e101 h nr
  run_report_event e102 nr = fop_e102 h
  run_report_event e103 nr = fop_e103 h
  run_report_event no_limit nr = signal_and_return undef_error

  -- `osdlp_handle_clcw`
  unfoldable pub handle_clcw : List ℕ → Fop Q Notification
  handle_clcw ocf_buffer = do
    tf ← get_tf
    clcw ← filled (clcw_unpack ocf_buffer)
    set_tf (record tf { mission = record (tf.mission) { clcw = clcw } })
    run_report_event (report_event tf.cop_cfg clcw) clcw.report_value

  -- `osdlp_handle_timer_expired`; `rounds` bounds how often a command is sent again at once.
  unfoldable pub handle_timer_expired : ℕ → Fop Q Notification
  handle_timer_expired rounds = do
    tf ← get_tf
    let fop = tf.cop_cfg
    if ltb fop.tx_cnt fop.tx_lim
        then (if fop.tt == 0
            then fop_e16 h rounds
            else if fop.tt == 1
            then fop_e104 h rounds
            else signal_and_return undef_error)
        else (if fop.tt == 0
            then fop_e17 h
            else if fop.tt == 1
            then fop_e18 h
            else signal_and_return undef_error)

  -- `osdlp_req_transfer_fdu`
  unfoldable pub req_transfer_fdu : Fop Q Notification
  req_transfer_fdu = do
    tf ← get_tf
    let hdr = tf.primary_hdr
    if hdr.bypass == type_a
        then (do
          nothing_waits ← ask h.wait_queue_empty
          if nothing_waits then fop_e19 h else fop_e20 h)
        else if (hdr.bypass == type_b) && (hdr.ctrl_cmd == tc_data)
        then fop_e21 h
        else signal_and_return undef_error
