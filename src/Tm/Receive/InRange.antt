-- ===== src/Tm/Receive/InRange.antt =====
-- Every frame that arrives, on a channel with or without stuffing.
use osdlp.Common.{
  ℕ, ◌+◌, ◌%◌, ◌≤◌, ◌<◌, ◌≡◌, refl, ℤ, pos, Bool, false, not, inl, inr, some, arith, length, ltb,
  ◌==◌, if◌then◌else◌, ◌&&◌, ◌||◌, is_neg, Bool-cases,
}
use osdlp.Common.Memory.{◌>>=◌}
use osdlp.Tm.Types.{TmTransferFrame}
use osdlp.Tm.Host.{TmRxHost}
use osdlp.Tm.Setup.{
  tm_loop_open, tm_loop_closed, tm_stuffing_off, tm_first_hdr_ptr_oid,
  tm_first_hdr_ptr_no_pkt_start, close_loop,
}
use osdlp.Tm.Receive.{
  Handled, negated, set_expected, set_buffer, append_packet, handle_rx_no_stuffing, explore_packets,
  handle_s_ptr_zero, find_length_nopkt, handle_s_ptr_nopkt, find_length, finish_packet,
  handle_s_ptr_positive, handle_rx_stuffing, receive_tm_data,
}
use osdlp.Tm.Receive.Safety.{
  IsTmBuffered, Safe, Measures, with_util, closed-IsTmBuffered, expected-IsTmBuffered, ended,
  if-Safe, copy-Safe, hand_over-Safe, deliver-Safe, ns_zero-Safe, append-Safe, ns_positive-Safe,
}
use osdlp.Tm.Receive.Search.{explore-Safe}

module _ {Q : Type 0} (h : TmRxHost Q) (tf : TmTransferFrame) (q : Q) (v : IsTmBuffered tf.mission)
    (measures : Measures h tf.mission.max_sdu_len)
    (has : tf.mission.max_data_len ≤ length tf.bytes) where
  no_stuffing-Safe :
      ((tf.primary_hdr.status.first_hdr_ptr == tm_first_hdr_ptr_no_pkt_start) ≡ false
        → tf.primary_hdr.status.first_hdr_ptr < tf.mission.max_data_len)
      → Safe (handle_rx_no_stuffing h tf q)
  unfolding handle_rx_no_stuffing
  no_stuffing-Safe ptr =
      let first : ℕ = tf.primary_hdr.status.first_hdr_ptr in
      if-Safe (first == 0) _ _ (λ e. ns_zero-Safe h tf q v measures has)
        λ e.
          if-Safe (first == tm_first_hdr_ptr_no_pkt_start || ltb 0 first) _ _
            (λ e'. ns_positive-Safe h tf q v has λ starts. omega (arith, ptr starts))
            (λ e'. ended _ _ _ v)

  find_nopkt-Safe :
      tf.mission.util.loop_state ≡ tm_loop_open
      → Safe (find_length_nopkt h tf q λ tf'. append_packet h tf' tf.mission.max_data_len q)
  unfolding find_length_nopkt
  find_nopkt-Safe is_open =
      let util = tf.mission.util in
      let max_data_len : ℕ = tf.mission.max_data_len in
      let total : ℕ = max_data_len + util.buffered_length in
      if-Safe (not (ltb total tf.mission.max_sdu_len)) _ _
        (λ e. ended _ _ _ (closed-IsTmBuffered tf v))
        λ short.
          let fits : util.buffered_length + max_data_len ≤ tf.mission.max_sdu_len = ground arith in
          copy-Safe tf util.buffered_length tf.bytes max_data_len _ v has fits λ out v'.
            let tf' = set_buffer tf out in
            if-Safe (is_neg (h.get_packet_len out (total % 65536)).0) _ _
              (λ neg. append-Safe h tf' max_data_len q v' has)
              λ told.
                copy-Safe tf' util.buffered_length tf.bytes max_data_len _ v' has fits λ out' v''.
                  if-Safe (total == (h.get_packet_len out (total % 65536)).1) _ _
                    (λ e. deliver-Safe h (set_buffer tf' out') q v'')
                    λ e.
                      ended _ _ _
                        (with_util (set_buffer tf' out') _ v'' refl (λ o. omega arith) v.expected)

  nopkt-Safe : Safe (handle_s_ptr_nopkt h tf q)
  unfolding handle_s_ptr_nopkt
  nopkt-Safe =
      let util = tf.mission.util in
      if-Safe (util.loop_state == tm_loop_closed) _ _ (λ e. ended _ _ _ v)
        λ e.
          if-Safe (util.loop_state == tm_loop_open && util.expected_pkt_len == 0) _ _
            (λ e'. find_nopkt-Safe (ground arith))
            (λ e'. append-Safe h tf tf.mission.max_data_len q v has)

  -- What comes after the end of a packet: the packets that start in the frame
  explored-Safe :
      (tf' : TmTransferFrame) (q' : Q)
      → IsTmBuffered tf'.mission
      → Measures h tf'.mission.max_sdu_len
      → tf'.mission.max_data_len ≤ length tf'.bytes
      → (at : ℕ) → at < tf'.mission.max_data_len
      → Safe (explore_packets h (tf'.mission.max_data_len + 1) at tf' q')
  explored-Safe tf' q' v' measures' has' at within =
      explore-Safe h (tf'.mission.max_data_len + 1) at tf' q' v' measures' has' within (omega arith)

  module _ (ptr : tf.primary_hdr.status.first_hdr_ptr < tf.mission.max_data_len) where
    abbrev explore : TmTransferFrame → Q → Handled Q
    explore = explore_packets h (tf.mission.max_data_len + 1) tf.primary_hdr.status.first_hdr_ptr

    find-Safe : Safe (find_length h tf q explore)
    unfolding find_length
    find-Safe =
        let util = tf.mission.util in
        let first : ℕ = tf.primary_hdr.status.first_hdr_ptr in
        let total : ℕ = first + util.buffered_length in
        if-Safe (not (ltb total tf.mission.max_sdu_len)) _ _
          (λ e. explored-Safe tf q v measures has first ptr)
          λ short.
            let fits : util.buffered_length + first ≤ tf.mission.max_sdu_len = ground arith in
            copy-Safe tf util.buffered_length tf.bytes first _ v (omega arith) fits λ out v'.
              let tf' = set_buffer tf out in
              let closed = closed-IsTmBuffered tf' v' in
              if-Safe (is_neg (h.get_packet_len out (total % 65536)).0) _ _
                (λ neg. explored-Safe tf' q v' measures has first ptr)
                λ told.
                  if-Safe (total == (h.get_packet_len out (total % 65536)).1) _ _
                    (λ e.
                      hand_over-Safe h (close_loop tf') q (explore (close_loop tf')) closed
                        λ q'. explored-Safe (close_loop tf') q' closed measures has first ptr)
                    (λ e.
                      explored-Safe (set_expected (close_loop tf') 0) q
                        (expected-IsTmBuffered (close_loop tf') 0 closed (omega arith)) measures has
                        first ptr)

    finish-Safe : Safe (finish_packet h tf q explore)
    unfolding finish_packet
    finish-Safe =
        let util = tf.mission.util in
        let first : ℕ = tf.primary_hdr.status.first_hdr_ptr in
        if-Safe (first + util.buffered_length == util.expected_pkt_len) _ _
          (λ e.
            let fits : util.buffered_length + first ≤ tf.mission.max_sdu_len =
              ground (arith, v.expected) in
            copy-Safe tf util.buffered_length tf.bytes first _ v (omega arith) fits λ out v'.
              let tf' = set_buffer tf out in
              let closed = closed-IsTmBuffered tf' v' in
              hand_over-Safe h (close_loop tf') q (explore (close_loop tf')) closed
                λ q'. explored-Safe (close_loop tf') q' closed measures has first ptr)
          (λ e. explored-Safe tf q v measures has first ptr)

    positive-Safe : Safe (handle_s_ptr_positive h (tf.mission.max_data_len + 1) tf q)
    unfolding handle_s_ptr_positive
    positive-Safe =
        let util = tf.mission.util in
        let is_open : Bool = util.loop_state == tm_loop_open in
        if-Safe (is_open && util.expected_pkt_len == 0) _ _ (λ e. find-Safe)
          λ e.
            if-Safe (is_open && not (util.expected_pkt_len == 0)) _ _ (λ e'. finish-Safe)
              λ e'. explored-Safe tf q v measures has tf.primary_hdr.status.first_hdr_ptr ptr

  stuffing-Safe :
      ((tf.primary_hdr.status.first_hdr_ptr == tm_first_hdr_ptr_no_pkt_start) ≡ false
        → tf.primary_hdr.status.first_hdr_ptr < tf.mission.max_data_len)
      → Safe (handle_rx_stuffing h tf q)
  unfolding handle_rx_stuffing handle_s_ptr_zero
  stuffing-Safe ptr =
      let first : ℕ = tf.primary_hdr.status.first_hdr_ptr in
      if-Safe (first == 0) _ _
        (λ e.
          let starts : (first == tm_first_hdr_ptr_no_pkt_start) ≡ false = ground arith in
          explored-Safe tf q v measures has 0 (omega (arith, ptr starts)))
        λ e.
          if-Safe (first == tm_first_hdr_ptr_no_pkt_start) _ _ (λ e'. nopkt-Safe)
            λ starts. positive-Safe (ptr starts)

  returned_by :
      (run : Handled Q)
      → Safe run
      → (status : ℤ) × (tf' : TmTransferFrame) × (q' : Q) × ((run >>= λ out.
            let res : ℤ × TmTransferFrame × Q = (negated out.0, out.1, out.2) in some res)
          ≡ some (status, tf', q'))
        × IsTmBuffered tf'.mission
  returned_by run s = (negated s.result, s.end_state, s.queues, rw s.returned refl, s.buffered)

  -- If a frame has the data field its channel tells, and its first header pointer is one of the two special values or stands in the data field; the channel's buffer has room for `max_sdu_len` bytes, the data field and the packet that is expected are at most that long, and an open loop has not passed it; and the packet lengths that the application tells are at least 1 and at most `max_sdu_len`, then `osdlp_tm_receive`, once it has compared the checksum, copies within the frame and the buffer, ends its loops, returns a status, and leaves the channel in the same order for the next frame. This holds for every state of the loop, with stuffing and without.
  pub receive_tm_data_in_range :
      ((tf.primary_hdr.status.first_hdr_ptr == tm_first_hdr_ptr_oid) ≡ false
        → (tf.primary_hdr.status.first_hdr_ptr == tm_first_hdr_ptr_no_pkt_start) ≡ false
        → tf.primary_hdr.status.first_hdr_ptr < tf.mission.max_data_len)
      → (status : ℤ) × (tf' : TmTransferFrame) × (q' : Q) × (receive_tm_data h tf q
          ≡ some (status, tf', q'))
        × IsTmBuffered tf'.mission
  unfolding receive_tm_data
  receive_tm_data_in_range ptr =
      elim (Bool-cases (tf.primary_hdr.status.first_hdr_ptr == tm_first_hdr_ptr_oid)) [
        | inl oid ↦ (pos 3, tf, q, rw oid refl, v)
        | inr not_oid ↦
            let unstuffed : Bool = tf.mission.stuff_state == tm_stuffing_off in
            rw not_oid (
              returned_by
                (if unstuffed then handle_rx_no_stuffing h tf q else handle_rx_stuffing h tf q)
                (if-Safe unstuffed (handle_rx_no_stuffing h tf q) (handle_rx_stuffing h tf q)
                  (λ e. no_stuffing-Safe (ptr not_oid)) (λ e. stuffing-Safe (ptr not_oid))))
      ]
