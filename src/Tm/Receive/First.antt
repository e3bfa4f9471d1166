-- ===== src/Tm/Receive/First.antt =====
-- The frame that a packet starts in, on a channel that does not fill its frames.
use osdlp.Common.{
  ℕ, ◌≤◌, ◌<◌, ◌≡◌, refl, sym, ◌∙◌, ap, ℤ, true, false, List, [], ◌++◌, some, arith, length,
  length-drop, drop, ◌==◌, ltb, is_neg,
}
use osdlp.Common.Memory.{◌>>=◌, memcpy}
use osdlp.Common.Memory.Laws.{memcpy-append}
use osdlp.Tm.Types.{TmTransferFrame}
use osdlp.Tm.Host.{TmRxHost}
use osdlp.Tm.Setup.{tm_stuffing_off, tm_first_hdr_ptr_oid, close_loop}
use osdlp.Tm.Receive.{
  tm_rx_pending, negated, set_expected, set_buffer, open_loop, handle_ns_ptr_zero,
  handle_rx_no_stuffing, receive_tm_data, tm_loop_closed,
}
use osdlp.Tm.Receive.Packets.{Collects, delivery_result, enqueued, deliver_packet_lem}

module _ {Q : Type 0} (h : TmRxHost Q) (tf : TmTransferFrame) (chunk behind : List ℕ) (total : ℕ)
    (ret : ℤ) (q : Q) (at : tf.bytes ≡ chunk ++ behind)
    (told : h.get_packet_len tf.bytes tf.mission.max_data_len ≡ (ret, total))
    (ok : is_neg ret ≡ false) (room : total ≤ length tf.mission.util.buffer)
    (some_fits : length chunk ≤ total) where
  abbrev pub started : List ℕ
  started = chunk ++ drop (length chunk) tf.mission.util.buffer

  copied_first : memcpy tf.mission.util.buffer 0 tf.bytes (length chunk) ≡ some started
  copied_first = rw at (memcpy-append [] tf.mission.util.buffer chunk behind (omega arith))

  -- A packet that is longer than the data field: the loop is open.
  zero_long :
      tf.mission.max_data_len < total
      → length chunk ≡ tf.mission.max_data_len
      → handle_ns_ptr_zero h tf q
        ≡ some (
          tm_rx_pending,
          open_loop (set_buffer (set_expected tf total) started) tf.mission.max_data_len,
          q,
        )
  unfolding handle_ns_ptr_zero
  zero_long long full =
      let more : ltb tf.mission.max_data_len total ≡ true = ground arith in
      let copied : memcpy tf.mission.util.buffer 0 tf.bytes tf.mission.max_data_len ≡ some started =
        ap (λ (n : ℕ). memcpy tf.mission.util.buffer 0 tf.bytes n) (sym full) ∙ copied_first in
      rw (told, ok, more, copied) refl

  -- A packet that ends in the frame is delivered.
  zero_short :
      total ≤ tf.mission.max_data_len
      → length chunk ≡ total
      → let ret = enqueued h tf started q in
        let out = close_loop (set_buffer (set_expected tf total) started) in
        handle_ns_ptr_zero h tf q ≡ some (delivery_result ret.0, out, ret.1)
  unfolding handle_ns_ptr_zero
  zero_short short whole =
      let no_more : ltb tf.mission.max_data_len total ≡ false = ground arith in
      let copied : memcpy tf.mission.util.buffer 0 tf.bytes total ≡ some started =
        ap (λ (n : ℕ). memcpy tf.mission.util.buffer 0 tf.bytes n) (sym whole) ∙ copied_first in
      rw (told, ok, no_more, copied)
        (deliver_packet_lem h (set_buffer (set_expected tf total) started) q)

  starts :
      tf.primary_hdr.status.first_hdr_ptr ≡ 0
      → tf.mission.stuff_state ≡ tm_stuffing_off
      → receive_tm_data h tf q ≡ (
          handle_ns_ptr_zero h tf q >>= λ out.
          let res : ℤ × TmTransferFrame × Q = (negated out.0, out.1, out.2) in some res)
  unfolding receive_tm_data handle_rx_no_stuffing
  starts ptr off =
      let p = tf.primary_hdr.status.first_hdr_ptr in
      let no_oid : (p == tm_first_hdr_ptr_oid) ≡ false = ground arith in
      let stuffing : (tf.mission.stuff_state == tm_stuffing_off) ≡ true = ground arith in
      let first : (p == 0) ≡ true = ground arith in rw (no_oid, stuffing, first) refl

  pub first_of_many :
      tf.primary_hdr.status.first_hdr_ptr ≡ 0
      → tf.mission.stuff_state ≡ tm_stuffing_off
      → tf.mission.max_data_len < total
      → length chunk ≡ tf.mission.max_data_len
      → total ≤ tf.mission.max_sdu_len
      → tf.mission.max_sdu_len < 65536
      → tf.mission.max_sdu_len ≤ length tf.mission.util.buffer
      → let out = open_loop (set_buffer (set_expected tf total) started) tf.mission.max_data_len in
        (receive_tm_data h tf q ≡ some (negated tm_rx_pending, out, q))
        × Collects out chunk (drop (length chunk) tf.mission.util.buffer) total
  first_of_many ptr off long full short width space = (
    starts ptr off ∙ rw (zero_long long full) refl,
    record {
      loop_state = refl;
      buffered_length = omega arith;
      buffer = refl;
      expected_pkt_len = refl;
      short = short;
      space = omega (arith, length-drop (length chunk) tf.mission.util.buffer);
      width = width;
    },
  )

  pub only_one :
      tf.primary_hdr.status.first_hdr_ptr ≡ 0
      → tf.mission.stuff_state ≡ tm_stuffing_off
      → total ≤ tf.mission.max_data_len
      → length chunk ≡ total
      → let ret = enqueued h tf (chunk ++ drop (length chunk) tf.mission.util.buffer) q in
        (tf' : TmTransferFrame) × (receive_tm_data h tf q
          ≡ some (negated (delivery_result ret.0), tf', ret.1))
        × (tf'.mission.util.loop_state ≡ tm_loop_closed)
  only_one ptr off short whole = (
    close_loop (set_buffer (set_expected tf total) started),
    starts ptr off ∙ rw (zero_short short whole) refl,
    refl,
  )
