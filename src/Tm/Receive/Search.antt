-- ===== src/Tm/Receive/Search.antt =====
-- The search for packets in a data field stays within the frame and the buffer, and ends.
use osdlp.Common.{
  ℕ, zero, suc, ◌+◌, ◌-◌, ◌%◌, ◌≤◌, ◌<◌, ◌≡◌, refl, false, List, some, arith, length, ltb, ◌==◌,
  if◌then◌else◌, is_neg,
}
use osdlp.Common.Memory.{load, pointer_at}
use osdlp.Common.Memory.Bounds.{load_in_range, pointer_in_range}
use osdlp.Tm.Types.{TmTransferFrame}
use osdlp.Tm.Host.{TmRxHost}
use osdlp.Tm.{tm_idle_packet}
use osdlp.Tm.Setup.{close_loop}
use osdlp.Tm.Receive.{tm_rx_ok, set_expected, set_buffer, buffer_rest, explore_packets}
use osdlp.Tm.Receive.Safety.{
  IsTmBuffered, Safe, Measures, with_util, closed-IsTmBuffered, expected-IsTmBuffered, ended,
  if-Safe, copy-Safe, hand_over-Safe,
}

module _ {Q : Type 0} (h : TmRxHost Q) where
  -- What is left of the data field
  rest-Safe :
      (tf : TmTransferFrame) (at : ℕ) (q : Q)
      → IsTmBuffered tf.mission
      → tf.mission.max_data_len ≤ length tf.bytes
      → at < tf.mission.max_data_len
      → Safe (buffer_rest h tf at q)
  unfolding buffer_rest
  rest-Safe tf at q v has within =
      let (rest, place, size) = pointer_in_range tf.bytes at (omega arith) in
      let inside : ltb tf.mission.max_data_len at ≡ false = ground arith in
      rw (place, inside)
        (copy-Safe tf 0 rest (tf.mission.max_data_len - at) _ v (omega arith)
          (omega (arith, v.max_data_len))
          λ out v'. ended _ _ _ (
            with_util (set_buffer tf out) _ v' refl
              (λ is_open. omega (arith, v.max_data_len, v.width)) v.expected))

  -- A round, where the rounds that follow it are safe
  round-Safe :
      (rounds at first : ℕ) (rest : List ℕ) (tf : TmTransferFrame) (q : Q)
      → IsTmBuffered tf.mission
      → Measures h tf.mission.max_sdu_len
      → tf.mission.max_data_len ≤ length tf.bytes
      → at < tf.mission.max_data_len
      → load tf.bytes at ≡ some first
      → pointer_at tf.bytes at ≡ some rest
      → length rest + at ≡ length tf.bytes
      → ((n : ℕ) (out : List ℕ) (q' : Q)
          → let closed = set_expected (close_loop (set_buffer (set_expected tf n) out)) 0 in
            IsTmBuffered closed.mission
            → 1 ≤ n
            → at + n < tf.mission.max_data_len
            → Safe (explore_packets h rounds ((at + n) % 65536) closed q'))
      → Safe (explore_packets h (suc rounds) at tf q)
  unfolding explore_packets
  round-Safe rounds at first rest tf q v measures has within loaded place size later =
      let max_data_len : ℕ = tf.mission.max_data_len in
      let left : ℕ = (max_data_len + 65536 - at) % 65536 in
      let n : ℕ = (h.get_packet_len rest left).1 in
      let zero_expected = expected-IsTmBuffered tf 0 v (omega arith) in
      rw (loaded, place)
        (if-Safe (first == tm_idle_packet) _ _
          (λ e.
            ended _ _ _
              (expected-IsTmBuffered (close_loop tf) 0 (closed-IsTmBuffered tf v) (omega arith)))
          λ e.
            if-Safe (is_neg (h.get_packet_len rest left).0) _ _
              (λ neg. rest-Safe (set_expected tf 0) at q zero_expected has within)
              λ told.
                let (some_bytes, small) = measures rest left told in
                let expecting = expected-IsTmBuffered tf n v small in
                if-Safe (ltb max_data_len (n + at)) _ _
                  (λ long. rest-Safe (set_expected tf n) at q expecting has within)
                  λ fits.
                    let whole : n + at ≤ max_data_len = ground arith in
                    copy-Safe (set_expected tf n) 0 rest n _ expecting (omega arith)
                      (omega (arith, small))
                      λ out v'.
                        let shut =
                          set_expected (close_loop (set_buffer (set_expected tf n) out)) 0 in
                        let closed =
                          expected-IsTmBuffered (close_loop (set_buffer (set_expected tf n) out)) 0
                            (closed-IsTmBuffered (set_buffer (set_expected tf n) out) v')
                            (omega arith) in
                        hand_over-Safe h shut q
                          (λ q'.
                            if (at + n) % 65536 == max_data_len
                            then some (tm_rx_ok, shut, q')
                            else explore_packets h rounds ((at + n) % 65536) shut q')
                          closed
                          λ q'.
                            if-Safe ((at + n) % 65536 == max_data_len) (some (tm_rx_ok, shut, q'))
                              (explore_packets h rounds ((at + n) % 65536) shut q')
                              (λ at_end. ended _ _ _ closed)
                              λ more. later n out q' closed some_bytes (ground (arith, v.width)))

  pub explore-Safe :
      (rounds at : ℕ) (tf : TmTransferFrame) (q : Q)
      → IsTmBuffered tf.mission
      → Measures h tf.mission.max_sdu_len
      → tf.mission.max_data_len ≤ length tf.bytes
      → at < tf.mission.max_data_len
      → tf.mission.max_data_len < rounds + at
      → Safe (explore_packets h rounds at tf q)
  explore-Safe zero at tf q v measures has within enough = absurd (omega arith)
  explore-Safe (suc rounds) at tf q v measures has within enough =
      let (first, loaded) = load_in_range tf.bytes at (omega arith) in
      let (rest, place, size) = pointer_in_range tf.bytes at (omega arith) in
      round-Safe rounds at first rest tf q v measures has within loaded place size
        λ n out q' v' some_bytes further.
          explore-Safe rounds ((at + n) % 65536) _ q' v' measures has (omega (arith, v.width))
            (omega (arith, v.width))
