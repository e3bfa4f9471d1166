-- ===== src/Tm/Receive/Safety.antt =====
-- Reception of telemetry returns, and its copies stay within the frame and the channel's buffer.
use osdlp.Common.{
  ℕ, ◌+◌, ◌≤◌, ◌<◌, ◌≡◌, refl, sym, Bool, true, false, inl, inr, List, Option, none, some, arith,
  length, Bool-cases, ltb, ◌==◌, if◌then◌else◌, is_neg,
}
use osdlp.Common.Memory.{◌>>=◌}
use osdlp.Common.Memory.Bounds.{Kept, memcpy-Kept}
use osdlp.Tm.Types.{TmUtilBuf, TmMissionParams, TmTransferFrame}
use osdlp.Tm.Host.{TmRxHost}
use osdlp.Tm.Setup.{
  tm_loop_open, tm_loop_closed, tm_first_hdr_ptr_no_pkt_start, set_tm_util, close_loop,
}
use osdlp.Tm.Receive.{
  TmRxResult, tm_rx_denied, Handled, tm_rx_ok, set_expected, set_buffer, copy_in, hand_over,
  deliver_packet, tm_rx_error, handle_ns_ptr_zero, append_packet, handle_ns_ptr_positive,
}

-- The buffer has room for the longest unit, no packet that is expected is longer, and a loop that is open
-- has not passed that length.
pub record IsTmBuffered (m : TmMissionParams) : Type 0 where
  pub width : m.max_data_len < 65536
  pub max_data_len : m.max_data_len ≤ m.max_sdu_len
  pub room : m.max_sdu_len ≤ length m.util.buffer
  pub in_loop : m.util.loop_state ≡ tm_loop_open → m.util.buffered_length ≤ m.max_sdu_len
  pub expected : m.util.expected_pkt_len ≤ m.max_sdu_len

-- The run has returned, and the channel is buffered again.
pub record Safe {Q : Type 0} (run : Handled Q) : Type 0 where
  pub result : TmRxResult
  pub end_state : TmTransferFrame
  pub queues : Q
  pub returned : run ≡ some (result, end_state, queues)
  pub buffered : IsTmBuffered end_state.mission

-- A packet length that the application tells is at least 1 and at most `most`.
abbrev pub Measures : {Q : Type 0} → TmRxHost Q → ℕ → Type 0
Measures h most =
    (buf : List ℕ) (n : ℕ)
    → is_neg (h.get_packet_len buf n).0 ≡ false
    → (1 ≤ (h.get_packet_len buf n).1) × ((h.get_packet_len buf n).1 ≤ most)

pub with_util :
    (tf : TmTransferFrame) (util : TmUtilBuf)
    → IsTmBuffered tf.mission
    → length tf.mission.util.buffer ≡ length util.buffer
    → (util.loop_state ≡ tm_loop_open → util.buffered_length ≤ tf.mission.max_sdu_len)
    → util.expected_pkt_len ≤ tf.mission.max_sdu_len
    → IsTmBuffered (set_tm_util tf util).mission
with_util tf util v size in_loop expected = record {
  width = v.width;
  max_data_len = v.max_data_len;
  room = omega (arith, v.room, size);
  in_loop = in_loop;
  expected = expected;
}

pub closed-IsTmBuffered :
    (tf : TmTransferFrame) → IsTmBuffered tf.mission → IsTmBuffered (close_loop tf).mission
closed-IsTmBuffered tf v =
    with_util tf _ v refl (λ is_open. absurd (omega (arith, is_open))) v.expected

pub expected-IsTmBuffered :
    (tf : TmTransferFrame) (n : ℕ)
    → IsTmBuffered tf.mission
    → n ≤ tf.mission.max_sdu_len
    → IsTmBuffered (set_expected tf n).mission
expected-IsTmBuffered tf n v small = with_util tf _ v refl v.in_loop small

module _ {Q : Type 0} where
  pub ended :
      (result : TmRxResult) (tf : TmTransferFrame) (q : Q)
      → IsTmBuffered tf.mission
      → Safe (some (result, tf, q))
  ended result tf q v = record {
    result = result;
    end_state = tf;
    queues = q;
    returned = refl;
    buffered = v;
  }

  pub if-Safe :
      (b : Bool) (m n : Handled Q)
      → (b ≡ true → Safe m)
      → (b ≡ false → Safe n)
      → Safe (if b then m else n)
  if-Safe true m n k l = k refl
  if-Safe false m n k l = l refl

  copied-Safe :
      (o : Option (List ℕ)) (tf : TmTransferFrame) (next : TmTransferFrame → Handled Q)
      → IsTmBuffered tf.mission
      → Kept (length tf.mission.util.buffer) o
      → ((out : List ℕ)
          → IsTmBuffered (set_buffer tf out).mission
          → Safe (next (set_buffer tf out)))
      → Safe ((o >>= λ out. some (set_buffer tf out)) >>= next)
  copied-Safe none tf next v k g = absurd k
  copied-Safe (some out) tf next v k g = g out (with_util tf _ v (sym k) v.in_loop v.expected)

  -- A copy that has room, and what is done after it
  pub copy-Safe :
      (tf : TmTransferFrame) (at : ℕ) (src : List ℕ) (n : ℕ) (next : TmTransferFrame → Handled Q)
      → IsTmBuffered tf.mission
      → n ≤ length src
      → at + n ≤ tf.mission.max_sdu_len
      → ((out : List ℕ)
          → IsTmBuffered (set_buffer tf out).mission
          → Safe (next (set_buffer tf out)))
      → Safe (copy_in tf at src n >>= next)
  copy-Safe tf at src n next v has fits g =
      copied-Safe _ tf next v
        (memcpy-Kept tf.mission.util.buffer at src n has (omega (arith, v.room))) g

module _ {Q : Type 0} (h : TmRxHost Q) where
  pub hand_over-Safe :
      (tf : TmTransferFrame) (q : Q) (next : Q → Handled Q)
      → IsTmBuffered tf.mission
      → ((q' : Q) → Safe (next q'))
      → Safe (hand_over h tf q next)
  hand_over-Safe tf q next v g =
      let ret = h.rx_queue_enqueue tf.mission.util.buffer tf.mission.vcid q in
      let denied : Handled Q = some (tm_rx_denied, tf, ret.1) in
      if-Safe (is_neg ret.0) denied (next ret.1) (λ e. ended _ _ _ v) (λ e. g ret.1)

  pub deliver-Safe :
      (tf : TmTransferFrame) (q : Q) → IsTmBuffered tf.mission → Safe (deliver_packet h tf q)
  unfolding deliver_packet
  deliver-Safe tf q v =
      hand_over-Safe (close_loop tf) q (λ q'. some (tm_rx_ok, close_loop tf, q'))
        (closed-IsTmBuffered tf v) λ q'. ended _ _ _ (closed-IsTmBuffered tf v)

  pub ns_zero-Safe :
      (tf : TmTransferFrame) (q : Q)
      → IsTmBuffered tf.mission
      → Measures h tf.mission.max_sdu_len
      → tf.mission.max_data_len ≤ length tf.bytes
      → Safe (handle_ns_ptr_zero h tf q)
  unfolding handle_ns_ptr_zero
  ns_zero-Safe tf q v measures has =
      let ret = h.get_packet_len tf.bytes tf.mission.max_data_len in
      if-Safe (is_neg ret.0) _ _ (λ e. ended _ _ _ v)
        λ told.
          let (some_bytes, small) = measures tf.bytes tf.mission.max_data_len told in
          let expecting = expected-IsTmBuffered tf ret.1 v small in
          if-Safe (ltb tf.mission.max_data_len ret.1) _ _
            (λ e.
              copy-Safe (set_expected tf ret.1) 0 tf.bytes tf.mission.max_data_len _ expecting has
                (omega (arith, v.max_data_len))
                λ out v'. ended _ _ _ (
                  with_util (set_buffer (set_expected tf ret.1) out) _ v' refl
                    (λ is_open. omega (arith, v.max_data_len, v.width)) small))
            (λ e.
              copy-Safe (set_expected tf ret.1) 0 tf.bytes ret.1 _ expecting (ground (arith, has))
                (omega (arith, small))
                λ out v'. deliver-Safe (set_buffer (set_expected tf ret.1) out) q v')

  pub append-Safe :
      (tf : TmTransferFrame) (n : ℕ) (q : Q)
      → IsTmBuffered tf.mission
      → n ≤ length tf.bytes
      → Safe (append_packet h tf n q)
  unfolding append_packet
  append-Safe tf n q v has =
      if-Safe (ltb tf.mission.max_sdu_len (tf.mission.util.buffered_length + n)) _ _
        (λ e. ended _ _ _ (closed-IsTmBuffered tf v))
        λ short.
          let fits : tf.mission.util.buffered_length + n ≤ tf.mission.max_sdu_len = ground arith in
          copy-Safe tf tf.mission.util.buffered_length tf.bytes n _ v has fits λ out v'.
            if-Safe (tf.mission.util.buffered_length + n == tf.mission.util.expected_pkt_len) _ _
              (λ e. deliver-Safe (set_buffer tf out) q v')
              λ e.
                ended _ _ _
                  (with_util (set_buffer tf out) _ v' refl (λ is_open. omega arith) v.expected)

  pub ns_positive-Safe :
      (tf : TmTransferFrame) (q : Q)
      → IsTmBuffered tf.mission
      → tf.mission.max_data_len ≤ length tf.bytes
      → ((tf.primary_hdr.status.first_hdr_ptr == tm_first_hdr_ptr_no_pkt_start) ≡ false
          → tf.primary_hdr.status.first_hdr_ptr ≤ tf.mission.max_data_len)
      → Safe (handle_ns_ptr_positive h tf q)
  unfolding handle_ns_ptr_positive
  ns_positive-Safe tf q v has ptr =
      let usable : ℕ =
        if tf.primary_hdr.status.first_hdr_ptr == tm_first_hdr_ptr_no_pkt_start
        then tf.mission.max_data_len
        else tf.primary_hdr.status.first_hdr_ptr in
      let has_usable : usable ≤ length tf.bytes =
        elim (Bool-cases (tf.primary_hdr.status.first_hdr_ptr == tm_first_hdr_ptr_no_pkt_start)) [
          | inl none_starts ↦ rw none_starts has
          | inr starts ↦ rw starts (omega (arith, ptr starts))
        ] in
      if-Safe (tf.mission.util.loop_state == tm_loop_closed) (some (tm_rx_error, tf, q))
        (append_packet h tf usable q) (λ e. ended _ _ _ v) λ e. append-Safe tf usable q v has_usable
