-- ===== src/Tm/Receive/Packets.antt =====
-- The handlers of a channel that does not fill its frames: what each frame of a packet does.
use osdlp.Common.{
  ℕ, ◌+◌, ◌≤◌, ◌<◌, ◌≡◌, refl, ◌∙◌, ℤ, true, false, inl, inr, Bool-cases, List, ◌++◌, some, arith,
  length, length-append, length-drop, drop, ◌==◌, ltb, if◌then◌else◌, is_neg, ◌||◌,
}
use mathlib.Core.List.{append_assoc}
use osdlp.Common.Memory.{◌>>=◌, memcpy}
use osdlp.Common.Memory.Laws.{memcpy-append}
use osdlp.Tm.Types.{TmTransferFrame}
use osdlp.Tm.Host.{TmRxHost}
use osdlp.Tm.Setup.{
  tm_loop_open, tm_loop_closed, tm_stuffing_off, tm_first_hdr_ptr_no_pkt_start,
  tm_first_hdr_ptr_oid, close_loop,
}
use osdlp.Tm.Transmit.{next_ptr, bytes_avail}
use osdlp.Tm.Receive.{
  TmRxResult, tm_rx_ok, tm_rx_pending, tm_rx_denied, negated, set_buffer, buffer_more,
  deliver_packet, append_packet, handle_ns_ptr_positive, handle_rx_no_stuffing, receive_tm_data,
}

-- A packet of `total` bytes is on its way, and the buffer starts with what has come of it.
pub record Collects (tf : TmTransferFrame) (got room : List ℕ) (total : ℕ) : Type 0 where
  pub loop_state : tf.mission.util.loop_state ≡ tm_loop_open
  pub buffered_length : tf.mission.util.buffered_length ≡ length got
  pub buffer : tf.mission.util.buffer ≡ got ++ room
  pub expected_pkt_len : tf.mission.util.expected_pkt_len ≡ total
  pub short : total ≤ tf.mission.max_sdu_len
  pub space : tf.mission.max_sdu_len ≤ length got + length room
  pub width : tf.mission.max_sdu_len < 65536

-- What the application's answer turns into
abbrev pub delivery_result : ℤ → TmRxResult
delivery_result ret = if is_neg ret then tm_rx_denied else tm_rx_ok

module _ {Q : Type 0} (h : TmRxHost Q) where
  -- The answer of the queue to a buffer
  abbrev pub enqueued : TmTransferFrame → List ℕ → Q → ℤ × Q
  enqueued tf out q = h.rx_queue_enqueue out tf.mission.vcid q

  pub deliver_packet_lem :
      (tf : TmTransferFrame) (q : Q)
      → let ret = enqueued tf tf.mission.util.buffer q in
        deliver_packet h tf q ≡ some (delivery_result ret.0, close_loop tf, ret.1)
  unfolding deliver_packet
  deliver_packet_lem tf q = elim (Bool-cases (is_neg (enqueued tf tf.mission.util.buffer q).0)) [
    | inl e ↦ rw e refl
    | inr e ↦ rw e refl
  ]

  module _ (tf : TmTransferFrame) (got room chunk behind : List ℕ) (total : ℕ) (q : Q)
      (c : Collects tf got room total) (at : tf.bytes ≡ chunk ++ behind) where
    -- The buffer with the chunk behind what has come
    abbrev pub grown : List ℕ
    grown = (got ++ chunk) ++ drop (length chunk) room

    copied :
        length got + length chunk ≤ total
        → memcpy tf.mission.util.buffer tf.mission.util.buffered_length tf.bytes (length chunk)
          ≡ some grown
    copied fits =
        rw (c.buffer, c.buffered_length, at, append_assoc got chunk (drop (length chunk) room))
          (memcpy-append got room chunk behind (omega (arith, c.short, c.space)))

    appended :
        length got + length chunk ≤ total
        → append_packet h tf (length chunk) q ≡ (
            if tf.mission.util.buffered_length + length chunk == tf.mission.util.expected_pkt_len
            then deliver_packet h (set_buffer tf grown) q
            else some (tm_rx_pending, buffer_more (set_buffer tf grown) (length chunk), q))
    unfolding append_packet
    appended fits =
        let within : ltb tf.mission.max_sdu_len (tf.mission.util.buffered_length + length chunk)
            ≡ false =
          ground (arith, c.short, c.buffered_length) in
        rw (within, copied fits) refl

    pub last_chunk :
        length got + length chunk ≡ total
        → let ret = enqueued tf grown q in
          append_packet h tf (length chunk) q
          ≡ some (delivery_result ret.0, close_loop (set_buffer tf grown), ret.1)
    last_chunk whole =
        let done : (tf.mission.util.buffered_length + length chunk
              == tf.mission.util.expected_pkt_len)
            ≡ true =
          ground (arith, c.expected_pkt_len, c.buffered_length) in
        appended (omega arith) ∙ rw done (deliver_packet_lem (set_buffer tf grown) q)

    pub next_chunk :
        length got + length chunk < total
        → append_packet h tf (length chunk) q
          ≡ some (tm_rx_pending, buffer_more (set_buffer tf grown) (length chunk), q)
    next_chunk part =
        let going : (tf.mission.util.buffered_length + length chunk
              == tf.mission.util.expected_pkt_len)
            ≡ false =
          ground (arith, c.expected_pkt_len, c.buffered_length) in
        appended (omega arith) ∙ rw going refl

    pub next_chunk-Collects :
        length got + length chunk < total
        → Collects
            (buffer_more (set_buffer tf grown) (length chunk))
            (got ++ chunk)
            (drop (length chunk) room)
            total
    next_chunk-Collects part = record {
      loop_state = c.loop_state;
      buffered_length = omega (arith, c.buffered_length, c.short, c.width, length-append got chunk);
      buffer = refl;
      expected_pkt_len = c.expected_pkt_len;
      short = c.short;
      space =
          omega (arith, c.short, c.space, length-append got chunk, length-drop (length chunk) room);
      width = c.width;
    }

  -- A frame that goes on with a packet, whose first header pointer the sender has set
  pub continues :
      (tf : TmTransferFrame) (len remaining_len : ℕ) (q : Q)
      → tf.primary_hdr.status.first_hdr_ptr ≡ next_ptr tf.mission.max_data_len len remaining_len
      → tf.mission.stuff_state ≡ tm_stuffing_off
      → tf.mission.util.loop_state ≡ tm_loop_open
      → tf.mission.max_data_len ≤ 2046
      → 1 ≤ remaining_len
      → remaining_len < len
      → receive_tm_data h tf q ≡ (
          append_packet h tf (bytes_avail tf.mission.max_data_len remaining_len) q >>= λ out.
          let res : ℤ × TmTransferFrame × Q = (negated out.0, out.1, out.2) in some res)
  unfolding receive_tm_data handle_rx_no_stuffing handle_ns_ptr_positive
  continues tf len remaining_len q ptr off going most some_left later =
      let p = tf.primary_hdr.status.first_hdr_ptr in
      let most_len = tf.mission.max_data_len in
      let no_oid : (p == tm_first_hdr_ptr_oid) ≡ false = ground arith in
      let stuffing : (tf.mission.stuff_state == tm_stuffing_off) ≡ true = ground arith in
      let nonzero : (p == 0) ≡ false = ground arith in
      let positive : (p == tm_first_hdr_ptr_no_pkt_start || ltb 0 p) ≡ true = ground arith in
      let is_open : (tf.mission.util.loop_state == tm_loop_closed) ≡ false = ground arith in
      let usable : (if p == tm_first_hdr_ptr_no_pkt_start then most_len else p)
          ≡ bytes_avail most_len remaining_len =
        ground arith in
      rw (no_oid, stuffing, nonzero, positive, is_open, usable) refl
