-- ===== src/Tm/Receive.antt =====
-- src/osdlp_tm.c: `osdlp_tm_receive`, from the bytes of a frame to the queue of the application, with the
-- reassembly of packets. The shared counter of the master channel is kept in each channel: reception
-- writes it and does not read it.
pub mod Channel
pub mod Packets
pub mod First
pub mod Stuffed
pub mod Filled
pub mod Safety
pub mod Search
pub mod InRange
use osdlp.Common.{
  ℕ, zero, suc, ◌+◌, ◌-◌, ◌%◌, ℤ, pos, negsuc, Bool, true, false, not, ◌&&◌, ◌||◌, List, Option,
  none, some, ltb, leb, ◌==◌, if◌then◌else◌, is_neg, bit_and, ◌>>>◌,
}
use osdlp.Common.Memory.{◌>>=◌, load, pointer_at, memcpy}
use osdlp.Crc.{calc_crc}
use osdlp.Tm.Types.{TmUtilBuf, TmTransferFrame}
use osdlp.Tm.Host.{TmRxHost}
use osdlp.Tm.{tm_idle_packet, tm_unpack}
use osdlp.Tm.Setup.{
  tm_loop_open, tm_loop_closed, tm_stuffing_off, tm_first_hdr_ptr_no_pkt_start,
  tm_first_hdr_ptr_oid, set_tm_util, close_loop,
}

-- `tm_rx_result_t`
pub data TmRxResult : Type 0 where
  tm_rx_ok tm_rx_pending tm_rx_error tm_rx_oid tm_rx_denied tm_rx_wrong_crc : TmRxResult

-- `-notif`
abbrev pub negated : TmRxResult → ℤ
negated tm_rx_ok = pos 0
negated tm_rx_pending = negsuc 0
negated tm_rx_error = negsuc 1
negated tm_rx_oid = negsuc 2
negated tm_rx_denied = negsuc 3
negated tm_rx_wrong_crc = negsuc 4

pub record TmReceiver (Q : Type 0) : Type 0 where
  pub channels : ℕ → TmTransferFrame
  pub queues : Q

-- What a handler returns: its result, the channel and the queues
abbrev pub Handled : Type 0 → Type 0
Handled Q = Option (TmRxResult × TmTransferFrame × Q)

abbrev pub set_expected : TmTransferFrame → ℕ → TmTransferFrame
set_expected tf n = set_tm_util tf (record (tf.mission.util) { expected_pkt_len = n })

abbrev pub set_buffer : TmTransferFrame → List ℕ → TmTransferFrame
set_buffer tf out = set_tm_util tf (record (tf.mission.util) { buffer = out })

-- The loop open, with `n` bytes buffered
abbrev pub open_loop : TmTransferFrame → ℕ → TmTransferFrame
open_loop tf n =
    set_tm_util tf
      (record (tf.mission.util) { loop_state = tm_loop_open; buffered_length = n % 65536 })

-- `mission.util.buffered_length += n`
abbrev pub buffer_more : TmTransferFrame → ℕ → TmTransferFrame
buffer_more tf n =
    let util = tf.mission.util in
    set_tm_util tf (record util { buffered_length = (util.buffered_length + n) % 65536 })

-- `memcpy(&mission.util.buffer[at], src, n)`
abbrev pub copy_in : TmTransferFrame → ℕ → List ℕ → ℕ → Option TmTransferFrame
copy_in tf at src n = memcpy tf.mission.util.buffer at src n >>= λ out. some (set_buffer tf out)

module _ {Q : Type 0} (h : TmRxHost Q) where
  -- The buffer goes to the application, and `then` is done if it is taken.
  abbrev pub hand_over : TmTransferFrame → Q → (Q → Handled Q) → Handled Q
  hand_over tf q next =
      let ret = h.rx_queue_enqueue tf.mission.util.buffer tf.mission.vcid q in
      if is_neg ret.0 then some (tm_rx_denied, tf, ret.1) else next ret.1

  -- The loop is closed, and the buffer goes to the application.
  unfoldable pub deliver_packet : TmTransferFrame → Q → Handled Q
  deliver_packet tf q = hand_over (close_loop tf) q λ q'. some (tm_rx_ok, close_loop tf, q')

  -- `handle_ns_ptr_zero`
  unfoldable pub handle_ns_ptr_zero : TmTransferFrame → Q → Handled Q
  handle_ns_ptr_zero tf q =
      let max_data_len = tf.mission.max_data_len in
      let ret = h.get_packet_len tf.bytes max_data_len in
      let expecting = set_expected tf ret.1 in
      if is_neg ret.0
      then some (tm_rx_error, tf, q)
      else if ltb max_data_len ret.1
      then (copy_in expecting 0 tf.bytes max_data_len >>= λ tf'.
          some (tm_rx_pending, open_loop tf' max_data_len, q))
      else (copy_in expecting 0 tf.bytes ret.1 >>= λ tf'. deliver_packet tf' q)

  -- Bytes behind those that are buffered; the packet is delivered when it has the length expected.
  unfoldable pub append_packet : TmTransferFrame → ℕ → Q → Handled Q
  append_packet tf usable_len q =
      let util = tf.mission.util in
      if ltb tf.mission.max_sdu_len (util.buffered_length + usable_len)
      then some (tm_rx_error, close_loop tf, q)
      else (copy_in tf util.buffered_length tf.bytes usable_len >>= λ tf'.
          if util.buffered_length + usable_len == util.expected_pkt_len
          then deliver_packet tf' q
          else some (tm_rx_pending, buffer_more tf' usable_len, q))

  -- `handle_ns_ptr_positive`
  unfoldable pub handle_ns_ptr_positive : TmTransferFrame → Q → Handled Q
  handle_ns_ptr_positive tf q =
      let ptr = tf.primary_hdr.status.first_hdr_ptr in
      if tf.mission.util.loop_state == tm_loop_closed
      then some (tm_rx_error, tf, q)
      else append_packet tf
          (if ptr == tm_first_hdr_ptr_no_pkt_start then tf.mission.max_data_len else ptr) q

  -- `handle_rx_no_stuffing`
  unfoldable pub handle_rx_no_stuffing : TmTransferFrame → Q → Handled Q
  handle_rx_no_stuffing tf q =
      let ptr = tf.primary_hdr.status.first_hdr_ptr in
      if ptr == 0
      then handle_ns_ptr_zero tf q
      else if ptr == tm_first_hdr_ptr_no_pkt_start || ltb 0 ptr
      then handle_ns_ptr_positive tf q
      else some (tm_rx_error, tf, q)

  -- What is left of the data field is buffered. A length below 0 is more than any buffer has.
  unfoldable pub buffer_rest : TmTransferFrame → ℕ → Q → Handled Q
  buffer_rest tf bytes_explored q = do
    let max_data_len = tf.mission.max_data_len
    rest ← pointer_at tf.bytes bytes_explored
    if ltb max_data_len bytes_explored then none else (do
      tf' ← copy_in tf 0 rest (max_data_len - bytes_explored)
      some (tm_rx_pending, open_loop tf' (max_data_len - bytes_explored), q))

  -- The loop `while (more_pkts)` of `handle_s_ptr_zero` and of `handle_s_ptr_positive`. It takes a round
  -- for each packet in the data field; a packet of length 0 lets it run forever.
  unfoldable pub explore_packets : ℕ → ℕ → TmTransferFrame → Q → Handled Q
  explore_packets zero bytes_explored tf q = none
  explore_packets (suc rounds) bytes_explored tf q =
      let more = explore_packets rounds in
      let max_data_len = tf.mission.max_data_len in
      do
        first ← load tf.bytes bytes_explored
        rest ← pointer_at tf.bytes bytes_explored
        let ret = h.get_packet_len rest ((max_data_len + 65536 - bytes_explored) % 65536)
        let expecting = set_expected tf ret.1
        if first == tm_idle_packet
            then some (tm_rx_ok, set_expected (close_loop tf) 0, q)
            else if is_neg ret.0
            then buffer_rest (set_expected tf 0) bytes_explored q
            else if ltb max_data_len (ret.1 + bytes_explored)
            then buffer_rest expecting bytes_explored q
            else (copy_in expecting 0 rest ret.1 >>= λ tf'.
                let closed = set_expected (close_loop tf') 0 in
                hand_over closed q λ q'.
                  let explored = (bytes_explored + ret.1) % 65536 in
                  if explored == max_data_len
                  then some (tm_rx_ok, closed, q')
                  else more explored closed q')

  -- `handle_s_ptr_zero`
  unfoldable pub handle_s_ptr_zero : ℕ → TmTransferFrame → Q → Handled Q
  handle_s_ptr_zero rounds tf q = explore_packets rounds 0 tf q

  -- The part of `handle_s_ptr_nopkt` that finds out a length not known before: the channel goes on as it
  -- is, or the handler returns.
  unfoldable pub find_length_nopkt : TmTransferFrame → Q → (TmTransferFrame → Handled Q) → Handled Q
  find_length_nopkt tf q next =
      let util = tf.mission.util in
      let total = tf.mission.max_data_len + util.buffered_length in
      if not (ltb total tf.mission.max_sdu_len)
      then some (tm_rx_error, close_loop tf, q)
      else (copy_in tf util.buffered_length tf.bytes tf.mission.max_data_len >>= λ tf'.
          let ret = h.get_packet_len tf'.mission.util.buffer (total % 65536) in
          if is_neg ret.0
          then next tf'
          else (copy_in tf' util.buffered_length tf.bytes tf.mission.max_data_len >>= λ tf''.
              if total == ret.1
              then deliver_packet tf'' q
              else some (tm_rx_pending, buffer_more tf'' tf.mission.max_data_len, q)))

  -- `handle_s_ptr_nopkt`
  unfoldable pub handle_s_ptr_nopkt : TmTransferFrame → Q → Handled Q
  handle_s_ptr_nopkt tf q =
      let util = tf.mission.util in
      let append = λ (tf' : TmTransferFrame). append_packet tf' tf.mission.max_data_len q in
      if util.loop_state == tm_loop_closed
      then some (tm_rx_error, tf, q)
      else if util.loop_state == tm_loop_open && util.expected_pkt_len == 0
      then find_length_nopkt tf q append
      else append tf

  -- The end of a packet whose length is not known yet, in front of the first header
  unfoldable pub find_length : TmTransferFrame → Q → (TmTransferFrame → Q → Handled Q) → Handled Q
  find_length tf q next =
      let util = tf.mission.util in
      let ptr = tf.primary_hdr.status.first_hdr_ptr in
      let total = ptr + util.buffered_length in
      if not (ltb total tf.mission.max_sdu_len)
      then next tf q
      else (copy_in tf util.buffered_length tf.bytes ptr >>= λ tf'.
          let ret = h.get_packet_len tf'.mission.util.buffer (total % 65536) in
          if is_neg ret.0
          then next tf' q
          else if total == ret.1
          then hand_over (close_loop tf') q (next (close_loop tf'))
          else next (set_expected (close_loop tf') 0) q)

  -- The end of a packet whose length is known
  unfoldable pub finish_packet : TmTransferFrame → Q → (TmTransferFrame → Q → Handled Q) → Handled Q
  finish_packet tf q next =
      let util = tf.mission.util in
      let ptr = tf.primary_hdr.status.first_hdr_ptr in
      if ptr + util.buffered_length == util.expected_pkt_len
      then (copy_in tf util.buffered_length tf.bytes ptr >>= λ tf'.
          hand_over (close_loop tf') q (next (close_loop tf')))
      else next tf q

  -- `handle_s_ptr_positive`
  unfoldable pub handle_s_ptr_positive : ℕ → TmTransferFrame → Q → Handled Q
  handle_s_ptr_positive rounds tf q =
      let util = tf.mission.util in
      let explore = explore_packets rounds tf.primary_hdr.status.first_hdr_ptr in
      if util.loop_state == tm_loop_open && util.expected_pkt_len == 0
      then find_length tf q explore
      else if util.loop_state == tm_loop_open && not (util.expected_pkt_len == 0)
      then finish_packet tf q explore
      else explore tf q

  -- `handle_rx_stuffing`. A round for each byte of the data field, and one for its end.
  unfoldable pub handle_rx_stuffing : TmTransferFrame → Q → Handled Q
  handle_rx_stuffing tf q =
      let ptr = tf.primary_hdr.status.first_hdr_ptr in
      let rounds = tf.mission.max_data_len + 1 in
      if ptr == 0
      then handle_s_ptr_zero rounds tf q
      else if ptr == tm_first_hdr_ptr_no_pkt_start
      then handle_s_ptr_nopkt tf q
      else handle_s_ptr_positive rounds tf q

  -- The channel with that index is `tf`.
  abbrev pub put_tm_channel : ℕ → TmTransferFrame → Q → TmReceiver Q → TmReceiver Q
  put_tm_channel i tf q s = record {
    channels = λ j. if j == i then tf else s.channels j;
    queues = q;
  }

  -- What `osdlp_tm_receive` does with a frame whose checksum has been compared
  unfoldable pub receive_tm_data : TmTransferFrame → Q → Option (ℤ × TmTransferFrame × Q)
  receive_tm_data tf q =
      if tf.primary_hdr.status.first_hdr_ptr == tm_first_hdr_ptr_oid
      then some (pos 3, tf, q)
      else ((if tf.mission.stuff_state == tm_stuffing_off
            then handle_rx_no_stuffing tf q
            else handle_rx_stuffing tf q)
          >>= λ out. some (negated out.0, out.1, out.2))

  -- `osdlp_tm_receive`. A frame length below 2 makes the length that is summed negative.
  unfoldable pub tm_receive : List ℕ → TmReceiver Q → Option (ℤ × TmReceiver Q)
  tm_receive data_in s = do
    b1 ← load data_in 1
    let config = h.get_rx_config (bit_and (b1 >>> 1) 0x07) s.queues
    if is_neg config.0 then some (config.0, s) else (do
      tf ← tm_unpack (s.channels config.1) data_in
      crc ← if ltb tf.mission.frame_len 2 then none else calc_crc data_in (tf.mission.frame_len - 2)
      if not (crc == tf.crc)
          then some (negated tm_rx_wrong_crc, put_tm_channel config.1 tf s.queues s)
          else (do
            out ← receive_tm_data tf s.queues
            some (out.0, put_tm_channel config.1 out.1 out.2 s)))
