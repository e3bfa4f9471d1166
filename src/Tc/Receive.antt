-- ===== src/Tc/Receive.antt =====
-- src/osdlp_tc.c: `osdlp_tc_receive`, from the bytes of a frame to the queue of the application, with the
-- reassembly of segments. The application's functions for this are a record; the channels that it
-- keeps are found by an index, which stands for the pointer that it hands out.
pub mod Segments
pub mod Reassembly
pub mod Safety
use osdlp.Common.{
  ℕ, ◌+◌, ◌%◌, ℤ, pos, negsuc, Bool, true, false, not, ◌||◌, List, Option, none, some, ltb, leb,
  ◌==◌, if◌then◌else◌, is_neg, bit_and, bit_or, ◌<<<◌, ◌>>>◌,
}
use osdlp.Common.Memory.{◌>>=◌, load, memcpy}
use osdlp.Tc.Types.{
  tc_cont_seg, tc_first_seg, tc_last_seg, tc_unseg, tc_loop_open, tc_loop_closed, TcUtilBuf,
  FarmConfig, TransferFrame, FarmResult, cop_ok, cop_enq, cop_priority_enq, cop_discard, cop_error,
}
use osdlp.Tc.Setup.{primary_header_len}
use osdlp.Tc.Frame.{tc_unpack, frame_validation_check}
use osdlp.Cop.Farm.{farm_1}

-- `tc_rx_result_t`; the errors are returned as negative numbers.
abbrev pub tc_rx_ok : ℤ
tc_rx_ok = pos 0

abbrev pub tc_rx_frame_len_err : ℤ
tc_rx_frame_len_err = negsuc 0

abbrev pub tc_rx_config_err : ℤ
tc_rx_config_err = negsuc 1

abbrev pub tc_rx_frame_val_err : ℤ
tc_rx_frame_val_err = negsuc 2

abbrev pub tc_rx_queue_err : ℤ
tc_rx_queue_err = negsuc 3

abbrev pub tc_rx_cop_err : ℤ
tc_rx_cop_err = negsuc 4

pub record RxHost (Q : Type 0) : Type 0 where
  pub get_rx_config : ℕ → Q → ℤ × ℕ
  pub rx_queue_full : ℕ → Q → Bool
  pub rx_queue_enqueue : List ℕ → ℕ → ℕ → Q → ℤ × Q
  pub rx_queue_enqueue_now : List ℕ → ℕ → ℕ → Q → ℤ × Q

pub record Receiver (Q : Type 0) : Type 0 where
  pub channels : ℕ → TransferFrame FarmConfig
  pub queues : Q

-- `farm_ret == COP_ENQ || farm_ret == COP_PRIORITY_ENQ`
abbrev pub is_accepted : FarmResult → Bool
is_accepted cop_enq = true
is_accepted cop_priority_enq = true
is_accepted _ = false

-- `mission.util` set in the channel
abbrev pub set_util : TransferFrame FarmConfig → TcUtilBuf → TransferFrame FarmConfig
set_util tf util = record tf { mission = record (tf.mission) { util = util } }

module _ {Q : Type 0} (h : RxHost Q) where
  -- The queue that the FARM's result asks for
  abbrev pub deliver : FarmResult → List ℕ → ℕ → ℕ → Q → ℤ × Q
  deliver cop_enq bytes len vcid q = h.rx_queue_enqueue bytes len vcid q
  deliver _ bytes len vcid q = h.rx_queue_enqueue_now bytes len vcid q

  -- What a delivery's result turns into
  abbrev pub queue_status : ℤ → ℤ
  queue_status ret = if is_neg ret then tc_rx_queue_err else tc_rx_ok

  -- The copy of the data of a frame that is whole, its delivery, and the status
  unfoldable pub receive_whole :
      FarmResult → ℕ → TransferFrame FarmConfig → Q → Option (ℤ × TransferFrame FarmConfig × Q)
  receive_whole farm_ret vcid tf q = do
    let data_len = tf.frame_data.data_len
    out ← memcpy tf.mission.util.buffer 0 tf.frame_data.bytes data_len
    let ret = deliver farm_ret out data_len vcid q
    let util : TcUtilBuf = record { buffer = out; buffered_length = 0; loop_state = tc_loop_closed }
    some (queue_status ret.0, set_util tf util, ret.1)

  -- `case TC_FIRST_SEG`
  unfoldable pub receive_first :
      TransferFrame FarmConfig → Q → Option (ℤ × TransferFrame FarmConfig × Q)
  receive_first tf q =
      let util = tf.mission.util in
      let data_len = tf.frame_data.data_len in
      if not (util.loop_state == tc_loop_closed)
      then some (
        tc_rx_cop_err,
        set_util tf (record util { buffered_length = 0; loop_state = tc_loop_closed }),
        q,
      )
      else if ltb tf.mission.max_data_len data_len
      then some (tc_rx_cop_err, set_util tf (record util { buffered_length = data_len }), q)
      else (memcpy util.buffer 0 tf.frame_data.bytes data_len >>= λ out. some (
        tc_rx_ok,
        set_util tf
            (record { buffer = out; buffered_length = data_len; loop_state = tc_loop_open }),
        q,
      ))

  -- What a continued and a last segment have in common: their guards, and the copy behind what is there
  unfoldable pub append_segment :
      TransferFrame FarmConfig
      → Q
      → (List ℕ → ℤ × TransferFrame FarmConfig × Q)
      → Option (ℤ × TransferFrame FarmConfig × Q)
  append_segment tf q finish =
      let util = tf.mission.util in
      let data_len = tf.frame_data.data_len in
      if not (util.loop_state == tc_loop_open)
      then some (tc_rx_cop_err, set_util tf (record util { buffered_length = 0 }), q)
      else if ltb tf.mission.max_sdu_len (data_len + util.buffered_length)
      then some (
        tc_rx_cop_err,
        set_util tf (record util { buffered_length = 0; loop_state = tc_loop_closed }),
        q,
      )
      else (memcpy util.buffer util.buffered_length tf.frame_data.bytes data_len >>= λ out.
          some (finish out))

  -- `case TC_CONT_SEG`
  unfoldable pub receive_cont :
      TransferFrame FarmConfig → Q → Option (ℤ × TransferFrame FarmConfig × Q)
  receive_cont tf q =
      let util = tf.mission.util in
      append_segment tf q λ out. (
        tc_rx_ok,
        set_util tf (record util {
          buffer = out;
          buffered_length = (util.buffered_length + tf.frame_data.data_len) % 65536;
        }),
        q,
      )

  -- `case TC_LAST_SEG`
  unfoldable pub receive_last :
      FarmResult → ℕ → TransferFrame FarmConfig → Q → Option (ℤ × TransferFrame FarmConfig × Q)
  receive_last farm_ret vcid tf q =
      let util = tf.mission.util in
      append_segment tf q λ out.
        let ret = deliver farm_ret out (util.buffered_length + tf.frame_data.data_len) vcid q in
        (
          queue_status ret.0,
          set_util tf (record util { buffer = out; loop_state = tc_loop_closed }),
          ret.1,
        )

  -- The frames that the FARM accepts, segmented or not
  unfoldable pub receive_data :
      FarmResult → ℕ → TransferFrame FarmConfig → Q → Option (ℤ × TransferFrame FarmConfig × Q)
  receive_data farm_ret vcid tf q =
      let util = tf.mission.util in
      let data_len = tf.frame_data.data_len in
      let seq_flag = tf.frame_data.seg_hdr.seq_flag in
      if not (tf.mission.seg_hdr_flag == 0)
      then (if seq_flag == tc_unseg
          then (if ltb tf.mission.max_data_len data_len
              then some (tc_rx_cop_err, tf, q)
              else receive_whole farm_ret vcid tf q)
          else if seq_flag == tc_first_seg
          then receive_first tf q
          else if seq_flag == tc_last_seg
          then receive_last farm_ret vcid tf q
          else if seq_flag == tc_cont_seg
          then receive_cont tf q
          else some (tc_rx_cop_err, tf, q))
      else if ltb tf.mission.max_sdu_len data_len
      then some (
        tc_rx_cop_err,
        set_util tf (record util { buffered_length = 0; loop_state = tc_loop_closed }),
        q,
      )
      else receive_whole farm_ret vcid tf q

  -- What `osdlp_tc_receive` does with the FARM's result
  unfoldable pub receive_fdu :
      FarmResult → ℕ → TransferFrame FarmConfig → Q → Option (ℤ × TransferFrame FarmConfig × Q)
  receive_fdu cop_enq vcid tf q = receive_data cop_enq vcid tf q
  receive_fdu cop_priority_enq vcid tf q = receive_data cop_priority_enq vcid tf q
  receive_fdu cop_error vcid tf q = some (
    tc_rx_cop_err,
    set_util tf (record (tf.mission.util) { buffered_length = 0; loop_state = tc_loop_closed }),
    q,
  )
  receive_fdu cop_ok vcid tf q = some (tc_rx_ok, tf, q)
  receive_fdu cop_discard vcid tf q = some (tc_rx_cop_err, tf, q)

  -- The channel with that index is `tf`.
  abbrev put_channel : ℕ → TransferFrame FarmConfig → Q → Receiver Q → Receiver Q
  put_channel i tf q s = record { channels = λ j. if j == i then tf else s.channels j; queues = q }

  -- `osdlp_tc_receive`
  unfoldable pub tc_receive : List ℕ → ℕ → Receiver Q → Option (ℤ × Receiver Q)
  tc_receive rx_buffer len s = do
    b2 ← load rx_buffer 2
    b3 ← load rx_buffer 3
    let frame_len = bit_or (bit_and b2 0x03 <<< 8) (bit_and b3 0xff)
    let vcid = bit_and (b2 >>> 2) 0x3f
    let config = h.get_rx_config vcid s.queues
    if ltb len (frame_len + 1) || ltb len primary_header_len
        then some (tc_rx_frame_len_err, s)
        else if is_neg config.0
        then some (tc_rx_config_err, s)
        else (do
          tf ← tc_unpack (s.channels config.1) rx_buffer
          ret ← frame_validation_check tf rx_buffer
          if is_neg ret then some (tc_rx_frame_val_err, put_channel config.1 tf s.queues s) else (do
            farm ← farm_1 (h.rx_queue_full tf.primary_hdr.vcid s.queues) tf
            out ← receive_fdu farm.0 vcid (record tf { cop_cfg = farm.1 }) s.queues
            some (out.0, put_channel config.1 out.1 out.2 s)))
