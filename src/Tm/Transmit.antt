-- ===== src/Tm/Transmit.antt =====
-- src/osdlp_tm.c: `osdlp_tm_transmit`, which cuts a unit into frames and, where the channel fills its
-- frames, starts in what the last frame of the queue has left; and the idle frame.
pub mod Count
pub mod Frames
pub mod Queued
pub mod Units
pub mod Stuffing
pub mod Filling
use osdlp.Common.{
  ℕ, zero, suc, ◌+◌, ◌-◌, ◌%◌, ◌/◌, ℤ, pos, Bool, true, false, not, ◌&&◌, ◌||◌, List, [], Option,
  none, some, ltb, leb, ◌==◌, if◌then◌else◌, is_neg, bit_and, bit_or, ◌<<<◌,
}
use osdlp.Common.Memory.{◌>>=◌, load, pointer_at, memcpy}
use osdlp.Tm.Types.{TmTransferFrame}
use osdlp.Tm.Host.{TmTxHost}
use osdlp.Tm.{tm_idle_packet, tm_pack, memset, store_tm_crc}
use osdlp.Tm.Setup.{
  tm_loop_open, tm_loop_closed, tm_stuffing_on, tm_first_hdr_ptr_no_pkt_start, tm_first_hdr_ptr_oid,
  set_tm_util, close_loop,
}

-- `pack_crc`
unfoldable pub pack_crc : TmTransferFrame → List ℕ → Option (List ℕ)
pack_crc tf pkt_out =
    if tf.mission.crc_present == 1
    then (store_tm_crc tf.mission.frame_len pkt_out >>= λ out. some out.0)
    else some pkt_out

-- The unit ends in the last packet: it is copied, and the rest of the packet is idle.
unfoldable pub stuff_whole : TmTransferFrame → List ℕ → List ℕ → ℕ → ℕ → Option (List ℕ)
stuff_whole tf last_pkt data_in len residue_len = do
  let at = tf.mission.header_len + residue_len
  let leftover_space = (tf.mission.max_data_len + 131072 - len - residue_len) % 65536
  filled ← memcpy last_pkt at data_in len
  if ltb 0 leftover_space
      then memset filled (at + len) tm_idle_packet leftover_space
      else some filled

-- `handle_pkt_stuffing`: the packet, and `remaining_len`
unfoldable pub handle_pkt_stuffing :
    TmTransferFrame → ℕ → List ℕ → List ℕ → ℕ → ℕ → Option (List ℕ × ℕ)
handle_pkt_stuffing tf num_packets last_pkt data_in len residue_len = do
  let chunk_size = (tf.mission.max_data_len + 65536 - residue_len) % 65536
  let is_last = num_packets == 1
  filled ←
      if is_last
      then stuff_whole tf last_pkt data_in len residue_len
      else memcpy last_pkt (tf.mission.header_len + residue_len) data_in chunk_size
  sealed ← pack_crc tf filled
  some (sealed, if is_last then 0 else (len + 65536 - chunk_size) % 65536)

-- `num_packets` for that many bytes, a uint16_t; a `max_data_len` of 0 is a division by 0.
unfoldable pub packets_needed : ℕ → ℕ → Option ℕ
packets_needed max_data_len total =
    let num_packets = (total / max_data_len) % 65536 in
    if max_data_len == 0
    then none
    else if num_packets == 0 || not (total % max_data_len == 0)
    then some ((num_packets + 1) % 65536)
    else some num_packets

-- The first header pointer, by the bytes that remain
abbrev pub next_ptr : ℕ → ℕ → ℕ → ℕ
next_ptr max_data_len len remaining_len =
    if len == remaining_len
    then 0
    else if leb max_data_len remaining_len
    then tm_first_hdr_ptr_no_pkt_start
    else remaining_len % 2048

abbrev pub next_cnt : ℕ → ℕ
next_cnt n = if ltb n 255 then n + 1 else 0

abbrev pub bytes_avail : ℕ → ℕ → ℕ
bytes_avail max_data_len remaining_len =
    if leb remaining_len max_data_len then remaining_len else max_data_len

-- The channel with the first header pointer and the counters of its next frame
unfoldable pub next_tm_frame : ℕ → ℕ → TmTransferFrame → TmTransferFrame
next_tm_frame len remaining_len tf = record tf {
  primary_hdr = record (tf.primary_hdr) {
    mc_frame_cnt = next_cnt tf.primary_hdr.mc_frame_cnt;
    vc_frame_cnt = next_cnt tf.primary_hdr.vc_frame_cnt;
    status = record (tf.primary_hdr.status) {
      first_hdr_ptr = next_ptr tf.mission.max_data_len len remaining_len;
    };
  };
}

-- `osdlp_tm_pack` into the channel's own buffer
unfoldable pub pack_into_util : TmTransferFrame → List ℕ → ℕ → Option TmTransferFrame
pack_into_util tf data_in len = tm_pack tf tf.mission.util.buffer data_in len >>= λ out.
    some (set_tm_util out.1 (record (out.1.mission.util) { buffer = out.0 }))

module _ {Q : Type 0} (h : TmTxHost Q) where
  -- The loop of `eval_residue_len`. Each round passes a packet, so that a round for each byte and one
  -- more are enough; a packet of length 0 lets it run forever.
  unfoldable pub pass_packets : ℕ → TmTransferFrame → List ℕ → ℕ → Option ℕ
  pass_packets zero tf last_pkt residue_len = none
  pass_packets (suc rounds) tf last_pkt residue_len =
      let more = pass_packets rounds tf last_pkt in
      let max_data_len = tf.mission.max_data_len in
      if ltb max_data_len residue_len then some residue_len else (do
        rest ← pointer_at last_pkt (tf.mission.header_len + residue_len)
        let ret = h.get_packet_len rest max_data_len
        let passed = (residue_len + ret.1) % 65536
        if is_neg ret.0
            then some 0
            else if leb max_data_len (ret.1 + tf.mission.header_len + residue_len)
            then some passed
            else (load last_pkt (tf.mission.header_len + passed) >>= λ next.
                if next == tm_idle_packet then some passed else more passed))

  -- `eval_residue_len`
  unfoldable pub eval_residue_len : TmTransferFrame → List ℕ → Option ℕ
  eval_residue_len tf last_pkt = do
    b4 ← load last_pkt 4
    b5 ← load last_pkt 5
    let first_hdr_ptr = bit_or (bit_and b4 0x07 <<< 8) b5
    if not (first_hdr_ptr == tm_first_hdr_ptr_no_pkt_start)
          && not (first_hdr_ptr == tm_first_hdr_ptr_oid)
        then (load last_pkt (tf.mission.header_len + first_hdr_ptr) >>= λ first.
            if first == tm_idle_packet
            then some first_hdr_ptr
            else pass_packets (tf.mission.max_data_len + 1) tf last_pkt first_hdr_ptr)
        else if first_hdr_ptr == tm_first_hdr_ptr_oid
        then some 0
        else some tf.mission.max_data_len

  -- The loop that fills the packets. Where the application refuses one, the loop state is open, and the
  -- bytes before it are noted.
  unfoldable pub fill_packets :
      ℕ → List ℕ → ℕ → ℕ → TmTransferFrame → Q → Option (ℤ × TmTransferFrame × Q)
  fill_packets zero data_in len remaining_len tf q = some (pos 0, close_loop tf, q)
  fill_packets (suc num_packets) data_in len remaining_len tf q =
      let more = fill_packets num_packets data_in len in
      let avail = bytes_avail tf.mission.max_data_len remaining_len in
      do
        bytes ← if ltb len remaining_len then none else pointer_at data_in (len - remaining_len)
        tf' ← pack_into_util (next_tm_frame len remaining_len tf) bytes avail
        let util = tf'.mission.util
        let ret = h.tx_queue_enqueue util.buffer tf.mission.vcid q
        if is_neg ret.0
            then some (
              ret.0,
              set_tm_util tf' (record util {
                loop_state = tm_loop_open;
                buffered_length = len - remaining_len;
              }),
              ret.1,
            )
            else more (remaining_len - avail) tf' ret.1

  -- The part of `osdlp_tm_transmit` that uses the last packet of the queue
  unfoldable pub transmit_stuffed :
      TmTransferFrame → List ℕ → ℕ → ℕ → Q → Option (ℤ × TmTransferFrame × Q)
  transmit_stuffed tf data_in len remaining_len q = do
    let vcid = tf.mission.vcid
    let max_data_len = tf.mission.max_data_len
    let back = h.tx_queue_back vcid q
    residue_len ← if is_neg back.0 then some max_data_len else eval_residue_len tf back.1
    if leb max_data_len residue_len
        then (packets_needed max_data_len remaining_len >>= λ num_packets.
            fill_packets num_packets data_in len remaining_len tf (h.tx_commit_back vcid q))
        else (do
          num_packets ← packets_needed max_data_len (remaining_len + residue_len)
          out ← handle_pkt_stuffing tf num_packets back.1 data_in len residue_len
          fill_packets ((num_packets + 65535) % 65536) data_in len out.1 tf
              (h.tx_commit_back vcid (h.set_back out.0 vcid q)))

  -- `osdlp_tm_transmit`
  unfoldable pub tm_transmit : TmTransferFrame → List ℕ → ℕ → Q → Option (ℤ × TmTransferFrame × Q)
  tm_transmit tf data_in len q =
      let util = tf.mission.util in
      let remaining_len =
        if util.loop_state == tm_loop_open
        then (len + 65536 - util.buffered_length) % 65536
        else len in
      if not (h.tx_queue_empty tf.mission.vcid q)
        && tf.mission.stuff_state == tm_stuffing_on
        && util.loop_state == tm_loop_closed
      then transmit_stuffed tf data_in len remaining_len q
      else (packets_needed tf.mission.max_data_len remaining_len >>= λ num_packets.
          fill_packets num_packets data_in len remaining_len tf q)

  -- `osdlp_tm_transmit_idle_fdu`
  unfoldable pub tm_transmit_idle_fdu : TmTransferFrame → ℕ → Q → Option (ℤ × TmTransferFrame × Q)
  tm_transmit_idle_fdu tf vcid q = do
    let oid = record tf {
      primary_hdr = record (tf.primary_hdr) {
        status = record (tf.primary_hdr.status) { first_hdr_ptr = tm_first_hdr_ptr_oid };
      };
    }
    tf' ← pack_into_util oid [] 0
    let ret = h.tx_queue_enqueue tf'.mission.util.buffer vcid q
    some (if is_neg ret.0 then ret.0 else pos 0, tf', ret.1)
