-- ===== src/Tm/Link/Delivery.antt =====
-- A unit that is sent in frames is delivered.
use osdlp.Common.{
  take_all, ℕ, zero, suc, ◌+◌, ◌-◌, ◌*◌, ◌≤◌, ◌<◌, ◌≡◌, refl, sym, ◌∙◌, ap, List, [], ◌∷◌, ◌++◌,
  some, arith, length, length-append, length-drop, length-take, take, drop, take-append-drop, All,
}
use mathlib.Core.Path.{subst}
use mathlib.Core.List.{append_assoc}
use osdlp.Crc.Laws.{IsByte}
use osdlp.Tm.Types.{TmPrimaryHdr, TmTransferFrame}
use osdlp.Tm.Host.{TmRxHost}
use osdlp.Tm.Setup.{close_loop}
use osdlp.Tm.Frame.{TmLayout, tm_frame}
use osdlp.Tm.Frame.Unpack.{tm_received}
use osdlp.Tm.Transmit.{bytes_avail}
use osdlp.Tm.Transmit.Frames.{next_hdr, tm_frames, next_hdr-IsTmHdr, take-IsByte, drop-IsByte}
use osdlp.Tm.Receive.{
  TmReceiver, tm_rx_pending, negated, put_tm_channel, tm_receive, buffer_more, set_buffer,
}
use osdlp.Tm.Receive.Packets.{Collects, last_chunk, next_chunk, next_chunk-Collects}
use osdlp.Tm.Link.{receive_tm_frames, Delivered}
use osdlp.Tm.Link.Steps.{Hears, channels-put, first_frame, prepend-Delivered, continued}

-- Taking a frame apart leaves what is collected.
received-Collects :
    (rx : TmTransferFrame) (hdr : TmPrimaryHdr) (l : TmLayout) (chunk got room : List ℕ) (len : ℕ)
    → Collects rx got room len
    → Collects (tm_received hdr l chunk [] rx) got room len
received-Collects rx hdr l chunk got room len c = record {
  loop_state = c.loop_state;
  buffered_length = c.buffered_length;
  buffer = c.buffer;
  expected_pkt_len = c.expected_pkt_len;
  short = c.short;
  space = c.space;
  width = c.width;
}

module _ {Q : Type 0} (h : TmRxHost Q) (i : ℕ) where
  -- The last frame of a packet
  last-Delivered :
      (rx : TmTransferFrame) (hdr : TmPrimaryHdr) (l : TmLayout) (s : TmReceiver Q)
      (got room rest : List ℕ) (len : ℕ)
      → Hears h i rx hdr l s
      → Collects rx got room len
      → All IsByte rest
      → 1 ≤ length got
      → 1 ≤ length rest
      → length rest ≤ l.max_data_len
      → len ≡ length got + length rest
      → Delivered h i rx.mission.vcid 0 (got ++ rest) s.queues (
          receive_tm_frames h
            (tm_frame (next_hdr l.max_data_len len (length rest) hdr) l rest ∷ [])
            s)
  unfolding receive_tm_frames
  last-Delivered rx hdr l s got room rest len v c are begun some_left fits sum =
      let hdr' = next_hdr l.max_data_len len (length rest) hdr in
      let tf = tm_received hdr' l rest [] rx in
      let behind = drop (length rest) room in
      let out = (got ++ rest) ++ behind in
      let last = set_buffer tf out in
      let ret = h.rx_queue_enqueue out rx.mission.vcid s.queues in
      let step =
        continued h i rx hdr l s got room rest rest len v c are (ground arith) fits some_left
          (omega arith)
        ∙ rw
            (last_chunk h tf got room rest _ len s.queues
              (received-Collects rx hdr' l rest got room len c) refl (sym sum))
            refl in
      record {
        end_state = put_tm_channel h i (close_loop last) ret.1 s;
        behind = behind;
        returned = first_frame h i _ [] s _ _ step;
        queues = refl;
        closed =
            ap (λ (t : TmTransferFrame). t.mission.util.loop_state)
              (channels-put h i (close_loop last) ret.1 s);
      }

  -- A frame in the middle of a packet
  next-received :
      (rx : TmTransferFrame) (hdr : TmPrimaryHdr) (l : TmLayout) (s : TmReceiver Q)
      (got room rest chunk : List ℕ) (len : ℕ)
      → Hears h i rx hdr l s
      → Collects rx got room len
      → All IsByte chunk
      → bytes_avail l.max_data_len (length rest) ≡ length chunk
      → length chunk ≤ l.max_data_len
      → length rest < len
      → 1 ≤ length rest
      → length got + length chunk < len
      → let hdr' = next_hdr l.max_data_len len (length rest) hdr in
        (rx' : TmTransferFrame) × (s' : TmReceiver Q) × (tm_receive h (tm_frame hdr' l chunk) s
          ≡ some (negated tm_rx_pending, s'))
        × (s'.queues ≡ s.queues)
        × Hears h i rx' hdr' l s'
        × Collects rx' (got ++ chunk) (drop (length chunk) room) len
        × (rx'.mission.vcid ≡ rx.mission.vcid)
  next-received rx hdr l s got room rest chunk len v c are avail fits later some_left part =
      let hdr' = next_hdr l.max_data_len len (length rest) hdr in
      let tf = tm_received hdr' l chunk [] rx in
      let grown_buf = (got ++ chunk) ++ drop (length chunk) room in
      let rx' = buffer_more (set_buffer tf grown_buf) (length chunk) in
      let s' = put_tm_channel h i rx' s.queues s in
      let c' = received-Collects rx hdr' l chunk got room len c in
      (
        rx',
        s',
        continued h i rx hdr l s got room rest chunk len v c are avail fits some_left later
            ∙ rw (next_chunk h tf got room chunk _ len s.queues c' refl part) refl,
        refl,
        record {
          fields = next_hdr-IsTmHdr l.max_data_len len (length rest) hdr v.fields;
          parts = v.parts;
          sizes = record {
            header_len = v.sizes.header_len;
            max_data_len = v.sizes.max_data_len;
            crc_present = v.sizes.crc_present;
            frame_len = v.sizes.frame_len;
            width = v.sizes.width;
          };
          summed = v.summed;
          stuff_state = v.stuff_state;
          some_data = v.some_data;
          most_data = v.most_data;
          status = v.status;
          config = v.config;
          found = v.found;
          channel = channels-put h i rx' s.queues s;
        },
        next_chunk-Collects h tf got room chunk _ len s.queues c' refl part,
        refl,
      )

  pub rest-Delivered :
      (n : ℕ) (rx : TmTransferFrame) (hdr : TmPrimaryHdr) (l : TmLayout) (s : TmReceiver Q)
      (got room rest : List ℕ) (len : ℕ)
      → Hears h i rx hdr l s
      → Collects rx got room len
      → All IsByte rest
      → 1 ≤ length got
      → length rest ≤ suc n * l.max_data_len
      → n * l.max_data_len < length rest
      → len ≡ length got + length rest
      → Delivered h i rx.mission.vcid n
          (got ++ rest)
          s.queues
          (receive_tm_frames h (tm_frames (suc n) hdr l len rest) s)
  unfolding tm_frames
  rest-Delivered zero rx hdr l s got room rest len v c are begun fits more sum =
      let all : take l.max_data_len rest ≡ rest = take_all l.max_data_len rest (omega arith) in
      rw all
        (last-Delivered rx hdr l s got room rest len v c are begun (omega arith) (omega arith) sum)
  rest-Delivered (suc n) rx hdr l s got room rest len v c are begun fits more sum =
      let m = l.max_data_len in
      let chunk = take m rest in
      let later = drop m rest in
      let rows : suc n * m ≡ n * m + m = omega arith in
      let more_rows : suc (suc n) * m ≡ suc n * m + m = omega arith in
      let full : length chunk ≡ m = omega (arith, length-take m rest) in
      let left : length later ≡ length rest - m = omega (arith, length-drop m rest) in
      let hdr' = next_hdr m len (length rest) hdr in
      let (rx', s', step, same, v', c', vcid) =
        next-received rx hdr l s got room rest chunk len v c (take-IsByte m rest are) (ground arith)
          (omega arith) (omega arith) (omega arith) (omega arith) in
      let d =
        rest-Delivered n rx' hdr' l s' (got ++ chunk) (drop (length chunk) room) later len v' c'
          (drop-IsByte m rest are) (omega (arith, length-append got chunk)) (omega arith)
          (omega arith) (omega (arith, length-append got chunk)) in
      let frames = tm_frames (suc n) hdr' l len later in
      let sdu : (got ++ chunk) ++ later ≡ got ++ rest =
        append_assoc got chunk later ∙ ap (λ (xs : List ℕ). got ++ xs) (take-append-drop m rest) in
      let d' =
        subst
          (λ (k : ℕ).
            Delivered h i k n ((got ++ chunk) ++ later) s'.queues (receive_tm_frames h frames s'))
          vcid d in
      prepend-Delivered h i _ frames s s' rx.mission.vcid n (got ++ rest) step same (
        subst
          (λ (xs : List ℕ).
            Delivered h i rx.mission.vcid n xs s'.queues (receive_tm_frames h frames s'))
          sdu d')
