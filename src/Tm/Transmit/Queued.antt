-- ===== src/Tm/Transmit/Queued.antt =====
-- `osdlp_tm_transmit` queues the frames of a unit, where it does not fill the last one of the queue.
use osdlp.Common.{
  ℕ, zero, suc, ◌+◌, ◌-◌, ◌*◌, ◌≤◌, ◌<◌, ◌≡◌, refl, sym, ◌∙◌, ap, false, not, List, [], ◌∷◌, ◌++◌,
  some, arith, length, length-append, take-append, take-append-drop, length-take, length-drop, take,
  drop, ◌==◌, ltb, All, pos, ◌⊎◌, ◌&&◌,
}
use mathlib.Core.List.{append_assoc, append-nil}
use osdlp.Common.Memory.{pointer_at}
use osdlp.Crc.Laws.{IsByte}
use osdlp.Tm.Types.{TmTransferFrame}
use osdlp.Tm.Host.{TmTxHost}
use osdlp.Tm.Setup.{
  tm_loop_closed, tm_stuffing_off, set_tm_util, close_loop, tm_stuffing_on, tm_loop_open,
}
use osdlp.Tm.Frame.{layout, tm_frame}
use osdlp.Tm.Frame.Places.{pointer_behind}
use osdlp.Tm.Transmit.{
  bytes_avail, next_tm_frame, pack_into_util, fill_packets, packets_needed, tm_transmit,
}
use osdlp.Tm.Transmit.Count.{packets_needed_lem}
use osdlp.Tm.Transmit.Frames.{
  next_hdr, tm_frames, Queues, IsTmSender, next_hdr-IsTmHdr, length-tm_frame, packed_into,
  take-IsByte, drop-IsByte,
}

regrouped :
    (sent chunk later more rest data_in : List ℕ)
    → rest ≡ chunk ++ later
    → data_in ≡ sent ++ (rest ++ more)
    → data_in ≡ (sent ++ chunk) ++ (later ++ more)
regrouped sent chunk later more rest data_in e f = f ∙ rw e (simp append_assoc)

seen_next :
    (before after last : List (List ℕ)) (f : List ℕ) (fs : List (List ℕ))
    → after ≡ before ++ (f ∷ [])
    → last ≡ after ++ fs
    → last ≡ before ++ (f ∷ fs)
seen_next before after last f fs e0 e1 = e1 ∙ rw e0 (append_assoc before (f ∷ []) fs)

pointer_to :
    (data_in sent chunk later more rest : List ℕ)
    → rest ≡ chunk ++ later
    → data_in ≡ sent ++ (rest ++ more)
    → (at : ℕ) → at ≡ length sent
    → pointer_at data_in at ≡ some (chunk ++ (later ++ more))
pointer_to data_in sent chunk later more rest e f at place =
    ap (λ (buf : List ℕ). pointer_at buf at) f
    ∙ pointer_behind sent (rest ++ more) at place
    ∙ ap some (rw e (append_assoc chunk later more))

module _ {Q : Type 0} (h : TmTxHost Q) (view : Q → List (List ℕ)) (size : ℕ)
    (queues : Queues h view size) where
  fill_step :
      (n : ℕ) (tf tf' : TmTransferFrame) (data_in chunk more : List ℕ) (len remaining_len : ℕ)
      (q : Q)
      → ltb len remaining_len ≡ false
      → pointer_at data_in (len - remaining_len) ≡ some (chunk ++ more)
      → bytes_avail tf.mission.max_data_len remaining_len ≡ length chunk
      → pack_into_util (next_tm_frame len remaining_len tf) (chunk ++ more) (length chunk)
        ≡ some tf'
      → fill_packets h (suc n) data_in len remaining_len tf q
        ≡ fill_packets h n data_in len
            (remaining_len - length chunk)
            tf'
            (h.tx_queue_enqueue tf'.mission.util.buffer tf.mission.vcid q).1
  unfolding fill_packets
  fill_step n tf tf' data_in chunk more len remaining_len q within at avail packed =
      rw (within, at, avail, packed, queues.accepts tf'.mission.util.buffer tf.mission.vcid q) refl

  next-IsTmSender :
      (len remaining_len : ℕ) (tf : TmTransferFrame)
      → IsTmSender tf
      → IsTmSender (next_tm_frame len remaining_len tf)
  unfolding next_tm_frame
  next-IsTmSender len remaining_len tf v = record {
    hdr = next_hdr-IsTmHdr tf.mission.max_data_len len remaining_len tf.primary_hdr v.hdr;
    parts = v.parts;
    sizes = record {
      header_len = v.sizes.header_len;
      max_data_len = v.sizes.max_data_len;
      crc_present = v.sizes.crc_present;
      frame_len = v.sizes.frame_len;
      width = v.sizes.width;
    };
    room = v.room;
  }

  queued_frame :
      (q : Q) (vcid : ℕ) (frame back : List ℕ)
      → size ≡ length frame
      → view (h.tx_queue_enqueue (frame ++ back) vcid q).1 ≡ view q ++ (frame ∷ [])
  queued_frame q vcid frame back n =
      queues.queued (frame ++ back) vcid q
      ∙ ap (λ (f : List ℕ). view q ++ (f ∷ []))
          (ap (λ (k : ℕ). take k (frame ++ back)) n ∙ take-append frame back)

  -- Each round queues a frame.
  pub fill_packets-frames :
      (n : ℕ) (tf : TmTransferFrame) (data_in sent rest more : List ℕ) (len remaining_len : ℕ)
      (q : Q)
      → IsTmSender tf
      → tf.mission.frame_len ≡ size
      → All IsByte rest
      → data_in ≡ sent ++ (rest ++ more)
      → len ≡ length sent + length rest
      → remaining_len ≡ length rest
      → (tf' : TmTransferFrame) × (q' : Q) × (fill_packets h n data_in len remaining_len tf q
          ≡ some (pos 0, tf', q'))
        × (view q' ≡ view q ++ tm_frames n tf.primary_hdr (layout tf) len rest)
        × (tf'.mission.util.loop_state ≡ tm_loop_closed)
  unfolding fill_packets tm_frames next_tm_frame
  fill_packets-frames zero tf data_in sent rest more len remaining_len q v frame are e0 e1 e2 =
      (close_loop tf, q, refl, sym (append-nil (view q)), refl)
  fill_packets-frames (suc n) tf data_in sent rest more len remaining_len q v frame are e0 e1 e2 =
      let most = tf.mission.max_data_len in
      let chunk = take most rest in
      let later = drop most rest in
      let whole : rest ≡ chunk ++ later = sym (take-append-drop most rest) in
      let few : length chunk ≤ most = omega (arith, length-take most rest) in
      let tf1 = next_tm_frame len remaining_len tf in
      let v1 : IsTmSender tf1 = next-IsTmSender len remaining_len tf v in
      let (back, crc, packed, room) =
        packed_into tf1 chunk (later ++ more) v1 (take-IsByte most rest are) few in
      let f = tm_frame tf1.primary_hdr (layout tf) chunk in
      let tf2 : TmTransferFrame =
        set_tm_util (record tf1 { crc = crc }) (record (tf.mission.util) { buffer = f ++ back }) in
      let size_f : length f ≡ tf.mission.frame_len =
        length-tm_frame tf1.primary_hdr (layout tf) chunk tf1 v1.sizes few in
      let v2 : IsTmSender tf2 = record {
        hdr = v1.hdr;
        parts = v1.parts;
        sizes = record {
          header_len = v1.sizes.header_len;
          max_data_len = v1.sizes.max_data_len;
          crc_present = v1.sizes.crc_present;
          frame_len = v1.sizes.frame_len;
          width = v1.sizes.width;
        };
        room = omega (arith, size_f, length-append f back);
      } in
      let q1 = (h.tx_queue_enqueue (f ++ back) tf.mission.vcid q).1 in
      let (tf3, q3, run, seen, closed) =
        fill_packets-frames n tf2 data_in (sent ++ chunk) later more len
          (remaining_len - length chunk) q1 v2 frame (drop-IsByte most rest are)
          (regrouped sent chunk later more rest data_in whole e0)
          (omega (arith, length-append sent chunk, length-take most rest, length-drop most rest))
          (omega (arith, length-take most rest, length-drop most rest)) in
      (
        tf3,
        q3,
        fill_step n tf tf2 data_in chunk (later ++ more) len remaining_len q (ground arith)
              (pointer_to data_in sent chunk later more rest whole e0 (len - remaining_len)
                (omega arith))
              (ground (arith, length-take most rest)) packed
            ∙ run,
        seen_next (view q) (view q1) (view q3) f _
              (queued_frame q tf.mission.vcid f back (omega (arith, size_f))) seen
            ∙ ap
                (λ (k : ℕ).
                  let h' = next_hdr most len k tf.primary_hdr in
                  view q ++ (tm_frame h' (layout tf) chunk ∷ tm_frames n h' (layout tf) len later))
                e2,
        closed,
      )

  -- Where it neither fills frames nor goes on with a unit, the loop runs at once.
  transmit_direct :
      (tf : TmTransferFrame) (data_in : List ℕ) (len n : ℕ) (q : Q)
      → tf.mission.stuff_state ≡ tm_stuffing_off
      → tf.mission.util.loop_state ≡ tm_loop_closed
      → packets_needed tf.mission.max_data_len len ≡ some n
      → tm_transmit h tf data_in len q ≡ fill_packets h n data_in len len tf q
  unfolding tm_transmit
  transmit_direct tf data_in len n q off closed packets =
      let no_stuffing : (not (h.tx_queue_empty tf.mission.vcid q)
            && tf.mission.stuff_state == tm_stuffing_on
            && tf.mission.util.loop_state == tm_loop_closed)
          ≡ false =
        ground arith in
      let none_open : (tf.mission.util.loop_state == tm_loop_open) ≡ false = ground arith in
      rw (no_stuffing, none_open, packets) refl

  -- The number of the frames, and the frames by what is left of the unit
  pub queues_frames :
      (tf : TmTransferFrame) (sdu more : List ℕ) (q : Q)
      → IsTmSender tf
      → tf.mission.frame_len ≡ size
      → 1 ≤ tf.mission.max_data_len
      → tf.mission.stuff_state ≡ tm_stuffing_off
      → tf.mission.util.loop_state ≡ tm_loop_closed
      → All IsByte sdu
      → length sdu < 65536
      → (n : ℕ) × (tf' : TmTransferFrame) × (q' : Q) × (tm_transmit h tf
            (sdu ++ more)
            (length sdu)
            q
          ≡ some (pos 0, tf', q'))
        × (view q' ≡ view q ++ tm_frames n tf.primary_hdr (layout tf) (length sdu) sdu)
        × (tf'.mission.util.loop_state ≡ tm_loop_closed)
        × (length sdu ≤ n * tf.mission.max_data_len)
        × (n ≡ 1 ⊎ (n - 1) * tf.mission.max_data_len < length sdu)
  queues_frames tf sdu more q v frame most off closed are small =
      let (n, packets, enough, few) =
        packets_needed_lem tf.mission.max_data_len (length sdu) most small in
      let (tf', q', run, seen, shut) =
        fill_packets-frames n tf (sdu ++ more) [] sdu more (length sdu) (length sdu) q v frame are
          refl (omega arith) refl in
      (
        n,
        tf',
        q',
        transmit_direct tf (sdu ++ more) (length sdu) n q off closed packets ∙ run,
        seen,
        shut,
        enough,
        few,
      )
