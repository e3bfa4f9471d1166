-- ===== src/Tm/Link/Units.antt =====
-- What is sent is delivered: a unit, from the call of the sender to the queue of the receiver.
use osdlp.Common.{
  take_all, ℕ, zero, suc, ◌+◌, ◌-◌, ◌*◌, ◌≤◌, ◌<◌, ◌≡◌, refl, ◌∙◌, ap, ℤ, pos, true, false, inl,
  inr, List, [], ◌∷◌, ◌++◌, some, arith, length, length-drop, length-take, take, drop,
  take-append-drop, ◌==◌, is_neg, All, ==_iff, ◌⊎◌,
}
use mathlib.Core.Path.{subst}
use osdlp.Crc.Laws.{IsByte}
use osdlp.Tm.Types.{TmPrimaryHdr, TmTransferFrame}
use osdlp.Tm.Host.{TmRxHost, TmTxHost}
use osdlp.Tm.Setup.{tm_stuffing_off, tm_loop_closed}
use osdlp.Tm.Frame.{TmLayout, tm_frame, layout}
use osdlp.Tm.Frame.Unpack.{tm_received, behind_data}
use osdlp.Tm.Transmit.{next_ptr, tm_transmit}
use osdlp.Tm.Transmit.Frames.{
  next_hdr, tm_frames, next_hdr-IsTmHdr, take-IsByte, drop-IsByte, Queues, IsTmSender,
}
use osdlp.Tm.Receive.{
  TmReceiver, put_tm_channel, tm_receive, receive_tm_data, set_buffer, open_loop, set_expected,
}
use osdlp.Tm.Receive.Channel.{tm_receive-tm_frame}
use osdlp.Tm.Link.{receive_tm_frames, Delivered}
use osdlp.Tm.Link.Steps.{Hears, next-HasLayout, channels-put, first_frame, prepend-Delivered}
use osdlp.Tm.Link.Delivery.{rest-Delivered}
use osdlp.Tm.Receive.First.{first_of_many, only_one}
use osdlp.Tm.Transmit.Queued.{queues_frames}

-- The application reads the length of the packet in what the first frame has of it.
pub record TellsLength {Q : Type 0} (h : TmRxHost Q) (sdu : List ℕ) (most : ℕ) : Type 0 where
  pub status : ℤ
  pub told :
      (behind : List ℕ) → h.get_packet_len (take most sdu ++ behind) most ≡ (status, length sdu)
  pub found : is_neg status ≡ false

-- The channel's buffer has room for the longest unit, and the unit is no longer.
pub record HasRoom (rx : TmTransferFrame) (sdu : List ℕ) : Type 0 where
  pub short : length sdu ≤ rx.mission.max_sdu_len
  pub width : rx.mission.max_sdu_len < 65536
  pub space : rx.mission.max_sdu_len ≤ length rx.mission.util.buffer

module _ {Q : Type 0} (h : TmRxHost Q) (i : ℕ) where
  -- The frame that the unit starts in
  first-received :
      (rx : TmTransferFrame) (hdr : TmPrimaryHdr) (l : TmLayout) (s : TmReceiver Q) (sdu : List ℕ)
      (out : ℤ × TmTransferFrame × Q)
      → Hears h i rx hdr l s
      → All IsByte sdu
      → let hdr' = next_hdr l.max_data_len (length sdu) (length sdu) hdr in
        let chunk = take l.max_data_len sdu in
        receive_tm_data h (tm_received hdr' l chunk [] rx) s.queues ≡ some out
        → tm_receive h (tm_frame hdr' l chunk) s ≡ some (out.0, put_tm_channel h i out.1 out.2 s)
  first-received rx hdr l s sdu out v are e =
      let n : ℕ = length sdu in
      let chunk = take l.max_data_len sdu in
      tm_receive-tm_frame h (next_hdr l.max_data_len n n hdr) l chunk s i v.status rx
        (next_hdr-IsTmHdr l.max_data_len n n hdr v.fields) v.parts
        (next-HasLayout rx hdr l n n v.sizes) v.summed (take-IsByte l.max_data_len sdu are)
        (omega (arith, length-take l.max_data_len sdu)) v.config v.found v.channel
      ∙ rw e refl

  starts_at : (most n : ℕ) → next_ptr most n n ≡ 0
  starts_at most n = let same : (n == n) ≡ true = (==_iff n n).1 refl in rw same refl

  module _ (rx : TmTransferFrame) (hdr : TmPrimaryHdr) (l : TmLayout) (s : TmReceiver Q)
      (sdu : List ℕ) (v : Hears h i rx hdr l s) (space : HasRoom rx sdu)
      (tells : TellsLength h sdu l.max_data_len) (are : All IsByte sdu) where
    abbrev first_hdr : TmPrimaryHdr
    first_hdr = next_hdr l.max_data_len (length sdu) (length sdu) hdr

    abbrev first_chunk : List ℕ
    first_chunk = take l.max_data_len sdu

    -- The channel with the first frame taken apart
    abbrev opened : TmTransferFrame
    opened = tm_received first_hdr l first_chunk [] rx

    told_here :
        h.get_packet_len opened.bytes opened.mission.max_data_len ≡ (tells.status, length sdu)
    told_here =
        ap (λ (k : ℕ). h.get_packet_len opened.bytes k) v.sizes.max_data_len
        ∙ tells.told (behind_data first_hdr l first_chunk [])

    unit_in_one :
        length sdu ≤ l.max_data_len
        → Delivered h i rx.mission.vcid 0 sdu s.queues
            (receive_tm_frames h (tm_frame first_hdr l first_chunk ∷ []) s)
    unfolding receive_tm_frames
    unit_in_one fits =
        let whole : first_chunk ≡ sdu = take_all l.max_data_len sdu fits in
        let behind = behind_data first_hdr l first_chunk [] in
        let size = v.sizes.max_data_len in
        let back = drop (length first_chunk) rx.mission.util.buffer in
        let (tf', taken, closed) =
          only_one h opened first_chunk behind (length sdu) tells.status s.queues refl told_here
            tells.found (omega (arith, space.short, space.space))
            (omega (arith, length-take l.max_data_len sdu)) (starts_at l.max_data_len (length sdu))
            v.stuff_state (omega (arith, size)) (ap length whole) in
        let ret = h.rx_queue_enqueue (first_chunk ++ back) rx.mission.vcid s.queues in
        let step = first-received rx hdr l s sdu _ v are taken in
        subst
          (λ (xs : List ℕ).
            Delivered h i rx.mission.vcid 0 xs s.queues
              (receive_tm_frames h (tm_frame first_hdr l first_chunk ∷ []) s))
          whole
          (record {
            end_state = put_tm_channel h i tf' ret.1 s;
            behind = back;
            returned = first_frame h i _ [] s _ _ step;
            queues = refl;
            closed =
                ap (λ (t : TmTransferFrame). t.mission.util.loop_state)
                  (channels-put h i tf' ret.1 s)
                ∙ closed;
          })

    unit_in_many :
        (n : ℕ)
        → length sdu ≤ suc (suc n) * l.max_data_len
        → suc n * l.max_data_len < length sdu
        → Delivered h i rx.mission.vcid (suc n) sdu s.queues (
            receive_tm_frames h
              (tm_frame first_hdr l first_chunk
                ∷ tm_frames (suc n) first_hdr l (length sdu) (drop l.max_data_len sdu))
              s)
    unit_in_many n enough few =
        let m = l.max_data_len in
        let later = drop m sdu in
        let rows : suc n * m ≡ n * m + m = omega arith in
        let more_rows : suc (suc n) * m ≡ suc n * m + m = omega arith in
        let full : length first_chunk ≡ m = omega (arith, length-take m sdu) in
        let left : length later ≡ length sdu - m = omega (arith, length-drop m sdu) in
        let behind = behind_data first_hdr l first_chunk [] in
        let size = v.sizes.max_data_len in
        let (taken, c) =
          first_of_many h opened first_chunk behind (length sdu) tells.status s.queues refl
            told_here tells.found (omega (arith, space.short, space.space)) (omega arith)
            (starts_at m (length sdu)) v.stuff_state (omega (arith, size)) (omega (arith, size))
            space.short space.width space.space in
        let rx' =
          open_loop
            (set_buffer (set_expected opened (length sdu))
              (first_chunk ++ drop (length first_chunk) rx.mission.util.buffer))
            rx.mission.max_data_len in
        let s' = put_tm_channel h i rx' s.queues s in
        let v' : Hears h i rx' first_hdr l s' = record {
          fields = next_hdr-IsTmHdr m (length sdu) (length sdu) hdr v.fields;
          parts = v.parts;
          sizes = record {
            header_len = v.sizes.header_len;
            max_data_len = v.sizes.max_data_len;
            crc_present = v.sizes.crc_present;
            frame_len = v.sizes.frame_len;
            width = v.sizes.width;
          };
          summed = v.summed;
          stuff_state = v.stuff_state;
          some_data = v.some_data;
          most_data = v.most_data;
          status = v.status;
          config = v.config;
          found = v.found;
          channel = channels-put h i rx' s.queues s;
        } in
        let step = first-received rx hdr l s sdu _ v are taken in
        let frames = tm_frames (suc n) first_hdr l (length sdu) later in
        let d =
          rest-Delivered h i n rx' first_hdr l s' first_chunk
            (drop (length first_chunk) rx.mission.util.buffer) later (length sdu) v' c
            (drop-IsByte m sdu are) (omega (arith, v.some_data)) (omega arith) (omega arith)
            (omega arith) in
        prepend-Delivered h i _ frames s s' rx.mission.vcid n sdu step refl (
          subst
            (λ (xs : List ℕ).
              Delivered h i rx.mission.vcid n xs s'.queues (receive_tm_frames h frames s'))
            (take-append-drop m sdu) d)

  -- A unit's frames, one after the other in `osdlp_tm_receive`
  pub tm_frames-Delivered :
      (n : ℕ) (rx : TmTransferFrame) (hdr : TmPrimaryHdr) (l : TmLayout) (s : TmReceiver Q)
      (sdu : List ℕ)
      → Hears h i rx hdr l s
      → HasRoom rx sdu
      → TellsLength h sdu l.max_data_len
      → All IsByte sdu
      → length sdu ≤ suc n * l.max_data_len
      → (suc n ≡ 1 ⊎ n * l.max_data_len < length sdu)
      → Delivered h i rx.mission.vcid n sdu s.queues
          (receive_tm_frames h (tm_frames (suc n) hdr l (length sdu) sdu) s)
  unfolding tm_frames
  tm_frames-Delivered zero rx hdr l s sdu v space tells are enough few =
      unit_in_one rx hdr l s sdu v space tells are (omega arith)
  tm_frames-Delivered (suc n) rx hdr l s sdu v space tells are enough (inl one) =
      absurd (omega arith)
  tm_frames-Delivered (suc n) rx hdr l s sdu v space tells are enough (inr few) =
      unit_in_many rx hdr l s sdu v space tells are n enough few

  counted-Delivered :
      (n : ℕ) (rx : TmTransferFrame) (hdr : TmPrimaryHdr) (l : TmLayout) (s : TmReceiver Q)
      (sdu : List ℕ)
      → Hears h i rx hdr l s
      → HasRoom rx sdu
      → TellsLength h sdu l.max_data_len
      → All IsByte sdu
      → length sdu ≤ n * l.max_data_len
      → (n ≡ 1 ⊎ (n - 1) * l.max_data_len < length sdu)
      → (k : ℕ) × Delivered h i rx.mission.vcid k sdu s.queues
          (receive_tm_frames h (tm_frames n hdr l (length sdu) sdu) s)
  counted-Delivered zero rx hdr l s sdu v space tells are enough (inl one) = absurd (omega arith)
  counted-Delivered zero rx hdr l s sdu v space tells are enough (inr few) = absurd (omega arith)
  counted-Delivered (suc k) rx hdr l s sdu v space tells are enough few =
      (k, tm_frames-Delivered k rx hdr l s sdu v space tells are enough (before k few))
    where
      before :
          (k : ℕ)
          → (suc k ≡ 1 ⊎ (suc k - 1) * l.max_data_len < length sdu)
          → (suc k ≡ 1 ⊎ k * l.max_data_len < length sdu)
      before k (inl one) = inl one
      before k (inr few) =
          let same : suc k - 1 ≡ k = omega arith in
          inr (subst (λ (j : ℕ). j * l.max_data_len < length sdu) same few)

module _ {Q R : Type 0} (tx : TmTxHost Q) (rx_host : TmRxHost R) (i : ℕ) where
  -- If the sender's channel can send, has a checksum, does not fill frames and has no segmentation open, its application queues each frame and refuses none, and the receiver's channel takes the sender's frames, does not fill frames either and has room for the unit, whose length its application reads in the first frame, then `osdlp_tm_transmit` of the unit returns 0, and `osdlp_tm_receive` of the frames that it has queued, in their order, answers each but the last with pending and with the last hands the application a buffer that starts with the unit; the receiver's loop is closed again.
  pub tm_transmit-Delivered :
      (view : Q → List (List ℕ)) (tf rx : TmTransferFrame) (s : TmReceiver R) (sdu more : List ℕ)
      (q : Q)
      → Queues tx view tf.mission.frame_len
      → IsTmSender tf
      → tf.mission.stuff_state ≡ tm_stuffing_off
      → tf.mission.util.loop_state ≡ tm_loop_closed
      → Hears rx_host i rx tf.primary_hdr (layout tf) s
      → HasRoom rx sdu
      → TellsLength rx_host sdu tf.mission.max_data_len
      → All IsByte sdu
      → (n : ℕ) × (tf' : TmTransferFrame) × (q' : Q) × (frames : List (List ℕ)) × (tm_transmit tx tf
            (sdu ++ more)
            (length sdu)
            q
          ≡ some (pos 0, tf', q'))
        × (view q' ≡ view q ++ frames)
        × Delivered rx_host i rx.mission.vcid n sdu s.queues (receive_tm_frames rx_host frames s)
  tm_transmit-Delivered view tf rx s sdu more q queues v off closed hears space tells are =
      let (n, tf', q', run, seen, shut, enough, few) =
        queues_frames tx view tf.mission.frame_len queues tf sdu more q v refl hears.some_data off
          closed are (omega (arith, space.short, space.width)) in
      let (k, delivered) =
        counted-Delivered rx_host i n rx tf.primary_hdr (layout tf) s sdu hears space tells are
          enough few in
      (k, tf', q', tm_frames n tf.primary_hdr (layout tf) (length sdu) sdu, run, seen, delivered)
