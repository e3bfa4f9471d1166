-- ===== src/Tm/Link/Filled.antt =====
-- A frame of packets in `osdlp_tm_receive`, on a channel with stuffing.
use osdlp.Common.{
  ℕ, zero, suc, ◌+◌, ◌-◌, ◌≤◌, ◌≡◌, refl, ◌∙◌, ap, ℤ, pos, true, false, inl, inr, List, [], ◌∷◌,
  ◌++◌, some, arith, length, ◌==◌, is_neg, All,
}
use osdlp.Common.Memory.{◌>>=◌}
use osdlp.Crc.Laws.{IsByte}
use osdlp.Tm.Types.{TmPrimaryHdr, TmTransferFrame}
use osdlp.Tm.Host.{TmRxHost}
use osdlp.Tm.Setup.{tm_stuffing_off, tm_first_hdr_ptr_oid, tm_loop_closed}
use osdlp.Tm.{repeated, tm_idle_packet}
use osdlp.Tm.Frame.{ocf_bytes, TmLayout, tm_frame, IsTmHdr, IsTmLayout, HasLayout}
use osdlp.Tm.Frame.Unpack.{tm_received, crc_part, behind_data}
use osdlp.Tm.Receive.{
  TmReceiver, put_tm_channel, tm_receive, receive_tm_data, explore_packets, handle_s_ptr_zero,
  handle_rx_stuffing, negated,
}
use osdlp.Tm.Receive.Channel.{tm_receive-tm_frame}
use osdlp.Tm.Receive.Stuffed.{joined, IsPacket, Explored, Ends}
use osdlp.Tm.Receive.Filled.{explores_all}
use osdlp.Tm.Link.Steps.{channels-put}

module _ {Q : Type 0} (h : TmRxHost Q) (view : Q → List (List ℕ)) (most : ℕ) where
  -- Behind the data of a frame stands the end of the data field, or an idle byte.
  Ends-behind_data :
      (hdr : TmPrimaryHdr) (l : TmLayout) (bytes rest : List ℕ)
      → length bytes ≤ l.max_data_len
      → Ends h view most (length bytes) l.max_data_len (behind_data hdr l bytes rest)
  Ends-behind_data hdr l bytes rest fits = idle_first _ refl
    where
      idle_first :
          (n : ℕ)
          → l.max_data_len - length bytes ≡ n
          → Ends h view most (length bytes) l.max_data_len (behind_data hdr l bytes rest)
      idle_first zero e = inl (omega arith)
      idle_first (suc n) e =
          let tail = ocf_bytes hdr l.ocf ++ (crc_part hdr l bytes ++ rest) in
          inr (
            omega arith,
            (
              repeated n tm_idle_packet ++ tail,
              ap (λ (k : ℕ). repeated k tm_idle_packet ++ tail) e,
            ),
          )

  same_end :
      {used n k : ℕ} {behind : List ℕ}
      → Ends h view most used n behind
      → k ≡ n
      → Ends h view most used k behind
  same_end (inl full) e = inl (omega arith)
  same_end (inr (less, idle)) e = inr (omega arith, idle)

  -- The frame is looked through from its first byte.
  stuffed_from_start :
      (tf : TmTransferFrame) (q : Q)
      → tf.primary_hdr.status.first_hdr_ptr ≡ 0
      → (tf.mission.stuff_state == tm_stuffing_off) ≡ false
      → receive_tm_data h tf q ≡ (
          explore_packets h (tf.mission.max_data_len + 1) 0 tf q >>= λ out.
          let res : ℤ × TmTransferFrame × Q = (negated out.0, out.1, out.2) in some res)
  unfolding receive_tm_data handle_rx_stuffing handle_s_ptr_zero
  stuffed_from_start tf q start on =
      let not_oid : (tf.primary_hdr.status.first_hdr_ptr == tm_first_hdr_ptr_oid) ≡ false =
        ground arith in
      let from_zero : (tf.primary_hdr.status.first_hdr_ptr == 0) ≡ true = ground arith in
      rw (not_oid, on, from_zero) refl

  -- A frame whose data field is whole packets that do not start with the idle byte 0xe0 and that the application can measure and accepts, the first at its start, then idle bytes or nothing: on a channel with a checksum and stuffing on whose frames have that layout, and whose buffer holds the packets, `osdlp_tm_receive` returns 0 and has handed the packets to the application in their order; no packet is left open, whatever was open before, and nothing is buffered.
  pub tm_receive-joined :
      (hdr : TmPrimaryHdr) (l : TmLayout) (p : List ℕ) (ps : List (List ℕ)) (s : TmReceiver Q)
      (i : ℕ) (ret : ℤ) (rx : TmTransferFrame)
      → IsTmHdr hdr
      → IsTmLayout l
      → HasLayout rx hdr l
      → (l.crc_present == 1) ≡ true
      → (rx.mission.stuff_state == tm_stuffing_off) ≡ false
      → hdr.status.first_hdr_ptr ≡ 0
      → All IsByte (joined (p ∷ ps))
      → length (joined (p ∷ ps)) ≤ l.max_data_len
      → All (IsPacket h view most) (p ∷ ps)
      → most ≤ length rx.mission.util.buffer
      → h.get_rx_config hdr.vcid s.queues ≡ (ret, i)
      → is_neg ret ≡ false
      → s.channels i ≡ rx
      → (s' : TmReceiver Q) × (tm_receive h (tm_frame hdr l (joined (p ∷ ps))) s ≡ some (pos 0, s'))
        × (view s'.queues ≡ view s.queues ++ (p ∷ ps))
        × ((s'.channels i).mission.util.loop_state ≡ tm_loop_closed)
        × ((s'.channels i).mission.util.buffered_length ≡ 0)
  tm_receive-joined hdr l p ps s i ret rx hv lv m on stuff start are fits v room config ok channel =
      let bytes = joined (p ∷ ps) in
      let got = tm_received hdr l bytes [] rx in
      let ends : Ends h view most (length bytes) rx.mission.max_data_len
          (behind_data hdr l bytes []) =
        same_end (Ends-behind_data hdr l bytes [] fits) m.max_data_len in
      let x : Explored h view most (p ∷ ps) s.queues
          (explore_packets h (rx.mission.max_data_len + 1) 0 got s.queues) =
        explores_all h view most (rx.mission.max_data_len + 1) [] (behind_data hdr l bytes []) p ps
          got s.queues v refl ends (omega (arith, m.frame_len, m.width)) room (omega arith) in
      (
        put_tm_channel h i x.end_state x.queues s,
        tm_receive-tm_frame h hdr l bytes s i ret rx hv lv m on are fits config ok channel
            ∙ rw (stuffed_from_start got s.queues start stuff) (rw x.returned refl),
        x.delivered,
        ap (λ (t : TmTransferFrame). t.mission.util.loop_state)
              (channels-put h i x.end_state x.queues s)
            ∙ x.closed,
        ap (λ (t : TmTransferFrame). t.mission.util.buffered_length)
              (channels-put h i x.end_state x.queues s)
            ∙ x.empty,
      )
