-- ===== src/Tm/Link/Idle.antt =====
-- The idle frame, from `osdlp_tm_transmit_idle_fdu` to `osdlp_tm_receive`.
use osdlp.Common.{
  ℕ, ◌≡◌, refl, sym, ◌∙◌, ap, ℤ, pos, true, false, List, [], ◌∷◌, ◌++◌, some, arith, length, take,
  take-append, ◌==◌, is_neg,
}
use osdlp.Tm.Types.{TmPrimaryHdr, TmTransferFrame}
use osdlp.Tm.Host.{TmTxHost, TmRxHost}
use osdlp.Tm.Setup.{tm_first_hdr_ptr_oid}
use osdlp.Tm.Frame.{layout, tm_frame, IsTmHdr, HasLayout}
use osdlp.Tm.Frame.Unpack.{tm_received}
use osdlp.Tm.Transmit.{tm_transmit_idle_fdu, pack_into_util}
use osdlp.Tm.Transmit.Frames.{Queues, IsTmSender, packed_into, length-tm_frame}
use osdlp.Tm.Receive.{TmReceiver, put_tm_channel, receive_tm_data, tm_receive}
use osdlp.Tm.Receive.Channel.{tm_receive-tm_frame}
use osdlp.Tm.Link.Steps.{channels-put}

abbrev oid_hdr : TmPrimaryHdr → TmPrimaryHdr
oid_hdr h = record h { status = record (h.status) { first_hdr_ptr = tm_first_hdr_ptr_oid } }

module _ {Q R : Type 0} (tx : TmTxHost Q) (rx_host : TmRxHost R) (i : ℕ) where
  idle_by :
      (tf tf' : TmTransferFrame) (vcid : ℕ) (q : Q)
      → pack_into_util (record tf { primary_hdr = oid_hdr tf.primary_hdr }) [] 0 ≡ some tf'
      → is_neg (tx.tx_queue_enqueue tf'.mission.util.buffer vcid q).0 ≡ false
      → tm_transmit_idle_fdu tx tf vcid q
        ≡ some (pos 0, tf', (tx.tx_queue_enqueue tf'.mission.util.buffer vcid q).1)
  unfolding tm_transmit_idle_fdu
  idle_by tf tf' vcid q e ok = rw (e, ok) refl

  ignored :
      (tf : TmTransferFrame) (q : R)
      → tf.primary_hdr.status.first_hdr_ptr ≡ tm_first_hdr_ptr_oid
      → receive_tm_data rx_host tf q ≡ some (pos 3, tf, q)
  unfolding receive_tm_data
  ignored tf q e =
      let oid : (tf.primary_hdr.status.first_hdr_ptr == tm_first_hdr_ptr_oid) ≡ true =
        ground arith in
      rw oid refl

  -- If the sender's channel can send and has a checksum, its application queues each frame and refuses none, and the receiver's channel takes the sender's frames, then `osdlp_tm_transmit_idle_fdu` returns 0 and queues one frame; `osdlp_tm_receive` answers that frame with 3 (TM_RX_OID), hands nothing to the application, and leaves the channel's parameters, with what is buffered, as they were; the counts it reads from the frame are the sender's counts before the call.
  pub tm_receive-tm_transmit_idle_fdu :
      (view : Q → List (List ℕ)) (tf rx : TmTransferFrame) (s : TmReceiver R) (vcid : ℕ) (q : Q)
      (ret : ℤ)
      → Queues tx view tf.mission.frame_len
      → IsTmSender tf
      → (tf.mission.crc_present == 1) ≡ true
      → HasLayout rx tf.primary_hdr (layout tf)
      → rx_host.get_rx_config tf.primary_hdr.vcid s.queues ≡ (ret, i)
      → is_neg ret ≡ false
      → s.channels i ≡ rx
      → (tf' : TmTransferFrame) × (q' : Q) × (f : List ℕ) × (s' : TmReceiver R)
        × (tm_transmit_idle_fdu tx tf vcid q ≡ some (pos 0, tf', q'))
        × (view q' ≡ view q ++ (f ∷ []))
        × (tm_receive rx_host f s ≡ some (pos 3, s'))
        × (s'.queues ≡ s.queues)
        × ((s'.channels i).mission ≡ rx.mission)
        × ((s'.channels i).primary_hdr.mc_frame_cnt ≡ tf.primary_hdr.mc_frame_cnt)
        × ((s'.channels i).primary_hdr.vc_frame_cnt ≡ tf.primary_hdr.vc_frame_cnt)
  tm_receive-tm_transmit_idle_fdu view tf rx s vcid q ret queues v on m config ok channel =
      let oid : TmTransferFrame = record tf { primary_hdr = oid_hdr tf.primary_hdr } in
      let hdr : IsTmHdr oid.primary_hdr = record {
        version_num = v.hdr.version_num;
        spacecraft_id = v.hdr.spacecraft_id;
        vcid = v.hdr.vcid;
        ocf = v.hdr.ocf;
        mc_frame_cnt = v.hdr.mc_frame_cnt;
        vc_frame_cnt = v.hdr.vc_frame_cnt;
        sec_hdr = v.hdr.sec_hdr;
        sync = v.hdr.sync;
        pkt_order = v.hdr.pkt_order;
        seg_len_id = v.hdr.seg_len_id;
        first_hdr_ptr = omega arith;
      } in
      let v' : IsTmSender oid = record {
        hdr = hdr;
        parts = v.parts;
        sizes = record {
          header_len = v.sizes.header_len;
          max_data_len = v.sizes.max_data_len;
          crc_present = v.sizes.crc_present;
          frame_len = v.sizes.frame_len;
          width = v.sizes.width;
        };
        room = v.room;
      } in
      let m' : HasLayout rx oid.primary_hdr (layout tf) = record {
        header_len = m.header_len;
        max_data_len = m.max_data_len;
        crc_present = m.crc_present;
        frame_len = m.frame_len;
        width = m.width;
      } in
      let f = tm_frame oid.primary_hdr (layout tf) [] in
      let (back, crc, packed, room) = packed_into oid [] [] v' tt (omega arith) in
      let size : tf.mission.frame_len ≡ length f =
        sym (length-tm_frame oid.primary_hdr (layout tf) [] oid v'.sizes (omega arith)) in
      let got = tm_received oid.primary_hdr (layout tf) [] [] rx in
      let stored = channels-put rx_host i got s.queues s in
      (
        _,
        (tx.tx_queue_enqueue (f ++ back) vcid q).1,
        f,
        put_tm_channel rx_host i got s.queues s,
        idle_by tf _ vcid q packed (queues.accepts (f ++ back) vcid q),
        queues.queued (f ++ back) vcid q
            ∙ ap (λ (k : ℕ). view q ++ (take k (f ++ back) ∷ [])) size
            ∙ ap (λ (xs : List ℕ). view q ++ (xs ∷ [])) (take-append f back),
        tm_receive-tm_frame rx_host oid.primary_hdr (layout tf) [] s i ret rx hdr v.parts m' on tt
              (omega arith) config ok channel
            ∙ rw (ignored got s.queues refl) refl,
        refl,
        ap (λ (t : TmTransferFrame). t.mission) stored,
        ap (λ (t : TmTransferFrame). t.primary_hdr.mc_frame_cnt) stored,
        ap (λ (t : TmTransferFrame). t.primary_hdr.vc_frame_cnt) stored,
      )
