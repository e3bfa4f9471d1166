-- ===== src/Tm/Link/Steps.antt =====
-- One frame after another in `osdlp_tm_receive`.
use osdlp.Common.{
  ℕ, suc, ◌≤◌, ◌<◌, ◌≡◌, refl, sym, ◌∙◌, ap, ℤ, true, false, List, [], ◌∷◌, Option, some, none,
  arith, length, ◌==◌, is_neg, All, ==_iff,
}
use osdlp.Common.Memory.{◌>>=◌}
use osdlp.Crc.Laws.{IsByte}
use osdlp.Tm.Types.{TmPrimaryHdr, TmTransferFrame}
use osdlp.Tm.Host.{TmRxHost}
use osdlp.Tm.Setup.{tm_stuffing_off}
use osdlp.Tm.Frame.{TmLayout, tm_frame, IsTmHdr, IsTmLayout, HasLayout}
use osdlp.Tm.Frame.Unpack.{tm_received}
use osdlp.Tm.Transmit.{bytes_avail, next_ptr}
use osdlp.Tm.Transmit.Frames.{next_hdr, next_hdr-IsTmHdr}
use osdlp.Tm.Receive.{
  TmReceiver, tm_rx_pending, negated, put_tm_channel, tm_receive, receive_tm_data, append_packet,
  Handled,
}
use osdlp.Tm.Receive.Channel.{tm_receive-tm_frame}
use osdlp.Tm.Receive.Packets.{Collects, continues}
use osdlp.Tm.Link.{receive_tm_frames, Delivered}

pub next-HasLayout :
    (tf : TmTransferFrame) (h : TmPrimaryHdr) (l : TmLayout) (len remaining_len : ℕ)
    → HasLayout tf h l
    → HasLayout tf (next_hdr l.max_data_len len remaining_len h) l
next-HasLayout tf h l len remaining_len m = record {
  header_len = m.header_len;
  max_data_len = m.max_data_len;
  crc_present = m.crc_present;
  frame_len = m.frame_len;
  width = m.width;
}

module _ {Q : Type 0} (h : TmRxHost Q) (i : ℕ) where
  pub channels-put :
      (tf : TmTransferFrame) (q : Q) (s : TmReceiver Q)
      → (put_tm_channel h i tf q s).channels i ≡ tf
  channels-put tf q s = let same : (i == i) ≡ true = (==_iff i i).1 refl in rw same refl

  -- A frame that is received, in front of the others
  pub first_frame :
      (f : List ℕ) (frames : List (List ℕ)) (s s' : TmReceiver Q) (status : ℤ)
      → tm_receive h f s ≡ some (status, s')
      → receive_tm_frames h (f ∷ frames) s ≡ (
          receive_tm_frames h frames s' >>= λ later.
          let all : List ℤ × TmReceiver Q = (status ∷ later.0, later.1) in some all)
  unfolding receive_tm_frames
  first_frame f frames s s' status e = rw e refl

  pub prepend-Delivered :
      (f : List ℕ) (frames : List (List ℕ)) (s s' : TmReceiver Q) (vcid n : ℕ) (sdu : List ℕ)
      → tm_receive h f s ≡ some (negated tm_rx_pending, s')
      → s'.queues ≡ s.queues
      → Delivered h i vcid n sdu s'.queues (receive_tm_frames h frames s')
      → Delivered h i vcid (suc n) sdu s.queues (receive_tm_frames h (f ∷ frames) s)
  prepend-Delivered f frames s s' vcid n sdu e same d = record {
    end_state = d.end_state;
    behind = d.behind;
    returned = first_frame f frames s s' _ e ∙ rw d.returned (rw same refl);
    queues = rw (← same) d.queues;
    closed = d.closed;
  }

  -- The channel `rx` of the receiver takes the frames that have this header and layout.
  pub record Hears (rx : TmTransferFrame) (hdr : TmPrimaryHdr) (l : TmLayout) (s : TmReceiver Q)
      : Type 0 where
    pub fields : IsTmHdr hdr
    pub parts : IsTmLayout l
    pub sizes : HasLayout rx hdr l
    pub summed : (l.crc_present == 1) ≡ true
    pub stuff_state : rx.mission.stuff_state ≡ tm_stuffing_off
    pub some_data : 1 ≤ l.max_data_len
    pub most_data : l.max_data_len ≤ 2046
    pub status : ℤ
    pub config : h.get_rx_config hdr.vcid s.queues ≡ (status, i)
    pub found : is_neg status ≡ false
    pub channel : s.channels i ≡ rx

  pub after_handler :
      (s : TmReceiver Q) (o : Handled Q) (r : Option (ℤ × TmTransferFrame × Q))
      → r ≡ (
          o >>= λ out.
          let res : ℤ × TmTransferFrame × Q = (negated out.0, out.1, out.2) in some res)
      → (r >>= λ out.
          let next : ℤ × TmReceiver Q = (out.0, put_tm_channel h i out.1 out.2 s) in some next)
        ≡ (o >>= λ out.
            let next : ℤ × TmReceiver Q = (negated out.0, put_tm_channel h i out.1 out.2 s) in
            some next)
  after_handler s none r e = rw e refl
  after_handler s (some out) r e = rw e refl

  pub continued :
      (rx : TmTransferFrame) (hdr : TmPrimaryHdr) (l : TmLayout) (s : TmReceiver Q)
      (got room rest chunk : List ℕ) (len : ℕ)
      → Hears rx hdr l s
      → Collects rx got room len
      → All IsByte chunk
      → bytes_avail l.max_data_len (length rest) ≡ length chunk
      → length chunk ≤ l.max_data_len
      → 1 ≤ length rest
      → length rest < len
      → let hdr' = next_hdr l.max_data_len len (length rest) hdr in
        let tf = tm_received hdr' l chunk [] rx in
        tm_receive h (tm_frame hdr' l chunk) s ≡ (
          append_packet h tf (length chunk) s.queues >>= λ out.
          let next : ℤ × TmReceiver Q = (negated out.0, put_tm_channel h i out.1 out.2 s) in
          some next)
  continued rx hdr l s got room rest chunk len v c are avail fits some_left later =
      let hdr' = next_hdr l.max_data_len len (length rest) hdr in
      let tf = tm_received hdr' l chunk [] rx in
      let size = v.sizes.max_data_len in
      let handled : receive_tm_data h tf s.queues ≡ (
          append_packet h tf (bytes_avail rx.mission.max_data_len (length rest)) s.queues >>= λ out.
          let res : ℤ × TmTransferFrame × Q = (negated out.0, out.1, out.2) in some res) =
        continues h tf len (length rest) s.queues
          (ap (λ (k : ℕ). next_ptr k len (length rest)) (sym size)) v.stuff_state c.loop_state
          (omega (arith, size, v.most_data)) some_left later in
      let shown : bytes_avail rx.mission.max_data_len (length rest) ≡ length chunk =
        ap (λ (k : ℕ). bytes_avail k (length rest)) size ∙ avail in
      tm_receive-tm_frame h hdr' l chunk s i v.status rx
        (next_hdr-IsTmHdr l.max_data_len len (length rest) hdr v.fields) v.parts
        (next-HasLayout rx hdr l len (length rest) v.sizes) v.summed are fits v.config v.found
        v.channel
      ∙ after_handler s _ (receive_tm_data h tf s.queues) handled
      ∙ ap
          (λ (k : ℕ). append_packet h tf k s.queues >>= λ out.
            let next : ℤ × TmReceiver Q = (negated out.0, put_tm_channel h i out.1 out.2 s) in
            some next)
          shown
