-- ===== src/Tm/Receive/Channel.antt =====
-- `osdlp_tm_receive` on a frame of the standard: its channel is found, and its checksum agrees.
use osdlp.Common.{
  ℕ, ◌+◌, ◌-◌, ◌≤◌, ◌≡◌, refl, sym, ◌∙◌, ap, ℤ, true, false, List, [], ◌++◌, some, none, arith,
  length, ◌==◌, ltb, if◌then◌else◌, All, is_neg, bit_and, ◌>>>◌, ==_iff,
}
use mathlib.Core.List.{append_assoc, append-nil}
use osdlp.Common.Memory.{◌>>=◌, load}
use osdlp.Crc.{calc_crc}
use osdlp.Crc.Laws.{IsByte, crc_field, calc_crc-eq-crc_bytes}
use osdlp.Tm.Types.{TmPrimaryHdr, TmTransferFrame}
use osdlp.Tm.Host.{TmRxHost}
use osdlp.Tm.{tm_unpack}
use osdlp.Tm.Frame.{TmLayout, tm_body, tm_sum, tm_frame, IsTmHdr, IsTmLayout, HasLayout}
use osdlp.Tm.Frame.Fields.{channel_loaded}
use osdlp.Tm.Frame.Sum.{tm_body_bytes, length-tm_body}
use osdlp.Tm.Frame.Unpack.{tm_received, tm_unpack-tm_frame}
use osdlp.Tm.Receive.{TmReceiver, put_tm_channel, receive_tm_data, tm_receive}

-- The byte of the frame that holds the channel
second_byte :
    (h : TmPrimaryHdr) (l : TmLayout) (bytes rest : List ℕ)
    → IsTmHdr h
    → (b1 : ℕ) × (load (tm_frame h l bytes ++ rest) 1 ≡ some b1)
      × (bit_and (b1 >>> 1) 0x07 ≡ h.vcid)
unfolding tm_frame tm_body
second_byte h l bytes rest v =
    (_, refl, (channel_loaded h.mcid.spacecraft_id h.vcid h.ocf v.spacecraft_id v.vcid v.ocf).1)

summed :
    (h : TmPrimaryHdr) (l : TmLayout) (bytes rest : List ℕ) (tf : TmTransferFrame)
    → IsTmHdr h
    → IsTmLayout l
    → HasLayout tf h l
    → (l.crc_present == 1) ≡ true
    → All IsByte bytes
    → length bytes ≤ l.max_data_len
    → (if ltb tf.mission.frame_len 2
        then none
        else calc_crc (tm_frame h l bytes ++ rest) (tf.mission.frame_len - 2))
      ≡ some (tm_sum h l bytes)
unfolding tm_frame
summed h l bytes rest tf hv lv m on are fits =
    let body = tm_body h l bytes in
    let field = crc_field (tm_sum h l bytes) in
    let size : tf.mission.frame_len ≡ length body + 2 =
      ground (arith, m.frame_len, m.header_len, length-tm_body h l bytes fits) in
    let long : ltb tf.mission.frame_len 2 ≡ false = ground arith in
    let last : tf.mission.frame_len - 2 ≡ length body = omega arith in
    rw (long, last, on, append_assoc body field rest)
      (calc_crc-eq-crc_bytes body (field ++ rest) (tm_body_bytes h l bytes hv lv are))

agrees :
    (h : TmPrimaryHdr) (l : TmLayout) (bytes rest : List ℕ) (rx : TmTransferFrame)
    → (l.crc_present == 1) ≡ true
    → (tm_sum h l bytes == (tm_received h l bytes rest rx).crc) ≡ true
agrees h l bytes rest rx on = rw on ((==_iff (tm_sum h l bytes) _).1 refl)

module _ {Q : Type 0} (h : TmRxHost Q) where
  -- `osdlp_tm_receive` by its parts
  received_by :
      (data_in : List ℕ) (s : TmReceiver Q) (b1 vcid i c : ℕ) (ret : ℤ) (tf : TmTransferFrame)
      → load data_in 1 ≡ some b1
      → bit_and (b1 >>> 1) 0x07 ≡ vcid
      → h.get_rx_config vcid s.queues ≡ (ret, i)
      → is_neg ret ≡ false
      → tm_unpack (s.channels i) data_in ≡ some tf
      → (if ltb tf.mission.frame_len 2 then none else calc_crc data_in (tf.mission.frame_len - 2))
        ≡ some c
      → (c == tf.crc) ≡ true
      → tm_receive h data_in s ≡ (
          receive_tm_data h tf s.queues >>= λ out.
          let next : ℤ × TmReceiver Q = (out.0, put_tm_channel h i out.1 out.2 s) in some next)
  unfolding tm_receive
  received_by data_in s b1 vcid i c ret tf e0 e1 e2 e3 e4 e5 e6 =
      rw (e0, e1, e2, e3, e4, e5, e6) refl

  pub tm_receive-tm_frame :
      (hdr : TmPrimaryHdr) (l : TmLayout) (bytes : List ℕ) (s : TmReceiver Q) (i : ℕ) (ret : ℤ)
      (rx : TmTransferFrame)
      → IsTmHdr hdr
      → IsTmLayout l
      → HasLayout rx hdr l
      → (l.crc_present == 1) ≡ true
      → All IsByte bytes
      → length bytes ≤ l.max_data_len
      → h.get_rx_config hdr.vcid s.queues ≡ (ret, i)
      → is_neg ret ≡ false
      → s.channels i ≡ rx
      → tm_receive h (tm_frame hdr l bytes) s ≡ (
          receive_tm_data h (tm_received hdr l bytes [] rx) s.queues >>= λ out.
          let next : ℤ × TmReceiver Q = (out.0, put_tm_channel h i out.1 out.2 s) in some next)
  tm_receive-tm_frame hdr l bytes s i ret rx hv lv m on are fits config ok e =
      let (b1, at, vcid) = second_byte hdr l bytes [] hv in
      let f = tm_frame hdr l bytes in
      ap (λ (buf : List ℕ). tm_receive h buf s) (sym (append-nil f))
      ∙ received_by (f ++ []) s b1 hdr.vcid i (tm_sum hdr l bytes) ret
          (tm_received hdr l bytes [] rx) at vcid config ok
          (ap (λ (tf : TmTransferFrame). tm_unpack tf (f ++ [])) e
            ∙ tm_unpack-tm_frame hdr l bytes [] rx hv lv m are fits)
          (summed hdr l bytes [] rx hv lv m on are fits) (agrees hdr l bytes [] rx on)
