-- ===== src/Tm/Transmit/Frames.antt =====
-- The frames that `osdlp_tm_transmit` makes of a unit, where it does not fill the last one of the queue.
use osdlp.Common.{
  ℕ, zero, suc, ◌+◌, ◌≤◌, ◌≡◌, refl, ◌∙◌, ap, false, inl, inr, Bool-cases, List, [], ◌∷◌, ◌++◌,
  some, arith, length, length-append, take, drop, ◌==◌, if◌then◌else◌, All, is_neg,
}
use mathlib.Core.List.{append-nil}
use osdlp.Crc.Laws.{IsByte, crc_field}
use osdlp.Tm.Types.{TmPrimaryHdr, TmTransferFrame}
use osdlp.Tm.Host.{TmTxHost}
use osdlp.Tm.Setup.{set_tm_util}
use osdlp.Tm.{tm_pack}
use osdlp.Tm.Frame.{TmLayout, layout, tm_frame, tm_body, tm_sum, IsTmHdr, IsTmLayout, HasLayout}
use osdlp.Tm.Frame.Places.{split_at}
use osdlp.Tm.Frame.Pack.{tm_pack-eq-tm_frame}
use osdlp.Tm.Frame.Sum.{length-tm_body}
use osdlp.Tm.Transmit.{next_ptr, next_cnt, pack_into_util}

-- The header of the next frame, with `remaining_len` bytes of `len` to go
abbrev pub next_hdr : ℕ → ℕ → ℕ → TmPrimaryHdr → TmPrimaryHdr
next_hdr max_data_len len remaining_len h = record h {
  mc_frame_cnt = next_cnt h.mc_frame_cnt;
  vc_frame_cnt = next_cnt h.vc_frame_cnt;
  status = record (h.status) { first_hdr_ptr = next_ptr max_data_len len remaining_len };
}

-- That many frames, with `rest` of a unit of `len` bytes to go
unfoldable pub tm_frames : ℕ → TmPrimaryHdr → TmLayout → ℕ → List ℕ → List (List ℕ)
tm_frames zero h l len rest = []
tm_frames (suc n) h l len rest =
    let h' = next_hdr l.max_data_len len (length rest) h in
    tm_frame h' l (take l.max_data_len rest) ∷ tm_frames n h' l len (drop l.max_data_len rest)

-- The application queues the first `size` bytes of what it is given, and refuses nothing.
pub record Queues {Q : Type 0} (h : TmTxHost Q) (view : Q → List (List ℕ)) (size : ℕ) : Type 0 where
  pub accepts : (buf : List ℕ) (vcid : ℕ) (q : Q) → is_neg (h.tx_queue_enqueue buf vcid q).0 ≡ false
  pub queued :
      (buf : List ℕ) (vcid : ℕ) (q : Q)
      → view (h.tx_queue_enqueue buf vcid q).1 ≡ view q ++ (take size buf ∷ [])

-- A channel that can send: its fields fit, its frames add up, and its buffer holds a frame.
pub record IsTmSender (tf : TmTransferFrame) : Type 0 where
  pub hdr : IsTmHdr tf.primary_hdr
  pub parts : IsTmLayout (layout tf)
  pub sizes : HasLayout tf tf.primary_hdr (layout tf)
  pub room : tf.mission.frame_len ≤ length tf.mission.util.buffer

pub next_hdr-IsTmHdr :
    (max_data_len len remaining_len : ℕ) (h : TmPrimaryHdr)
    → IsTmHdr h
    → IsTmHdr (next_hdr max_data_len len remaining_len h)
next_hdr-IsTmHdr max_data_len len remaining_len h v = record {
  version_num = v.version_num;
  spacecraft_id = v.spacecraft_id;
  vcid = v.vcid;
  ocf = v.ocf;
  mc_frame_cnt = ground (arith, v.mc_frame_cnt);
  vc_frame_cnt = ground (arith, v.vc_frame_cnt);
  sec_hdr = v.sec_hdr;
  sync = v.sync;
  pkt_order = v.pkt_order;
  seg_len_id = v.seg_len_id;
  first_hdr_ptr = ground arith;
}

pub length-tm_frame :
    (h : TmPrimaryHdr) (l : TmLayout) (bytes : List ℕ) (tf : TmTransferFrame)
    → HasLayout tf h l
    → length bytes ≤ l.max_data_len
    → length (tm_frame h l bytes) ≡ tf.mission.frame_len
unfolding tm_frame
length-tm_frame h l bytes tf m fits = elim (Bool-cases (l.crc_present == 1)) [
  | inl e ↦ rw e (
      ground (
        arith,
        m.frame_len,
        m.header_len,
        length-tm_body h l bytes fits,
        length-append (tm_body h l bytes) (crc_field (tm_sum h l bytes)),
      ))
  | inr e ↦
      rw (e, append-nil (tm_body h l bytes))
        (ground (arith, m.frame_len, m.header_len, length-tm_body h l bytes fits))
]

-- Packing into the channel's own buffer
pub packed_into :
    (tf : TmTransferFrame) (bytes more : List ℕ)
    → IsTmSender tf
    → All IsByte bytes
    → length bytes ≤ tf.mission.max_data_len
    → (back : List ℕ) × (crc : ℕ) × (pack_into_util tf (bytes ++ more) (length bytes)
        ≡ some (
            set_tm_util
              (record tf { crc = crc })
              (record (tf.mission.util) {
                buffer = tm_frame tf.primary_hdr (layout tf) bytes ++ back;
              })))
      × (tf.mission.frame_len + length back ≡ length tf.mission.util.buffer)
unfolding pack_into_util
packed_into tf bytes more v are fits =
    let (old, back, e, n, m) = split_at tf.mission.frame_len tf.mission.util.buffer v.room in
    let packed =
      ap (λ (buf : List ℕ). tm_pack tf buf (bytes ++ more) (length bytes)) e
      ∙ tm_pack-eq-tm_frame tf bytes more old back v.hdr v.parts v.sizes are fits n in
    let crc : ℕ =
      if tf.mission.crc_present == 1 then tm_sum tf.primary_hdr (layout tf) bytes else tf.crc in
    (back, crc, rw packed refl, m)

pub take-IsByte : (n : ℕ) (xs : List ℕ) → All IsByte xs → All IsByte (take n xs)
take-IsByte zero xs v = tt
take-IsByte (suc n) [] v = tt
take-IsByte (suc n) (x ∷ xs) v = (v.0, take-IsByte n xs v.1)

pub drop-IsByte : (n : ℕ) (xs : List ℕ) → All IsByte xs → All IsByte (drop n xs)
drop-IsByte zero xs v = v
drop-IsByte (suc n) [] v = tt
drop-IsByte (suc n) (x ∷ xs) v = drop-IsByte n xs v.1
