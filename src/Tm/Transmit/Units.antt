-- ===== src/Tm/Transmit/Units.antt =====
-- The frames of one unit, as the standard describes them, in what `osdlp_tm_transmit` queues.
use osdlp.Common.{
  ℕ, zero, suc, ◌+◌, ◌-◌, ◌*◌, ◌%◌, ◌≤◌, ◌<◌, ◌≡◌, refl, ◌∙◌, ap, pos, Bool, true, false, inl, inr,
  List, [], ◌∷◌, ◌++◌, some, arith, length, length-drop, take, drop, ◌==◌, ltb, if◌then◌else◌, ◌⊎◌,
  All,
}
use osdlp.Crc.Laws.{IsByte}
use osdlp.Tm.Types.{TmPrimaryHdr, TmTransferFrame}
use osdlp.Tm.Host.{TmTxHost}
use osdlp.Tm.Setup.{tm_first_hdr_ptr_no_pkt_start, tm_loop_closed, tm_stuffing_off}
use osdlp.Tm.Frame.{TmLayout, layout, tm_frame}
use osdlp.Tm.Transmit.{tm_transmit, next_ptr, next_cnt}
use osdlp.Tm.Transmit.Frames.{next_hdr, tm_frames, Queues, IsTmSender}
use osdlp.Tm.Transmit.Queued.{queues_frames}

-- The first header pointer of a frame: a unit starts in it, or ends in it, or does neither.
abbrev pub unit_ptr : ℕ → Bool → ℕ → ℕ
unit_ptr max_data_len is_first left =
    if is_first
    then 0
    else if ltb left max_data_len
    then left % 2048
    else tm_first_hdr_ptr_no_pkt_start

abbrev counted_hdr : TmPrimaryHdr → ℕ → ℕ → ℕ → TmPrimaryHdr
counted_hdr h mc vc ptr = record h {
  mc_frame_cnt = mc;
  vc_frame_cnt = vc;
  status = record (h.status) { first_hdr_ptr = ptr };
}

abbrev pub unit_hdr : ℕ → Bool → ℕ → TmPrimaryHdr → TmPrimaryHdr
unit_hdr max_data_len is_first left h =
    counted_hdr h ((h.mc_frame_cnt + 1) % 256) ((h.vc_frame_cnt + 1) % 256)
      (unit_ptr max_data_len is_first left)

-- That many frames, which carry `rest`; the first of them is the first of the unit, or is not.
unfoldable pub unit_frames : ℕ → Bool → TmPrimaryHdr → TmLayout → List ℕ → List (List ℕ)
unit_frames zero is_first h l rest = []
unit_frames (suc n) is_first h l rest =
    let h' = unit_hdr l.max_data_len is_first (length rest) h in
    tm_frame h' l (take l.max_data_len rest) ∷ unit_frames n false h' l (drop l.max_data_len rest)

next_hdr-unit_hdr :
    (h : TmPrimaryHdr) (most len left : ℕ) (is_first : Bool)
    → h.mc_frame_cnt < 256
    → h.vc_frame_cnt < 256
    → (len == left) ≡ is_first
    → next_hdr most len left h ≡ unit_hdr most is_first left h
next_hdr-unit_hdr h most len left is_first mc vc first =
    let mc_eq : next_cnt h.mc_frame_cnt ≡ (h.mc_frame_cnt + 1) % 256 = ground (arith, mc) in
    let vc_eq : next_cnt h.vc_frame_cnt ≡ (h.vc_frame_cnt + 1) % 256 = ground (arith, vc) in
    let ptr_eq : next_ptr most len left ≡ unit_ptr most is_first left =
      rw (← first) (ground arith) in
    ap (λ (n : ℕ). counted_hdr h n (next_cnt h.vc_frame_cnt) (next_ptr most len left)) mc_eq
    ∙ ap (λ (n : ℕ). counted_hdr h ((h.mc_frame_cnt + 1) % 256) n (next_ptr most len left)) vc_eq
    ∙ ap (λ (n : ℕ). counted_hdr h ((h.mc_frame_cnt + 1) % 256) ((h.vc_frame_cnt + 1) % 256) n)
        ptr_eq

no_frame :
    (h : TmPrimaryHdr) (l : TmLayout) (len : ℕ) (rest : List ℕ) (is_first : Bool)
    → tm_frames zero h l len rest ≡ unit_frames zero is_first h l rest
unfolding tm_frames unit_frames
no_frame h l len rest is_first = refl

-- The first frame of several
first_frame :
    (n : ℕ) (h : TmPrimaryHdr) (l : TmLayout) (len : ℕ) (rest : List ℕ) (is_first : Bool)
    → h.mc_frame_cnt < 256
    → h.vc_frame_cnt < 256
    → (len == length rest) ≡ is_first
    → (let h' = unit_hdr l.max_data_len is_first (length rest) h in
        tm_frames n h' l len (drop l.max_data_len rest)
        ≡ unit_frames n false h' l (drop l.max_data_len rest))
    → tm_frames (suc n) h l len rest ≡ unit_frames (suc n) is_first h l rest
unfolding tm_frames unit_frames
first_frame n h l len rest is_first mc vc first others =
    let most : ℕ = l.max_data_len in
    ap (λ (g : TmPrimaryHdr). tm_frame g l (take most rest) ∷ tm_frames n g l len (drop most rest))
      (next_hdr-unit_hdr h most len (length rest) is_first mc vc first)
    ∙ ap
        (λ (fs : List (List ℕ)).
          tm_frame (unit_hdr most is_first (length rest) h) l (take most rest) ∷ fs)
        others

-- More than one frame: the first is full, and bytes are left behind it.
some_left :
    (k most left : ℕ)
    → (suc (suc k) ≡ 1 ⊎ (suc (suc k) - 1) * most < left)
    → (most < left) × (k * most < left - most)
some_left k most left (inl one) = absurd (omega arith)
some_left k most left (inr few) =
    let rows : suc k * most ≡ k * most + most = omega arith in
    let one_less : suc (suc k) - 1 ≡ suc k = omega arith in
    let product : suc k * most < left = rw one_less at few in (omega arith, omega arith)

tm_frames-unit_frames :
    (n : ℕ) (h : TmPrimaryHdr) (l : TmLayout) (len : ℕ) (rest : List ℕ) (is_first : Bool)
    → h.mc_frame_cnt < 256
    → h.vc_frame_cnt < 256
    → 1 ≤ l.max_data_len
    → length rest ≤ len
    → (len == length rest) ≡ is_first
    → (n ≡ 1 ⊎ (n - 1) * l.max_data_len < length rest)
    → tm_frames n h l len rest ≡ unit_frames n is_first h l rest
tm_frames-unit_frames zero h l len rest is_first mc vc most within first few =
    no_frame h l len rest is_first
tm_frames-unit_frames (suc zero) h l len rest is_first mc vc most within first few =
    first_frame zero h l len rest is_first mc vc first (
      no_frame (unit_hdr l.max_data_len is_first (length rest) h) l len (drop l.max_data_len rest)
        false)
tm_frames-unit_frames (suc (suc k)) h l len rest is_first mc vc most within first few =
    let (longer, more) = some_left k l.max_data_len (length rest) few in
    let later : length (drop l.max_data_len rest) ≡ length rest - l.max_data_len =
      length-drop l.max_data_len rest in
    let one_less : suc k - 1 ≡ k = omega arith in
    let rows_left : (suc k - 1) * l.max_data_len < length (drop l.max_data_len rest) =
      rw one_less (omega arith) in
    first_frame (suc k) h l len rest is_first mc vc first (
      tm_frames-unit_frames (suc k) (unit_hdr l.max_data_len is_first (length rest) h) l len
        (drop l.max_data_len rest) false (omega arith) (omega arith) most (omega arith)
        (ground arith) (inr rows_left))

module _ {Q : Type 0} (h : TmTxHost Q) (view : Q → List (List ℕ)) (size : ℕ)
    (queues : Queues h view size) where
  -- If the channel can send, does not fill frames and has no segmentation open, and the application queues the first bytes of what it is given, as many as a frame has, and refuses nothing, then `osdlp_tm_transmit` returns 0 and has queued the frames of the unit: as many as its bytes take, one at least, each with the next count of both counters (which wrap at 256), the first with the first header pointer 0, the last with the number of its bytes if it is not full, all others with the value for no start. The segmentation is closed again.
  pub tm_transmit-frames :
      (tf : TmTransferFrame) (sdu more : List ℕ) (q : Q)
      → IsTmSender tf
      → tf.mission.frame_len ≡ size
      → 1 ≤ tf.mission.max_data_len
      → tf.mission.stuff_state ≡ tm_stuffing_off
      → tf.mission.util.loop_state ≡ tm_loop_closed
      → All IsByte sdu
      → length sdu < 65536
      → (n : ℕ) × (tf' : TmTransferFrame) × (q' : Q) × (tm_transmit h tf
            (sdu ++ more)
            (length sdu)
            q
          ≡ some (pos 0, tf', q'))
        × (view q' ≡ view q ++ unit_frames n true tf.primary_hdr (layout tf) sdu)
        × (tf'.mission.util.loop_state ≡ tm_loop_closed)
        × (length sdu ≤ n * tf.mission.max_data_len)
        × (n ≡ 1 ⊎ (n - 1) * tf.mission.max_data_len < length sdu)
  tm_transmit-frames tf sdu more q v frame most off closed are small =
      let (n, tf', q', run, seen, shut, enough, few) =
        queues_frames h view size queues tf sdu more q v frame most off closed are small in
      let same =
        tm_frames-unit_frames n tf.primary_hdr (layout tf) (length sdu) sdu true v.hdr.mc_frame_cnt
          v.hdr.vc_frame_cnt most (omega arith) (ground arith) few in
      (n, tf', q', run, seen ∙ ap (λ (fs : List (List ℕ)). view q ++ fs) same, shut, enough, few)
