-- ===== src/Tm/Transmit/Filling.antt =====
-- `handle_pkt_stuffing` on a frame of the standard.
use osdlp.Common.{
  take_all, ℕ, zero, suc, ◌+◌, ◌-◌, ◌*◌, ◌%◌, ◌≤◌, ◌<◌, ◌≡◌, refl, sym, ◌∙◌, ap, Bool, true, false,
  inl, inr, Bool-cases, List, [], ◌++◌, some, arith, length, length-append, take, drop,
  take-append-drop, length-take, length-drop, ◌==◌, ltb, leb, if◌then◌else◌, All, All-append, ◌⊎◌,
}
use mathlib.Core.List.{append_assoc, append-nil}
use osdlp.Common.Memory.{memcpy, write_at}
use osdlp.Crc.Laws.{IsByte, crc_field}
use osdlp.Tm.Types.{TmPrimaryHdr, TmTransferFrame}
use osdlp.Tm.{memset, tm_idle_packet}
use osdlp.Tm.Frame.{
  TmLayout, sec_hdr_bytes, ocf_bytes, tm_body, tm_sum, tm_frame, IsTmHdr, IsTmLayout, HasLayout,
}
use osdlp.Tm.Frame.Places.{memcpy-eq-write_at}
use osdlp.Tm.Transmit.{pack_crc, stuff_whole, handle_pkt_stuffing, packets_needed}
use osdlp.Tm.Transmit.Count.{packets_needed_lem}
use osdlp.Tm.Transmit.Frames.{take-IsByte}
use osdlp.Tm.Transmit.Stuffing.{around, taken_over, idle_over, body-around, resealed}

-- One packet is enough just when the bytes fit into one.
one_packet :
    (most total n : ℕ)
    → 1 ≤ most
    → total < 65536
    → packets_needed most total ≡ some n
    → (n == 1) ≡ leb total most
one_packet most total n p small e =
    let (k, same, enough, few) = packets_needed_lem most total p small in
    let eq : n ≡ k = ground (arith, e, same) in rw eq (counted k enough few)
  where
    counted :
        (k : ℕ) → total ≤ k * most → (k ≡ 1 ⊎ (k - 1) * most < total) → (k == 1) ≡ leb total most
    counted zero enough (inl one) = absurd (omega arith)
    counted zero enough (inr few) = absurd (omega arith)
    counted (suc zero) enough few = ground arith
    counted (suc (suc k)) enough (inl one) = absurd (omega arith)
    counted (suc (suc k)) enough (inr few) =
        let same : suc (suc k) - 1 ≡ suc k = omega arith in
        let rows : suc k * most ≡ k * most + most = omega arith in
        let product : suc k * most < total = rw same at few in
        let large : most < total = omega arith in ground arith

module _ (tf : TmTransferFrame) (h : TmPrimaryHdr) (l : TmLayout) (bytes back : List ℕ)
    (m : HasLayout tf h l) where
  -- What the frame has behind the operational control field
  old_end : List ℕ
  old_end = (if l.crc_present == 1 then crc_field (tm_sum h l bytes) else []) ++ back

  frame-around :
      (n : ℕ)
      → length bytes + n ≡ l.max_data_len
      → tm_frame h l bytes ++ back ≡ around h l bytes [] n (ocf_bytes h l.ocf ++ old_end)
  unfolding tm_frame old_end
  frame-around n full =
      append_assoc (tm_body h l bytes)
        (if l.crc_present == 1 then crc_field (tm_sum h l bytes) else []) back
      ∙ ap (λ (xs : List ℕ). tm_body h l xs ++ old_end) (sym (append-nil bytes))
      ∙ sym (body-around h l bytes [] old_end n (omega arith))

  -- Bytes of the unit over the first idle ones
  filled_at :
      (taken more : List ℕ) (left n : ℕ)
      → length bytes + length taken + left ≡ l.max_data_len
      → n ≡ length taken
      → memcpy (tm_frame h l bytes ++ back) (tf.mission.header_len + length bytes) (taken ++ more) n
        ≡ some (around h l bytes taken left (ocf_bytes h l.ocf ++ old_end))
  filled_at taken more left n full count =
      let at : ℕ = tf.mission.header_len + length bytes in
      let tail = ocf_bytes h l.ocf ++ old_end in
      ap (λ (k : ℕ). memcpy (tm_frame h l bytes ++ back) at (taken ++ more) k) count
      ∙ memcpy-eq-write_at (tm_frame h l bytes ++ back) taken more at
      ∙ ap (λ (buf : List ℕ). write_at buf at taken)
          (frame-around (length taken + left) (omega arith))
      ∙ taken_over h l bytes taken tail left at (omega (arith, m.header_len))

  idle_or_not :
      (taken : List ℕ) (left : ℕ) (tail : List ℕ) (at : ℕ)
      → at ≡ 6 + length (sec_hdr_bytes h l.secondary_hdr) + length bytes + length taken
      → (if ltb 0 left
          then memset (around h l bytes taken left tail) at tm_idle_packet left
          else some (around h l bytes taken left tail))
        ≡ some (around h l bytes taken left tail)
  idle_or_not taken left tail at place = elim (Bool-cases (ltb 0 left)) [
    | inl e ↦ rw e (idle_over h l bytes taken tail left at place)
    | inr e ↦ rw e refl
  ]

  -- The unit ends in the frame.
  filled_whole :
      (data_in more : List ℕ)
      → length bytes + length data_in ≤ l.max_data_len
      → stuff_whole tf
          (tm_frame h l bytes ++ back)
          (data_in ++ more)
          (length data_in)
          (length bytes)
        ≡ some (
            around h l bytes data_in
              (l.max_data_len - length bytes - length data_in)
              (ocf_bytes h l.ocf ++ old_end))
  unfolding stuff_whole
  filled_whole data_in more fits =
      let left : ℕ = l.max_data_len - length bytes - length data_in in
      let at : ℕ = tf.mission.header_len + length bytes in
      let tail = ocf_bytes h l.ocf ++ old_end in
      let idle : length data_in + left
          ≡ length data_in + (l.max_data_len - length bytes - length data_in) =
        refl in
      let space : (tf.mission.max_data_len + 131072 - length data_in - length bytes) % 65536
          ≡ left =
        omega (arith, m.max_data_len, m.frame_len, m.width) in
      let copied : memcpy (tm_frame h l bytes ++ back) at (data_in ++ more) (length data_in)
          ≡ some (around h l bytes data_in left tail) =
        filled_at data_in more left (length data_in) (omega arith) refl in
      rw (space, copied)
        (idle_or_not data_in left tail (at + length data_in) (omega (arith, m.header_len)))

  -- The unit goes on behind the frame.
  filled_chunk :
      (chunk more : List ℕ) (n : ℕ)
      → length bytes + length chunk ≡ l.max_data_len
      → n ≡ length chunk
      → memcpy (tm_frame h l bytes ++ back) (tf.mission.header_len + length bytes) (chunk ++ more) n
        ≡ some (around h l bytes chunk 0 (ocf_bytes h l.ocf ++ old_end))
  filled_chunk chunk more n full count = filled_at chunk more 0 n (omega arith) count

  -- The checksum of the frame that is filled
  sealed_around :
      (taken : List ℕ) (left : ℕ)
      → IsTmHdr h
      → IsTmLayout l
      → All IsByte bytes
      → All IsByte taken
      → length bytes + length taken + left ≡ l.max_data_len
      → pack_crc tf (around h l bytes taken left (ocf_bytes h l.ocf ++ old_end))
        ≡ some (tm_frame h l (bytes ++ taken) ++ back)
  unfolding old_end
  sealed_around taken left hv lv are more_are full =
      let old = if l.crc_present == 1 then crc_field (tm_sum h l bytes) else [] in
      ap (pack_crc tf) (body-around h l bytes taken (old ++ back) left full)
      ∙ resealed h l bytes tf (bytes ++ taken) old back hv lv m
          (All-append bytes taken IsByte are more_are) (omega (arith, length-append bytes taken))
          (crc_len l.crc_present (tm_sum h l bytes))
    where
      crc_len :
          (flag c : ℕ)
          → length (if flag == 1 then crc_field c else []) ≡ (if flag == 1 then 2 else 0)
      crc_len flag c = elim (Bool-cases (flag == 1)) [ inl e ↦ rw e refl | inr e ↦ rw e refl ]

  stuffed_by :
      (is_last : Bool) (filled sealed data_in : List ℕ) (n rest chunk : ℕ)
      → (n == 1) ≡ is_last
      → chunk ≡ (tf.mission.max_data_len + 65536 - length bytes) % 65536
      → (if is_last
          then stuff_whole tf (tm_frame h l bytes ++ back) data_in rest (length bytes)
          else memcpy
              (tm_frame h l bytes ++ back)
              (tf.mission.header_len + length bytes)
              data_in
              chunk)
        ≡ some filled
      → pack_crc tf filled ≡ some sealed
      → handle_pkt_stuffing tf n (tm_frame h l bytes ++ back) data_in rest (length bytes)
        ≡ some (sealed, if is_last then 0 else (rest + 65536 - chunk) % 65536)
  unfolding handle_pkt_stuffing
  stuffed_by is_last filled sealed data_in n rest chunk e0 e1 e2 e3 =
      rw (e0, ← e1) (rw (e2, e3) refl)

  -- Where a frame of the queue has `bytes` in front of its idle bytes and is not full, `handle_pkt_stuffing` with the number of packets that are needed makes of it the frame with as many bytes of the unit behind them as fit, and its checksum with it; what remains is the rest of the unit.
  pub handle_pkt_stuffing-eq-tm_frame :
      (data_in more : List ℕ) (n : ℕ)
      → IsTmHdr h
      → IsTmLayout l
      → All IsByte bytes
      → All IsByte data_in
      → length bytes < l.max_data_len
      → length data_in + length bytes < 65536
      → packets_needed tf.mission.max_data_len (length data_in + length bytes) ≡ some n
      → handle_pkt_stuffing tf n
          (tm_frame h l bytes ++ back)
          (data_in ++ more)
          (length data_in)
          (length bytes)
        ≡ some (
          tm_frame h l (bytes ++ take (l.max_data_len - length bytes) data_in) ++ back,
          length (drop (l.max_data_len - length bytes) data_in),
        )
  handle_pkt_stuffing-eq-tm_frame data_in more n hv lv are data_are free small packets =
      let r : ℕ = length bytes in
      let room : ℕ = l.max_data_len - r in
      let size = m.max_data_len in
      let total : ℕ = length data_in + r in
      let few = one_packet tf.mission.max_data_len total n (omega (arith, size)) small packets in
      elim (Bool-cases (leb total tf.mission.max_data_len)) [
        | inl e ↦
            let fits : r + length data_in ≤ l.max_data_len = ground (arith, size) in
            let whole : take room data_in ≡ data_in = take_all room data_in (omega arith) in
            let none_left : length (drop room data_in) ≡ 0 =
              omega (arith, length-drop room data_in) in
            stuffed_by true _ _ (data_in ++ more) n (length data_in) _ (few ∙ e) refl
              (filled_whole data_in more fits)
              (sealed_around data_in (l.max_data_len - r - length data_in) hv lv are data_are
                (omega arith))
            ∙ rw (whole, none_left) refl
        | inr e ↦
            let chunk = take room data_in in
            let later = drop room data_in in
            let long : l.max_data_len < r + length data_in = ground (arith, size) in
            let full : length chunk ≡ room = omega (arith, length-take room data_in) in
            let split : data_in ++ more ≡ chunk ++ (later ++ more) =
              ap (λ (xs : List ℕ). xs ++ more) (sym (take-append-drop room data_in))
              ∙ append_assoc chunk later more in
            let left : (length data_in + 65536 - length chunk) % 65536 ≡ length later =
              omega (arith, length-drop room data_in) in
            let count : length chunk ≡ (tf.mission.max_data_len + 65536 - r) % 65536 =
              omega (arith, size, m.frame_len, m.width) in
            stuffed_by false _ _ (data_in ++ more) n (length data_in) (length chunk) (few ∙ e) count
              (ap
                  (λ (buf : List ℕ).
                    memcpy (tm_frame h l bytes ++ back) (tf.mission.header_len + r) buf
                      (length chunk))
                  split
                ∙ filled_chunk chunk (later ++ more) (length chunk) (omega arith) refl)
              (sealed_around chunk 0 hv lv are (take-IsByte room data_in data_are) (omega arith))
            ∙ ap (λ (k : ℕ). some (tm_frame h l (bytes ++ chunk) ++ back, k)) left
      ]
