-- ===== src/Tm/Transmit/Stuffing.antt =====
-- A unit that starts in the last frame of the queue: the frame with the unit's bytes behind the others.
use osdlp.Common.{
  ℕ, zero, suc, ◌+◌, ◌-◌, ◌≤◌, ◌≡◌, refl, sym, ◌∙◌, ap, true, false, List, [], ◌∷◌, ◌++◌, some,
  arith, length, length-append, ◌==◌, if◌then◌else◌, All,
}
use mathlib.Core.List.{append_assoc, append-nil}
use osdlp.Common.Memory.{write_at}
use osdlp.Crc.Laws.{IsByte, crc_field}
use osdlp.Tm.Types.{TmPrimaryHdr, TmTransferFrame}
use osdlp.Tm.{repeated, memset, tm_idle_packet}
use osdlp.Tm.Bounds.{length-repeated}
use osdlp.Tm.Frame.{
  TmLayout, tm_hdr_bytes, sec_hdr_bytes, ocf_bytes, tm_body, tm_sum, tm_frame, IsTmHdr, IsTmLayout,
  HasLayout,
}
use osdlp.Tm.Frame.Places.{write_behind, overwrite_same}
use osdlp.Tm.Frame.Sum.{tm_crc_stored, tm_body_bytes, length-tm_body, tm_body-append}
use osdlp.Tm.Frame.Steps.{at_idle}
use osdlp.Tm.Transmit.{pack_crc}

repeated-add : (n m v : ℕ) → repeated (n + m) v ≡ repeated n v ++ repeated m v
repeated-add zero m v = let same : 0 + m ≡ m = omega arith in rw same refl
repeated-add (suc n) m v =
    let next : suc n + m ≡ suc (n + m) = omega arith in
    rw next (ap (λ (xs : List ℕ). v ∷ xs) (repeated-add n m v))

module _ (h : TmPrimaryHdr) (l : TmLayout) (bytes : List ℕ) where
  -- The frame around its idle bytes, of which there are `idle`
  unfoldable pub around : List ℕ → ℕ → List ℕ → List ℕ
  around taken idle tail =
      tm_hdr_bytes h
      ++ (sec_hdr_bytes h l.secondary_hdr
          ++ (bytes ++ (taken ++ (repeated idle tm_idle_packet ++ tail))))

  -- The bytes go over the first idle ones.
  pub taken_over :
      (taken tail : List ℕ) (idle at : ℕ)
      → at ≡ 6 + length (sec_hdr_bytes h l.secondary_hdr) + length bytes
      → write_at (around [] (length taken + idle) tail) at taken ≡ some (around taken idle tail)
  unfolding around
  taken_over taken tail idle at place =
      let v = tm_idle_packet in
      let sec = sec_hdr_bytes h l.secondary_hdr in
      let front = λ (xs : List ℕ). tm_hdr_bytes h ++ (sec ++ (bytes ++ xs)) in
      let split : repeated (length taken + idle) v ++ tail
          ≡ repeated (length taken) v ++ (repeated idle v ++ tail) =
        ap (λ (xs : List ℕ). xs ++ tail) (repeated-add (length taken) idle v)
        ∙ append_assoc (repeated (length taken) v) (repeated idle v) tail in
      ap (λ (xs : List ℕ). write_at (front xs) at taken) split
      ∙ at_idle (tm_hdr_bytes h) sec bytes (repeated (length taken) v) (repeated idle v) tail taken
          at (sym (length-repeated (length taken) v)) (omega arith)

  -- Idle bytes over idle bytes change nothing.
  pub idle_over :
      (taken tail : List ℕ) (idle at : ℕ)
      → at ≡ 6 + length (sec_hdr_bytes h l.secondary_hdr) + length bytes + length taken
      → memset (around taken idle tail) at tm_idle_packet idle ≡ some (around taken idle tail)
  unfolding around
  idle_over taken tail idle at place =
      let v = repeated idle tm_idle_packet in
      let sec = sec_hdr_bytes h l.secondary_hdr in
      write_behind (tm_hdr_bytes h) _ _ v (length sec + (length bytes + length taken)) at
        (write_behind sec _ _ v (length bytes + length taken) _
          (write_behind bytes _ _ v (length taken) _
            (write_behind taken _ _ v 0 _ (overwrite_same v v tail refl) (omega arith)) refl)
          refl)
        (omega arith)

  -- The idle bytes that are left belong to the frame with what has been taken.
  pub body-around :
      (taken rest : List ℕ) (idle : ℕ)
      → length bytes + length taken + idle ≡ l.max_data_len
      → around taken idle (ocf_bytes h l.ocf ++ rest) ≡ tm_body h l (bytes ++ taken) ++ rest
  unfolding around
  body-around taken rest idle full =
      let sec = sec_hdr_bytes h l.secondary_hdr in
      let n : idle ≡ l.max_data_len - length (bytes ++ taken) =
        omega (arith, length-append bytes taken) in
      let tail = ocf_bytes h l.ocf ++ rest in
      let regroup = append_assoc bytes taken (repeated idle tm_idle_packet ++ tail) in
      ap (λ (xs : List ℕ). tm_hdr_bytes h ++ (sec ++ xs)) (sym regroup)
      ∙ ap
          (λ (k : ℕ).
            tm_hdr_bytes h ++ (sec ++ ((bytes ++ taken) ++ (repeated k tm_idle_packet ++ tail))))
          n
      ∙ tm_body-append h l (bytes ++ taken) rest

  -- The checksum, if there is one, over an old one
  pub resealed :
      (tf : TmTransferFrame) (xs old back : List ℕ)
      → IsTmHdr h
      → IsTmLayout l
      → HasLayout tf h l
      → All IsByte xs
      → length xs ≤ l.max_data_len
      → length old ≡ (if l.crc_present == 1 then 2 else 0)
      → pack_crc tf (tm_body h l xs ++ (old ++ back)) ≡ some (tm_frame h l xs ++ back)
  unfolding pack_crc tm_frame
  resealed tf xs (a ∷ b ∷ []) back hv lv m are fits n =
      let on : (l.crc_present == 1) ≡ true = ground arith in
      let body = tm_body h l xs in
      let size : tf.mission.frame_len ≡ length body + 2 =
        ground (arith, m.frame_len, m.header_len, length-tm_body h l xs fits) in
      rw
        (
          m.crc_present,
          on,
          tm_crc_stored body a b tf.mission.frame_len back (tm_body_bytes h l xs hv lv are) size,
          append_assoc body (crc_field (tm_sum h l xs)) back,
        )
        refl
  resealed tf xs [] back hv lv m are fits n =
      let off : (l.crc_present == 1) ≡ false = ground arith in
      rw (m.crc_present, off, append-nil (tm_body h l xs)) refl
  resealed tf xs (a ∷ []) back hv lv m are fits n = absurd (ground arith)
  resealed tf xs (a ∷ b ∷ c ∷ old) back hv lv m are fits n = absurd (ground arith)
