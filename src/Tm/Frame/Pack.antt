-- ===== src/Tm/Frame/Pack.antt =====
-- `osdlp_tm_pack` builds the frame of the standard.
use osdlp.Common.{
  ℕ, ◌+◌, ◌-◌, ◌≤◌, ◌≡◌, refl, ◌∙◌, ap, true, false, inl, inr, Bool-cases, List, [], ◌∷◌, ◌++◌,
  some, arith, length, ◌==◌, if◌then◌else◌, All,
}
use mathlib.Core.List.{append_assoc, append-nil}
use osdlp.Crc.Laws.{IsByte, crc_field}
use osdlp.Tm.Types.{TmTransferFrame}
use osdlp.Tm.{seal_tm, tm_pack}
use osdlp.Tm.Bounds.{sealed_with}
use osdlp.Tm.Frame.{
  layout, sec_hdr_bytes, ocf_bytes, tm_body, tm_sum, tm_frame, IsTmHdr, IsTmLayout, HasLayout,
}
use osdlp.Tm.Frame.Places.{split_at}
use osdlp.Tm.Frame.Fields.{store_tm_hdr-eq}
use osdlp.Tm.Frame.Steps.{Places, data_stored, empty}
use osdlp.Tm.Frame.Sum.{tm_crc_stored, tm_body_bytes, length-tm_body, tm_body-append}

unsealed :
    (tf : TmTransferFrame) (out : List ℕ)
    → (tf.mission.crc_present == 1) ≡ false
    → seal_tm tf out ≡ some (out, tf)
unfolding seal_tm
unsealed tf out off = rw off refl

module _ (tf : TmTransferFrame) (bytes back : List ℕ) (hv : IsTmHdr tf.primary_hdr)
    (lv : IsTmLayout (layout tf)) (m : HasLayout tf tf.primary_hdr (layout tf))
    (are : All IsByte bytes) (fits : length bytes ≤ tf.mission.max_data_len) where
  tm_summed :
      (old : List ℕ)
      → (tf.mission.crc_present == 1) ≡ true
      → length old ≡ 2
      → let body = tm_body tf.primary_hdr (layout tf) bytes in
        let c = tm_sum tf.primary_hdr (layout tf) bytes in
        seal_tm tf (body ++ (old ++ back))
        ≡ some ((body ++ crc_field c) ++ back, record tf { crc = c })
  tm_summed (a ∷ b ∷ []) on n =
      let h = tf.primary_hdr in
      let body = tm_body h (layout tf) bytes in
      let size : tf.mission.frame_len ≡ length body + 2 =
        ground (arith, m.frame_len, m.header_len, length-tm_body h (layout tf) bytes fits) in
      rw (append_assoc body (crc_field (tm_sum h (layout tf) bytes)) back) (
        sealed_with tf (body ++ (a ∷ b ∷ back)) _ on (
          tm_crc_stored body a b tf.mission.frame_len back
            (tm_body_bytes h (layout tf) bytes hv lv are) size))
  tm_summed [] on n = absurd (omega arith)
  tm_summed (a ∷ []) on n = absurd (omega arith)
  tm_summed (a ∷ b ∷ c ∷ old) on n = absurd (omega arith)

  -- The checksum, or nothing, over old bytes of its length
  tm_sealed :
      (old : List ℕ)
      → length old ≡ (if tf.mission.crc_present == 1 then 2 else 0)
      → let h = tf.primary_hdr in
        let l = layout tf in
        seal_tm tf (tm_body h l bytes ++ (old ++ back))
        ≡ some (
          tm_frame h l bytes ++ back,
          record tf { crc = if tf.mission.crc_present == 1 then tm_sum h l bytes else tf.crc },
        )
  unfolding tm_frame
  tm_sealed old n = elim (Bool-cases (tf.mission.crc_present == 1)) [
    | inl e ↦ rw e (tm_summed old e (rw e at n))
    | inr e ↦
        let nothing : old ≡ [] = empty old (ground arith) in
        let body = tm_body tf.primary_hdr (layout tf) bytes in
        rw (e, nothing, append-nil body) (unsealed tf (body ++ back) e)
  ]

joined :
    (old sec r0 d r1 i r2 o r3 back : List ℕ)
    → old ≡ sec ++ r0
    → r0 ≡ d ++ r1
    → r1 ≡ i ++ r2
    → r2 ≡ o ++ r3
    → old ++ back ≡ sec ++ (d ++ (i ++ (o ++ (r3 ++ back))))
joined old sec r0 d r1 i r2 o r3 back e0 e1 e2 e3 = rw (e0, e1, e2, e3) (simp append_assoc)

-- `osdlp_tm_pack` over the old contents of the frame's places
packed_over :
    (tf : TmTransferFrame) (bytes more sec d i o r back : List ℕ) (x0 x1 x2 x3 x4 x5 : ℕ)
    → IsTmHdr tf.primary_hdr
    → IsTmLayout (layout tf)
    → HasLayout tf tf.primary_hdr (layout tf)
    → All IsByte bytes
    → length bytes ≤ tf.mission.max_data_len
    → Places tf.primary_hdr (layout tf) bytes sec d i o
    → length r ≡ (if tf.mission.crc_present == 1 then 2 else 0)
    → tm_pack tf
        (x0 ∷ x1 ∷ x2 ∷ x3 ∷ x4 ∷ x5 ∷ (sec ++ (d ++ (i ++ (o ++ (r ++ back))))))
        (bytes ++ more)
        (length bytes)
      ≡ some (
        tm_frame tf.primary_hdr (layout tf) bytes ++ back,
        record tf {
          crc =
              if tf.mission.crc_present == 1
              then tm_sum tf.primary_hdr (layout tf) bytes
              else tf.crc;
        },
      )
unfolding tm_pack
packed_over tf bytes more sec d i o r back x0 x1 x2 x3 x4 x5 hv lv m are fits places n =
    let h = tf.primary_hdr in
    rw
      (
        store_tm_hdr-eq h x0 x1 x2 x3 x4 x5 (sec ++ (d ++ (i ++ (o ++ (r ++ back))))) hv,
        data_stored tf bytes more sec d i o (r ++ back) lv m places fits,
        tm_body-append h (layout tf) bytes (r ++ back),
      )
      (tm_sealed tf bytes back hv lv m are fits r n)

-- Over old bytes of a frame's length, `osdlp_tm_pack` writes the frame of the standard: both headers with every field in its place, the data, idle bytes up to the end of the data field, the operational control field, and the checksum where the channel has one. It writes nothing behind it, and changes nothing of the channel but the checksum.
pub tm_pack-eq-tm_frame :
    (tf : TmTransferFrame) (bytes more old back : List ℕ)
    → IsTmHdr tf.primary_hdr
    → IsTmLayout (layout tf)
    → HasLayout tf tf.primary_hdr (layout tf)
    → All IsByte bytes
    → length bytes ≤ tf.mission.max_data_len
    → length old ≡ tf.mission.frame_len
    → tm_pack tf (old ++ back) (bytes ++ more) (length bytes)
      ≡ some (
        tm_frame tf.primary_hdr (layout tf) bytes ++ back,
        record tf {
          crc =
              if tf.mission.crc_present == 1
              then tm_sum tf.primary_hdr (layout tf) bytes
              else tf.crc;
        },
      )
tm_pack-eq-tm_frame tf bytes more (a ∷ b ∷ c ∷ x ∷ e ∷ f ∷ old) back hv lv m are fits n =
    let h = tf.primary_hdr in
    let l = layout tf in
    let s : ℕ = length (sec_hdr_bytes h l.secondary_hdr) in
    let idle : ℕ = tf.mission.max_data_len - length bytes in
    let total = m.frame_len in
    let front = m.header_len in
    let (sec, r0, e0, n0, m0) = split_at s old (omega (arith, total, front)) in
    let (d, r1, e1, n1, m1) = split_at (length bytes) r0 (omega (arith, total, front)) in
    let (i, r2, e2, n2, m2) = split_at idle r1 (omega (arith, total, front)) in
    let (o, r3, e3, n3, m3) =
      split_at (length (ocf_bytes h l.ocf)) r2 (omega (arith, total, front)) in
    let places : Places h l bytes sec d i o = record {
      sec_hdr = n0;
      data_field = n1;
      idle = n2;
      ocf = n3;
    } in
    let whole = joined old sec r0 d r1 i r2 o r3 back e0 e1 e2 e3 in
    ap (λ (buf : List ℕ). tm_pack tf (a ∷ b ∷ c ∷ x ∷ e ∷ f ∷ buf) (bytes ++ more) (length bytes))
      whole
    ∙ packed_over tf bytes more sec d i o r3 back a b c x e f hv lv m are fits places
        (omega (arith, total, front))
tm_pack-eq-tm_frame tf bytes more old back hv lv m are fits n =
    absurd (omega (arith, m.frame_len, m.header_len))
