-- ===== src/Tm/Frame/Unpack.antt =====
-- `osdlp_tm_unpack` reads the frame of the standard back.
use osdlp.Common.{
  length-append, ℕ, ◌+◌, ◌-◌, ◌*◌, ◌/◌, ◌%◌, ◌≤◌, ◌<◌, ◌≡◌, refl, sym, ◌∙◌, ap, false, inl, inr,
  Bool-cases, List, [], ◌++◌, some, none, arith, length, ◌==◌, ltb, if◌then◌else◌, All, bit_and,
  bit_or, ◌<<<◌, ◌>>>◌, u16,
}
use mathlib.Core.List.{append_assoc}
use osdlp.Common.Bits.Fields.{and_mask, or_add}
use osdlp.Common.Memory.{◌>>=◌, load, pointer_at, read_bytes}
use osdlp.Common.Memory.Laws.{read_bytes-append}
use osdlp.Crc.Laws.{IsByte, crc_bytes-lt, crc_field}
use osdlp.Tm.Types.{TmPrimaryHdr, TmSecHdr, TmTransferFrame}
use osdlp.Tm.{repeated, tm_idle_packet, tm_pack, tm_unpack, load_tm_hdr}
use osdlp.Tm.Bounds.{length-repeated}
use osdlp.Tm.Frame.{
  TmLayout, layout, tm_hdr_bytes, sec_hdr_bytes, ocf_bytes, tm_body, tm_sum, tm_frame, IsTmHdr,
  IsTmLayout, HasLayout,
}
use osdlp.Tm.Frame.Places.{load_behind, pointer_behind}
use osdlp.Tm.Frame.Fields.{hdr_loaded, load_tm_hdr-eq}
use osdlp.Tm.Frame.Pack.{tm_pack-eq-tm_frame}
use osdlp.Tm.Frame.Sum.{tm_body_bytes, length-tm_body, tm_body-append}

-- What stands behind the data of a frame with `rest` behind it
abbrev pub crc_part : TmPrimaryHdr → TmLayout → List ℕ → List ℕ
crc_part h l bytes = if l.crc_present == 1 then crc_field (tm_sum h l bytes) else []

abbrev pub behind_data : TmPrimaryHdr → TmLayout → List ℕ → List ℕ → List ℕ
behind_data h l bytes rest =
    repeated (l.max_data_len - length bytes) tm_idle_packet
    ++ (ocf_bytes h l.ocf ++ (crc_part h l bytes ++ rest))

abbrev sec_loaded : TmPrimaryHdr → TmSecHdr → TmSecHdr → TmSecHdr
sec_loaded h sec old =
    if h.status.sec_hdr == 1 then record old { sec_hdr_id = sec.sec_hdr_id } else old

-- The receiver's channel with the frame taken apart
abbrev pub tm_received :
    TmPrimaryHdr → TmLayout → List ℕ → List ℕ → TmTransferFrame → TmTransferFrame
tm_received h l bytes rest rx = record rx {
  primary_hdr = hdr_loaded h;
  secondary_hdr = sec_loaded h l.secondary_hdr rx.secondary_hdr;
  bytes = bytes ++ behind_data h l bytes rest;
  ocf = if h.ocf == 1 then l.ocf else rx.ocf;
  crc = if l.crc_present == 1 then tm_sum h l bytes else rx.crc;
}

sec_id_loaded :
    (v n : ℕ)
    → v < 4
    → n < 64
    → (bit_and ((v * 64 + n) >>> 6) 0x03 ≡ v) × (bit_and (v * 64 + n) 0x3f ≡ n)
sec_id_loaded v n hv hn =
    (omega (arith, and_mask 2 ((v * 64 + n) / 64)), omega (arith, and_mask 6 (v * 64 + n)))

read_all :
    (bytes rest : List ℕ) (n : ℕ) → n ≡ length bytes → read_bytes (bytes ++ rest) n ≡ some bytes
read_all bytes rest n e = rw e (read_bytes-append bytes rest)

crc_loaded :
    (body rest : List ℕ) (c n : ℕ)
    → c < 65536
    → n ≡ length body + 2
    → (if ltb n 2 then none else (do
      hi ← load (body ++ (crc_field c ++ rest)) (n - 2)
      lo ← load (body ++ (crc_field c ++ rest)) (n - 1)
      some (bit_or (u16 (hi <<< 8)) lo)))
      ≡ some c
crc_loaded body rest c n small len =
    let long : ltb n 2 ≡ false = ground arith in
    let low : c / 256 < 256 = omega arith in
    let whole : u16 (c / 256 * 256) + c % 256 ≡ c = omega arith in
    rw
      (
        long,
        load_behind body (crc_field c ++ rest) 0 (n - 2) (omega arith),
        load_behind body (crc_field c ++ rest) 1 (n - 1) (omega arith),
        or_add 8 (u16 (c / 256 * 256)) (c % 256) (omega arith) (omega arith),
        whole,
      )
      refl

module _ (h : TmPrimaryHdr) (l : TmLayout) (bytes rest : List ℕ) (rx : TmTransferFrame)
    (hv : IsTmHdr h) (lv : IsTmLayout l) (m : HasLayout rx h l) (are : All IsByte bytes)
    (fits : length bytes ≤ l.max_data_len) where
  -- The frame as nested parts
  parts : List ℕ
  parts =
      tm_hdr_bytes h ++ (sec_hdr_bytes h l.secondary_hdr ++ (bytes ++ behind_data h l bytes rest))

  parts-eq : tm_frame h l bytes ++ rest ≡ parts
  unfolding tm_frame parts
  parts-eq =
      append_assoc (tm_body h l bytes) (crc_part h l bytes) rest
      ∙ sym (tm_body-append h l bytes (crc_part h l bytes ++ rest))

  read_sec :
      (if h.status.sec_hdr == 1
        then (load parts 6 >>= λ b6. some (record (rx.secondary_hdr) {
          sec_hdr_id = record { version_num = bit_and (b6 >>> 6) 0x03; length = bit_and b6 0x3f };
        }))
        else some rx.secondary_hdr)
      ≡ some (sec_loaded h l.secondary_hdr rx.secondary_hdr)
  unfolding parts
  read_sec = elim (Bool-cases (h.status.sec_hdr == 1)) [
    | inl e ↦
        let id = l.secondary_hdr.sec_hdr_id in
        let (ver, len) = sec_id_loaded id.version_num id.length lv.sec_version lv.sec_len in
        rw (e, ver, len) refl
    | inr e ↦ rw e refl
  ]

  read_data : pointer_at parts rx.mission.header_len ≡ some (bytes ++ behind_data h l bytes rest)
  unfolding parts
  read_data =
      let sec = sec_hdr_bytes h l.secondary_hdr in
      ap (λ (buf : List ℕ). pointer_at buf rx.mission.header_len)
        (sym (append_assoc (tm_hdr_bytes h) sec (bytes ++ behind_data h l bytes rest)))
      ∙ pointer_behind (tm_hdr_bytes h ++ sec) _ rx.mission.header_len (omega (arith, m.header_len))

  pointer_ocf :
      pointer_at parts (rx.mission.header_len + rx.mission.max_data_len)
      ≡ some (ocf_bytes h l.ocf ++ (crc_part h l bytes ++ rest))
  unfolding parts
  pointer_ocf =
      let sec = sec_hdr_bytes h l.secondary_hdr in
      let idle = repeated (l.max_data_len - length bytes) tm_idle_packet in
      let behind = ocf_bytes h l.ocf ++ (crc_part h l bytes ++ rest) in
      let nested : parts ≡ (tm_hdr_bytes h ++ (sec ++ (bytes ++ idle))) ++ behind =
        simp append_assoc in
      ap (λ (buf : List ℕ). pointer_at buf (rx.mission.header_len + rx.mission.max_data_len)) nested
      ∙ pointer_behind (tm_hdr_bytes h ++ (sec ++ (bytes ++ idle))) behind
          (rx.mission.header_len + rx.mission.max_data_len)
          (omega (
            arith,
            m.header_len,
            m.max_data_len,
            length-append sec (bytes ++ idle),
            length-append bytes idle,
            length-repeated (l.max_data_len - length bytes) tm_idle_packet,
          ))

  read_ocf :
      (if h.ocf == 1
        then (pointer_at parts (rx.mission.header_len + rx.mission.max_data_len) >>= λ p.
            read_bytes p 4)
        else some rx.ocf)
      ≡ some (if h.ocf == 1 then l.ocf else rx.ocf)
  read_ocf = elim (Bool-cases (h.ocf == 1)) [
    | inl e ↦
        let at : pointer_at parts (rx.mission.header_len + rx.mission.max_data_len)
            ≡ some (l.ocf ++ (crc_part h l bytes ++ rest)) =
          rw e at pointer_ocf in
        rw (e, at) (read_all l.ocf (crc_part h l bytes ++ rest) 4 (sym lv.ocf))
    | inr e ↦ rw e refl
  ]

  tm_sum-lt : tm_sum h l bytes < 65536
  tm_sum-lt =
      crc_bytes-lt 0xffff (tm_body h l bytes) (omega arith) (tm_body_bytes h l bytes hv lv are)

  read_crc :
      (if rx.mission.crc_present == 1
        then (if ltb rx.mission.frame_len 2 then none else (do
          hi ← load (tm_frame h l bytes ++ rest) (rx.mission.frame_len - 2)
          lo ← load (tm_frame h l bytes ++ rest) (rx.mission.frame_len - 1)
          some (bit_or (u16 (hi <<< 8)) lo)))
        else some rx.crc)
      ≡ some (if l.crc_present == 1 then tm_sum h l bytes else rx.crc)
  unfolding tm_frame
  read_crc = elim (Bool-cases (l.crc_present == 1)) [
    | inl e ↦
        let body = tm_body h l bytes in
        let c = tm_sum h l bytes in
        rw (m.crc_present, e, append_assoc body (crc_field c) rest)
          (crc_loaded body rest c rx.mission.frame_len tm_sum-lt
            (ground (arith, m.frame_len, m.header_len, length-tm_body h l bytes fits)))
    | inr e ↦ rw (m.crc_present, e) refl
  ]

  loaded_hdr : load_tm_hdr parts ≡ some (hdr_loaded h)
  unfolding parts
  loaded_hdr = load_tm_hdr-eq h _ hv

  -- `osdlp_tm_unpack` of a frame, on a channel whose frames have the same layout
  pub tm_unpack-tm_frame :
      tm_unpack rx (tm_frame h l bytes ++ rest) ≡ some (tm_received h l bytes rest rx)
  unfolding tm_unpack
  tm_unpack-tm_frame =
      let hdr : load_tm_hdr (tm_frame h l bytes ++ rest) ≡ some (hdr_loaded h) =
        ap load_tm_hdr parts-eq ∙ loaded_hdr in
      rw (hdr, read_crc) (rw (parts-eq, read_sec, read_data, read_ocf) refl)

-- A frame that `osdlp_tm_pack` writes into a buffer with room for it is read back by `osdlp_tm_unpack` on a channel whose frames have the same layout: every field of the primary header but the version number, which is 0 or 1 for any other; the version and length of the secondary header, where there is one; the data, in front of the idle bytes that fill the data field; the operational control field and the checksum, where the channel has them.
pub tm_unpack-tm_pack :
    (tf rx : TmTransferFrame) (bytes more old back : List ℕ)
    → IsTmHdr tf.primary_hdr
    → IsTmLayout (layout tf)
    → HasLayout tf tf.primary_hdr (layout tf)
    → HasLayout rx tf.primary_hdr (layout tf)
    → All IsByte bytes
    → length bytes ≤ tf.mission.max_data_len
    → length old ≡ tf.mission.frame_len
    → (tm_pack tf (old ++ back) (bytes ++ more) (length bytes) >>= λ packed. tm_unpack rx packed.0)
      ≡ some (tm_received tf.primary_hdr (layout tf) bytes back rx)
tm_unpack-tm_pack tf rx bytes more old back hv lv m n are fits len =
    rw (tm_pack-eq-tm_frame tf bytes more old back hv lv m are fits len)
      (tm_unpack-tm_frame tf.primary_hdr (layout tf) bytes back rx hv lv n are fits)
