-- ===== src/Tm/Frame/Steps.antt =====
-- The parts that `osdlp_tm_pack` writes between the primary header and the checksum.
use osdlp.Common.{
  ℕ, ◌+◌, ◌-◌, ◌*◌, ◌≤◌, ◌<◌, ◌≡◌, refl, sym, ◌∙◌, false, not, inl, inr, Bool-cases, List, [], ◌∷◌,
  ◌++◌, some, arith, length, ◌==◌, ltb, if◌then◌else◌, bit_and, u8, bit_or, ◌<<<◌,
}
use mathlib.Core.List.{append-nil}
use osdlp.Common.Bits.Fields.{and_mask, or_add}
use osdlp.Common.Memory.{memcpy, write_at}
use osdlp.Tm.Types.{TmPrimaryHdr, TmSecHdr, TmTransferFrame}
use osdlp.Tm.{repeated, memset, tm_idle_packet, store_sec_hdr, store_tm_data}
use osdlp.Tm.Bounds.{length-repeated}
use osdlp.Tm.Frame.{TmLayout, layout, tm_hdr_bytes, sec_hdr_bytes, ocf_bytes, IsTmLayout, HasLayout}
use osdlp.Tm.Frame.Places.{write_behind, overwrite_same, memcpy-eq-write_at}

-- The lists in front of the data field, and the old contents of its three places
module _ (hdr sec d i o back : List ℕ) where
  at_data :
      (new : List ℕ) (at : ℕ)
      → length new ≡ length d
      → at ≡ length hdr + length sec
      → write_at (hdr ++ (sec ++ (d ++ (i ++ (o ++ back))))) at new
        ≡ some (hdr ++ (sec ++ (new ++ (i ++ (o ++ back)))))
  at_data new at n place =
      write_behind hdr _ _ new (length sec) at
        (write_behind sec _ _ new 0 (length sec) (overwrite_same d new _ n) (omega arith)) place

  at_ocf :
      (new : List ℕ) (at : ℕ)
      → length new ≡ length o
      → at ≡ length hdr + length sec + length d + length i
      → write_at (hdr ++ (sec ++ (d ++ (i ++ (o ++ back))))) at new
        ≡ some (hdr ++ (sec ++ (d ++ (i ++ (new ++ back)))))
  at_ocf new at n place =
      write_behind hdr _ _ new (length sec + (length d + length i)) at
        (write_behind sec _ _ new (length d + length i) _
          (write_behind d _ _ new (length i) _
            (write_behind i _ _ new 0 _ (overwrite_same o new back n) (omega arith)) refl)
          refl)
        (omega arith)

  pub at_idle :
      (new : List ℕ) (at : ℕ)
      → length new ≡ length i
      → at ≡ length hdr + length sec + length d
      → write_at (hdr ++ (sec ++ (d ++ (i ++ (o ++ back))))) at new
        ≡ some (hdr ++ (sec ++ (d ++ (new ++ (o ++ back)))))
  at_idle new at n place =
      write_behind hdr _ _ new (length sec + length d) at
        (write_behind sec _ _ new (length d) _
          (write_behind d _ _ new 0 _ (overwrite_same i new _ n) (omega arith)) refl)
        (omega arith)

sec_byte :
    (v n : ℕ)
    → v < 4
    → n < 64
    → u8 (bit_or (u8 (bit_and v 0x03 <<< 6)) (bit_and n 0x3f)) ≡ v * 64 + n
sec_byte v n hv hn = ground (arith, and_mask 2 v, and_mask 6 n, or_add 6 (v * 64) n)

-- The secondary header over old bytes of its length
sec_hdr-eq :
    (sec : TmSecHdr) (a b c d e f x : ℕ) (old back : List ℕ)
    → sec.sec_hdr_id.version_num < 4
    → sec.sec_hdr_id.length < 64
    → length sec.sec_hdr_data_field ≡ sec.sec_hdr_id.length
    → length old ≡ sec.sec_hdr_id.length
    → store_sec_hdr sec (a ∷ b ∷ c ∷ d ∷ e ∷ f ∷ x ∷ (old ++ back))
      ≡ some (
          a
          ∷ b
          ∷ c
          ∷ d
          ∷ e
          ∷ f
          ∷ (sec.sec_hdr_id.version_num * 64 + sec.sec_hdr_id.length)
          ∷ (sec.sec_hdr_data_field ++ back))
unfolding store_sec_hdr
sec_hdr-eq sec a b c d e f x old back ver short has room = ground (
  arith,
  sec_byte sec.sec_hdr_id.version_num sec.sec_hdr_id.length,
  append-nil sec.sec_hdr_data_field,
  memcpy-eq-write_at
      (a
        ∷ b
        ∷ c
        ∷ d
        ∷ e
        ∷ f
        ∷ (sec.sec_hdr_id.version_num * 64 + sec.sec_hdr_id.length)
        ∷ (old ++ back))
      sec.sec_hdr_data_field [] 7,
  overwrite_same old sec.sec_hdr_data_field back,
)

pub empty : (xs : List ℕ) → length xs ≡ 0 → xs ≡ []
empty [] n = refl
empty (x ∷ xs) n = absurd (omega arith)

-- The steps of `store_tm_data`, each over old bytes of the length that it writes
step_sec :
    (h : TmPrimaryHdr) (sec : TmSecHdr) (old back : List ℕ)
    → sec.sec_hdr_id.version_num < 4
    → sec.sec_hdr_id.length < 64
    → length sec.sec_hdr_data_field ≡ sec.sec_hdr_id.length
    → length old ≡ length (sec_hdr_bytes h sec)
    → (if h.status.sec_hdr == 1
        then store_sec_hdr sec (tm_hdr_bytes h ++ (old ++ back))
        else some (tm_hdr_bytes h ++ (old ++ back)))
      ≡ some (tm_hdr_bytes h ++ (sec_hdr_bytes h sec ++ back))
step_sec h sec [] back ver short has room = elim (Bool-cases (h.status.sec_hdr == 1)) [
  | inl e ↦ absurd (ground arith)
  | inr e ↦ rw e refl
]
step_sec h sec (x ∷ old) back ver short has room = elim (Bool-cases (h.status.sec_hdr == 1)) [
  | inl e ↦ rw e (sec_hdr-eq sec _ _ _ _ _ _ x old back ver short has (ground arith))
  | inr e ↦ absurd (ground arith)
]

module _ (hdr sec : List ℕ) where
  step_data :
      (bytes more d i o back : List ℕ) (at : ℕ)
      → length d ≡ length bytes
      → at ≡ length hdr + length sec
      → (if not (length bytes == 0)
          then memcpy (hdr ++ (sec ++ (d ++ (i ++ (o ++ back))))) at (bytes ++ more) (length bytes)
          else some (hdr ++ (sec ++ (d ++ (i ++ (o ++ back))))))
        ≡ some (hdr ++ (sec ++ (bytes ++ (i ++ (o ++ back)))))
  step_data [] more [] i o back at n place = refl
  step_data [] more (x ∷ d) i o back at n place = absurd (omega arith)
  step_data (b ∷ bytes) more d i o back at n place =
      let long : (length (b ∷ bytes) == 0) ≡ false = ground arith in
      let old = hdr ++ (sec ++ (d ++ (i ++ (o ++ back)))) in
      rw long (
        memcpy-eq-write_at old (b ∷ bytes) more at
        ∙ at_data hdr sec d i o back (b ∷ bytes) at (sym n) place)

  step_ocf :
      (h : TmPrimaryHdr) (ocf d i o back : List ℕ) (at : ℕ)
      → length ocf ≡ 4
      → length o ≡ length (ocf_bytes h ocf)
      → at ≡ length hdr + length sec + length d + length i
      → (if h.ocf == 1
          then memcpy (hdr ++ (sec ++ (d ++ (i ++ (o ++ back))))) at ocf 4
          else some (hdr ++ (sec ++ (d ++ (i ++ (o ++ back))))))
        ≡ some (hdr ++ (sec ++ (d ++ (i ++ (ocf_bytes h ocf ++ back)))))
  step_ocf h ocf d i o back at four n place = elim (Bool-cases (h.ocf == 1)) [
    | inl e ↦
        let old = hdr ++ (sec ++ (d ++ (i ++ (o ++ back)))) in
        let copied = memcpy-eq-write_at old ocf [] at in
        rw e (
          ground
            (arith, append-nil ocf, copied, at_ocf hdr sec d i o back ocf at (ground arith) place))
    | inr e ↦ rw e (ground (arith, empty o))
  ]

  step_idle :
      (len max_data_len : ℕ) (d i o back : List ℕ) (at : ℕ)
      → length i ≡ max_data_len - len
      → at ≡ length hdr + length sec + length d
      → (if ltb len max_data_len
          then memset
              (hdr ++ (sec ++ (d ++ (i ++ (o ++ back)))))
              at
              tm_idle_packet
              (max_data_len - len)
          else some (hdr ++ (sec ++ (d ++ (i ++ (o ++ back))))))
        ≡ some
            (hdr ++ (sec ++ (d ++ (repeated (max_data_len - len) tm_idle_packet ++ (o ++ back)))))
  step_idle len max_data_len d i o back at n place = elim (Bool-cases (ltb len max_data_len)) [
    | inl e ↦
        let idle = repeated (max_data_len - len) tm_idle_packet in
        rw e (
          at_idle hdr sec d i o back idle at
            (length-repeated (max_data_len - len) tm_idle_packet ∙ sym n) place)
    | inr e ↦
        let none_left : max_data_len - len ≡ 0 = ground arith in
        rw (e, none_left) (ground (arith, empty i (n ∙ none_left)))
  ]

-- The old contents of a frame's places: each as long as what is written there
pub record Places (h : TmPrimaryHdr) (l : TmLayout) (bytes sec d i o : List ℕ) : Type 0 where
  pub sec_hdr : length sec ≡ length (sec_hdr_bytes h l.secondary_hdr)
  pub data_field : length d ≡ length bytes
  pub idle : length i ≡ l.max_data_len - length bytes
  pub ocf : length o ≡ length (ocf_bytes h l.ocf)

pub data_stored :
    (tf : TmTransferFrame) (bytes more sec d i o back : List ℕ)
    → IsTmLayout (layout tf)
    → HasLayout tf tf.primary_hdr (layout tf)
    → Places tf.primary_hdr (layout tf) bytes sec d i o
    → length bytes ≤ tf.mission.max_data_len
    → store_tm_data tf
        (bytes ++ more)
        (length bytes)
        (tm_hdr_bytes tf.primary_hdr ++ (sec ++ (d ++ (i ++ (o ++ back)))))
      ≡ some (
          tm_hdr_bytes tf.primary_hdr
          ++ (sec_hdr_bytes tf.primary_hdr tf.secondary_hdr
              ++ (bytes
                  ++ (repeated (tf.mission.max_data_len - length bytes) tm_idle_packet
                      ++ (ocf_bytes tf.primary_hdr tf.ocf ++ back)))))
unfolding store_tm_data
data_stored tf bytes more sec d i o back v m p fits =
    let h = tf.primary_hdr in
    let s = sec_hdr_bytes h tf.secondary_hdr in
    let at = m.header_len in
    rw
      (
        step_sec h tf.secondary_hdr sec (d ++ (i ++ (o ++ back))) v.sec_version v.sec_len v.sec_data
            p.sec_hdr,
        step_data (tm_hdr_bytes h) s bytes more d i o back tf.mission.header_len p.data_field
            (omega (arith, at)),
        step_ocf (tm_hdr_bytes h) s h tf.ocf bytes i o back
            (tf.mission.header_len + tf.mission.max_data_len) v.ocf p.ocf
            (omega (arith, at, p.idle)),
      )
      (step_idle (tm_hdr_bytes h) s (length bytes) tf.mission.max_data_len bytes i
        (ocf_bytes h tf.ocf) back (tf.mission.header_len + length bytes) p.idle (omega (arith, at)))
