-- ===== src/Clcw/RoundTrip.antt =====
-- The report word survives its trip over the link.
use native.Mathlib.Nat.{mod-eq_of_lt}
use osdlp.Common.{
  ℕ, ◌+◌, ◌-◌, ◌*◌, ◌/◌, ◌%◌, ◌^◌, ◌<◌, ◌≡◌, ◌∙◌, ◌<<<◌, ◌>>>◌, bit_and, bit_or, List, [], ◌∷◌,
  ◌++◌, some, arith, u8,
}
use osdlp.Common.Bits.Fields.{and_mask, or_add}
use osdlp.Common.Memory.{◌>>=◌}
use osdlp.Clcw.{ClcwFrame, clcw_pack, clcw_unpack}

-- Every field fits its bit-field.
pub record IsClcw (c : ClcwFrame) : Type 0 where
  pub ctrl_word_type : c.ctrl_word_type < 2
  pub clcw_version_num : c.clcw_version_num < 4
  pub status_field : c.status_field < 8
  pub cop_in_effect : c.cop_in_effect < 4
  pub vcid : c.vcid < 64
  pub rsvd_spare1 : c.rsvd_spare1 < 4
  pub rf_avail : c.rf_avail < 2
  pub bit_lock : c.bit_lock < 2
  pub lockout : c.lockout < 2
  pub wait : c.wait < 2
  pub rt : c.rt < 2
  pub farm_b_counter : c.farm_b_counter < 4
  pub rsvd_spare2 : c.rsvd_spare2 < 2
  pub report_value : c.report_value < 256

abbrev control_byte : ClcwFrame → ℕ
control_byte c =
    c.ctrl_word_type * 128 + c.clcw_version_num * 32 + c.status_field * 4 + c.cop_in_effect

abbrev channel_byte : ClcwFrame → ℕ
channel_byte c = c.vcid * 4 + c.rsvd_spare1

abbrev flags_byte : ClcwFrame → ℕ
flags_byte c =
    c.rf_avail * 128
    + c.bit_lock * 64
    + c.lockout * 32
    + c.wait * 16
    + c.rt * 8
    + c.farm_b_counter * 2
    + c.rsvd_spare2

-- The word of the standard, byte by byte.
abbrev pub clcw_bytes : ClcwFrame → List ℕ
clcw_bytes c = control_byte c ∷ channel_byte c ∷ flags_byte c ∷ c.report_value ∷ []

control_stored :
    (t v s e : ℕ)
    → t < 2
    → v < 4
    → s < 8
    → e < 4
    → u8 (
        bit_or
          (u8 (
            bit_or
              (u8 (bit_or (u8 (bit_and t 0x01 <<< 7)) (bit_and v 0x03 <<< 5)))
              (bit_and s 0x07 <<< 2)))
          (bit_and e 0x03))
      ≡ t * 128 + v * 32 + s * 4 + e
control_stored t v s e ht hv hs he = ground (
  arith,
  and_mask 1 t,
  and_mask 2 v,
  and_mask 3 s,
  and_mask 2 e,
  or_add 7 (t * 128) (v * 32),
  or_add 5 (t * 128 + v * 32) (s * 4),
  or_add 2 (t * 128 + v * 32 + s * 4) e,
)

channel_stored :
    (v s : ℕ)
    → v < 64
    → s < 4
    → u8 (bit_or (u8 (bit_and v 0x3f <<< 2)) (bit_and s 0x03)) ≡ v * 4 + s
channel_stored v s hv hs = ground (arith, and_mask 6 v, and_mask 2 s, or_add 2 (v * 4) s)

-- A one-bit flag or a field, put below the fields that stand in the byte.
or_field :
    (k w a x : ℕ)
    → a % 2 ^ (k + w) ≡ 0
    → x < 2 ^ w
    → a + x * 2 ^ k < 256
    → x * 2 ^ k < 2 ^ (k + w)
    → u8 (bit_or a (bit_and x (2 ^ w - 1) * 2 ^ k)) ≡ a + x * 2 ^ k
or_field k w a x low fits byte below =
    rw (and_mask w x ∙ mod-eq_of_lt fits) (omega (arith, or_add (k + w) a (x * 2 ^ k) low below))

flags_stored :
    (a b l w r f s : ℕ)
    → a < 2
    → b < 2
    → l < 2
    → w < 2
    → r < 2
    → f < 4
    → s < 2
    → u8 (
        bit_or
          (u8 (
            bit_or
              (u8 (
                bit_or
                  (u8 (
                    bit_or
                      (u8 (
                        bit_or
                          (u8 (bit_or (u8 (bit_and a 0x01 <<< 7)) (bit_and b 0x01 <<< 6)))
                          (bit_and l 0x01 <<< 5)))
                      (bit_and w 0x01 <<< 4)))
                  (bit_and r 0x01 <<< 3)))
              (bit_and f 0x03 <<< 1)))
          (bit_and s 0x01))
      ≡ a * 128 + b * 64 + l * 32 + w * 16 + r * 8 + f * 2 + s
flags_stored a b l w r f s ha hb hl hw hr hf hs = ground (
  arith,
  and_mask 1 a,
  or_field 6 1 (a * 128) b,
  or_field 5 1 (a * 128 + b * 64) l,
  or_field 4 1 (a * 128 + b * 64 + l * 32) w,
  or_field 3 1 (a * 128 + b * 64 + l * 32 + w * 16) r,
  or_field 1 2 (a * 128 + b * 64 + l * 32 + w * 16 + r * 8) f,
  and_mask 1 s,
  or_add 1 (a * 128 + b * 64 + l * 32 + w * 16 + r * 8 + f * 2) s,
)

-- Into a buffer of at least four bytes `osdlp_clcw_pack` writes the word's bytes, and no other.
pub clcw_pack-eq-bytes :
    (c : ClcwFrame) (p q r s : ℕ) (rest : List ℕ)
    → IsClcw c
    → clcw_pack c (p ∷ q ∷ r ∷ s ∷ rest) ≡ some (clcw_bytes c ++ rest)
unfolding clcw_pack
clcw_pack-eq-bytes c p q r s rest v = ground (
  arith,
  control_stored c.ctrl_word_type c.clcw_version_num c.status_field c.cop_in_effect,
  channel_stored c.vcid c.rsvd_spare1,
  flags_stored c.rf_avail c.bit_lock c.lockout c.wait c.rt c.farm_b_counter c.rsvd_spare2,
)

control_loaded :
    (t v s e : ℕ)
    → t < 2
    → v < 4
    → s < 8
    → e < 4
    → let p = t * 128 + v * 32 + s * 4 + e in
      (bit_and (p >>> 7) 0x01 ≡ t)
      × (bit_and (p >>> 5) 0x03 ≡ v)
      × (bit_and (p >>> 2) 0x07 ≡ s)
      × (bit_and p 0x03 ≡ e)
control_loaded t v s e ht hv hs he =
    let p : ℕ = t * 128 + v * 32 + s * 4 + e in
    (
      omega (arith, and_mask 1 (p / 128)),
      omega (arith, and_mask 2 (p / 32)),
      omega (arith, and_mask 3 (p / 4)),
      omega (arith, and_mask 2 p),
    )

flags_loaded :
    (a b l w r f s : ℕ)
    → a < 2
    → b < 2
    → l < 2
    → w < 2
    → r < 2
    → f < 4
    → s < 2
    → let p = a * 128 + b * 64 + l * 32 + w * 16 + r * 8 + f * 2 + s in
      (bit_and (p >>> 7) 0x01 ≡ a)
      × (bit_and (p >>> 6) 0x01 ≡ b)
      × (bit_and (p >>> 5) 0x01 ≡ l)
      × (bit_and (p >>> 4) 0x01 ≡ w)
      × (bit_and (p >>> 3) 0x01 ≡ r)
      × (bit_and (p >>> 1) 0x03 ≡ f)
      × (bit_and p 0x01 ≡ s)
flags_loaded a b l w r f s ha hb hl hw hr hf hs =
    let p : ℕ = a * 128 + b * 64 + l * 32 + w * 16 + r * 8 + f * 2 + s in
    (
      omega (arith, and_mask 1 (p / 128)),
      omega (arith, and_mask 1 (p / 64)),
      omega (arith, and_mask 1 (p / 32)),
      omega (arith, and_mask 1 (p / 16)),
      omega (arith, and_mask 1 (p / 8)),
      omega (arith, and_mask 2 (p / 2)),
      omega (arith, and_mask 1 p),
    )

channel_loaded :
    (v s : ℕ)
    → v < 64
    → s < 4
    → let p = v * 4 + s in (bit_and (p >>> 2) 0x3f ≡ v) × (bit_and p 0x03 ≡ s)
channel_loaded v s hv hs =
    let p : ℕ = v * 4 + s in (omega (arith, and_mask 6 (p / 4)), omega (arith, and_mask 2 p))

pub unpack-bytes :
    (c : ClcwFrame) (rest : List ℕ) → IsClcw c → clcw_unpack (clcw_bytes c ++ rest) ≡ some c
unfolding clcw_unpack
unpack-bytes c rest v = ground (
  arith,
  control_loaded c.ctrl_word_type c.clcw_version_num c.status_field c.cop_in_effect,
  channel_loaded c.vcid c.rsvd_spare1,
  flags_loaded c.rf_avail c.bit_lock c.lockout c.wait c.rt c.farm_b_counter c.rsvd_spare2,
)

-- A report word whose fields fit their widths, packed into a buffer of at least four bytes, is
-- read back by `osdlp_clcw_unpack` field by field.
pub clcw_unpack-clcw_pack :
    (c : ClcwFrame) (p q r s : ℕ) (rest : List ℕ)
    → IsClcw c
    → (clcw_pack c (p ∷ q ∷ r ∷ s ∷ rest) >>= clcw_unpack) ≡ some c
clcw_unpack-clcw_pack c p q r s rest v =
    rw (clcw_pack-eq-bytes c p q r s rest v) (unpack-bytes c rest v)
