-- ===== src/Tm/Frame/Fields.antt =====
-- The primary and the secondary header, byte by byte, as they are written and read.
use osdlp.Common.{
  ℕ, ◌+◌, ◌*◌, ◌/◌, ◌%◌, ◌<◌, ◌≡◌, refl, ◌<<<◌, ◌>>>◌, bit_and, bit_or, List, ◌∷◌, ◌++◌, some,
  arith, u8, ◌==◌, if◌then◌else◌, ◌∙◌,
}
use osdlp.Common.Bits.Fields.{and_mask, or_add}
use osdlp.Tm.Types.{TmPrimaryHdr}
use osdlp.Tm.{store_tm_hdr, load_tm_hdr}
use osdlp.Tm.Frame.{tm_hdr_bytes, IsTmHdr}

version_byte :
    (v s : ℕ)
    → v < 4
    → s < 1024
    → u8 (bit_or (u8 (bit_and v 0x03 <<< 6)) (bit_and (s >>> 4) 0x3f)) ≡ v * 64 + s / 16
version_byte v s hv hs =
    ground (arith, and_mask 2 v, and_mask 6 (s / 16), or_add 6 (v * 64) (s / 16))

channel_byte :
    (s v o : ℕ)
    → v < 8
    → o < 2
    → u8 (bit_or (u8 (bit_or (u8 (bit_and s 0x0f <<< 4)) (bit_and v 0x07 <<< 1))) (bit_and o 0x01))
      ≡ s % 16 * 16 + v * 2 + o
channel_byte s v o hv ho = ground (
  arith,
  and_mask 4 s,
  and_mask 3 v,
  and_mask 1 o,
  or_add 4 (s % 16 * 16) (v * 2),
  or_add 1 (s % 16 * 16 + v * 2) o,
)

status_byte :
    (a b c d p : ℕ)
    → a < 2
    → b < 2
    → c < 2
    → d < 4
    → p < 2048
    → u8 (
        bit_or
          (u8 (
            bit_or
              (u8 (
                bit_or
                  (u8 (bit_or (u8 (bit_and a 0x01 <<< 7)) (bit_and b 0x01 <<< 6)))
                  (bit_and c 0x01 <<< 5)))
              (bit_and d 0x03 <<< 3)))
          (bit_and (p >>> 8) 0x07))
      ≡ a * 128 + b * 64 + c * 32 + d * 8 + p / 256
status_byte a b c d p ha hb hc hd hp = ground (
  arith,
  and_mask 1 a,
  and_mask 1 b,
  and_mask 1 c,
  and_mask 2 d,
  and_mask 3 (p / 256),
  or_add 7 (a * 128) (b * 64),
  or_add 6 (a * 128 + b * 64) (c * 32),
  or_add 5 (a * 128 + b * 64 + c * 32) (d * 8),
  or_add 3 (a * 128 + b * 64 + c * 32 + d * 8) (p / 256),
)

pub store_tm_hdr-eq :
    (h : TmPrimaryHdr) (a b c d e f : ℕ) (rest : List ℕ)
    → IsTmHdr h
    → store_tm_hdr h (a ∷ b ∷ c ∷ d ∷ e ∷ f ∷ rest) ≡ some (tm_hdr_bytes h ++ rest)
unfolding store_tm_hdr
store_tm_hdr-eq h a b c d e f rest v = ground (
  arith,
  version_byte h.mcid.version_num h.mcid.spacecraft_id,
  channel_byte h.mcid.spacecraft_id h.vcid h.ocf,
  status_byte h.status.sec_hdr h.status.sync h.status.pkt_order h.status.seg_len_id
      h.status.first_hdr_ptr,
  and_mask 8 h.mc_frame_cnt,
  and_mask 8 h.vc_frame_cnt,
  and_mask 8 h.status.first_hdr_ptr,
)

-- The header as received: the version number is 0 or 1.
abbrev pub hdr_loaded : TmPrimaryHdr → TmPrimaryHdr
hdr_loaded h = record h {
  mcid = record (h.mcid) { version_num = if h.mcid.version_num == 0 then 0 else 1 };
}

version_loaded :
    (v s : ℕ)
    → v < 4
    → s < 1024
    → let p = v * 64 + s / 16 in
      (◌≡◌ {A = ℕ} (if (p >>> 6) == 0 then 0 else 1) (if v == 0 then 0 else 1))
      × (bit_and p 0x3f ≡ s / 16)
version_loaded v s hv hs =
    let p : ℕ = v * 64 + s / 16 in
    let ver : p >>> 6 ≡ v = omega arith in (rw ver refl, omega (arith, and_mask 6 p))

pub channel_loaded :
    (s v o : ℕ)
    → s < 1024
    → v < 8
    → o < 2
    → let p = s % 16 * 16 + v * 2 + o in
      (bit_or ((s / 16) <<< 4) (bit_and (p >>> 4) 0x0f) ≡ s)
      × (bit_and (p >>> 1) 0x07 ≡ v)
      × (bit_and p 0x01 ≡ o)
channel_loaded s v o hs hv ho =
    let p : ℕ = s % 16 * 16 + v * 2 + o in
    let low : bit_and (p >>> 4) 0x0f ≡ s % 16 = omega (arith, and_mask 4 (p / 16)) in
    let whole : s / 16 * 16 + s % 16 ≡ s = omega arith in
    (
      rw low (or_add 4 (s / 16 * 16) (s % 16) (omega arith) (omega arith) ∙ whole),
      omega (arith, and_mask 3 (p / 2)),
      omega (arith, and_mask 1 p),
    )

status_loaded :
    (a b c d p : ℕ)
    → a < 2
    → b < 2
    → c < 2
    → d < 4
    → p < 2048
    → let t = a * 128 + b * 64 + c * 32 + d * 8 + p / 256 in
      (bit_and (t >>> 7) 0x01 ≡ a)
      × (bit_and (t >>> 6) 0x01 ≡ b)
      × (bit_and (t >>> 5) 0x01 ≡ c)
      × (bit_and (t >>> 3) 0x03 ≡ d)
      × (bit_or (bit_and t 0x07 <<< 8) (p % 256) ≡ p)
status_loaded a b c d p ha hb hc hd hp =
    let t : ℕ = a * 128 + b * 64 + c * 32 + d * 8 + p / 256 in
    (
      omega (arith, and_mask 1 (t / 128)),
      omega (arith, and_mask 1 (t / 64)),
      omega (arith, and_mask 1 (t / 32)),
      omega (arith, and_mask 2 (t / 8)),
      ground (arith, and_mask 3 t, or_add 8 (p / 256 * 256) (p % 256)),
    )

pub load_tm_hdr-eq :
    (h : TmPrimaryHdr) (rest : List ℕ)
    → IsTmHdr h
    → load_tm_hdr (tm_hdr_bytes h ++ rest) ≡ some (hdr_loaded h)
unfolding load_tm_hdr
load_tm_hdr-eq h rest v = ground (
  arith,
  version_loaded h.mcid.version_num h.mcid.spacecraft_id,
  channel_loaded h.mcid.spacecraft_id h.vcid h.ocf,
  status_loaded h.status.sec_hdr h.status.sync h.status.pkt_order h.status.seg_len_id
      h.status.first_hdr_ptr,
)
