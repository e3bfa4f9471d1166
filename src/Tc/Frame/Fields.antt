-- ===== src/Tc/Frame/Fields.antt =====
-- The two headers of a frame, byte by byte, as they are written and read.
use osdlp.Common.{
  ℕ, zero, suc, ◌+◌, ◌*◌, ◌/◌, ◌%◌, ◌≤◌, ◌<◌, ◌≡◌, refl, ◌<<<◌, ◌>>>◌, bit_and, bit_or, List, [],
  ◌∷◌, ◌++◌, some, arith, length, drop, u8, ◌==◌, if◌then◌else◌,
}
use osdlp.Common.Bits.Fields.{and_mask, or_add}
use osdlp.Common.Memory.Laws.{memcpy-append}
use osdlp.Tc.Types.{TcPrimaryHdr, TcSegHdr, TcFdf, type_a}
use osdlp.Tc.Frame.{store_primary_hdr, store_fdf, load_primary_hdr, load_fdf}

-- Every field fits its bit-field.
pub record IsTcHdr (h : TcPrimaryHdr) : Type 0 where
  pub version_num : h.version_num < 4
  pub bypass : h.bypass < 2
  pub ctrl_cmd : h.ctrl_cmd < 2
  pub rsvd_spare : h.rsvd_spare < 4
  pub spacecraft_id : h.spacecraft_id < 1024
  pub vcid : h.vcid < 64

-- The primary header of the standard, with the length field `n` and the sequence number `seq`.
abbrev pub hdr_bytes : TcPrimaryHdr → ℕ → ℕ → List ℕ
hdr_bytes h n seq =
    (h.version_num * 64
      + h.bypass * 32
      + h.ctrl_cmd * 16
      + h.rsvd_spare * 4
      + h.spacecraft_id / 256)
    ∷ (h.spacecraft_id % 256)
    ∷ (h.vcid * 4 + n / 256)
    ∷ (n % 256)
    ∷ seq
    ∷ []

-- Type-A frames carry V(S), type-B frames 0.
abbrev pub seq_num_of : TcPrimaryHdr → ℕ → ℕ
seq_num_of h vs = if h.bypass == type_a then vs else 0

flags_byte :
    (v b c r s : ℕ)
    → v < 4
    → b < 2
    → c < 2
    → r < 4
    → s < 1024
    → u8 (
        bit_or
          (u8 (
            bit_or
              (u8 (
                bit_or
                  (u8 (bit_or (u8 (bit_and v 0x03 <<< 6)) (bit_and b 0x01 <<< 5)))
                  (bit_and c 0x01 <<< 4)))
              (bit_and r 0x03 <<< 2)))
          (bit_and (s >>> 8) 0x03))
      ≡ v * 64 + b * 32 + c * 16 + r * 4 + s / 256
flags_byte v b c r s hv hb hc hr hs = ground (
  arith,
  and_mask 2 v,
  and_mask 1 b,
  and_mask 1 c,
  and_mask 2 r,
  and_mask 2 (s / 256),
  or_add 6 (v * 64) (b * 32),
  or_add 5 (v * 64 + b * 32) (c * 16),
  or_add 4 (v * 64 + b * 32 + c * 16) (r * 4),
  or_add 2 (v * 64 + b * 32 + c * 16 + r * 4) (s / 256),
)

channel_byte :
    (v n : ℕ)
    → v < 64
    → n < 1024
    → u8 (bit_or (u8 (bit_and v 0x3f <<< 2)) (bit_and (n >>> 8) 0x03)) ≡ v * 4 + n / 256
channel_byte v n hv hn =
    ground (arith, and_mask 6 v, and_mask 2 (n / 256), or_add 2 (v * 4) (n / 256))

pub store_primary_hdr-eq :
    (h : TcPrimaryHdr) (n vs a b c d e : ℕ) (rest : List ℕ)
    → IsTcHdr h
    → n < 1024
    → vs < 256
    → store_primary_hdr h n vs (a ∷ b ∷ c ∷ d ∷ e ∷ rest)
      ≡ some (hdr_bytes h n (seq_num_of h vs) ++ rest)
unfolding store_primary_hdr
store_primary_hdr-eq h n vs a b c d e rest v small byte = ground (
  arith,
  flags_byte h.version_num h.bypass h.ctrl_cmd h.rsvd_spare h.spacecraft_id,
  channel_byte h.vcid n,
  and_mask 8 h.spacecraft_id,
  and_mask 8 n,
  and_mask 8 vs,
)

flags_loaded :
    (v b c r s : ℕ)
    → v < 4
    → b < 2
    → c < 2
    → r < 4
    → s < 1024
    → let p = v * 64 + b * 32 + c * 16 + r * 4 + s / 256 in
      (bit_and (p >>> 6) 0x03 ≡ v)
      × (bit_and (p >>> 5) 0x01 ≡ b)
      × (bit_and (p >>> 4) 0x01 ≡ c)
      × (bit_and (p >>> 2) 0x03 ≡ r)
      × (bit_or (bit_and p 0x03 <<< 8) (s % 256) ≡ s)
flags_loaded v b c r s hv hb hc hr hs =
    let p : ℕ = v * 64 + b * 32 + c * 16 + r * 4 + s / 256 in
    (
      omega (arith, and_mask 2 (p / 64)),
      omega (arith, and_mask 1 (p / 32)),
      omega (arith, and_mask 1 (p / 16)),
      omega (arith, and_mask 2 (p / 4)),
      ground (arith, and_mask 2 p, or_add 8 (s / 256 * 256) (s % 256)),
    )

channel_loaded :
    (v n : ℕ)
    → v < 64
    → n < 1024
    → let p = v * 4 + n / 256 in
      (bit_and (p >>> 2) 0x3f ≡ v) × (bit_or (bit_and p 0x03 <<< 8) (n % 256) ≡ n)
channel_loaded v n hv hn =
    let p : ℕ = v * 4 + n / 256 in
    (
      omega (arith, and_mask 6 (p / 4)),
      ground (arith, and_mask 2 p, or_add 8 (n / 256 * 256) (n % 256)),
    )

pub load_primary_hdr-eq :
    (h : TcPrimaryHdr) (n seq : ℕ) (rest : List ℕ)
    → IsTcHdr h
    → n < 1024
    → load_primary_hdr (hdr_bytes h n seq ++ rest)
      ≡ some (record h { frame_len = n; frame_seq_num = seq })
unfolding load_primary_hdr
load_primary_hdr-eq h n seq rest v small = ground (
  arith,
  flags_loaded h.version_num h.bypass h.ctrl_cmd h.rsvd_spare h.spacecraft_id,
  channel_loaded h.vcid n,
)

-- The segment header, if the channel has one.
abbrev pub seg_bytes : TcSegHdr → ℕ → List ℕ
seg_bytes seg flag = if flag == 0 then [] else (seg.seq_flag * 64 + seg.map_id) ∷ []

seg_byte :
    (f m : ℕ)
    → f < 4
    → m < 64
    → u8 (bit_or (u8 (bit_and f 0x03 <<< 6)) (bit_and m 0x3f)) ≡ f * 64 + m
seg_byte f m hf hm = ground (arith, and_mask 2 f, and_mask 6 m, or_add 6 (f * 64) m)

pub store_fdf-eq :
    (seg : TcSegHdr) (flag a b c d e : ℕ) (bytes more buf : List ℕ)
    → seg.seq_flag < 4
    → seg.map_id < 64
    → length (seg_bytes seg flag) + length bytes ≤ length buf
    → let hdr = a ∷ b ∷ c ∷ d ∷ e ∷ [] in
      store_fdf seg flag (bytes ++ more) (length bytes) (hdr ++ buf)
      ≡ some (
          hdr
          ++ (seg_bytes seg flag
              ++ (bytes ++ drop (length (seg_bytes seg flag) + length bytes) buf)))
unfolding store_fdf
store_fdf-eq seg zero a b c d e bytes more buf f m room =
    ground (arith, memcpy-append (a ∷ b ∷ c ∷ d ∷ e ∷ []) buf bytes more)
store_fdf-eq seg (suc flag) a b c d e bytes more [] f m room = absurd (ground arith)
store_fdf-eq seg (suc flag) a b c d e bytes more (x ∷ buf) f m room = ground (
  arith,
  seg_byte seg.seq_flag seg.map_id,
  memcpy-append (a ∷ b ∷ c ∷ d ∷ e ∷ (seg.seq_flag * 64 + seg.map_id) ∷ []) buf bytes more,
)

pub load_fdf-eq :
    (fdf : TcFdf) (seg : TcSegHdr) (flag a b c d e n : ℕ) (rest : List ℕ)
    → seg.seq_flag < 4
    → seg.map_id < 64
    → load_fdf fdf flag (a ∷ b ∷ c ∷ d ∷ e ∷ (seg_bytes seg flag ++ rest)) n
      ≡ some
          (record { seg_hdr = if flag == 0 then fdf.seg_hdr else seg; bytes = rest; data_len = n })
unfolding load_fdf
load_fdf-eq fdf seg zero a b c d e n rest f m = refl
load_fdf-eq fdf seg (suc flag) a b c d e n rest f m =
    let p : ℕ = seg.seq_flag * 64 + seg.map_id in ground (arith, and_mask 2 (p / 64), and_mask 6 p)
