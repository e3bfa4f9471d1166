-- ===== src/Spp/RoundTrip.antt =====
-- A packet that is packed comes back when it is unpacked.
use osdlp.Common.{
  ℕ, ◌+◌, ◌*◌, ◌/◌, ◌%◌, ◌≤◌, ◌<◌, ◌≡◌, ◌<<<◌, ◌>>>◌, bit_and, bit_or, pos, true, List, [], ◌∷◌,
  ◌++◌, some, arith, length, drop,
}
use osdlp.Common.Bits.Fields.{and_mask, or_add}
use osdlp.Common.Memory.Laws.{memcpy-append}
use osdlp.Spp.{SppPrimHdr, store_prim_hdr, spp_pack, load_prim_hdr, spp_unpack}

-- Every field fits its bit-field.
pub record IsPrimHdr (h : SppPrimHdr) : Type 0 where
  pub version : h.version < 8
  pub is_tc : h.is_tc < 2
  pub has_sec_hdr : h.has_sec_hdr < 2
  pub apid : h.apid < 2048
  pub seq_flag : h.seq_flag < 4
  pub seq_count : h.seq_count < 16384
  pub packet_data_len : h.packet_data_len < 65536

-- The primary header of the standard, byte by byte.
abbrev pub prim_hdr_bytes : SppPrimHdr → List ℕ
prim_hdr_bytes h =
    (h.version * 32 + h.is_tc * 16 + h.has_sec_hdr * 8 + h.apid / 256)
    ∷ (h.apid % 256)
    ∷ (h.seq_flag * 64 + h.seq_count / 256)
    ∷ (h.seq_count % 256)
    ∷ (h.packet_data_len / 256)
    ∷ (h.packet_data_len % 256)
    ∷ []

id_byte :
    (v t s a : ℕ)
    → v < 8
    → t < 2
    → s < 2
    → a < 2048
    → bit_or
        (bit_or (bit_or (bit_and v 0x07 <<< 5) (bit_and t 0x01 <<< 4)) (bit_and s 0x01 <<< 3))
        (bit_and (a >>> 8) 0x07)
      ≡ v * 32 + t * 16 + s * 8 + a / 256
id_byte v t s a hv ht hs ha = ground (
  arith,
  and_mask 3 v,
  and_mask 1 t,
  and_mask 1 s,
  and_mask 3 (a / 256),
  or_add 5 (v * 32) (t * 16),
  or_add 4 (v * 32 + t * 16) (s * 8),
  or_add 3 (v * 32 + t * 16 + s * 8) (a / 256),
)

seq_byte :
    (f c : ℕ)
    → f < 4
    → c < 16384
    → bit_or (bit_and f 0x03 <<< 6) (bit_and (c >>> 8) 0x3f) ≡ f * 64 + c / 256
seq_byte f c hf hc = ground (arith, and_mask 2 f, and_mask 6 (c / 256), or_add 6 (f * 64) (c / 256))

store_prim_hdr-eq :
    (h : SppPrimHdr) (a b c d e f : ℕ) (rest : List ℕ)
    → IsPrimHdr h
    → store_prim_hdr h (a ∷ b ∷ c ∷ d ∷ e ∷ f ∷ rest) ≡ some (prim_hdr_bytes h ++ rest)
unfolding store_prim_hdr
store_prim_hdr-eq h a b c d e f rest v = ground (
  arith,
  id_byte h.version h.is_tc h.has_sec_hdr h.apid,
  seq_byte h.seq_flag h.seq_count,
  and_mask 8 h.apid,
  and_mask 8 h.seq_count,
  and_mask 8 (h.packet_data_len / 256),
  and_mask 8 h.packet_data_len,
)

id_fields :
    (v t s a : ℕ)
    → v < 8
    → t < 2
    → s < 2
    → a < 2048
    → let b = v * 32 + t * 16 + s * 8 + a / 256 in
      (bit_and (b >>> 5) 0x07 ≡ v)
      × (bit_and (b >>> 4) 0x01 ≡ t)
      × (bit_and (b >>> 3) 0x01 ≡ s)
      × (bit_or (bit_and b 0x07 <<< 8) (a % 256) ≡ a)
id_fields v t s a hv ht hs ha =
    let b : ℕ = v * 32 + t * 16 + s * 8 + a / 256 in
    (
      omega (arith, and_mask 3 (b / 32)),
      omega (arith, and_mask 1 (b / 16)),
      omega (arith, and_mask 1 (b / 8)),
      ground (arith, and_mask 3 b, or_add 8 (a / 256 * 256) (a % 256)),
    )

seq_fields :
    (f c : ℕ)
    → f < 4
    → c < 16384
    → let b = f * 64 + c / 256 in
      (bit_and (b >>> 6) 0x03 ≡ f) × (bit_or (bit_and b 0x3f <<< 8) (c % 256) ≡ c)
seq_fields f c hf hc =
    let b : ℕ = f * 64 + c / 256 in
    (
      omega (arith, and_mask 2 (b / 64)),
      ground (arith, and_mask 6 b, or_add 8 (c / 256 * 256) (c % 256)),
    )

load_prim_hdr-eq :
    (h : SppPrimHdr) (rest : List ℕ)
    → IsPrimHdr h
    → load_prim_hdr (prim_hdr_bytes h ++ rest) ≡ some h
unfolding load_prim_hdr
load_prim_hdr-eq h rest v = ground (
  arith,
  id_fields h.version h.is_tc h.has_sec_hdr h.apid,
  seq_fields h.seq_flag h.seq_count,
  or_add 8 (h.packet_data_len / 256 * 256) (h.packet_data_len % 256),
)

-- The bytes of a packet.
abbrev pub packet : SppPrimHdr → List ℕ → List ℕ
packet h bytes = prim_hdr_bytes h ++ bytes

-- Into a buffer with room for it, `osdlp_spp_pack` writes the packet's bytes and nothing behind
-- them, and returns the packet's length.
pub spp_pack-eq-packet :
    (h : SppPrimHdr) (bytes more buf : List ℕ) (buf_size : ℕ)
    → IsPrimHdr h
    → length bytes ≡ h.packet_data_len + 1
    → length (packet h bytes) ≤ buf_size
    → length (packet h bytes) ≤ length buf
    → spp_pack (some h) (some (bytes ++ more)) (some buf) buf_size
      ≡ some (record {
        ret = pos (length (packet h bytes));
        out_buf = packet h bytes ++ drop (length (packet h bytes)) buf;
      })
unfolding spp_pack
spp_pack-eq-packet h bytes more (a ∷ b ∷ c ∷ d ∷ e ∷ f ∷ rest) buf_size v n room fits = ground (
  arith,
  store_prim_hdr-eq h a b c d e f rest v,
  memcpy-append (prim_hdr_bytes h) rest bytes more,
)
spp_pack-eq-packet h bytes more buf buf_size v n room fits = absurd (omega arith)

unpack-packet :
    (old h : SppPrimHdr) (bytes rest : List ℕ) (in_len : ℕ)
    → IsPrimHdr h
    → length bytes ≡ h.packet_data_len + 1
    → length (packet h bytes) ≤ in_len
    → spp_unpack (some old) (some (packet h bytes ++ rest)) in_len true
      ≡ some (
        pos (length (packet h bytes)),
        some (record {
          ret = pos (length (packet h bytes));
          prim_hdr = h;
          out_pack_data = some (bytes ++ rest);
        }),
      )
unfolding spp_unpack
unpack-packet old h bytes rest in_len v n room =
    ground (arith, load_prim_hdr-eq h (bytes ++ rest) v)

-- A packet that `osdlp_spp_pack` builds in a buffer with room for it is read back by
-- `osdlp_spp_unpack`, when it is told at least the length that was returned: same header, same
-- length, and the data pointer at the packet's data.
pub spp_unpack-spp_pack :
    (old h : SppPrimHdr) (bytes more buf : List ℕ) (buf_size in_len : ℕ)
    → IsPrimHdr h
    → length bytes ≡ h.packet_data_len + 1
    → length (packet h bytes) ≤ buf_size
    → length (packet h bytes) ≤ length buf
    → length (packet h bytes) ≤ in_len
    → (out rest : List ℕ) × (spp_pack (some h) (some (bytes ++ more)) (some buf) buf_size
        ≡ some (record { ret = pos (length (packet h bytes)); out_buf = out }))
      × (spp_unpack (some old) (some out) in_len true
          ≡ some (
            pos (length (packet h bytes)),
            some (record {
              ret = pos (length (packet h bytes));
              prim_hdr = h;
              out_pack_data = some (bytes ++ rest);
            }),
          ))
spp_unpack-spp_pack old h bytes more buf buf_size in_len v n room fits told = (
  packet h bytes ++ drop (length (packet h bytes)) buf,
  drop (length (packet h bytes)) buf,
  spp_pack-eq-packet h bytes more buf buf_size v n room fits,
  unpack-packet old h bytes _ in_len v n told,
)
