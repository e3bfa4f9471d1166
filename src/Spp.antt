-- ===== src/Spp.antt =====
-- src/osdlp_spp.c, include/osdlp_spp.h: space packets. A null pointer is `none`; `none` as a result
-- of a whole call is an access out of range of a buffer.
pub mod RoundTrip
pub mod Bounds
use osdlp.Common.{
  ℕ, ◌+◌, ◌<<<◌, ◌>>>◌, bit_and, bit_or, ℤ, pos, negsuc, Bool, List, Option, none, some, ltb,
  if◌then◌else◌,
}
use osdlp.Common.Memory.{◌>>=◌, load, store, pointer_at, memcpy}

-- `struct spp_prim_hdr`
pub record SppPrimHdr : Type 0 where
  pub version : ℕ
  pub is_tc : ℕ
  pub has_sec_hdr : ℕ
  pub apid : ℕ
  pub seq_flag : ℕ
  pub seq_count : ℕ
  pub packet_data_len : ℕ

-- sizeof(struct spp_prim_hdr), which is packed
abbrev pub prim_hdr_len : ℕ
prim_hdr_len = 6

-- The six stores of the primary header.
pub store_prim_hdr : SppPrimHdr → List ℕ → Option (List ℕ)
store_prim_hdr h out_buf = do
  out_buf ← store out_buf 0 (
      bit_or
        (bit_or (bit_or (bit_and h.version 0x07 <<< 5) (bit_and h.is_tc 0x01 <<< 4))
          (bit_and h.has_sec_hdr 0x01 <<< 3))
        (bit_and (h.apid >>> 8) 0x07))
  out_buf ← store out_buf 1 (bit_and h.apid 0xff)
  out_buf ←
      store out_buf 2 (bit_or (bit_and h.seq_flag 0x03 <<< 6) (bit_and (h.seq_count >>> 8) 0x3f))
  out_buf ← store out_buf 3 (bit_and h.seq_count 0xff)
  out_buf ← store out_buf 4 (bit_and (h.packet_data_len >>> 8) 0xff)
  store out_buf 5 (bit_and h.packet_data_len 0xff)

-- What a call of `osdlp_spp_pack` leaves: its result, and the output buffer.
pub record Packed : Type 0 where
  pub ret : ℤ
  pub out_buf : List ℕ

-- `osdlp_spp_pack` on pointers that are not null
pub pack_to : SppPrimHdr → Option (List ℕ) → List ℕ → ℕ → Option Packed
unfolding store_prim_hdr
pack_to h in_pack_data out_buf buf_size =
    if ltb buf_size prim_hdr_len
    then some (record { ret = negsuc 0; out_buf = out_buf })
    else (store_prim_hdr h out_buf >>= λ out. elim in_pack_data [
      | none ↦ some (record { ret = pos prim_hdr_len; out_buf = out })
      | some bytes ↦
          let out_len = prim_hdr_len + (h.packet_data_len + 1) in
          if ltb buf_size out_len
          then some (record { ret = negsuc 0; out_buf = out })
          else (memcpy out prim_hdr_len bytes (h.packet_data_len + 1) >>= λ filled.
              some (record { ret = pos out_len; out_buf = filled }))
    ])

-- `osdlp_spp_pack`. With a null header or output buffer nothing is written.
pub spp_pack : Option SppPrimHdr → Option (List ℕ) → Option (List ℕ) → ℕ → Option Packed
unfolding pack_to
spp_pack none in_pack_data none buf_size = some (record { ret = negsuc 0; out_buf = List.[] })
spp_pack none in_pack_data (some out_buf) buf_size =
    some (record { ret = negsuc 0; out_buf = out_buf })
spp_pack (some h) in_pack_data none buf_size = some (record { ret = negsuc 0; out_buf = List.[] })
spp_pack (some h) in_pack_data (some out_buf) buf_size = pack_to h in_pack_data out_buf buf_size

-- The loads of the primary header; each field is cut to its width by its mask.
pub load_prim_hdr : List ℕ → Option SppPrimHdr
load_prim_hdr in_buf = do
  b0 ← load in_buf 0
  b1 ← load in_buf 1
  b2 ← load in_buf 2
  b3 ← load in_buf 3
  b4 ← load in_buf 4
  b5 ← load in_buf 5
  some (record {
    version = bit_and (b0 >>> 5) 0x07;
    is_tc = bit_and (b0 >>> 4) 0x01;
    has_sec_hdr = bit_and (b0 >>> 3) 0x01;
    apid = bit_or (bit_and b0 0x07 <<< 8) b1;
    seq_flag = bit_and (b2 >>> 6) 0x03;
    seq_count = bit_or (bit_and b2 0x3f <<< 8) b3;
    packet_data_len = bit_or (b4 <<< 8) b5;
  })

-- What a call of `osdlp_spp_unpack` leaves: its result, the header, and the data pointer if it is set.
pub record Unpacked : Type 0 where
  pub ret : ℤ
  pub prim_hdr : SppPrimHdr
  pub out_pack_data : Option (List ℕ)

-- `osdlp_spp_unpack` on pointers that are not null; `wanted` says whether `out_pack_data` is given.
pub unpack_from : SppPrimHdr → List ℕ → ℕ → Bool → Option Unpacked
unfolding load_prim_hdr
unpack_from old in_buf in_len wanted =
    if ltb in_len prim_hdr_len
    then some (record { ret = negsuc 0; prim_hdr = old; out_pack_data = none })
    else (load_prim_hdr in_buf >>= λ h.
        if wanted
        then (let parsed_len = prim_hdr_len + (h.packet_data_len + 1) in
            if ltb in_len parsed_len
            then some (record { ret = negsuc 0; prim_hdr = h; out_pack_data = none })
            else (pointer_at in_buf prim_hdr_len >>= λ p.
                some (record { ret = pos parsed_len; prim_hdr = h; out_pack_data = some p })))
        else some (record { ret = pos prim_hdr_len; prim_hdr = h; out_pack_data = none }))

-- `osdlp_spp_unpack`. With a null buffer or header nothing is written.
pub spp_unpack : Option SppPrimHdr → Option (List ℕ) → ℕ → Bool → Option (ℤ × Option Unpacked)
unfolding unpack_from
spp_unpack none in_buf in_len wanted = some (negsuc 0, none)
spp_unpack (some old) none in_len wanted = some (negsuc 0, none)
spp_unpack (some old) (some in_buf) in_len wanted =
    unpack_from old in_buf in_len wanted >>= λ u. some (u.ret, some u)
