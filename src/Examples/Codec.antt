-- ===== src/Examples/Codec.antt =====
-- Checksums, space packets and report words at concrete inputs.
use osdlp.Common.{ℕ, ◌≡◌, refl, List, [], ◌∷◌, Option, some, true, ℤ, pos, arith, ◌/◌, ◌++◌, ◌%◌}
use osdlp.Common.Memory.{◌>>=◌}
use osdlp.Crc.{calc_crc, crc_loop, crc_step}
use osdlp.Crc.Table.{crc_table}
use osdlp.Crc.Bitwise.{crc_bytes}
use osdlp.Crc.Laws.{calc_crc-eq-crc_bytes, calc_crc_residue}
use osdlp.Spp.{SppPrimHdr, Unpacked, spp_pack, spp_unpack}
use osdlp.Spp.RoundTrip.{packet, spp_pack-eq-packet, spp_unpack-spp_pack}
use osdlp.Spp.Bounds.{InRange, spp_unpack_bounds}
use osdlp.Clcw.{ClcwFrame, clcw_pack, clcw_unpack}
use osdlp.Clcw.RoundTrip.{clcw_bytes, clcw_pack-eq-bytes, clcw_unpack-clcw_pack}

abbrev message : List ℕ
message = 0x31 ∷ 0x32 ∷ 0x33 ∷ []

calc_crc-eq-crc_bytes_example :
    calc_crc (0x31 ∷ 0x32 ∷ 0x33 ∷ 0xff ∷ []) 3 ≡ some (crc_bytes 0xffff message)
calc_crc-eq-crc_bytes_example =
    calc_crc-eq-crc_bytes message (0xff ∷ []) (omega arith, (omega arith, (omega arith, tt)))

calc_crc_residue_example :
    let c = crc_bytes 0xffff message in
    calc_crc (0x31 ∷ 0x32 ∷ 0x33 ∷ (c / 256) ∷ (c % 256) ∷ 7 ∷ []) 5 ≡ some 0
calc_crc_residue_example =
    calc_crc_residue message (7 ∷ []) (omega arith, (omega arith, (omega arith, tt)))

-- The check value of this checksum for "123456789".
crc_check_value :
    calc_crc (0x31 ∷ 0x32 ∷ 0x33 ∷ 0x34 ∷ 0x35 ∷ 0x36 ∷ 0x37 ∷ 0x38 ∷ 0x39 ∷ []) 9 ≡ some 0x29b1
unfolding calc_crc crc_loop crc_step crc_table
crc_check_value = refl

abbrev hdr : SppPrimHdr
hdr = record {
  version = 0;
  is_tc = 1;
  has_sec_hdr = 0;
  apid = 0x123;
  seq_flag = 3;
  seq_count = 77;
  packet_data_len = 2;
}

abbrev hdr_before : SppPrimHdr
hdr_before = record hdr { apid = 0; seq_count = 0; packet_data_len = 0 }

abbrev room : List ℕ
room = 0 ∷ 0 ∷ 0 ∷ 0 ∷ 0 ∷ 0 ∷ 0 ∷ 0 ∷ 0 ∷ 0 ∷ []

spp_pack-eq-packet_example :
    spp_pack (some hdr) (some (5 ∷ 6 ∷ 7 ∷ 8 ∷ [])) (some room) 10
    ≡ some (record { ret = pos 9; out_buf = packet hdr (5 ∷ 6 ∷ 7 ∷ []) ++ 0 ∷ [] })
spp_pack-eq-packet_example =
    spp_pack-eq-packet hdr (5 ∷ 6 ∷ 7 ∷ []) (8 ∷ []) room 10 (omega arith) refl (omega arith)
      (omega arith)

spp_unpack-spp_pack_example :
    (out rest : List ℕ) × (spp_pack (some hdr) (some (5 ∷ 6 ∷ 7 ∷ 8 ∷ [])) (some room) 10
      ≡ some (record { ret = pos 9; out_buf = out }))
    × (spp_unpack (some hdr_before) (some out) 9 true
        ≡ some (
          pos 9,
          some (record {
            ret = pos 9;
            prim_hdr = hdr;
            out_pack_data = some ((5 ∷ 6 ∷ 7 ∷ []) ++ rest);
          }),
        ))
spp_unpack-spp_pack_example =
    spp_unpack-spp_pack hdr_before hdr (5 ∷ 6 ∷ 7 ∷ []) (8 ∷ []) room 10 9 (omega arith) refl
      (omega arith) (omega arith) (omega arith)

spp_unpack_bounds_example :
    (ret : ℤ) × (u : Option Unpacked) × (spp_unpack (some hdr_before) (some room) 8 true
      ≡ some (ret, u))
    × InRange 8 ret u
spp_unpack_bounds_example = spp_unpack_bounds hdr_before room 8 true (omega arith)

abbrev word : ClcwFrame
word = record {
  ctrl_word_type = 0;
  clcw_version_num = 0;
  status_field = 5;
  cop_in_effect = 1;
  vcid = 33;
  rsvd_spare1 = 0;
  rf_avail = 1;
  bit_lock = 0;
  lockout = 1;
  wait = 0;
  rt = 1;
  farm_b_counter = 2;
  rsvd_spare2 = 0;
  report_value = 200;
}

clcw_pack-eq-bytes_example :
    clcw_pack word (9 ∷ 9 ∷ 9 ∷ 9 ∷ 9 ∷ []) ≡ some (clcw_bytes word ++ 9 ∷ [])
clcw_pack-eq-bytes_example = clcw_pack-eq-bytes word 9 9 9 9 (9 ∷ []) (omega arith)

clcw_unpack-clcw_pack_example : (clcw_pack word (9 ∷ 9 ∷ 9 ∷ 9 ∷ []) >>= clcw_unpack) ≡ some word
clcw_unpack-clcw_pack_example = clcw_unpack-clcw_pack word 9 9 9 9 [] (omega arith)
