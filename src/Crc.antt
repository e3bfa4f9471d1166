-- ===== src/Crc.antt =====
-- src/osdlp_crc.c: the checksum of TC and TM frames.
pub mod Table
pub mod Bitwise
pub mod Laws
use osdlp.Common.{
  ℕ, zero, suc, ◌+◌, ◌<<<◌, ◌>>>◌, bit_and, bit_xor, u16, List, Option, none, some, get_elem?,
}
use osdlp.Common.Memory.{◌>>=◌, load}
use Table.{crc_table}

-- One round of the loop of `osdlp_calc_crc` on the byte `b`.
unfoldable pub crc_step : ℕ → ℕ → Option ℕ
crc_step crc b = get_elem? crc_table (bit_and (bit_xor (crc >>> 8) b) 0xff) >>= λ entry.
    some (u16 (bit_xor entry (crc <<< 8)))

-- The loop at index `i`, with `left` rounds to go.
unfoldable pub crc_loop : List ℕ → ℕ → ℕ → ℕ → Option ℕ
crc_loop bytes zero i crc = some crc
crc_loop bytes (suc left) i crc =
    load bytes i >>= λ b. crc_step crc b >>= λ next. crc_loop bytes left (i + 1) next

-- `osdlp_calc_crc`
unfoldable pub calc_crc : List ℕ → ℕ → Option ℕ
calc_crc bytes n = crc_loop bytes n 0 0xffff
