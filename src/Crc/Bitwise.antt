-- ===== src/Crc/Bitwise.antt =====
-- The checksum by its definition: division by x^16 + x^12 + x^5 + 1, one bit at a time.
use osdlp.Common.{
  ℕ, zero, suc, ◌+◌, ◌*◌, ◌<◌, ◌≡◌, refl, bit_xor, u16, Bool, true, false, List, [], ◌∷◌, none,
  some, arith, ltb, ◌==◌, ==_iff, if◌then◌else◌, get_elem?,
}
use osdlp.Crc.Table.{crc_table}

-- Shifts one bit out of the 16-bit register.
unfoldable pub shift_bit : ℕ → ℕ
shift_bit r = if ltb r 0x8000 then r * 2 else bit_xor (u16 (r * 2)) 0x1021

unfoldable pub shift_bits : ℕ → ℕ → ℕ
shift_bits zero r = r
shift_bits (suc n) r = shift_bits n (shift_bit r)

-- Takes a byte in.
unfoldable pub crc_byte : ℕ → ℕ → ℕ
crc_byte r b = shift_bits 8 (bit_xor r (b * 256))

unfoldable pub crc_bytes : ℕ → List ℕ → ℕ
crc_bytes r [] = r
crc_bytes r (b ∷ bs) = crc_bytes (crc_byte r b) bs

unfoldable pub entry : ℕ → ℕ
entry i = elim (get_elem? crc_table i) [ none ↦ 0 | some e ↦ e ]

-- The test holds for every byte below the bound.
passes_below : (ℕ → Bool) → ℕ → Bool
passes_below test zero = true
passes_below test (suc bound) = if test bound then passes_below test bound else false

passes :
    (test : ℕ → Bool) (bound byte : ℕ)
    → byte < bound
    → passes_below test bound ≡ true
    → test byte ≡ true
unfolding passes_below
passes test (suc bound) byte below all = ground (arith, passes test bound byte)
passes test zero byte below all = absurd (omega arith)

is_division : ℕ → ℕ → Bool
unfolding shift_bits shift_bit entry crc_table
is_division hi lo = shift_bits 8 (hi * 256 + lo) == bit_xor (entry hi) (lo * 256)

-- Every register value, by evaluation.
division_table : passes_below (λ hi. passes_below (is_division hi) 256) 256 ≡ true
unfolding passes_below is_division
division_table = refl

-- The top byte alone chooses what is added to the register: a table of 256 entries serves.
pub shift_bits-eq-entry :
    (hi lo : ℕ) → hi < 256 → lo < 256 → shift_bits 8 (hi * 256 + lo) ≡ bit_xor (entry hi) (lo * 256)
unfolding is_division
shift_bits-eq-entry hi lo h g = (==_iff _ _).0 (
    passes (is_division hi) 256 lo g
      (passes (λ hi. passes_below (is_division hi) 256) 256 hi h division_table))

is_entry : ℕ → Bool
is_entry i = elim (get_elem? crc_table i) [ none ↦ false | some e ↦ ltb e 65536 ]

entry_table : passes_below is_entry 256 ≡ true
unfolding passes_below is_entry crc_table
entry_table = refl

-- The table has an entry of 16 bits for each byte.
pub entry_lem : (i : ℕ) → i < 256 → (get_elem? crc_table i ≡ some (entry i)) × (entry i < 65536)
unfolding entry is_entry
entry_lem i h = ground (arith, passes is_entry 256 i h entry_table)
