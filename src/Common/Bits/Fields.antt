-- ===== src/Common/Bits/Fields.antt =====
-- `|`, `&` and `^` on bit fields, as arithmetic at every width.
use Prim.Native.Nat.{
  ℕ, zero, suc, ◌+◌, ◌-◌, ◌*◌, ◌/◌, ◌%◌, ◌^◌, ◌<◌, bit_and, bit_or, bit_xor, differ,
  bit_xor-bitwise,
}
use mathlib.Core.Path.{◌≡◌, refl, ap}
use native.Mathlib.Nat.{pow-suc, one-le-pow}
use native.Mathlib.Omega.{arith}
use osdlp.Common.Bits.{or_digit, and_digit, xor_digit}

or_zero_upto : (n a : ℕ) → a < n → bit_or a 0 ≡ a
or_zero_upto zero a h = elim h [ ]
or_zero_upto (suc n) zero h = refl
or_zero_upto (suc n) (suc a) h =
    omega (arith, or_digit (suc a) 0, or_zero_upto n (suc a / 2) (omega arith))

and_zero_upto : (n a : ℕ) → a < n → bit_and a 0 ≡ 0
and_zero_upto zero a h = elim h [ ]
and_zero_upto (suc n) zero h = refl
and_zero_upto (suc n) (suc a) h =
    omega (arith, and_digit (suc a) 0, and_zero_upto n (suc a / 2) (omega arith))

mul-pow_suc : (q k : ℕ) → q * 2 ^ suc k ≡ 2 * (q * 2 ^ k)
mul-pow_suc q k = omega (arith, ap (λ (t : ℕ). q * t) (pow-suc 2 k))

or_sum : (k q r : ℕ) → r < 2 ^ k → bit_or (q * 2 ^ k) r ≡ q * 2 ^ k + r
or_sum zero q r h = ground (arith, or_zero_upto (suc q) q (omega arith))
or_sum (suc k) q r h =
    ground (arith, or_digit (q * 2 ^ suc k) r, mul-pow_suc q k, pow-suc 2 k, or_sum k q (r / 2))

-- Fields that do not overlap are added by `|`.
pub or_add : (k a r : ℕ) → a % 2 ^ k ≡ 0 → r < 2 ^ k → bit_or a r ≡ a + r
or_add k a r low h = ground (arith, one-le-pow k 2, or_sum k (a / 2 ^ k) r)

and_sum : (k q r : ℕ) → r < 2 ^ k → bit_and (q * 2 ^ k + r) (2 ^ k - 1) ≡ r
and_sum zero q r h = ground (arith, and_zero_upto (suc (q + r)) (q + r) (omega arith))
and_sum (suc k) q r h = ground (
  arith,
  and_digit (q * 2 ^ suc k + r) (2 ^ suc k - 1),
  mul-pow_suc q k,
  pow-suc 2 k,
  one-le-pow k 2,
  and_sum k q (r / 2),
)

-- A mask of `k` low bits is a remainder.
pub and_mask : (k a : ℕ) → bit_and a (2 ^ k - 1) ≡ a % 2 ^ k
and_mask k a = ground (arith, one-le-pow k 2, and_sum k (a / 2 ^ k) (a % 2 ^ k))

differ-zero : (x : ℕ) → differ x 0 ≡ x
differ-zero zero = refl
differ-zero (suc x) = refl

xor_zero_upto : (n a : ℕ) → a < n → bit_xor a 0 ≡ a
xor_zero_upto zero a h = elim h [ ]
xor_zero_upto (suc n) zero h = refl
xor_zero_upto (suc n) (suc a) h =
    omega (
      arith,
      xor_digit (suc a) 0,
      differ-zero (suc a % 2),
      xor_zero_upto n (suc a / 2) (omega arith),
    )

pub bit_xor-zero : (a : ℕ) → bit_xor a 0 ≡ a
bit_xor-zero a = xor_zero_upto (suc a) a (omega arith)

-- `^` goes field by field.
pub xor_split :
    (k a b r s : ℕ)
    → r < 2 ^ k
    → s < 2 ^ k
    → bit_xor (a * 2 ^ k + r) (b * 2 ^ k + s) ≡ bit_xor a b * 2 ^ k + bit_xor r s
xor_split zero a b r s h g = ground arith
xor_split (suc k) a b r s h g = ground (
  arith,
  xor_digit (a * 2 ^ suc k + r) (b * 2 ^ suc k + s),
  xor_digit r s,
  mul-pow_suc a k,
  mul-pow_suc b k,
  mul-pow_suc (bit_xor a b) k,
  pow-suc 2 k,
  xor_split k a b (r / 2) (s / 2),
)

differ-lt : (x y : ℕ) → x < 2 → y < 2 → differ x y < 2
differ-lt zero y h g = g
differ-lt (suc x) zero h g = h
differ-lt (suc x) (suc y) h g = differ-lt x y (omega arith) (omega arith)

pub bit_xor-lt : (k a b : ℕ) → a < 2 ^ k → b < 2 ^ k → bit_xor a b < 2 ^ k
bit_xor-lt zero a b h g = ground arith
bit_xor-lt (suc k) a b h g =
    ground
      (arith, xor_digit a b, differ-lt (a % 2) (b % 2), pow-suc 2 k, bit_xor-lt k (a / 2) (b / 2))

differ_self : (x : ℕ) → differ x x ≡ 0
differ_self zero = refl
differ_self (suc x) = differ_self x

xor_self_upto : (n a : ℕ) → a < n → bit_xor a a ≡ 0
xor_self_upto zero a h = elim h [ ]
xor_self_upto (suc n) zero h = refl
xor_self_upto (suc n) (suc a) h = omega (
  arith,
  xor_digit (suc a) (suc a),
  differ_self (suc a % 2),
  xor_self_upto n (suc a / 2) (omega arith),
)

pub bit_xor_self : (a : ℕ) → bit_xor a a ≡ 0
bit_xor_self a = xor_self_upto (suc a) a (omega arith)

pub zero_xor : (b : ℕ) → bit_xor 0 b ≡ b
zero_xor b = bit_xor-bitwise 0 b
