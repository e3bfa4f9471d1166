-- ===== src/Common/Bits.antt =====
-- `|`, `&` and `^` by binary digits: one equation for the lowest digit of each.
pub mod Fields
use Prim.Native.Nat.{
  ℕ, zero, suc, ◌+◌, ◌-◌, ◌*◌, ◌/◌, ◌%◌, ◌^◌, ◌≤◌, ◌<◌, min, max, bit_and, bit_or, bit_xor, digits,
  bitwise, differ, bit_and-bitwise, bit_or-bitwise, bit_xor-bitwise,
}
use mathlib.Core.Path.{◌≡◌, refl, sym, ap, ◌∙◌}
use native.Mathlib.Nat.{pow-suc, one-le-pow}
use native.Mathlib.Omega.{arith}

-- A number has fewer digits than its value, so that spare rounds change nothing.
module _ (last : ℕ → ℕ) (op : ℕ → ℕ → ℕ) where
  spare_round :
      (rounds x y : ℕ) → x ≤ rounds → digits last op (suc rounds) x y ≡ digits last op rounds x y
  spare_round zero zero y enough = refl
  spare_round (suc rounds) zero y enough = refl
  spare_round (suc rounds) (suc x) y enough =
      ap (λ high. high * 2 + op (suc x % 2) (y % 2))
        (spare_round rounds (suc x / 2) (y / 2) (omega arith))
  spare_round zero (suc x) y enough = absurd (omega arith)

  spare_rounds : (spare x y : ℕ) → digits last op (x + spare) x y ≡ digits last op x x y
  spare_rounds zero x y =
      let same : x + 0 ≡ x = omega arith in ap (λ rounds. digits last op rounds x y) same
  spare_rounds (suc spare) x y =
      let next : x + suc spare ≡ suc (x + spare) = omega arith in
      ap (λ rounds. digits last op rounds x y) next
      ∙ spare_round (x + spare) x y (omega arith)
      ∙ spare_rounds spare x y

  bitwise_next :
      (a b : ℕ)
      → bitwise last op (suc a) b ≡ bitwise last op (suc a / 2) (b / 2) * 2 + op (suc a % 2) (b % 2)
  bitwise_next a b =
      let half : ℕ = suc a / 2 in
      let rounds : a ≡ half + (a - half) = omega arith in
      ap (λ high. high * 2 + op (suc a % 2) (b % 2))
        (ap (λ n. digits last op n half (b / 2)) rounds ∙ spare_rounds (a - half) half (b / 2))

-- The lowest digit of each operation.
pub or_digit : (a b : ℕ) → bit_or a b ≡ bit_or (a / 2) (b / 2) * 2 + max (a % 2) (b % 2)
or_digit zero b = omega (arith, bit_or-bitwise 0 b, bit_or-bitwise 0 (b / 2))
or_digit (suc a) b = omega (
  arith,
  bitwise_next (λ y. y) max a b,
  bit_or-bitwise (suc a) b,
  bit_or-bitwise (suc a / 2) (b / 2),
)

pub and_digit : (a b : ℕ) → bit_and a b ≡ bit_and (a / 2) (b / 2) * 2 + min (a % 2) (b % 2)
and_digit zero b = omega (arith, bit_and-bitwise 0 b, bit_and-bitwise 0 (b / 2))
and_digit (suc a) b = omega (
  arith,
  bitwise_next (λ y. 0) min a b,
  bit_and-bitwise (suc a) b,
  bit_and-bitwise (suc a / 2) (b / 2),
)

zero-bit_xor : (b : ℕ) → bit_xor 0 b ≡ b
zero-bit_xor b = bit_xor-bitwise 0 b

differ-zero : (b : ℕ) → differ 0 b ≡ b
differ-zero b = refl

pub xor_digit : (a b : ℕ) → bit_xor a b ≡ bit_xor (a / 2) (b / 2) * 2 + differ (a % 2) (b % 2)
xor_digit zero b = omega (arith, zero-bit_xor b, zero-bit_xor (b / 2), differ-zero (b % 2))
xor_digit (suc a) b = omega (
  arith,
  bitwise_next (λ y. y) differ a b,
  bit_xor-bitwise (suc a) b,
  bit_xor-bitwise (suc a / 2) (b / 2),
)
