-- ===== src/Tm/Transmit/Count.antt =====
-- How many frames `osdlp_tm_transmit` makes of a unit.
use osdlp.Common.{
  ℕ, ◌+◌, ◌-◌, ◌*◌, ◌/◌, ◌%◌, ◌≤◌, ◌<◌, ◌≡◌, refl, ◌∙◌, ◌⊎◌, false, inl, inr, Bool-cases, some,
  arith, ◌==◌, ap, ==_iff,
}
use native.Mathlib.Nat.{mod-lt, div-le_self, mul-le-mul_left, add-mul, div-add-mod'}
use osdlp.Tm.Transmit.{packets_needed}

small_total : (q r most total : ℕ) → q ≡ 0 → q * most + r ≡ total → r < most → total ≤ 1 * most
small_total q r most total e whole rest =
    let zero_full : q * most ≡ 0 = rw e (omega arith) in omega arith

less_one : (q r most total : ℕ) → 1 ≤ most → 1 ≤ q → q * most + r ≡ total → (q - 1) * most < total
less_one q r most total p n whole =
    let step : q ≡ (q - 1) + 1 = omega arith in
    let sum : q * most ≡ (q - 1) * most + 1 * most =
      ap (λ (k : ℕ). k * most) step ∙ add-mul (q - 1) 1 most in
    omega arith

rounded : (q r most total : ℕ) → 1 ≤ r → q * most + r ≡ total → ((q + 1) - 1) * most < total
rounded q r most total p whole = let same : (q + 1) - 1 ≡ q = omega arith in rw same (omega arith)

-- As many as the bytes take, and one at least
pub packets_needed_lem :
    (most total : ℕ)
    → 1 ≤ most
    → total < 65536
    → (n : ℕ) × (packets_needed most total ≡ some n)
      × (total ≤ n * most)
      × (n ≡ 1 ⊎ (n - 1) * most < total)
unfolding packets_needed
packets_needed_lem most total p small =
    let q : ℕ = total / most in
    let r : ℕ = total % most in
    let whole : q * most + r ≡ total = div-add-mod' total most in
    let rest : r < most = mod-lt total (omega arith) in
    let fits : q < 65536 = omega (arith, div-le_self total most) in
    let nonzero : (most == 0) ≡ false = ground arith in
    let same : q % 65536 ≡ q = omega arith in
    elim (Bool-cases (q == 0)) [
      | inl e ↦
          let none_full : q ≡ 0 = ground arith in
          (
            1,
            rw (same, nonzero, e, none_full) refl,
            small_total q r most total none_full whole rest,
            inl refl,
          )
      | inr e ↦ elim (Bool-cases (r == 0)) [
        | inl f ↦ (
          q,
          rw (same, nonzero, e, f) refl,
          omega (arith, whole, (==_iff r 0).0 f),
          inr (less_one q r most total p (ground arith) whole),
        )
        | inr f ↦
            let several : 2 ≤ most = ground arith in
            let few : q * 2 ≤ q * most = mul-le-mul_left q several in
            let count : (q + 1) % 65536 ≡ q + 1 = omega arith in
            (
              q + 1,
              rw (same, nonzero, e, f, count) refl,
              omega (arith, add-mul q 1 most),
              inr (rounded q r most total (ground arith) whole),
            )
      ]
    ]
