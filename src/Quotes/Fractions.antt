-- ===== src/Quotes/Fractions.antt =====
-- The decimals on the way from a spread in basis points to a price: none of them loses a digit.
use native.Mathlib.Nat.{zero-max, sub-zero, mul-div_cancel, mul_assoc}
use Prim.Native.Nat.{max}
use umba_fx_engine.Prelude.{
  ℕ, ◌+◌, ◌-◌, ◌*◌, ◌/◌, ◌≤◌, ◌<◌, ◌^◌, ◌≡◌, refl, sym, ap, ◌∙◌, false, Bool-cases, inl, inr, some,
  ltb, ◌==◌, arith,
}
use umba_fx_engine.Prelude.Int.{ℤ, pos, ◌-ℤ◌, ◌*ℤ◌}
use umba_fx_engine.Money.{same, of_rate}
use umba_fx_engine.Money.Arithmetic.{
  Decimal, half_even, count_digits, div_magnitude, fit, sub, mul, div,
}
use umba_fx_engine.Money.Exact.{pow_add, half_even-zeros, count_digits_zeros, fit-zeros}
use umba_fx_engine.Quotes.Pricing.{one}

decimal_eq :
    {a b : ℤ} {s t : ℕ}
    → a ≡ b
    → s ≡ t
    → ◌≡◌ {A = Decimal} (record { num = a; scale = s }) (record { num = b; scale = t })
decimal_eq h k = rw (h, k) refl

mul-pos : (a b : ℕ) → pos a *ℤ pos b ≡ pos (a * b)
unfolding ◌*ℤ◌
mul-pos a b = ground arith

sub-pos : (a b : ℕ) → b ≤ a → pos a -ℤ pos b ≡ pos (a - b)
unfolding ◌-ℤ◌
sub-pos a b h = ground arith

div_pos :
    (n d : ℕ)
    → 0 < d
    → div (record { num = pos n; scale = 0 }) (record { num = pos d; scale = 0 })
      ≡ some (div_magnitude n d)
unfolding div
div_pos n d h =
    let nonzero : (d == 0) ≡ false = ground arith in
    let never : ltb (n * d + 0) 0 ≡ false = ground arith in
    let unit_n : n * 1 ≡ n = omega arith in
    let unit_d : d * 1 ≡ d = omega arith in rw (mul-pos n d, nonzero, never, unit_n, unit_d) refl

no_digits : count_digits 0 ≡ 0
unfolding count_digits
no_digits = refl

digits_within : (b : ℕ) → b ≤ 10_000 → count_digits (b * 10 ^ 33 / 10_000) ≤ 57
digits_within b small =
    let quotient : b * 10 ^ 33 / 10_000 ≡ b * 10 ^ 29 =
      ap (λ n. n / 10_000) (omega arith)
      ∙ mul-div_cancel (b * 10 ^ 29) {n = 10_000} (omega arith) in
    elim (Bool-cases (ltb 0 b)) [
      | inl positive ↦ rw quotient (count_digits_zeros b 29 (omega arith) (ground arith))
      | inr none ↦ let is_zero : b ≡ 0 = ground arith in rw (is_zero, no_digits) (omega arith)
    ]

-- Basis points over ten thousand, with the 28 digits of a quotient.
quotient_zeros :
    (b : ℕ)
    → b ≤ 10_000
    → (i : ℕ) × (div_magnitude b 10_000 ≡ record { num = pos (b * 10 ^ i); scale = i + 4 })
unfolding div_magnitude
quotient_zeros b small =
    let digits = count_digits (b * 10 ^ 33 / 10_000) in
    let k = digits - 28 in
    let within : k ≤ 29 = omega (arith, digits_within b small) in
    let i = 33 - (4 + k) in
    let whole : half_even (b * 10 ^ 33) (10_000 * 10 ^ k) ≡ b * 10 ^ i =
      ap (half_even (b * 10 ^ 33)) (sym (pow_add 4 k))
      ∙ half_even-zeros b 33 (4 + k) (omega arith) in
    let gone : k - 33 ≡ 0 = omega arith in
    (i, decimal_eq (ap pos (rw (whole, gone) (omega arith))) (omega arith))

pub div_ten_thousand :
    (b : ℕ)
    → b ≤ 10_000
    → (i : ℕ) × (div (record { num = pos b; scale = 0 }) (record { num = pos 10_000; scale = 0 })
        ≡ some (record { num = pos (b * 10 ^ i); scale = i + 4 }))
div_ten_thousand b small =
    let (i, same) = quotient_zeros b small in (i, div_pos b 10_000 (omega arith) ∙ ap some same)

complement : (b x : ℕ) → b ≤ 10_000 → (b * x ≤ 10_000 * x) × (10_000 * x - b * x ≡ (10_000 - b) * x)
complement b x small =
    let c = 10_000 - b in
    let total : b + c ≡ 10_000 = omega arith in
    let scaled : (b + c) * x ≡ 10_000 * x = ap (λ n. n * x) total in (omega arith, omega arith)

-- One less the spread.
pub one_less :
    (b i : ℕ)
    → b ≤ 10_000
    → (j : ℕ) × (sub one (record { num = pos (b * 10 ^ i); scale = i + 4 })
        ≡ record { num = pos ((10_000 - b) * 10 ^ j); scale = j + 4 })
unfolding sub
one_less b i small =
    let (j, same) = fit-zeros (10_000 - b) i 4 (omega arith) in
    let power : 10 ^ (i + 4) ≡ 10 ^ i * 10 ^ 4 = pow_add i 4 in
    let (below, rest) = complement b (10 ^ i) small in
    let level : i + 4 - (i + 4) ≡ 0 = omega arith in
    let shape : ◌≡◌ {A = Decimal}
        (record {
          num =
              pos (1 * 10 ^ (max 0 (i + 4) - 0))
              -ℤ pos (b * 10 ^ i * 10 ^ (max 0 (i + 4) - (i + 4)));
          scale = max 0 (i + 4);
        })
        (record { num = pos ((10_000 - b) * 10 ^ i); scale = i + 4 }) =
      rw (zero-max (i + 4), sub-zero (i + 4), level)
        (decimal_eq
          (sub-pos (1 * 10 ^ (i + 4)) (b * 10 ^ i * 1) (omega arith) ∙ ap pos (omega arith))
          refl) in
    (j, ap fit shape ∙ same)

-- The product with a stored rate.
pub of_mid :
    (m c j : ℕ)
    → m * c < 10 ^ 28
    → (i : ℕ) × (mul (of_rate (pos m)) (record { num = pos (c * 10 ^ j); scale = j + 4 })
        ≡ record { num = pos (m * c * 10 ^ i); scale = i + 14 })
unfolding mul
of_mid m c j small =
    let (i, same) = fit-zeros (m * c) j 14 small in
    (
      i,
      ap fit (
            decimal_eq (mul-pos m (c * 10 ^ j) ∙ ap pos (sym (mul_assoc m c (10 ^ j))))
              (omega arith))
          ∙ same,
    )
