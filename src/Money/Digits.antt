-- ===== src/Money/Digits.antt =====
-- How many digits a coefficient has.
use native.Mathlib.Nat.{pow-suc}
use umba_fx_engine.Prelude.{
  ℕ, zero, suc, ◌*◌, ◌/◌, ◌≤◌, ◌<◌, ◌^◌, ◌≡◌, refl, ◌==◌, Bool-cases, inl, inr, arith,
}
use umba_fx_engine.Money.Arithmetic.{count_digits, count_digits_from}

from_zero : (fuel n : ℕ) → n ≡ 0 → count_digits_from fuel n ≡ 0
unfolding count_digits_from
from_zero zero n h = refl
from_zero (suc fuel) n h = ground arith

from_none : (n : ℕ) → count_digits_from zero n ≡ 0
unfolding count_digits_from
from_none n = refl

from_suc :
    (fuel n : ℕ) → 0 < n → count_digits_from (suc fuel) n ≡ suc (count_digits_from fuel (n / 10))
unfolding count_digits_from
from_suc fuel n h = ground arith

-- The rounds end before the fuel does.
below_from : (fuel n : ℕ) → n ≤ fuel → n < 10 ^ count_digits_from fuel n
below_from zero n h = rw (from_zero zero n (omega arith)) (omega arith)
below_from (suc fuel) n h = elim (Bool-cases (n == 0)) [
  | inl none ↦
      let is_zero : n ≡ 0 = ground arith in rw (from_zero (suc fuel) n is_zero) (omega arith)
  | inr some ↦
      let positive : 0 < n = ground arith in
      let rest = below_from fuel (n / 10) (omega arith) in
      rw (from_suc fuel n positive, pow-suc) (omega arith)
]

least_from : (fuel n : ℕ) → 0 < n → 10 ^ count_digits_from fuel n ≤ 10 * n
least_from zero n h = rw (from_none n) (omega arith)
least_from (suc fuel) n h = elim (Bool-cases (n / 10 == 0)) [
  | inl none ↦
      let last : n / 10 ≡ 0 = ground arith in
      rw (from_suc fuel n h, from_zero fuel (n / 10) last) (omega arith)
  | inr some ↦
      let more : 0 < n / 10 = ground arith in
      let rest = least_from fuel (n / 10) more in rw (from_suc fuel n h, pow-suc) (omega arith)
]

-- `count_digits` counts the decimal digits of every positive number: its rounds suffice, and none is
-- counted that is not there.
pub count_digits_exact :
    (n : ℕ) → 0 < n → (n < 10 ^ count_digits n) × (10 ^ count_digits n ≤ 10 * n)
unfolding count_digits
count_digits_exact n h = (below_from n n (omega arith), least_from n n h)
