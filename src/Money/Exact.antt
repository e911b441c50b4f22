-- ===== src/Money/Exact.antt =====
-- Coefficients that end in zeros: the context's 28 digits lose nothing of them.
use native.Mathlib.Nat.{
  add-zero, add-suc, pow-zero, pow-suc, sub-add_cancel, mul_assoc, mul-le-mul_right,
  mul-lt-mul_of_pos_right, le_of_mul-le-mul_right, pow-le-pow_right,
}
use umba_fx_engine.Prelude.{
  ℕ, zero, suc, ◌+◌, ◌-◌, ◌*◌, ◌≤◌, ◌<◌, ◌^◌, ◌≡◌, refl, sym, ap, ◌∙◌, Bool-cases, inl, inr, ltb,
  arith,
}
use umba_fx_engine.Prelude.Int.{pos}
use umba_fx_engine.Money.Arithmetic.{half_even, count_digits, fit, coefficient_limit}
use umba_fx_engine.Money.Digits.{count_digits_exact}
use umba_fx_engine.Money.Rounding.{half_even_exact, pow-pos, IsNearest}

pub pow_add : (a b : ℕ) → 10 ^ (a + b) ≡ 10 ^ a * 10 ^ b
pow_add a zero = rw (add-zero, pow-zero) (omega arith)
pow_add a (suc b) = rw (add-suc, pow-suc, pow-suc, pow_add a b) (omega arith)

-- A larger power has a larger exponent.
lt_of_pow : (a b : ℕ) → 10 ^ a < 10 ^ b → a < b
lt_of_pow a b h = elim (Bool-cases (ltb a b)) [
  | inl less ↦ ground arith
  | inr more ↦
      let turned : b ≤ a = ground arith in
      omega (arith, pow-le-pow_right {n = 10} (omega arith) turned)
]

-- A number with `j` zeros at its end has no more than 28 + j digits if the rest has 28 at most.
pub count_digits_zeros :
    (a j : ℕ) → a < 10 ^ 28 → 0 < a * 10 ^ j → count_digits (a * 10 ^ j) ≤ 28 + j
count_digits_zeros a j small positive =
    let (_, least) = count_digits_exact (a * 10 ^ j) positive in
    let less : 10 ^ count_digits (a * 10 ^ j) < 10 ^ (29 + j) =
      let more : a * 10 ^ j < 10 ^ 28 * 10 ^ j = mul-lt-mul_of_pos_right small (pow-pos j) in
      rw (pow_add 29 j) (omega arith) in
    omega (arith, lt_of_pow (count_digits (a * 10 ^ j)) (29 + j) less)

-- Zeros taken off.
zeros_split : (j k : ℕ) → k ≤ j → 10 ^ j ≡ 10 ^ (j - k) * 10 ^ k
zeros_split j k within = ap (λ x. 10 ^ x) (sym (sub-add_cancel within)) ∙ pow_add (j - k) k

pub half_even-zeros : (a j k : ℕ) → k ≤ j → half_even (a * 10 ^ j) (10 ^ k) ≡ a * 10 ^ (j - k)
half_even-zeros a j k within =
    ap (λ m. half_even m (10 ^ k))
      (ap (λ m. a * m) (zeros_split j k within) ∙ sym (mul_assoc a (10 ^ (j - k)) (10 ^ k)))
    ∙ half_even_exact (a * 10 ^ (j - k)) (10 ^ k) (pow-pos k)

-- A number with that many zeros is kept, whatever its scale beyond them.
pub fit-zeros :
    (a j e : ℕ)
    → a < 10 ^ 28
    → (i : ℕ) × (fit (record { num = pos (a * 10 ^ j); scale = j + e })
        ≡ record { num = pos (a * 10 ^ i); scale = i + e })
unfolding fit
fit-zeros a j e small = elim (Bool-cases (ltb (a * 10 ^ j) coefficient_limit)) [
  | inl short ↦ (j, rw short refl)
  | inr long ↦
      let k = count_digits (a * 10 ^ j) - 28 in
      let positive : 0 < a * 10 ^ j = ground arith in
      let within : k ≤ j = omega (arith, count_digits_zeros a j small positive) in
      let whole : half_even (a * 10 ^ j) (10 ^ k) ≡ a * 10 ^ (j - k) =
        half_even-zeros a j k within in
      let gone : k - (j + e) ≡ 0 = omega arith in
      let left : j + e - k ≡ j - k + e = omega arith in
      (
        j - k,
        rw (long, whole, gone, left)
            (ap (λ m. record { num = pos m; scale = j - k + e }) (omega arith)),
      )
]

-- What is nearest to a fraction is nearest to it in any other terms.
module _ (n d n' d' q : ℕ) (same : n * d' ≡ n' * d) (dpos : 0 < d) (dpos' : 0 < d') where
  tie_up : 2 * n' ≡ 2 * (q * d') + d' → 2 * n ≡ 2 * (q * d) + d
  tie_up h =
      let scaled = ap (λ z. z * d) h in
      let up : 2 * n ≤ 2 * (q * d) + d = le_of_mul-le-mul_right {k = d'} (omega arith) dpos' in
      let down : 2 * (q * d) + d ≤ 2 * n = le_of_mul-le-mul_right {k = d'} (omega arith) dpos' in
      omega arith

  tie_down : 2 * (q * d') ≡ 2 * n' + d' → 2 * (q * d) ≡ 2 * n + d
  tie_down h =
      let scaled = ap (λ z. z * d) h in
      let up : 2 * (q * d) ≤ 2 * n + d = le_of_mul-le-mul_right {k = d'} (omega arith) dpos' in
      let down : 2 * n + d ≤ 2 * (q * d) = le_of_mul-le-mul_right {k = d'} (omega arith) dpos' in
      omega arith

  pub IsNearest-rescale : IsNearest n d q → IsNearest n' d' q
  IsNearest-rescale x = record {
    above = le_of_mul-le-mul_right {k = d} (omega (arith, mul-le-mul_right d' x.above)) dpos;
    below = le_of_mul-le-mul_right {k = d} (omega (arith, mul-le-mul_right d' x.below)) dpos;
    even_up = λ h. x.even_up (tie_up h);
    even_down = λ h. x.even_down (tie_down h);
  }
