-- ===== src/Money/Arithmetic.antt =====
-- `decimal.Decimal` under the default context (28 digits, ROUND_HALF_EVEN), as app/utils/money.py and
-- the services use it. A finite decimal is `num / 10 ^ scale`. Every operation below is determined by
-- the values of its arguments, so an exponent above zero is written out in `num`.
use umba_fx_engine.Prelude.{
  true, false, ℕ, zero, suc, ◌+◌, ◌-◌, ◌*◌, ◌/◌, ◌%◌, ◌^◌, Bool, Option, none, some, ltb, ◌==◌,
  if◌then◌else◌,
}
use umba_fx_engine.Prelude.Int.{ℤ, pos, magnitude, with_sign, ◌+ℤ◌, ◌-ℤ◌, ◌*ℤ◌, ltb_ℤ, leb_ℤ}
use Prim.Native.Nat.{max}

pub record Decimal : Type 0 where
  pub num : ℤ
  pub scale : ℕ

-- n / d as a whole number, a tie going to the even neighbour (ROUND_HALF_EVEN).
unfoldable pub half_even : ℕ → ℕ → ℕ
half_even n d =
    let q = n / d in
    let r = n % d in
    if ltb (2 * r) d then q else if ltb d (2 * r) then q + 1 else if q % 2 == 0 then q else q + 1

-- The context's precision, and the first coefficient that has more digits than that.
abbrev pub precision : ℕ
precision = 28

abbrev pub coefficient_limit : ℕ
coefficient_limit = 10 ^ 28

-- The number of decimal digits of `n`; `n` rounds are enough.
unfoldable pub count_digits_from : ℕ → ℕ → ℕ
count_digits_from zero n = 0
count_digits_from (suc fuel) n = elim (n == 0) [
  | true ↦ 0
  | false ↦ suc (count_digits_from fuel (n / 10))
]

unfoldable pub count_digits : ℕ → ℕ
unfolding count_digits_from
count_digits n = count_digits_from n n

-- The num of a value when its scale grows by `k`.
abbrev pub shift : ℕ → ℤ → ℤ
shift k = with_sign (λ m. m * 10 ^ k)

-- A result rounded to the context's precision.
unfoldable pub fit : Decimal → Decimal
unfolding half_even count_digits
fit x =
    let k = count_digits (magnitude x.num) - precision in
    if ltb (magnitude x.num) coefficient_limit then x else record {
      num = with_sign (λ m. half_even m (10 ^ k) * 10 ^ (k - x.scale)) x.num;
      scale = x.scale - k;
    }

-- `a + b`, `a - b`, `a * b`.
unfoldable pub add : Decimal → Decimal → Decimal
unfolding fit ◌+ℤ◌
add a b =
    let s = max a.scale b.scale in
    fit (record { num = shift (s - a.scale) a.num +ℤ shift (s - b.scale) b.num; scale = s })

unfoldable pub sub : Decimal → Decimal → Decimal
unfolding fit ◌-ℤ◌
sub a b =
    let s = max a.scale b.scale in
    fit (record { num = shift (s - a.scale) a.num -ℤ shift (s - b.scale) b.num; scale = s })

unfoldable pub mul : Decimal → Decimal → Decimal
unfolding fit ◌*ℤ◌
mul a b = fit (record { num = a.num *ℤ b.num; scale = a.scale + b.scale })

-- n / d to 28 digits: with `s` more places the whole part of the quotient has 28 digits at least, and
-- `k` of them are then too many.
unfoldable pub div_magnitude : ℕ → ℕ → Decimal
unfolding half_even count_digits
div_magnitude n d =
    let s = precision + count_digits d in
    let k = count_digits (n * 10 ^ s / d) - precision in
    record { num = pos (half_even (n * 10 ^ s) (d * 10 ^ k) * 10 ^ (k - s)); scale = s - k }

-- `a / b`; `none` is DivisionByZero, or InvalidOperation for 0 / 0.
unfoldable pub div : Decimal → Decimal → Option Decimal
unfolding div_magnitude ◌*ℤ◌ ◌-ℤ◌
div a b =
    let n = magnitude a.num * 10 ^ b.scale in
    let d = magnitude b.num * 10 ^ a.scale in
    let q = div_magnitude n d in
    if magnitude b.num == 0
    then none
    else some
        (record q { num = (if ltb_ℤ (a.num *ℤ b.num) (pos 0) then pos 0 -ℤ q.num else q.num) })

-- `a < b` and `a <= b` are exact.
abbrev pub lt_decimal : Decimal → Decimal → Bool
lt_decimal a b = ltb_ℤ (shift b.scale a.num) (shift a.scale b.num)

abbrev pub le_decimal : Decimal → Decimal → Bool
le_decimal a b = leb_ℤ (shift b.scale a.num) (shift a.scale b.num)

-- `x.quantize(10 ** -places, rounding=ROUND_HALF_EVEN)`, given by the coefficient of the result;
-- `none` is InvalidOperation: the coefficient would not fit the context's precision.
unfoldable pub quantize : ℕ → Decimal → Option ℤ
unfolding half_even
quantize places x =
    let c = with_sign (λ m. half_even (m * 10 ^ places) (10 ^ x.scale)) x.num in
    if ltb (magnitude c) coefficient_limit then some c else none
