-- ===== src/Money/Rounding.antt =====
-- What the roundings of app/utils/money.py do to an amount.
use native.Mathlib.Nat.{div-add-mod, mod-lt, mul-div_cancel, mul-mod_left, pow-suc}
use umba_fx_engine.Prelude.{ℕ, zero, suc, ◌+◌, ◌*◌, ◌%◌, ◌≤◌, ◌<◌, ◌^◌, ◌≡◌, some, arith}
use umba_fx_engine.Prelude.Int.{ℤ, pos, negsuc, magnitude, ◌+ℤ◌, ◌-ℤ◌}
use umba_fx_engine.Money.{Currency, of_cents, round_money, round_rate}
use umba_fx_engine.Money.Arithmetic.{Decimal, half_even, quantize, add, sub}

pub half_even_nearest :
    (n d : ℕ)
    → 0 < d
    → (2 * (half_even n d * d) ≤ 2 * n + d) × (2 * n ≤ 2 * (half_even n d * d) + d)
unfolding half_even
half_even_nearest n d h = grind (arith, div-add-mod n d, mod-lt n h)

pub half_even_tie :
    (n d : ℕ) → 0 < d → (2 * n ≡ 2 * (half_even n d * d) + d) → half_even n d % 2 ≡ 0
unfolding half_even
half_even_tie n d h = grind (arith, div-add-mod n d, mod-lt n h)

half_even_tie_up : (n d : ℕ) → 0 < d → (2 * (half_even n d * d) ≡ 2 * n + d) → half_even n d % 2 ≡ 0
unfolding half_even
half_even_tie_up n d h = grind (arith, div-add-mod n d, mod-lt n h)

pub half_even_exact : (m d : ℕ) → 0 < d → half_even (m * d) d ≡ m
unfolding half_even
half_even_exact m d h = ground (arith, mul-div_cancel m h, mul-mod_left m d)

half_even_hundred : (m : ℕ) → half_even (m * 100) 100 ≡ m
half_even_hundred m = half_even_exact m 100 (omega arith)

pub round_money-of_cents :
    (c : ℤ) (k : Currency) → magnitude c < 10 ^ 28 → round_money (of_cents c) k ≡ some c
unfolding round_money
round_money-of_cents (pos n) k h = ground (arith, half_even_hundred n)
round_money-of_cents (negsuc n) k h = ground (arith, half_even_hundred (suc n))

add_cents :
    (a b : ℤ)
    → magnitude a < 10 ^ 27
    → magnitude b < 10 ^ 27
    → add (of_cents a) (of_cents b) ≡ of_cents (a +ℤ b)
unfolding add ◌+ℤ◌
add_cents (pos a) (pos b) h k = ground arith
add_cents (negsuc a) (pos b) h k = ground arith
add_cents (pos a) (negsuc b) h k = ground arith
add_cents (negsuc a) (negsuc b) h k = ground arith

sub_cents :
    (a b : ℤ)
    → magnitude a < 10 ^ 27
    → magnitude b < 10 ^ 27
    → sub (of_cents a) (of_cents b) ≡ of_cents (a -ℤ b)
unfolding sub ◌-ℤ◌
sub_cents (pos a) (pos b) h k = ground arith
sub_cents (negsuc a) (pos b) h k = ground arith
sub_cents (pos a) (negsuc b) h k = ground arith
sub_cents (negsuc a) (negsuc b) h k = ground arith

magnitude-add : (a b : ℤ) → magnitude (a +ℤ b) ≤ magnitude a + magnitude b
unfolding ◌+ℤ◌
magnitude-add a b = ground arith

magnitude-sub : (a b : ℤ) → magnitude (a -ℤ b) ≤ magnitude a + magnitude b
unfolding ◌-ℤ◌
magnitude-sub a b = ground arith

-- A sum of two amounts below 10 ^ 27 cents is exact: neither the context nor `round_money` changes it.
pub round_money-add :
    (a b : ℤ) (k : Currency)
    → magnitude a < 10 ^ 27
    → magnitude b < 10 ^ 27
    → round_money (add (of_cents a) (of_cents b)) k ≡ some (a +ℤ b)
round_money-add a b k h i =
    rw (add_cents a b h i) (round_money-of_cents (a +ℤ b) k (omega (arith, magnitude-add a b)))

-- A difference of two amounts below 10 ^ 27 cents is exact in the same way.
pub round_money-sub :
    (a b : ℤ) (k : Currency)
    → magnitude a < 10 ^ 27
    → magnitude b < 10 ^ 27
    → round_money (sub (of_cents a) (of_cents b)) k ≡ some (a -ℤ b)
round_money-sub a b k h i =
    rw (sub_cents a b h i) (round_money-of_cents (a -ℤ b) k (omega (arith, magnitude-sub a b)))

-- `IsNearest n d q`: no whole number is nearer to n / d than q, and a tie went to the even one.
pub record IsNearest (n d q : ℕ) : Type 0 where
  pub above : 2 * n ≤ 2 * (q * d) + d
  pub below : 2 * (q * d) ≤ 2 * n + d
  pub even_up : 2 * n ≡ 2 * (q * d) + d → q % 2 ≡ 0
  pub even_down : 2 * (q * d) ≡ 2 * n + d → q % 2 ≡ 0

pub half_even-IsNearest : (n d : ℕ) → 0 < d → IsNearest n d (half_even n d)
half_even-IsNearest n d h = record {
  above = (half_even_nearest n d h).1;
  below = (half_even_nearest n d h).0;
  even_up = half_even_tie n d h;
  even_down = half_even_tie_up n d h;
}

magnitude-quantize :
    (places : ℕ) (x : Decimal) {c : ℤ}
    → quantize places x ≡ some c
    → magnitude c ≡ half_even (magnitude x.num * 10 ^ places) (10 ^ x.scale)
unfolding quantize
magnitude-quantize places x h = from x.num h
  where
    from :
        (z : ℤ) {c : ℤ}
        → quantize places (record { num = z; scale = x.scale }) ≡ some c
        → magnitude c ≡ half_even (magnitude z * 10 ^ places) (10 ^ x.scale)
    from (pos n) h = ground arith
    from (negsuc n) h = ground arith

pub pow-pos : (s : ℕ) → 0 < 10 ^ s
pow-pos zero = omega arith
pow-pos (suc s) = rw pow-suc (omega (arith, pow-pos s))

-- `round_money` gives the nearest number of hundredths, by the distance from zero, and the even one
-- of two that are equally near.
pub round_money-IsNearest :
    (x : Decimal) (k : Currency) {c : ℤ}
    → round_money x k ≡ some c
    → IsNearest (magnitude x.num * 10 ^ 2) (10 ^ x.scale) (magnitude c)
unfolding round_money
round_money-IsNearest x k h =
    rw (magnitude-quantize 2 x h)
      (half_even-IsNearest (magnitude x.num * 10 ^ 2) (10 ^ x.scale) (pow-pos x.scale))

-- `round_rate` does the same with the units of 10 ^ -10.
pub round_rate-IsNearest :
    (x : Decimal) {c : ℤ}
    → round_rate x ≡ some c
    → IsNearest (magnitude x.num * 10 ^ 10) (10 ^ x.scale) (magnitude c)
unfolding round_rate
round_rate-IsNearest x h =
    rw (magnitude-quantize 10 x h)
      (half_even-IsNearest (magnitude x.num * 10 ^ 10) (10 ^ x.scale) (pow-pos x.scale))
