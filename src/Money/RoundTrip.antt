-- ===== src/Money/RoundTrip.antt =====
-- A printed decimal is read back: no digit of a response is lost.
use native.Mathlib.Nat.{pow-suc, div-add-mod', div-lt_iff_lt-mul, mod-lt}
use umba_fx_engine.Prelude.{
  ℕ, zero, suc, ◌+◌, ◌-◌, ◌*◌, ◌/◌, ◌%◌, ◌^◌, ◌<◌, ◌≡◌, refl, ap, ◌∙◌, Bool, true, false, ◌&&◌,
  Option, none, some, List, [], ◌∷◌, ◌++◌, leb, ◌==◌, if◌then◌else◌, arith,
}
use umba_fx_engine.Prelude.Int.{ℤ, pos, negsuc}
use umba_fx_engine.Money.Arithmetic.{Decimal, count_digits}
use umba_fx_engine.Money.Digits.{count_digits_exact}
use umba_fx_engine.Money.Rounding.{pow-pos}
use umba_fx_engine.Money.Printing.{pad, at_least_one, print_nat, fraction, decimal_to_str}

abbrev negated : ℕ → ℤ
negated zero = pos 0
negated (suc n) = negsuc n

abbrev map_option : {A B : Type 0} → (A → B) → Option A → Option B
map_option f none = none
map_option f (some a) = some (f a)

abbrev is_digit : ℕ → Bool
is_digit c = leb b'0' c && leb c b'9'

-- A reader of decimals, independent of the printer: the digits behind the point, to the coefficient and
-- the number of places; `none` is a text that is no decimal.
pub read_fraction : List ℕ → ℕ → ℕ → Option (ℕ × ℕ)
read_fraction [] n s = some (n, s)
read_fraction (c ∷ cs) n s =
    let rest = read_fraction cs (n * 10 + (c - b'0')) (suc s) in if is_digit c then rest else none

-- … and those before it.
pub read_whole : List ℕ → ℕ → Option (ℕ × ℕ)
unfolding read_fraction
read_whole [] n = some (n, 0)
read_whole (c ∷ cs) n =
    let rest = read_whole cs (n * 10 + (c - b'0')) in
    if c == b'.' then read_fraction cs n 0 else if is_digit c then rest else none

abbrev signed : Bool → ℕ × ℕ → Decimal
signed true (n, s) = record { num = negated n; scale = s }
signed false (n, s) = record { num = pos n; scale = s }

pub read_decimal : List ℕ → Option Decimal
unfolding read_whole
read_decimal [] = none
read_decimal (c ∷ cs) =
    if c == b'-'
    then map_option (signed true) (read_whole cs 0)
    else map_option (signed false) (read_whole (c ∷ cs) 0)

digit-lt : (k f : ℕ) → f < 10 ^ suc k → f / 10 ^ k < 10
digit-lt k f h = let h' = rw pow-suc at h in (div-lt_iff_lt-mul (pow-pos k)).1 (omega arith)

rest-lt : (k f : ℕ) → f % 10 ^ k < 10 ^ k
rest-lt k f = mod-lt f (pow-pos k)

distribute : (n q p r : ℕ) → (n * 10 + q) * p + r ≡ n * (10 * p) + (q * p + r)
distribute n q p r = grind arith

carry : (k f n : ℕ) → (n * 10 + f / 10 ^ k) * 10 ^ k + f % 10 ^ k ≡ n * 10 ^ suc k + f
carry k f n =
    rw (pow-suc, distribute n (f / 10 ^ k) (10 ^ k) (f % 10 ^ k), div-add-mod' f (10 ^ k))
      (grind arith)

fraction_digit :
    (d : ℕ) (cs : List ℕ) (n s : ℕ)
    → d < 10
    → read_fraction ((b'0' + d) ∷ cs) n s ≡ read_fraction cs (n * 10 + d) (suc s)
unfolding read_fraction
fraction_digit d cs n s h = let same : b'0' + d - b'0' ≡ d = omega arith in rw same (ground arith)

whole_digit :
    (d : ℕ) (cs : List ℕ) (n : ℕ)
    → d < 10
    → read_whole ((b'0' + d) ∷ cs) n ≡ read_whole cs (n * 10 + d)
unfolding read_whole
whole_digit d cs n h = let same : b'0' + d - b'0' ≡ d = omega arith in rw same (ground arith)

read_fraction-pad :
    (k f n s : ℕ) → f < 10 ^ k → read_fraction (pad k f) n s ≡ some (n * 10 ^ k + f, s + k)
unfolding read_fraction pad
read_fraction-pad zero f n s h = ground arith
read_fraction-pad (suc k) f n s h =
    let d = digit-lt k f h in
    let ih = read_fraction-pad k (f % 10 ^ k) (n * 10 + f / 10 ^ k) (suc s) (rest-lt k f) in
    fraction_digit (f / 10 ^ k) (pad k (f % 10 ^ k)) n s d ∙ ih ∙ rw (carry k f n) (ground arith)

read_whole-pad :
    (k f n : ℕ) (rest : List ℕ)
    → f < 10 ^ k
    → read_whole (pad k f ++ rest) n ≡ read_whole rest (n * 10 ^ k + f)
unfolding read_whole pad
read_whole-pad zero f n rest h =
    let same : n ≡ n * 10 ^ 0 + f = omega arith in ap (read_whole rest) same
read_whole-pad (suc k) f n rest h =
    let d = digit-lt k f h in
    let ih = read_whole-pad k (f % 10 ^ k) (n * 10 + f / 10 ^ k) rest (rest-lt k f) in
    whole_digit (f / 10 ^ k) (pad k (f % 10 ^ k) ++ rest) n d
    ∙ ih
    ∙ ap (read_whole rest) (carry k f n)

at_least_one_fits : (c n : ℕ) → n < 10 ^ c → n < 10 ^ at_least_one c
at_least_one_fits zero n h = omega arith
at_least_one_fits (suc c) n h = h

print_nat_fits : (n : ℕ) → n < 10 ^ at_least_one (count_digits n)
print_nat_fits zero = at_least_one_fits (count_digits 0) 0 (pow-pos (count_digits 0))
print_nat_fits (suc n) =
    at_least_one_fits (count_digits (suc n)) (suc n) (count_digits_exact (suc n) (omega arith)).0

-- The whole part, before any rest.
read_whole-print_nat :
    (n : ℕ) (rest : List ℕ) → read_whole (print_nat n ++ rest) 0 ≡ read_whole rest n
unfolding print_nat
read_whole-print_nat n rest =
    let same : 0 * 10 ^ at_least_one (count_digits n) + n ≡ n = omega arith in
    read_whole-pad (at_least_one (count_digits n)) n 0 rest (print_nat_fits n)
    ∙ ap (read_whole rest) same

read_whole-point : (cs : List ℕ) (n : ℕ) → read_whole (b'.' ∷ cs) n ≡ read_fraction cs n 0
unfolding read_whole
read_whole-point cs n = refl

read_whole-nil : (n : ℕ) → read_whole [] n ≡ some (n, 0)
unfolding read_whole
read_whole-nil n = refl

-- The coefficient and the scale of a magnitude that was printed.
read_whole-print :
    (n s : ℕ) → read_whole (print_nat (n / 10 ^ s) ++ fraction s (n % 10 ^ s)) 0 ≡ some (n, s)
read_whole-print n zero =
    let same : n / 10 ^ 0 ≡ n = omega arith in
    read_whole-print_nat (n / 10 ^ 0) [] ∙ read_whole-nil (n / 10 ^ 0) ∙ rw same
read_whole-print n (suc s) =
    read_whole-print_nat (n / 10 ^ suc s) (fraction (suc s) (n % 10 ^ suc s))
    ∙ read_whole-point (pad (suc s) (n % 10 ^ suc s)) (n / 10 ^ suc s)
    ∙ read_fraction-pad (suc s) (n % 10 ^ suc s) (n / 10 ^ suc s) 0 (rest-lt (suc s) n)
    ∙ rw (div-add-mod' n (10 ^ suc s)) (ground arith)

-- A text that begins with a digit has no sign.
read_decimal-unsigned :
    (d : ℕ) (cs : List ℕ)
    → read_decimal ((b'0' + d) ∷ cs) ≡ map_option (signed false) (read_whole ((b'0' + d) ∷ cs) 0)
unfolding read_decimal
read_decimal-unsigned d cs = ground arith

read_decimal-print_nat :
    (n : ℕ) (rest : List ℕ)
    → read_decimal (print_nat n ++ rest)
      ≡ map_option (signed false) (read_whole (print_nat n ++ rest) 0)
unfolding print_nat pad
read_decimal-print_nat n rest = from (count_digits n)
  where
    from :
        (c : ℕ)
        → read_decimal (pad (at_least_one c) n ++ rest)
          ≡ map_option (signed false) (read_whole (pad (at_least_one c) n ++ rest) 0)
    from zero = read_decimal-unsigned (n / 10 ^ 0) _
    from (suc c) = read_decimal-unsigned (n / 10 ^ c) _

read_decimal-minus :
    (cs : List ℕ) → read_decimal (b'-' ∷ cs) ≡ map_option (signed true) (read_whole cs 0)
unfolding read_decimal
read_decimal-minus cs = refl

-- A decimal that is printed for a response is read back, with its sign, its digits and its places.
pub read-decimal_to_str : (x : Decimal) → read_decimal (decimal_to_str x) ≡ some x
unfolding decimal_to_str
read-decimal_to_str x = from x.num
  where
    from :
        (z : ℤ)
        → read_decimal (decimal_to_str (record { num = z; scale = x.scale }))
          ≡ some (record { num = z; scale = x.scale })
    from (pos n) =
        read_decimal-print_nat (n / 10 ^ x.scale) (fraction x.scale (n % 10 ^ x.scale))
        ∙ rw (read_whole-print n x.scale)
    from (negsuc n) = read_decimal-minus _ ∙ rw (read_whole-print (suc n) x.scale)
