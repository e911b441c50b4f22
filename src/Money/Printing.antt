-- ===== src/Money/Printing.antt =====
-- app/utils/money.py, `decimal_to_str`: `format(value, "f")`.
use umba_fx_engine.Prelude.{ℕ, zero, suc, ◌+◌, ◌/◌, ◌%◌, ◌^◌, List, [], ◌∷◌, ◌++◌}
use umba_fx_engine.Prelude.Int.{ℤ, pos, negsuc, magnitude}
use umba_fx_engine.Money.Arithmetic.{Decimal, count_digits}

-- The last `k` digits of `n`, as characters.
unfoldable pub pad : ℕ → ℕ → List ℕ
pad zero n = []
pad (suc k) n = (b'0' + n / 10 ^ k) ∷ pad k (n % 10 ^ k)

abbrev pub at_least_one : ℕ → ℕ
at_least_one zero = 1
at_least_one (suc k) = suc k

unfoldable pub print_nat : ℕ → List ℕ
unfolding pad count_digits
print_nat n = pad (at_least_one (count_digits n)) n

abbrev pub sign : ℤ → List ℕ
sign (pos n) = []
sign (negsuc n) = b'-' ∷ []

-- The digits after the point, all of the value's scale; a whole value has no point.
abbrev pub fraction : ℕ → ℕ → List ℕ
fraction zero n = []
fraction (suc s) n = b'.' ∷ pad (suc s) n

-- The characters of the result.
unfoldable pub decimal_to_str : Decimal → List ℕ
unfolding print_nat
decimal_to_str x =
    sign x.num
    ++ (print_nat (magnitude x.num / 10 ^ x.scale)
        ++ fraction x.scale (magnitude x.num % 10 ^ x.scale))
