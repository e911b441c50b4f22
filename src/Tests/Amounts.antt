-- ===== src/Tests/Amounts.antt =====
-- Concrete amounts.
use umba_fx_engine.Prelude.{◌≡◌, refl, some, ◌*◌, ◌^◌, arith}
use umba_fx_engine.Prelude.Int.{pos, negsuc, ◌+ℤ◌}
use umba_fx_engine.Money.{usd, of_cents, round_money, round_rate}
use umba_fx_engine.Money.Arithmetic.{Decimal, add, half_even}
use umba_fx_engine.Money.Rounding.{
  IsNearest, round_money-IsNearest, round_rate-IsNearest, round_money-add,
}

-- 0.125, between 0.12 and 0.13.
abbrev eighth : Decimal
eighth = record { num = pos 125; scale = 3 }

eighth_rounds : round_money eighth usd ≡ some (pos 12)
unfolding round_money half_even
eighth_rounds = refl

round_money-IsNearest_example : IsNearest (125 * 10 ^ 2) (10 ^ 3) 12
round_money-IsNearest_example = round_money-IsNearest eighth usd eighth_rounds

-- 0.00772797531, of eleven places.
abbrev small_rate : Decimal
small_rate = record { num = pos 772_797_531; scale = 11 }

small_rate_rounds : round_rate small_rate ≡ some (pos 77_279_753)
unfolding round_rate half_even
small_rate_rounds = refl

round_rate-IsNearest_example : IsNearest (772_797_531 * 10 ^ 10) (10 ^ 11) 77_279_753
round_rate-IsNearest_example = round_rate-IsNearest small_rate small_rate_rounds

round_money-add_example :
    round_money (add (of_cents (pos 150)) (of_cents (negsuc 24))) usd ≡ some (pos 150 +ℤ negsuc 24)
round_money-add_example = round_money-add (pos 150) (negsuc 24) usd (ground arith) (ground arith)
