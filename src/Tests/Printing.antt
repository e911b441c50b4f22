-- ===== src/Tests/Printing.antt =====
-- A decimal printed and read.
use umba_fx_engine.Prelude.{◌≡◌, some}
use umba_fx_engine.Prelude.Int.{negsuc}
use umba_fx_engine.Money.Arithmetic.{Decimal}
use umba_fx_engine.Money.Printing.{decimal_to_str}
use umba_fx_engine.Money.RoundTrip.{read_decimal, read-decimal_to_str}

-- -0.05
abbrev small_debt : Decimal
small_debt = record { num = negsuc 4; scale = 2 }

read-decimal_to_str_example : read_decimal (decimal_to_str small_debt) ≡ some small_debt
read-decimal_to_str_example = read-decimal_to_str small_debt
