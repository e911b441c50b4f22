-- ===== src/Repositories/Balances/Range.antt =====
-- Balances that the column `NUMERIC(20, 2)` of app/db/models.py holds.
use umba_fx_engine.Prelude.{ℕ, ◌^◌, ◌<◌, ◌≡◌, true, arith}
use umba_fx_engine.Prelude.Int.{ℤ, magnitude}
use umba_fx_engine.Money.{Currency}
use umba_fx_engine.Schema.Columns.{numeric_fits}
use umba_fx_engine.Repositories.Balances.{BalanceTable}
use umba_fx_engine.Repositories.Balances.Laws.{cash}

abbrev pub InRange : BalanceTable → Type 0
InRange table = (c : ℕ) (k : Currency) → numeric_fits (cash table c k) ≡ true

pub numeric_fits-lt : (b : ℤ) → numeric_fits b ≡ true → magnitude b < 10 ^ 20
numeric_fits-lt b h = ground arith
