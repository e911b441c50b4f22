-- ===== src/Schema/Columns.antt =====
-- The ranges of the columns of app/db/models.py, as Postgres enforces them on an insert.
use umba_fx_engine.Prelude.{ℕ, ◌^◌, Bool, ltb}
use umba_fx_engine.Prelude.Int.{ℤ, magnitude}

-- `NUMERIC(20, s)` holds a coefficient of twenty digits, for money (s = 2) and rates (s = 10).
abbrev pub numeric_precision : ℕ
numeric_precision = 20

abbrev pub numeric_fits : ℤ → Bool
numeric_fits c = ltb (magnitude c) (10 ^ numeric_precision)
