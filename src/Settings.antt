-- ===== src/Settings.antt =====
-- app/configs/settings.py: the settings that the services read, with their defaults.
use umba_fx_engine.Prelude.{ℕ}
use umba_fx_engine.Prelude.Int.{ℤ, pos}

pub record Settings : Type 0 where
  pub rate_freshness_seconds : ℕ
  pub default_buy_spread_bps : ℤ
  pub default_sell_spread_bps : ℤ

abbrev pub default_settings : Settings
default_settings = record {
  rate_freshness_seconds = 300;
  default_buy_spread_bps = pos 50;
  default_sell_spread_bps = pos 50;
}

-- `timedelta(seconds=n)`, in microseconds.
abbrev pub second : ℕ
second = 1_000_000
