-- ===== src/Quotes/Readiness.antt =====
-- The freshness that `/readyz` reports, and the one that `create_quote` asks for.
use umba_fx_engine.Prelude.{ℕ, ◌≡◌, ◌↔◌, Option, none, some, arith}
use umba_fx_engine.Settings.{Settings}
use umba_fx_engine.Session.{World, returned}
use umba_fx_engine.Repositories.Rates.{latest, get_latest_current_rate}
use umba_fx_engine.Rates.{fresh, status_of, rates_freshness_status}
use umba_fx_engine.Quotes.{check_freshness}

both_fresh :
    (settings : Settings) (last : Option ℕ) (w : World)
    → ((status_of settings last w).0 ≡ returned fresh)
      ↔ ((check_freshness settings last w).0 ≡ returned tt)
unfolding status_of check_freshness
both_fresh settings none w = (λ h. cc, λ h. cc)
both_fresh settings (some last) w = (λ h. ground arith, λ h. ground arith)

-- At every reading of the clock, `/readyz` reports fresh rates exactly when `create_quote` does not
-- refuse the stored rates as stale or unavailable.
pub rates_freshness_status_iff :
    (settings : Settings) (w : World)
    → ((rates_freshness_status settings w).0 ≡ returned fresh)
      ↔ ((check_freshness settings (latest w.db.work.rates) w).0 ≡ returned tt)
unfolding rates_freshness_status get_latest_current_rate
rates_freshness_status_iff settings w = both_fresh settings (latest w.db.work.rates) w
