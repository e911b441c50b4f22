-- ===== src/Observability.antt =====
-- app/utils/observability.py: what a call adds to a counter.
use umba_fx_engine.Prelude.{suc}
use umba_fx_engine.Session.{Metrics}

abbrev pub quote_created : Metrics → Metrics
quote_created m = record m { quote_created_total = suc m.quote_created_total }

abbrev pub quote_expired : Metrics → Metrics
quote_expired m = record m { quote_expired_total = suc m.quote_expired_total }

abbrev pub execution_success : Metrics → Metrics
execution_success m = record m { execution_success_total = suc m.execution_success_total }

abbrev pub execution_failure : Metrics → Metrics
execution_failure m = record m { execution_failure_total = suc m.execution_failure_total }

abbrev pub idempotency_replay : Metrics → Metrics
idempotency_replay m = record m { idempotency_replay_total = suc m.idempotency_replay_total }

abbrev pub idempotency_conflict : Metrics → Metrics
idempotency_conflict m = record m { idempotency_conflict_total = suc m.idempotency_conflict_total }

abbrev pub insufficient_funds : Metrics → Metrics
insufficient_funds m = record m { insufficient_funds_total = suc m.insufficient_funds_total }

abbrev pub rate_refresh_success : Metrics → Metrics
rate_refresh_success m = record m { rate_refresh_success_total = suc m.rate_refresh_success_total }

abbrev pub rate_refresh_failure : Metrics → Metrics
rate_refresh_failure m = record m { rate_refresh_failure_total = suc m.rate_refresh_failure_total }

abbrev pub stale_rates : Metrics → Metrics
stale_rates m = record m { stale_rates_total = suc m.stale_rates_total }
