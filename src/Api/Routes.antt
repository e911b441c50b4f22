-- ===== src/Api/Routes.antt =====
-- app/api/routes: the endpoints, on bodies that have been read and in the session of `get_db`.
use umba_fx_engine.Prelude.{ℕ, String, Bool, true, false, some, map}
use umba_fx_engine.Prelude.Int.{ℤ}
use umba_fx_engine.Money.{Currency}
use umba_fx_engine.Schema.{Payload, RefreshStatus, completed, failed, RateRefresh, Quote}
use umba_fx_engine.Settings.{Settings}
use umba_fx_engine.Session.{Action, ◌>>=◌, pure}
use umba_fx_engine.Session.Backend.{Engine}
use umba_fx_engine.Customers.{create_customer, get_balances, credit_balance}
use umba_fx_engine.Quotes.{QuoteRequest, create_quote}
use umba_fx_engine.Executions.{request_hash, execute_quote}
use umba_fx_engine.Rates.{
  refresh_rates, Freshness, unavailable, stale, fresh, rates_freshness_status,
}
use umba_fx_engine.Rates.Provider.{Reply}
use umba_fx_engine.Executions.Rejections.{Request}
use umba_fx_engine.Api.Schemas.{
  BalanceCreditRequest, QuoteBody, BalanceResponse, BalancesResponse, QuoteResponse,
  RateRefreshResponse, ReadinessResponse, money_text, rate_text,
}

unfoldable pub create_customer_endpoint : Engine → Action ℕ
create_customer_endpoint e = create_customer e

unfoldable pub get_balances_endpoint : Engine → ℕ → Action BalancesResponse
get_balances_endpoint e customer = do
  balances ← get_balances e customer
  pure (record {
    customer_id = customer;
    balances = map (λ (b : Currency × ℤ). (b.0, money_text b.1)) balances;
  })

unfoldable pub credit_balance_endpoint : Engine → ℕ → BalanceCreditRequest → Action BalanceResponse
credit_balance_endpoint e customer payload = do
  amount ← credit_balance e customer payload.currency payload.amount
  pure (record { currency = payload.currency; amount = money_text amount })

abbrev pub quote_response : Quote → QuoteResponse
quote_response quote = record {
  quote_id = quote.id;
  source_currency = quote.source_currency;
  destination_currency = quote.destination_currency;
  source_amount = money_text quote.source_amount;
  destination_amount = money_text quote.destination_amount;
  executable_rate = rate_text quote.executable_rate;
  route = quote.route;
  expires_at = quote.expires_at;
}

-- The arguments that the endpoint makes of a body; the middleware has set `request.state.request_id`.
abbrev pub quote_request : String → QuoteBody → QuoteRequest
quote_request request_id payload = record {
  customer_id = payload.customer_id;
  source_currency = payload.source_currency;
  destination_currency = payload.destination_currency;
  source_amount = payload.source_amount;
  request_id = some request_id;
}

unfoldable pub create_quote_endpoint : Engine → Settings → String → QuoteBody → Action QuoteResponse
create_quote_endpoint e settings request_id payload = do
  quote ← create_quote e settings (quote_request request_id payload)
  pure (quote_response quote)

-- The arguments that the endpoint makes of a body, a header and the request's id.
unfoldable pub execution_request : Engine → String → String → ℕ → Request
unfolding request_hash
execution_request e request_id idempotency_key quote_id = record {
  quote_id = quote_id;
  idempotency_key = idempotency_key;
  req_hash = request_hash e "POST" "/executions" quote_id;
  request_id = some request_id;
}

unfoldable pub execute_quote_endpoint : Engine → String → String → ℕ → Action Payload
unfolding execution_request
execute_quote_endpoint e request_id idempotency_key quote_id = do
  result ← execute_quote e (execution_request e request_id idempotency_key quote_id)
  pure result.0

-- `RateRefresh.status`
abbrev status_text : RefreshStatus → String
status_text completed = "completed"
status_text failed = "failed"

abbrev pub refresh_response : RateRefresh → RateRefreshResponse
refresh_response refresh = record {
  rate_refresh_id = refresh.id;
  status = status_text refresh.status;
  fetched_at = refresh.fetched_at;
  pairs_updated = refresh.pairs_updated;
}

unfoldable pub refresh_rates_endpoint :
    Engine → Settings → Reply → String → Action RateRefreshResponse
refresh_rates_endpoint e settings reply request_id = do
  refresh ← refresh_rates e settings reply (some request_id)
  pure (refresh_response refresh)

abbrev pub freshness_text : Freshness → String
freshness_text unavailable = "unavailable"
freshness_text stale = "stale"
freshness_text fresh = "fresh"

abbrev readiness : Freshness → ReadinessResponse
readiness fresh = record { status = "ready"; database = "ok"; rates = "fresh" }
readiness f = record { status = "not_ready"; database = "ok"; rates = freshness_text f }

-- `readyz`: the flag says whether `SELECT 1` goes through.
unfoldable pub readyz : Settings → Bool → Action ReadinessResponse
unfolding rates_freshness_status
readyz settings false =
    pure (record { status = "not_ready"; database = "unhealthy"; rates = "unknown" })
readyz settings true = do freshness ← rates_freshness_status settings; pure (readiness freshness)

-- `healthz`
abbrev pub healthz : String
healthz = "ok"
