-- ===== src/System/Requests.antt =====
-- app/api/routes: every request that reaches a route of main.py, and the session that it runs in.
use umba_fx_engine.Prelude.{ℕ, String, Bool}
use umba_fx_engine.Schema.{Payload}
use umba_fx_engine.Settings.{Settings}
use umba_fx_engine.Session.{Action, ◌>>=◌, pure, get_db}
use umba_fx_engine.Session.Backend.{Engine}
use umba_fx_engine.Rates.Provider.{Reply}
use umba_fx_engine.Api.Schemas.{
  BalanceCreditRequest, QuoteBody, BalanceResponse, BalancesResponse, QuoteResponse,
  RateRefreshResponse, ReadinessResponse,
}
use umba_fx_engine.Api.Routes.{
  create_customer_endpoint, get_balances_endpoint, credit_balance_endpoint, create_quote_endpoint,
  execute_quote_endpoint, refresh_rates_endpoint, readyz,
}

-- A request whose path and body have been read.
pub data Operation : Type 0 where
  post_customers : Operation
  get_customer_balances : ℕ → Operation
  post_credits : ℕ → BalanceCreditRequest → Operation
  -- The request's id, the body.
  post_quotes : String → QuoteBody → Operation
  -- The request's id, the header `Idempotency-Key`, the quote's id.
  post_executions : String → String → ℕ → Operation
  -- The provider's answer, the request's id.
  post_rates_refresh : Reply → String → Operation
  get_readyz : Bool → Operation

pub data Answer : Type 0 where
  customer : ℕ → Answer
  balances : BalancesResponse → Answer
  credited : BalanceResponse → Answer
  quoted : QuoteResponse → Answer
  executed : Payload → Answer
  refreshed : RateRefreshResponse → Answer
  ready : ReadinessResponse → Answer

-- The endpoint of a route.
unfoldable pub perform : Engine → Settings → Operation → Action Answer
perform e settings post_customers = do id ← create_customer_endpoint e; pure (customer id)
perform e settings (get_customer_balances c) = do
  answer ← get_balances_endpoint e c
  pure (balances answer)
perform e settings (post_credits c payload) = do
  answer ← credit_balance_endpoint e c payload
  pure (credited answer)
perform e settings (post_quotes id payload) = do
  answer ← create_quote_endpoint e settings id payload
  pure (quoted answer)
perform e settings (post_executions id key quote_id) = do
  answer ← execute_quote_endpoint e id key quote_id
  pure (executed answer)
perform e settings (post_rates_refresh reply id) = do
  answer ← refresh_rates_endpoint e settings reply id
  pure (refreshed answer)
perform e settings (get_readyz reachable) = do
  answer ← readyz settings reachable
  pure (ready answer)

-- A request in a session of its own.
unfoldable pub serve : Engine → Settings → Operation → Action Answer
unfolding perform get_db
serve e settings op = get_db e (perform e settings op)
