-- ===== src/Tests/Refreshes.antt =====
-- A refresh that the provider does not answer in time, one that it answers, and one that it answers in
-- euros.
use umba_fx_engine.Prelude.{Option, ◌≡◌, refl, false, none, some, [], ◌∷◌}
use umba_fx_engine.Errors.{api, gateway_timeout}
use umba_fx_engine.Settings.{default_settings}
use umba_fx_engine.Session.{World, raised}
use umba_fx_engine.Session.Backend.{plain_engine, plain_engine-IsTransactional}
use umba_fx_engine.Rates.{refresh_rates}
use umba_fx_engine.Rates.Provider.{
  Reply, Document, timeout, response, document, object, finite, absent,
}
use umba_fx_engine.Rates.Published.{Refreshed}
use umba_fx_engine.Prelude.Int.{ℤ, pos}
use umba_fx_engine.Money.{usd, eur, kes}
use umba_fx_engine.Schema.{CurrentRate, RateRefresh, completed}
use umba_fx_engine.Rates.Failure.{IsFailure, refresh_rates-IsFailure}
use umba_fx_engine.Tests.Worlds.{small_world, small_tables}

abbrev after_timeout : World
after_timeout = (refresh_rates plain_engine default_settings timeout none small_world).1

timeout_run :
    (refresh_rates plain_engine default_settings timeout none small_world).0
    ≡ raised (api (gateway_timeout "Rate provider timed out."))
unfolding refresh_rates
timeout_run = refl

refresh_rates-IsFailure_example :
    IsFailure (gateway_timeout "Rate provider timed out.") small_tables after_timeout.db.committed
refresh_rates-IsFailure_example =
    refresh_rates-IsFailure plain_engine-IsTransactional default_settings timeout none small_world
      timeout_run

abbrev fetched_document : Document
fetched_document = record {
  unsuccessful = false;
  rates = some (
      object (
        ("KES", finite (record { num = pos 1_290; scale = 1 }))
        ∷ ("NGN", finite (record { num = pos 1_500; scale = 0 }))
        ∷ ("EUR", finite (record { num = pos 92; scale = 2 }))
        ∷ []));
  base = none;
  timestamp = absent;
  hash = "hash";
}

abbrev good_reply : Reply
good_reply = response 200 (document fetched_document)

abbrev after_refresh : World
after_refresh = (refresh_rates plain_engine default_settings good_reply none small_world).1

abbrev new_refresh : RateRefresh
new_refresh = record {
  id = 100;
  provider = "fxapi.app";
  status = completed;
  provider_base_currency = some usd;
  provider_timestamp = none;
  fetched_at = 1_000;
  pairs_updated = 3;
  error_code = none;
  error_message = none;
  duration_ms = 0;
}

-- A reply in euros: the rate of dollars against euros is stored as one, since the euro is the reply's base.
abbrev euro_reply : Reply
euro_reply = response 200 (
    document (record fetched_document {
      rates = some (
          object (
            ("KES", finite (record { num = pos 1_400; scale = 1 }))
            ∷ ("NGN", finite (record { num = pos 1_650; scale = 0 }))
            ∷ ("USD", finite (record { num = pos 109; scale = 2 }))
            ∷ []));
      base = some "EUR";
    }))

abbrev after_euros : World
after_euros = (refresh_rates plain_engine default_settings euro_reply none small_world).1

mid_of : Option CurrentRate → Option ℤ
mid_of none = none
mid_of (some rate) = some rate.mid_rate

euros_for_dollars :
    (mid_of (after_euros.db.committed.rates usd eur) ≡ some (pos 10_000_000_000))
    × (mid_of (after_euros.db.committed.rates usd kes) ≡ some (pos 1_400_000_000_000))
unfolding refresh_rates mid_of
euros_for_dollars = (refl, refl)
