-- ===== src/Quotes/Atomic.antt =====
-- `create_quote` publishes a quote with all its legs or nothing.
use umba_fx_engine.Prelude.{ℕ, ◌≡◌, none, List, ◌++◌}
use umba_fx_engine.Money.{Currency, usd, eur, same}
use umba_fx_engine.Errors.{Exception, api, validation_error}
use umba_fx_engine.Settings.{Settings}
use umba_fx_engine.Schema.{Quote}
use umba_fx_engine.Repositories.Rates.{CurrentRateBook, load_current_rate_book}
use umba_fx_engine.Session.{World, raised, ◌>>◌, raise_if, write, commit, count, pure}
use umba_fx_engine.Session.Laws.{
  KeepsCommitted, keeps_rules, KeepsCommitted-raise_if, KeepsCommitted-gets, KeepsCommitted-write,
}
use umba_fx_engine.Session.Reads.{
  KeepsTables, KeepsTables-if, KeepsTables-pure, KeepsTables-raise, KeepsTables-KeepsCommitted,
}
use umba_fx_engine.Session.Atomic.{IsAtomic, IsAtomic-bind}
use umba_fx_engine.Session.Backend.{Engine}
use umba_fx_engine.Observability.{quote_created}
use umba_fx_engine.Customers.{assert_customer_exists}
use umba_fx_engine.Customers.Atomic.{KeepsCommitted-assert_customer_exists}
use umba_fx_engine.Prelude.{Option, some, [], ◌∷◌}
use umba_fx_engine.Quotes.{
  QuoteRequest, check_freshness, insert_quote, leg_rows, log_created, quote_terms, create_quote,
}
use umba_fx_engine.Quotes.Pricing.{
  LegPricing, build_route, route_by, pivot_works, is_some, find_current_rate, price_route,
}
use umba_fx_engine.Quotes.Created.{KeepsTables-price_route, KeepsTables-leg_rows}

KeepsCommitted-check_freshness :
    (settings : Settings) (last : Option ℕ) → KeepsCommitted (check_freshness settings last)
unfolding check_freshness
KeepsCommitted-check_freshness settings none = search keeps_rules
KeepsCommitted-check_freshness settings (some last) = search keeps_rules depth 12

KeepsTables-route_by :
    (book : CurrentRateBook) (a b : Currency) (pivots : List Currency)
    → KeepsTables (route_by book a b pivots)
unfolding route_by
KeepsTables-route_by book a b [] = KeepsTables-raise _
KeepsTables-route_by book a b (p ∷ ps) =
    KeepsTables-if (pivot_works book a b p) _ _ (KeepsTables-pure _)
      (KeepsTables-route_by book a b ps)

KeepsTables-build_route :
    (book : CurrentRateBook) (a b : Currency) → KeepsTables (build_route book a b)
unfolding build_route
KeepsTables-build_route book a b =
    KeepsTables-if (is_some (find_current_rate book a b)) _ _ (KeepsTables-pure _)
      (KeepsTables-route_by book a b (usd ∷ eur ∷ []))

KeepsCommitted-quote_terms :
    (q : QuoteRequest) (route : List Currency) (legs : List LegPricing)
    → KeepsCommitted (quote_terms q route legs)
unfolding quote_terms
KeepsCommitted-quote_terms q route legs = search keeps_rules depth 20

KeepsCommitted-insert_quote : (quote : Quote) → KeepsCommitted (insert_quote quote)
unfolding insert_quote
KeepsCommitted-insert_quote quote = search keeps_rules depth 12

IsAtomic-finish :
    (e : Engine) (q : QuoteRequest) (quote : Quote)
    → IsAtomic (commit e >> (count quote_created >> (log_created q quote >> pure quote)))
unfolding log_created
IsAtomic-finish e q quote = record { at = λ w h. cc }

pub create_quote-IsAtomic :
    (e : Engine) (settings : Settings) (q : QuoteRequest) → IsAtomic (create_quote e settings q)
unfolding create_quote load_current_rate_book
create_quote-IsAtomic e settings q =
    IsAtomic-bind
      (raise_if (same q.source_currency q.destination_currency)
        (api (validation_error "source_currency and destination_currency must differ." none)))
      _ (KeepsCommitted-raise_if _ _)
      λ _.
        IsAtomic-bind (assert_customer_exists e q.customer_id) _
          (KeepsCommitted-assert_customer_exists e q.customer_id)
          λ _. IsAtomic-bind load_current_rate_book _ (KeepsCommitted-gets _) λ book.
            IsAtomic-bind (check_freshness settings book.last_updated_at) _
              (KeepsCommitted-check_freshness settings book.last_updated_at)
              λ _.
                IsAtomic-bind (build_route book q.source_currency q.destination_currency) _
                  (KeepsTables-KeepsCommitted
                    (KeepsTables-build_route book q.source_currency q.destination_currency))
                  λ route.
                    IsAtomic-bind (price_route book route) _
                      (KeepsTables-KeepsCommitted (KeepsTables-price_route book route))
                      λ legs.
                        IsAtomic-bind (quote_terms q route legs) _
                          (KeepsCommitted-quote_terms q route legs)
                          λ quote.
                            IsAtomic-bind (insert_quote quote) _ (KeepsCommitted-insert_quote quote)
                              λ _.
                                IsAtomic-bind (leg_rows quote.id 0 legs) _
                                  (KeepsTables-KeepsCommitted
                                    (KeepsTables-leg_rows quote.id 0 legs))
                                  λ rows.
                                    IsAtomic-bind (write (λ t. record t { legs = rows ++ t.legs }))
                                      _ (KeepsCommitted-write _) λ _. IsAtomic-finish e q quote

-- When `create_quote` raises, whatever the exception, nothing of it is committed: neither the quote nor
-- any of its legs.
pub create_quote-atomic :
    (e : Engine) (settings : Settings) (q : QuoteRequest) (w : World) {x : Exception}
    → (create_quote e settings q w).0 ≡ raised x
    → (create_quote e settings q w).1.db.committed ≡ w.db.committed
create_quote-atomic e settings q w h = (create_quote-IsAtomic e settings q).at w h
