-- ===== src/Quotes/Created.antt =====
-- What `create_quote` has done when it returns.
use umba_fx_engine.Prelude.{
  ℕ, suc, ◌+◌, ◌*◌, ◌≤◌, ◌≡◌, refl, ◌∙◌, ap, true, false, not, ◌||◌, Option, none, some, List, [],
  ◌∷◌, ◌++◌, arith,
}
use umba_fx_engine.Money.{Currency, same, of_cents, of_rate, round_money, round_rate}
use umba_fx_engine.Money.Arithmetic.{mul}
use umba_fx_engine.Errors.{api, validation_error, invalid_operation, data_error}
use umba_fx_engine.Schema.{Tables, Quote, QuoteLeg}
use umba_fx_engine.Schema.Columns.{numeric_fits}
use umba_fx_engine.Settings.{Settings, second}
use umba_fx_engine.Observability.{quote_created}
use umba_fx_engine.Repositories.Rates.{CurrentRateBook, latest, load_current_rate_book}
use umba_fx_engine.Session.{World, returned, ◌>>◌, pure, or_raise, raise_if, commit, count}
use umba_fx_engine.Session.Backend.{Engine, IsTransactional}
use umba_fx_engine.Session.Laws.{raise_if-returned, bind-returned_elim, or_raise-returned}
use umba_fx_engine.Customers.{is_customer, assert_customer_exists}
use umba_fx_engine.Customers.Laws.{assert_customer_exists-returned}
use umba_fx_engine.Quotes.{
  QuoteRequest, quote_ttl_seconds, check_freshness, sum_spreads, insert_quote, leg_rows,
  log_created, quote_terms, create_quote,
}
use umba_fx_engine.Quotes.Pricing.{
  LegPricing, build_route, spread_fraction, sell_leg, buy_leg, price_leg, price_hop, price_from,
  price_route, compound,
}
use umba_fx_engine.Session.Unchanged.{
  KeepsWorld, KeepsWorld-pure, KeepsWorld-bind, KeepsWorld-run, KeepsWorld-KeepsTables,
  worlds_rules,
}
use umba_fx_engine.Session.Reads.{
  KeepsTables, KeepsTables-pure, KeepsTables-or_raise, KeepsTables-raise_if, KeepsTables-bind,
  KeepsTables-run,
}
use umba_fx_engine.Quotes.Routes.{IsRoute, direct, over, IsChosen, build_route-IsChosen}
use umba_fx_engine.Quotes.Legs.{ArePriced, AreRows}
use umba_fx_engine.Quotes.Legs.Returned.{price_route-returned, leg_rows-returned}

check_freshness-returned :
    (settings : Settings) (last : Option ℕ) (w : World) {a : Unit {0}} {v : World}
    → check_freshness settings last w ≡ (returned a, v)
    → (v ≡ record w { readings = suc w.readings })
      × (time : ℕ) × (last ≡ some time)
      × (w.clock w.readings ≤ time + settings.rate_freshness_seconds * second)
unfolding check_freshness
check_freshness-returned settings none w h = cc
check_freshness-returned settings (some last) w h = (ground arith, last, refl, ground arith)

KeepsWorld-price_hop : (book : CurrentRateBook) (a b : Currency) → KeepsWorld (price_hop book a b)
unfolding price_hop price_leg sell_leg buy_leg spread_fraction
KeepsWorld-price_hop book a b = search worlds_rules depth 30

KeepsWorld-price_from :
    (book : CurrentRateBook) (a : Currency) (rest : List Currency)
    → KeepsWorld (price_from book a rest)
unfolding price_from
KeepsWorld-price_from book a [] = KeepsWorld-pure []
KeepsWorld-price_from book a (b ∷ rest) =
    KeepsWorld-bind (price_hop book a b) _ (KeepsWorld-price_hop book a b) λ leg.
      KeepsWorld-bind (price_from book b rest) _ (KeepsWorld-price_from book b rest)
        λ legs. KeepsWorld-pure (leg ∷ legs)

KeepsWorld-price_route :
    (book : CurrentRateBook) (route : List Currency) → KeepsWorld (price_route book route)
unfolding price_route
KeepsWorld-price_route book [] = KeepsWorld-pure []
KeepsWorld-price_route book (a ∷ rest) = KeepsWorld-price_from book a rest

pub KeepsTables-price_route :
    (book : CurrentRateBook) (route : List Currency) → KeepsTables (price_route book route)
KeepsTables-price_route book route = KeepsWorld-KeepsTables (KeepsWorld-price_route book route)

pub KeepsTables-leg_rows :
    (id position : ℕ) (legs : List LegPricing) → KeepsTables (leg_rows id position legs)
unfolding leg_rows
KeepsTables-leg_rows id position [] = KeepsTables-pure []
KeepsTables-leg_rows id position (leg ∷ legs) =
    KeepsTables-bind (or_raise invalid_operation (round_rate leg.mid_rate)) _
      (KeepsTables-or_raise _ _)
      λ mid.
        KeepsTables-bind
          (raise_if (not (numeric_fits mid) || not (numeric_fits leg.executable_rate)) data_error) _
          (KeepsTables-raise_if _ _)
          λ _.
            KeepsTables-bind (leg_rows id (suc position) legs) _
              (KeepsTables-leg_rows id (suc position) legs) λ rest. KeepsTables-pure _

-- The terms of a quote, from its request, its route and the legs' prices.
pub record HasTerms (q : QuoteRequest) (route : List Currency) (legs : List LegPricing)
    (quote : Quote) : Type 0 where
  pub of_customer : quote.customer_id ≡ q.customer_id
  pub source : quote.source_currency ≡ q.source_currency
  pub destination : quote.destination_currency ≡ q.destination_currency
  pub of_route : quote.route ≡ route
  pub rate : round_rate (compound legs) ≡ some quote.executable_rate
  pub spread : quote.spread_bps ≡ sum_spreads legs
  pub amount : round_money q.source_amount q.source_currency ≡ some quote.source_amount
  pub result :
      round_money
        (mul (of_cents quote.source_amount) (of_rate quote.executable_rate))
        q.destination_currency
      ≡ some quote.destination_amount
  pub window : quote.expires_at ≡ quote.created_at + quote_ttl_seconds * second

quote_terms-returned :
    (q : QuoteRequest) (route : List Currency) (legs : List LegPricing) (w : World) {quote : Quote}
    {v : World}
    → quote_terms q route legs w ≡ (returned quote, v)
    → (v.db ≡ w.db)
      × HasTerms q route legs quote
      × (quote.created_at ≡ w.clock w.readings)
      × (quote.id ≡ w.next_uuid)
unfolding quote_terms
quote_terms-returned q route legs w h =
    bind-returned_elim (or_raise invalid_operation (round_rate (compound legs))) _ w h
      λ rate v1 h1 r1.
        bind-returned_elim
          (or_raise invalid_operation (round_money q.source_amount q.source_currency)) _ v1 r1
          λ amount v2 h2 r2.
            bind-returned_elim
              (or_raise invalid_operation
                (round_money (mul (of_cents amount) (of_rate rate)) q.destination_currency))
              _ v2 r2
              λ result v3 h3 r3.
                let (s1, e1) =
                  or_raise-returned invalid_operation (round_rate (compound legs)) w h1 in
                let (s2, e2) =
                  or_raise-returned invalid_operation
                    (round_money q.source_amount q.source_currency) v1 h2 in
                let (s3, e3) =
                  or_raise-returned invalid_operation
                    (round_money (mul (of_cents amount) (of_rate rate)) q.destination_currency) v2
                    h3 in
                (
                  ground arith,
                  record {
                    of_customer = ground arith;
                    source = ground arith;
                    destination = ground arith;
                    of_route = ground arith;
                    rate = ground arith;
                    spread = ground arith;
                    amount = ground arith;
                    result = ground arith;
                    window = ground arith;
                  },
                  ground arith,
                  ground arith,
                )

insert_quote-returned :
    (quote : Quote) (w : World) {a : Unit {0}} {v : World}
    → insert_quote quote w ≡ (returned a, v)
    → v.db ≡ record w.db { work = record w.db.work { quotes = quote ∷ w.db.work.quotes } }
unfolding insert_quote
insert_quote-returned quote w h = ground arith

route_priced :
    (book : CurrentRateBook) (a b : Currency) (w : World) {route : List Currency}
    {legs : List LegPricing} {v : World}
    → IsRoute book a b route
    → price_route book route w ≡ (returned legs, v)
    → ArePriced book route legs
route_priced book a b w (direct found) h = price_route-returned book a (b ∷ []) w h
route_priced book a b w (over pivot _ _ _ _ _ _) h =
    price_route-returned book a (pivot ∷ b ∷ []) w h

-- `Quoted settings q time before quote after`: the tables after are those before with the quote and its
-- legs, for a known customer, two currencies, rates that are fresh enough, the route that is chosen by
-- the stored rates, a price for each of its hops by the stored rate of the hop with its spread, and
-- a row for each leg.
pub record Quoted (settings : Settings) (q : QuoteRequest) (time : ℕ) (before : Tables)
    (quote : Quote) (after : Tables) : Type 0 where
  pub known : is_customer q.customer_id before.customers ≡ true
  pub distinct : same q.source_currency q.destination_currency ≡ false
  pub last : ℕ
  pub of_rates : latest before.rates ≡ some last
  pub fresh : time ≤ last + settings.rate_freshness_seconds * second
  pub route : List Currency
  pub chosen :
      IsChosen
        (record { rates = before.rates; last_updated_at = latest before.rates })
        q.source_currency
        q.destination_currency
        route
  pub prices : List LegPricing
  pub priced :
      ArePriced
        (record { rates = before.rates; last_updated_at = latest before.rates })
        route
        prices
  pub terms : HasTerms q route prices quote
  pub rows : List QuoteLeg
  pub of_legs : AreRows quote.id 0 prices rows
  pub recorded :
      after ≡ record before { quotes = quote ∷ before.quotes; legs = rows ++ before.legs }

finish_quote-returned :
    {e : Engine}
    → IsTransactional e
    → (q : QuoteRequest) (quote : Quote) (w : World) {a : Quote} {v : World}
    → (commit e >> (count quote_created >> (log_created q quote >> pure quote))) w ≡ (returned a, v)
    → (a ≡ quote) × (v.db.committed ≡ w.db.work)
unfolding log_created
finish_quote-returned law q quote w h = ground (arith, law.commit_lem w.db)

module _ {e : Engine} (law : IsTransactional e) where
  pub create_quote-Quoted :
      (settings : Settings) (q : QuoteRequest) (w : World) {quote : Quote} {v : World}
      → create_quote e settings q w ≡ (returned quote, v)
      → Quoted settings q (w.clock w.readings) w.db.work quote v.db.committed
        × (quote.created_at ≡ w.clock (suc w.readings))
        × (quote.id ≡ w.next_uuid)
  unfolding create_quote load_current_rate_book
  create_quote-Quoted settings q w h =
      let book : CurrentRateBook = record {
        rates = w.db.work.rates;
        last_updated_at = latest w.db.work.rates;
      } in
      bind-returned_elim
        (raise_if (same q.source_currency q.destination_currency)
          (api (validation_error "source_currency and destination_currency must differ." none)))
        _ w h
        λ _ v1 h1 r1.
          bind-returned_elim (assert_customer_exists e q.customer_id) _ v1 r1 λ _ v2 h2 r2.
            let (s1, distinct) =
              raise_if-returned (same q.source_currency q.destination_currency)
                (api
                  (validation_error "source_currency and destination_currency must differ." none))
                w h1 in
            let (s2, known) = assert_customer_exists-returned e q.customer_id v1 h2 in
            let start : v2 ≡ w = s2 ∙ s1 in
            bind-returned_elim (check_freshness settings book.last_updated_at) _ w (rw start at r2)
              λ _ v3 h3 r3.
                bind-returned_elim (build_route book q.source_currency q.destination_currency) _ v3
                  r3
                  λ route v4 h4 r4.
                    bind-returned_elim (price_route book route) _ v4 r4 λ prices v5 h5 r5.
                      bind-returned_elim (quote_terms q route prices) _ v5 r5 λ made v6 h6 r6.
                        bind-returned_elim (insert_quote made) _ v6 r6 λ _ v7 h7 r7.
                          bind-returned_elim (leg_rows made.id 0 prices) _ v7 r7 λ rows v8 h8 r8.
                            let (s3, last, of_rates, fresh) =
                              check_freshness-returned settings book.last_updated_at w h3 in
                            let (s4, chosen) =
                              build_route-IsChosen book q.source_currency q.destination_currency v3
                                h4 in
                            let s5 = KeepsWorld-run (KeepsWorld-price_route book route) h5 in
                            let at_terms : v5 ≡ record w { readings = suc w.readings } =
                              s5 ∙ s4 ∙ s3 in
                            let (s6, terms, created, id) =
                              quote_terms-returned q route prices v5 h6 in
                            let s7 = insert_quote-returned made v6 h7 in
                            let s8 = KeepsTables-run (KeepsTables-leg_rows made.id 0 prices) h8 in
                            let before : v6.db ≡ w.db = s6 ∙ ap (λ (x : World). x.db) at_terms in
                            let (same_quote, committed) =
                              finish_quote-returned law q made
                                (record v8 {
                                  db = record v8.db {
                                    work = record v8.db.work { legs = rows ++ v8.db.work.legs };
                                  };
                                })
                                r8 in
                            rw same_quote (
                              record {
                                known = rw (← s1) known;
                                distinct = distinct;
                                last = last;
                                of_rates = of_rates;
                                fresh = fresh;
                                route = route;
                                chosen = chosen;
                                prices = prices;
                                priced =
                                    route_priced book q.source_currency q.destination_currency v4
                                      chosen.is_route h5;
                                terms = terms;
                                rows = rows;
                                of_legs = leg_rows-returned made.id 0 prices v7 h8;
                                recorded = committed ∙ rw (s8, s7, before) refl;
                              },
                              rw at_terms at created,
                              rw at_terms at id,
                            )
