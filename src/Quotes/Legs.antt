-- ===== src/Quotes/Legs.antt =====
-- app/services/quotes.py: what the legs of a quote cost, and the rows that keep them.
pub mod Returned
use umba_fx_engine.Prelude.{ℕ, suc, ◌≡◌, true, some, List, [], ◌∷◌}
use umba_fx_engine.Prelude.Int.{ℤ, pos}
use umba_fx_engine.Money.{Currency, same, of_rate, round_rate}
use umba_fx_engine.Money.Arithmetic.{Decimal, add, sub, mul, div}
use umba_fx_engine.Schema.{CurrentRate, SpreadSide, buy, sell, QuoteLeg}
use umba_fx_engine.Repositories.Rates.{CurrentRateBook}
use umba_fx_engine.Quotes.Pricing.{LegPricing, one, find_current_rate}

-- A leg from `a` to `b` with what it copies from a stored rate, and a spread on one of its sides.
pub record IsLeg (rate : CurrentRate) (a b : Currency) (side : SpreadSide) (bps : ℤ)
    (leg : LegPricing) : Type 0 where
  pub source : leg.source ≡ a
  pub destination : leg.destination ≡ b
  pub mid : leg.mid_rate ≡ of_rate rate.mid_rate
  pub spread_side : leg.spread_side ≡ side
  pub spread_bps : leg.spread_bps ≡ bps
  pub snapshot : leg.rate_snapshot_id ≡ rate.rate_snapshot_id

-- Basis points as a fraction.
abbrev pub IsFraction : ℤ → Decimal → Type 0
IsFraction bps f =
    div (record { num = bps; scale = 0 }) (record { num = pos 10_000; scale = 0 }) ≡ some f

-- The price of a leg by a stored rate. In the rate's own direction the engine sells its quote currency,
-- at the mid rate less the sell spread; against it the engine buys, at one over the mid rate with the
-- buy spread on top.
pub data IsPricedLeg (rate : CurrentRate) (a b : Currency) (leg : LegPricing) : Type 0 where
  sold :
      (f : Decimal)
      → same a rate.base_currency ≡ true
      → same b rate.quote_currency ≡ true
      → IsLeg rate a b sell rate.sell_spread_bps leg
      → IsFraction rate.sell_spread_bps f
      → round_rate (mul (of_rate rate.mid_rate) (sub one f)) ≡ some leg.executable_rate
      → IsPricedLeg rate a b leg
  bought :
      (f quotient : Decimal)
      → same a rate.quote_currency ≡ true
      → same b rate.base_currency ≡ true
      → IsLeg rate a b buy rate.buy_spread_bps leg
      → IsFraction rate.buy_spread_bps f
      → div one (mul (of_rate rate.mid_rate) (add one f)) ≡ some quotient
      → round_rate quotient ≡ some leg.executable_rate
      → IsPricedLeg rate a b leg

-- The legs of a route, one for each hop, each priced by the stored rate of its two currencies.
pub data ArePriced (book : CurrentRateBook) : List Currency → List LegPricing → Type 0 where
  arrived : {a : Currency} → ArePriced book (a ∷ []) []
  hop :
      {a b : Currency} {rest : List Currency} {leg : LegPricing} {legs : List LegPricing}
      (rate : CurrentRate)
      → find_current_rate book a b ≡ some rate
      → IsPricedLeg rate a b leg
      → ArePriced book (b ∷ rest) legs
      → ArePriced book (a ∷ b ∷ rest) (leg ∷ legs)

-- The rows of the legs, numbered from `position` on; each has the prices of its leg, with the mid rate
-- rounded for its column.
pub data AreRows (id : ℕ) : ℕ → List LegPricing → List QuoteLeg → Type 0 where
  no_more : {position : ℕ} → AreRows id position [] []
  row :
      {position : ℕ} {leg : LegPricing} {legs : List LegPricing} {rows : List QuoteLeg} (mid : ℤ)
      → round_rate leg.mid_rate ≡ some mid
      → AreRows id (suc position) legs rows
      → AreRows id position (leg ∷ legs) (
          record {
            quote_id = id;
            position = position;
            source_currency = leg.source;
            destination_currency = leg.destination;
            mid_rate = mid;
            executable_rate = leg.executable_rate;
            spread_side = leg.spread_side;
            spread_bps = leg.spread_bps;
            rate_snapshot_id = leg.rate_snapshot_id;
          }
          ∷ rows)
