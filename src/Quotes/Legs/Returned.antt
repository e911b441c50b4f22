-- ===== src/Quotes/Legs/Returned.antt =====
-- The pricing of app/services/quotes.py, when it returns, gives legs and rows as Quotes/Legs says.
use Prim.Native.String.{◌++◌ as ◌<>◌}
use umba_fx_engine.Prelude.{
  Option, subst, ℕ, suc, ◌≡◌, refl, not, ◌||◌, true, some, List, [], ◌∷◌, arith, Bool-cases, inl,
  inr, ◌&&◌,
}
use umba_fx_engine.Prelude.Int.{ℤ, pos}
use umba_fx_engine.Money.{Currency, value, same, of_rate, round_rate}
use umba_fx_engine.Money.Arithmetic.{Decimal, add, sub, mul, div}
use umba_fx_engine.Errors.{invalid_operation, data_error, api, service_unavailable}
use umba_fx_engine.Schema.{CurrentRate, SpreadSide, buy, sell, QuoteLeg}
use umba_fx_engine.Schema.Columns.{numeric_fits}
use umba_fx_engine.Repositories.Rates.{CurrentRateBook}
use umba_fx_engine.Session.{World, Action, ◌>>=◌, ◌>>◌, returned, pure, or_raise, raise_if}
use umba_fx_engine.Session.Laws.{bind-returned_elim, or_raise-returned}
use umba_fx_engine.Quotes.{leg_rows}
use umba_fx_engine.Quotes.Pricing.{
  LegPricing, error_rates_stale, one, find_current_rate, spread_fraction, sell_leg, buy_leg,
  price_leg, price_hop, price_from, price_route,
}
use umba_fx_engine.Quotes.Legs.{
  IsLeg, IsFraction, IsPricedLeg, sold, bought, ArePriced, arrived, hop, AreRows, no_more, row,
}

spread_fraction-returned :
    (bps : ℤ) (w : World) {f : Decimal} {v : World}
    → spread_fraction bps w ≡ (returned f, v)
    → IsFraction bps f
unfolding spread_fraction
spread_fraction-returned bps w h =
    let (s, fraction) =
      or_raise-returned invalid_operation
        (div (record { num = bps; scale = 0 }) (record { num = pos 10_000; scale = 0 })) w h in
    fraction

abbrev leg_of : CurrentRate → Currency → Currency → SpreadSide → ℤ → ℤ → LegPricing
leg_of rate a b side bps x = record {
  source = a;
  destination = b;
  mid_rate = of_rate rate.mid_rate;
  executable_rate = x;
  spread_bps = bps;
  spread_side = side;
  rate_snapshot_id = rate.rate_snapshot_id;
}

leg_of-IsLeg :
    (rate : CurrentRate) (a b : Currency) (side : SpreadSide) (bps x : ℤ)
    → IsLeg rate a b side bps (leg_of rate a b side bps x)
leg_of-IsLeg rate a b side bps x = record {
  source = refl;
  destination = refl;
  mid = refl;
  spread_side = refl;
  spread_bps = refl;
  snapshot = refl;
}

pure-returned :
    {A : Type 0} (a : A) (w : World) {b : A} {v : World} → pure a w ≡ (returned b, v) → a ≡ b
pure-returned a w h = ground arith

-- The last steps of `price_leg`, in either direction.
abbrev rounded_leg :
    CurrentRate → Currency → Currency → SpreadSide → ℤ → Decimal → Action LegPricing
rounded_leg rate a b side bps x =
    or_raise invalid_operation (round_rate x) >>= λ r. pure (leg_of rate a b side bps r)

module _ (rate : CurrentRate) (a b : Currency) where
  rounded_leg-returned :
      (side : SpreadSide) (bps : ℤ) (x : Decimal) (w : World) {leg : LegPricing} {v : World}
      → rounded_leg rate a b side bps x w ≡ (returned leg, v)
      → IsLeg rate a b side bps leg × (round_rate x ≡ some leg.executable_rate)
  rounded_leg-returned side bps x w {leg} h =
      bind-returned_elim (or_raise invalid_operation (round_rate x))
        (λ r. pure (leg_of rate a b side bps r)) w h
        λ r v1 h1 r1.
          let (s, rounded) = or_raise-returned invalid_operation (round_rate x) w h1 in
          subst
            (λ (l : LegPricing).
              IsLeg rate a b side bps l × (round_rate x ≡ some l.executable_rate))
            (pure-returned (leg_of rate a b side bps r) v1 r1)
            (leg_of-IsLeg rate a b side bps r, rounded)

  module _ (w : World) {leg : LegPricing} {v : World} where
    sell_leg-returned :
        same a rate.base_currency ≡ true
        → same b rate.quote_currency ≡ true
        → sell_leg rate a b w ≡ (returned leg, v)
        → IsPricedLeg rate a b leg
    unfolding sell_leg
    sell_leg-returned from to h =
        let bps = rate.sell_spread_bps in
        bind-returned_elim (spread_fraction bps)
          (λ f. rounded_leg rate a b sell bps (mul (of_rate rate.mid_rate) (sub one f))) w h
          λ f v1 h1 r1.
            let (is_leg, price) =
              rounded_leg-returned sell bps (mul (of_rate rate.mid_rate) (sub one f)) v1 r1 in
            sold f from to is_leg (spread_fraction-returned bps w h1) price

    buy_leg-returned :
        same a rate.quote_currency ≡ true
        → same b rate.base_currency ≡ true
        → buy_leg rate a b w ≡ (returned leg, v)
        → IsPricedLeg rate a b leg
    unfolding buy_leg
    buy_leg-returned from to h =
        let bps = rate.buy_spread_bps in
        let ratio : Decimal → Option Decimal =
          λ f. div one (mul (of_rate rate.mid_rate) (add one f)) in
        bind-returned_elim (spread_fraction bps)
          (λ f. or_raise invalid_operation (ratio f) >>= rounded_leg rate a b buy bps) w h
          λ f v1 h1 r1.
            bind-returned_elim (or_raise invalid_operation (ratio f)) (rounded_leg rate a b buy bps)
              v1 r1
              λ quotient v2 h2 r2.
                let (s, divided) = or_raise-returned invalid_operation (ratio f) v1 h2 in
                let (is_leg, price) = rounded_leg-returned buy bps quotient v2 r2 in
                bought f quotient from to is_leg (spread_fraction-returned bps w h1) divided price

    price_leg-returned : price_leg rate a b w ≡ (returned leg, v) → IsPricedLeg rate a b leg
    unfolding price_leg
    price_leg-returned h =
        elim (Bool-cases (same a rate.base_currency && same b rate.quote_currency)) [
          | inl along ↦ sell_leg-returned (ground arith) (ground arith) (rw along at h)
          | inr not_along ↦
              elim (Bool-cases (same a rate.quote_currency && same b rate.base_currency)) [
                | inl against ↦
                    buy_leg-returned (ground arith) (ground arith) (rw (not_along, against) at h)
                | inr neither ↦ absurd (let r = rw (not_along, neither) at h in cc)
              ]
        ]

price_hop-returned :
    (book : CurrentRateBook) (a b : Currency) (w : World) {leg : LegPricing} {v : World}
    → price_hop book a b w ≡ (returned leg, v)
    → (rate : CurrentRate) × (find_current_rate book a b ≡ some rate) × IsPricedLeg rate a b leg
unfolding price_hop
price_hop-returned book a b w h =
    let missing = api (
      service_unavailable error_rates_stale
        ("Rate missing for " <> value a <> "/" <> value b <> ".")) in
    bind-returned_elim (or_raise missing (find_current_rate book a b)) (λ rate. price_leg rate a b)
      w h
      λ rate v1 h1 r1.
        let (s, found) = or_raise-returned missing (find_current_rate book a b) w h1 in
        (rate, found, price_leg-returned rate a b v1 r1)

price_from-returned :
    (book : CurrentRateBook) (a : Currency) (rest : List Currency) (w : World)
    {legs : List LegPricing} {v : World}
    → price_from book a rest w ≡ (returned legs, v)
    → ArePriced book (a ∷ rest) legs
unfolding price_from
price_from-returned book a [] w h = subst (ArePriced book (a ∷ [])) (pure-returned [] w h) arrived
price_from-returned book a (b ∷ rest) w h =
    bind-returned_elim (price_hop book a b)
      (λ leg. price_from book b rest >>= λ legs. pure (leg ∷ legs)) w h
      λ leg v1 h1 r1.
        bind-returned_elim (price_from book b rest) (λ legs. pure (leg ∷ legs)) v1 r1
          λ legs v2 h2 r2.
            let (rate, found, priced) = price_hop-returned book a b w h1 in
            subst (ArePriced book (a ∷ b ∷ rest)) (pure-returned (leg ∷ legs) v2 r2)
              (hop rate found priced (price_from-returned book b rest v1 h2))

-- What `price_route` returns on a route that is not empty.
pub price_route-returned :
    (book : CurrentRateBook) (a : Currency) (rest : List Currency) (w : World)
    {legs : List LegPricing} {v : World}
    → price_route book (a ∷ rest) w ≡ (returned legs, v)
    → ArePriced book (a ∷ rest) legs
unfolding price_route
price_route-returned = price_from-returned

pub leg_rows-returned :
    (id position : ℕ) (legs : List LegPricing) (w : World) {rows : List QuoteLeg} {v : World}
    → leg_rows id position legs w ≡ (returned rows, v)
    → AreRows id position legs rows
unfolding leg_rows
leg_rows-returned id position [] w h = subst (AreRows id position []) (pure-returned [] w h) no_more
leg_rows-returned id position (leg ∷ legs) w h =
    let row_of : ℤ → QuoteLeg = λ mid. record {
      quote_id = id;
      position = position;
      source_currency = leg.source;
      destination_currency = leg.destination;
      mid_rate = mid;
      executable_rate = leg.executable_rate;
      spread_side = leg.spread_side;
      spread_bps = leg.spread_bps;
      rate_snapshot_id = leg.rate_snapshot_id;
    } in
    let checked : ℤ → Action (Unit {0}) = λ mid.
      raise_if (not (numeric_fits mid) || not (numeric_fits leg.executable_rate)) data_error in
    let rest : ℤ → Action (List QuoteLeg) =
      λ mid. leg_rows id (suc position) legs >>= λ rows. pure (row_of mid ∷ rows) in
    bind-returned_elim (or_raise invalid_operation (round_rate leg.mid_rate))
      (λ mid. checked mid >> rest mid) w h
      λ mid v1 h1 r1.
        bind-returned_elim (checked mid) (λ _. rest mid) v1 r1
          λ _ v2 h2 r2.
            bind-returned_elim (leg_rows id (suc position) legs) (λ rows. pure (row_of mid ∷ rows))
              v2 r2
              λ rows v3 h3 r3.
                let (s, rounded) =
                  or_raise-returned invalid_operation (round_rate leg.mid_rate) w h1 in
                subst (AreRows id position (leg ∷ legs)) (pure-returned (row_of mid ∷ rows) v3 r3)
                  (row mid rounded (leg_rows-returned id (suc position) legs v2 h3))
