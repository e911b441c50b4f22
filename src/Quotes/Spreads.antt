-- ===== src/Quotes/Spreads.antt =====
-- What a direct leg costs: `price_leg` on a pair in its stored direction.
use native.Mathlib.Nat.{sub-le, mul-le-mul_left}
use umba_fx_engine.Prelude.{
  ℕ, ◌+◌, ◌-◌, ◌*◌, ◌≤◌, ◌<◌, ◌^◌, ◌≡◌, refl, ap, ◌∙◌, true, some, ltb, arith,
}
use umba_fx_engine.Prelude.Int.{ℤ, pos}
use umba_fx_engine.Money.{Currency, same, of_rate, round_rate}
use umba_fx_engine.Money.Arithmetic.{Decimal, coefficient_limit, half_even, sub, mul, div, quantize}
use umba_fx_engine.Money.Exact.{pow_add, IsNearest-rescale}
use umba_fx_engine.Money.Rounding.{pow-pos, IsNearest, half_even-IsNearest}
use umba_fx_engine.Schema.{CurrentRate, sell}
use umba_fx_engine.Session.{World, returned, resume, or_raise, pure, ◌>>=◌}
use umba_fx_engine.Errors.{invalid_operation}
use umba_fx_engine.Quotes.Pricing.{price_leg, LegPricing, one, spread_fraction, sell_leg}
use umba_fx_engine.Quotes.Fractions.{div_ten_thousand, one_less, of_mid}

-- The rate that is nearest to the mid rate less the spread, and no more than the mid rate.
pub record IsSpreadOff (m b r : ℕ) : Type 0 where
  pub nearest : IsNearest (m * (10_000 - b)) 10_000 r
  pub no_more : r ≤ m

same_fraction : (x i : ℕ) → x * 10 ^ i * 10 ^ 10 * 10_000 ≡ x * 10 ^ (i + 14)
same_fraction x i = rw (pow_add i 14) (omega arith)

at_most_mid : (m c r : ℕ) → c ≤ 10_000 → IsNearest (m * c) 10_000 r → r ≤ m
at_most_mid m c r small x =
    let most : m * c ≤ m * 10_000 = mul-le-mul_left m small in let below = x.below in omega arith

quantize_short :
    (n s r : ℕ)
    → half_even (n * 10 ^ 10) (10 ^ s) ≡ r
    → r < 10 ^ 28
    → round_rate (record { num = pos n; scale = s }) ≡ some (pos r)
unfolding round_rate quantize
quantize_short n s r h small =
    let short : ltb r coefficient_limit ≡ true = ground arith in rw (h, short) refl

rounded_price :
    (m b i : ℕ)
    → m < 10 ^ 20
    → b ≤ 10_000
    → (r : ℕ) × (round_rate (record { num = pos (m * (10_000 - b) * 10 ^ i); scale = i + 14 })
        ≡ some (pos r))
      × IsSpreadOff m b r
rounded_price m b i rate small =
    let c = 10_000 - b in
    let n = m * c * 10 ^ i * 10 ^ 10 in
    let d = 10 ^ (i + 14) in
    let r = half_even n d in
    let nearest : IsNearest (m * c) 10_000 r =
      IsNearest-rescale n d (m * c) 10_000 r (same_fraction (m * c) i) (pow-pos (i + 14))
        (omega arith) (half_even-IsNearest n d (pow-pos (i + 14))) in
    let no_more : r ≤ m = at_most_mid m c r (omega arith) nearest in
    (
      r,
      quantize_short (m * c * 10 ^ i) (i + 14) r refl (omega arith),
      record { nearest = nearest; no_more = no_more },
    )

spread_fraction-returns :
    (z : ℤ) (b i : ℕ) (w : World)
    → z ≡ pos b
    → div (record { num = pos b; scale = 0 }) (record { num = pos 10_000; scale = 0 })
      ≡ some (record { num = pos (b * 10 ^ i); scale = i + 4 })
    → spread_fraction z w ≡ (returned (record { num = pos (b * 10 ^ i); scale = i + 4 }), w)
unfolding spread_fraction
spread_fraction-returns z b i w spread fraction =
    ap
      (λ n.
        or_raise invalid_operation
          (div (record { num = n; scale = 0 }) (record { num = pos 10_000; scale = 0 })) w)
      spread
    ∙ ap (λ o. or_raise invalid_operation o w) fraction

abbrev sold : CurrentRate → Currency → Currency → ℤ → LegPricing
sold rate source destination executable = record {
  source = source;
  destination = destination;
  mid_rate = of_rate rate.mid_rate;
  executable_rate = executable;
  spread_bps = rate.sell_spread_bps;
  spread_side = sell;
  rate_snapshot_id = rate.rate_snapshot_id;
}

sell_leg-returns :
    (rate : CurrentRate) (source destination : Currency) (w : World) {x : Decimal} {r : ℤ}
    → spread_fraction rate.sell_spread_bps w ≡ (returned x, w)
    → round_rate (mul (of_rate rate.mid_rate) (sub one x)) ≡ some r
    → sell_leg rate source destination w ≡ (returned (sold rate source destination r), w)
unfolding sell_leg
sell_leg-returns rate source destination w fraction rounds =
    ap
      (λ p.
        resume
          (λ (f : Decimal).
            or_raise invalid_operation (round_rate (mul (of_rate rate.mid_rate) (sub one f)))
            >>= λ executable. pure (sold rate source destination executable))
          p.0 p.1)
      fraction
    ∙ ap
        (λ o.
          (or_raise invalid_operation o >>= λ executable.
          pure (sold rate source destination executable))
            w)
        rounds

same_self : (k : Currency) → same k k ≡ true
same_self k = ground arith

price_leg-direct :
    (rate : CurrentRate) (w : World)
    → price_leg rate rate.base_currency rate.quote_currency w
      ≡ sell_leg rate rate.base_currency rate.quote_currency w
unfolding price_leg
price_leg-direct rate w = rw (same_self rate.base_currency, same_self rate.quote_currency) refl

-- A leg in the direction of its stored rate is always priced, for a stored rate that is positive or
-- zero and fits its column and a spread of at most ten thousand basis points: at the rate nearest to the
-- mid rate less the spread, which is never more than the mid rate.
pub price_leg_sells :
    (rate : CurrentRate) (w : World) {m b : ℕ}
    → rate.mid_rate ≡ pos m
    → rate.sell_spread_bps ≡ pos b
    → m < 10 ^ 20
    → b ≤ 10_000
    → (p : LegPricing) × (r : ℕ) × (price_leg rate rate.base_currency rate.quote_currency w
        ≡ (returned p, w))
      × (p.executable_rate ≡ pos r)
      × (p.spread_side ≡ sell)
      × IsSpreadOff m b r
price_leg_sells rate w {m} {b} mid spread fits small =
    let (i, fraction) = div_ten_thousand b small in
    let (j, less) = one_less b i small in
    let (k, product) =
      of_mid m (10_000 - b) j (omega (arith, mul-le-mul_left m (sub-le 10_000 b))) in
    let (r, rounds, off) = rounded_price m b k fits small in
    (
      sold rate rate.base_currency rate.quote_currency (pos r),
      r,
      price_leg-direct rate w
          ∙ sell_leg-returns rate rate.base_currency rate.quote_currency w
              (spread_fraction-returns rate.sell_spread_bps b i w spread fraction)
              (ap (λ x. round_rate (mul (of_rate rate.mid_rate) x)) less
                ∙ ap
                    (λ n. round_rate (
                      mul (of_rate n)
                        (record { num = pos ((10_000 - b) * 10 ^ j); scale = j + 4 })))
                    mid
                ∙ ap round_rate product
                ∙ rounds),
      refl,
      refl,
      off,
    )
