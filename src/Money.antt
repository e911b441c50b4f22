-- ===== src/Money.antt =====
-- app/utils/money.py: currencies, and the two roundings.
pub mod Arithmetic
pub mod Digits
pub mod Exact
pub mod Printing
pub mod Rounding
pub mod RoundTrip
use umba_fx_engine.Prelude.{ℕ, Bool, Option, List, [], ◌∷◌, String, ◌==◌}
use umba_fx_engine.Prelude.Int.{ℤ}
use Arithmetic.{Decimal, quantize}

pub data Currency : Type 0 where
  usd eur kes ngn : Currency

-- The members in the order of the class body, as `for currency in Currency` runs through them.
abbrev pub currencies : List Currency
currencies = usd ∷ eur ∷ kes ∷ ngn ∷ []

-- The place of a currency's code among the four codes in alphabetical order.
abbrev pub rank : Currency → ℕ
rank eur = 0
rank kes = 1
rank ngn = 2
rank usd = 3

abbrev pub same : Currency → Currency → Bool
same a b = rank a == rank b

-- `Currency.value`
abbrev pub value : Currency → String
value usd = "USD"
value eur = "EUR"
value kes = "KES"
value ngn = "NGN"

-- The scales of stored money and of stored rates.
abbrev pub standard_minor_unit_places : ℕ
standard_minor_unit_places = 2

abbrev pub rate_places : ℕ
rate_places = 10

-- An amount rounded to a hundredth is the integer number of hundredths, and a rounded rate is the
-- number of its units of 10 ^ -10; these give the decimals back.
abbrev pub of_cents : ℤ → Decimal
of_cents c = record { num = c; scale = standard_minor_unit_places }

abbrev pub of_rate : ℤ → Decimal
of_rate r = record { num = r; scale = rate_places }

-- `none` is `decimal.InvalidOperation`.
unfoldable pub round_money : Decimal → Currency → Option ℤ
unfolding quantize
round_money amount currency = quantize standard_minor_unit_places amount

unfoldable pub round_rate : Decimal → Option ℤ
unfolding quantize
round_rate rate = quantize rate_places rate
