-- ===== src/Api/Schemas.antt =====
-- app/api/schemas: what is accepted of a request's body, and the fields of each response. Pydantic and
-- its parsing of decimals are not part of the repository: the parser is an argument.
use umba_fx_engine.Prelude.{ℕ, String, Option, none, some, List, if◌then◌else◌}
use umba_fx_engine.Prelude.Int.{ℤ, pos, leb_ℤ}
use umba_fx_engine.Money.{Currency, of_cents, of_rate}
use umba_fx_engine.Money.Arithmetic.{Decimal}
use umba_fx_engine.Money.Printing.{decimal_to_str}
use umba_fx_engine.Rates.Provider.{parse_currency}

-- A value of a JSON body.
pub data Json : Type 0 where
  string : String → Json
  other_json : Json

-- `require_decimal_string`; `none` is its ValueError.
unfoldable pub require_decimal_string : Json → Option String
require_decimal_string (string s) = some s
require_decimal_string other_json = none

infixl 5 ◌>>=◌
abbrev pub ◌>>=◌ : {A B : Type 0} → Option A → (A → Option B) → Option B
none >>= f = none
some a >>= f = f a

-- `Field(gt=0)`
abbrev pub positive : Decimal → Option Decimal
positive d = if leb_ℤ d.num (pos 0) then none else some d

-- A field of type `Currency`.
abbrev currency_field : Json → Option Currency
currency_field (string s) = parse_currency s
currency_field other_json = none

-- `amount` and `source_amount`: the validator that runs first, the parser, the bound.
unfoldable pub amount_field : (String → Option Decimal) → Json → Option Decimal
unfolding require_decimal_string
amount_field parse value = do
  written ← require_decimal_string value
  amount ← parse written
  positive amount

pub record BalanceCreditRequest : Type 0 where
  pub currency : Currency
  pub amount : Decimal

unfoldable pub balance_credit_request :
    (String → Option Decimal) → Json → Json → Option BalanceCreditRequest
unfolding amount_field
balance_credit_request parse currency amount = do
  k ← currency_field currency
  a ← amount_field parse amount
  some (record { currency = k; amount = a })

-- The body of `POST /quotes`; the customer's id has been read as a UUID.
pub record QuoteBody : Type 0 where
  pub customer_id : ℕ
  pub source_currency : Currency
  pub destination_currency : Currency
  pub source_amount : Decimal

unfoldable pub quote_body : (String → Option Decimal) → ℕ → Json → Json → Json → Option QuoteBody
unfolding amount_field
quote_body parse customer source destination amount = do
  s ← currency_field source
  d ← currency_field destination
  a ← amount_field parse amount
  some (record {
    customer_id = customer;
    source_currency = s;
    destination_currency = d;
    source_amount = a;
  })

-- The serializer of `DecimalStringModel`, on a field of money and on a rate.
abbrev pub money_text : ℤ → List ℕ
money_text c = decimal_to_str (of_cents c)

abbrev pub rate_text : ℤ → List ℕ
rate_text r = decimal_to_str (of_rate r)

pub record BalanceResponse : Type 0 where
  pub currency : Currency
  pub amount : List ℕ

pub record BalancesResponse : Type 0 where
  pub customer_id : ℕ
  pub balances : List (Currency × List ℕ)

pub record QuoteResponse : Type 0 where
  pub quote_id : ℕ
  pub source_currency : Currency
  pub destination_currency : Currency
  pub source_amount : List ℕ
  pub destination_amount : List ℕ
  pub executable_rate : List ℕ
  pub route : List Currency
  -- Printed by `isoformat`.
  pub expires_at : ℕ

pub record RateRefreshResponse : Type 0 where
  pub rate_refresh_id : ℕ
  pub status : String
  pub fetched_at : ℕ
  pub pairs_updated : ℕ

pub record ReadinessResponse : Type 0 where
  pub status : String
  pub database : String
  pub rates : String
