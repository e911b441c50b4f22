-- ===== src/Rates/Provider.antt =====
-- app/services/rates.py: `RateProvider.fetch` and `pair_mid_rate`. The HTTP call and the parsing of
-- JSON, of decimals and of times are not part of the repository: their results are the `Reply`.
use umba_fx_engine.Prelude.{
  ℕ, String, Bool, true, false, not, ◌&&◌, ◌||◌, Option, none, some, List, [], ◌∷◌, leb, str_eq,
  if◌then◌else◌,
}
use umba_fx_engine.Prelude.Int.{pos, leb_ℤ}
use umba_fx_engine.Money.{Currency, usd, eur, kes, ngn, currencies, same, value}
use umba_fx_engine.Money.Arithmetic.{Decimal}
use umba_fx_engine.Errors.{Exception, api, bad_gateway, gateway_timeout, invalid_operation, other}
use umba_fx_engine.Session.{Action, ◌>>=◌, ◌>>◌, pure, raise, raise_if, or_raise}

-- `Decimal(str(v))` of a rate in the payload; `garbled` raises InvalidOperation.
pub data RateValue : Type 0 where
  finite : Decimal → RateValue
  infinite nan garbled : RateValue

-- `payload.get("timestamp")` as `_provider_timestamp` reads it; the last two raise ValueError and
-- OverflowError.
pub data Timestamp : Type 0 where
  absent : Timestamp
  at : ℕ → Timestamp
  malformed beyond_range : Timestamp

-- `payload["rates"]`: an object, or a value without `items`, such as null or a list.
pub data RatesField : Type 0 where
  object : List (String × RateValue) → RatesField
  no_items : RatesField

pub record Document : Type 0 where
  -- `payload.get("success") is False`
  pub unsuccessful : Bool
  -- `none` without "rates" in the payload.
  pub rates : Option RatesField
  pub base : Option String
  pub timestamp : Timestamp
  pub hash : String

-- The body of a response: no JSON, JSON that is no object, or an object.
pub data Body : Type 0 where
  not_json no_object : Body
  document : Document → Body

-- What `httpx.get` comes back with.
pub data Reply : Type 0 where
  timeout unreachable : Reply
  response : ℕ → Body → Reply

-- `hash` stands for the raw payload, which is read for its digest only.
pub record ProviderRates : Type 0 where
  pub provider : String
  pub base_currency : Currency
  pub rates : Currency → Option RateValue
  pub provider_timestamp : Option ℕ
  pub raw_payload_hash : String

abbrev pub error_upstream_bad_response : String
error_upstream_bad_response = "upstream_bad_response"

abbrev pub bad_response : {A : Type 0} → String → Action A
bad_response detail = raise (api (bad_gateway error_upstream_bad_response detail))

-- `Currency(code)`; `none` is a ValueError.
abbrev pub parse_currency : String → Option Currency
parse_currency code =
    if str_eq code "USD"
    then some usd
    else if str_eq code "EUR"
    then some eur
    else if str_eq code "KES"
    then some kes
    else if str_eq code "NGN"
    then some ngn
    else none

-- `Decimal(str(v))`
abbrev pub is_garbled : RateValue → Bool
is_garbled garbled = true
is_garbled _ = false

-- The dict comprehension over the supported codes: the last value of a code stands.
unfoldable pub collect_rates : List (String × RateValue) → Currency → Option RateValue
collect_rates [] k = none
collect_rates ((code, v) ∷ rest) k = elim (collect_rates rest k) [
  | some later ↦ some later
  | none ↦ if str_eq code (value k) then some v else none
]

-- Whether a supported code has a value that is no number.
unfoldable pub has_garbled : List (String × RateValue) → Bool
has_garbled [] = false
has_garbled ((code, v) ∷ rest) =
    (elim (parse_currency code) [ none ↦ false | some k ↦ is_garbled v ]) || has_garbled rest

abbrev pub base_or_usd : Option String → Option Currency
base_or_usd none = some usd
base_or_usd (some code) = parse_currency code

-- `_provider_timestamp`
unfoldable pub provider_time : Timestamp → Action (Option ℕ)
provider_time absent = pure none
provider_time (at time) = pure (some time)
provider_time malformed = bad_response "Rate provider returned invalid rate data."
provider_time beyond_range = raise (other "OverflowError")

abbrev pub any_of : List Currency → (Currency → Bool) → Bool
any_of [] p = false
any_of (k ∷ ks) p = p k || any_of ks p

abbrev pub is_missing : Currency → (Currency → Option RateValue) → Currency → Bool
is_missing base rates k = not (same k base) && elim (rates k) [ none ↦ true | some v ↦ false ]

-- `rate <= 0`; an ordered comparison with NaN raises InvalidOperation.
abbrev pub is_nonpositive : Option RateValue → Bool
is_nonpositive (some (finite d)) = leb_ℤ d.num (pos 0)
is_nonpositive _ = false

abbrev pub is_nan : Option RateValue → Bool
is_nan (some nan) = true
is_nan _ = false

-- One item of the scan; the codes that are not supported were left out of the dict.
unfoldable pub scan_item :
    (Currency → Option RateValue) → Option Currency → Action Bool → Action Bool
scan_item rates none rest = rest
scan_item rates (some k) rest =
    if is_nan (rates k)
    then raise invalid_operation
    else if is_nonpositive (rates k)
    then pure true
    else rest

-- `any(rate <= 0 for rate in rates.values())` over the values in the order of the payload: the first
-- that is not positive ends it with true, and a NaN before that raises.
unfoldable pub scan_rates : List (String × RateValue) → (Currency → Option RateValue) → Action Bool
unfolding scan_item
scan_rates [] rates = pure false
scan_rates ((code, v) ∷ rest) rates = scan_item rates (parse_currency code) (scan_rates rest rates)

-- `payload["rates"].items()`; no handler is for its AttributeError.
unfoldable pub rate_items : RatesField → Action (List (String × RateValue))
rate_items (object items) = pure items
rate_items no_items = raise (other "AttributeError")

abbrev incomplete : Exception
incomplete = api (
    bad_gateway error_upstream_bad_response
      "Rate provider returned incomplete or non-positive rates.")

-- The validation of an object.
unfoldable pub sanitize : Document → Action ProviderRates
unfolding collect_rates rate_items has_garbled provider_time scan_rates
sanitize d = do
  raise_if d.unsuccessful
      (api (bad_gateway error_upstream_bad_response "Rate provider returned an unusable response."))
  field ←
      or_raise
        (api
          (bad_gateway error_upstream_bad_response "Rate provider returned an unusable response."))
        d.rates
  base ←
      or_raise
        (api (bad_gateway error_upstream_bad_response "Rate provider returned invalid rate data."))
        (base_or_usd d.base)
  items ← rate_items field
  raise_if (has_garbled items)
      (api (bad_gateway error_upstream_bad_response "Rate provider returned invalid rate data."))
  time ← provider_time d.timestamp
  let rates = collect_rates items
  raise_if (any_of currencies (is_missing base rates)) incomplete
  unusable ← scan_rates items rates
  raise_if unusable incomplete
  pure (record {
    provider = "fxapi.app";
    base_currency = base;
    rates = rates;
    provider_timestamp = time;
    raw_payload_hash = d.hash;
  })

-- `RateProvider.fetch`. The body is parsed before the status is looked at.
unfoldable pub fetch : Reply → Action ProviderRates
unfolding sanitize
fetch timeout = raise (api (gateway_timeout "Rate provider timed out."))
fetch unreachable = bad_response "Rate provider request failed."
fetch (response status not_json) = bad_response "Rate provider returned invalid JSON."
fetch (response status no_object) =
    if leb 400 status
    then bad_response "Rate provider returned an HTTP error."
    else raise (other "AttributeError")
fetch (response status (document d)) =
    if leb 400 status then bad_response "Rate provider returned an HTTP error." else sanitize d

-- The finite rate of `quote` against the provider's base. An infinite rate raises when it is rounded.
unfoldable pub pair_mid_rate : ProviderRates → Currency → Option RateValue
pair_mid_rate rates quote =
    if same quote rates.base_currency
    then some (finite (record { num = pos 1; scale = 0 }))
    else rates.rates quote
