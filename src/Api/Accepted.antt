-- ===== src/Api/Accepted.antt =====
-- What the bodies of requests carry once they are accepted.
use umba_fx_engine.Prelude.{◌≡◌, refl, ◌↔◌, String, Option, none, some, arith}
use umba_fx_engine.Prelude.Int.{pos, ◌<ℤ◌}
use umba_fx_engine.Money.Arithmetic.{Decimal}
use umba_fx_engine.Api.Schemas.{
  Json, string, other_json, require_decimal_string, amount_field, ◌>>=◌, positive,
}

accepted :
    (s : String) (read : Option Decimal) (d : Decimal)
    → (read >>= positive) ≡ some d
    → (read ≡ some d) × (pos 0 <ℤ d.num)
accepted s none d h = cc
accepted s (some r) d h = ground arith

-- An amount is accepted exactly when it is written as a text that the parser reads as a positive number,
-- and then it is that number: a number of JSON, which would be read as binary, never is.
pub amount_field_iff :
    (parse : String → Option Decimal) (value : Json) (d : Decimal)
    → (amount_field parse value ≡ some d)
      ↔ ((s : String) × (value ≡ string s) × (parse s ≡ some d) × (pos 0 <ℤ d.num))
unfolding amount_field require_decimal_string
amount_field_iff parse value d =
    (λ h. forth value h, λ (s, written, read, positive). rw (written, read) (ground arith))
  where
    forth :
        (value : Json)
        → amount_field parse value ≡ some d
        → (s : String) × (value ≡ string s) × (parse s ≡ some d) × (pos 0 <ℤ d.num)
    forth (string s) h = let (read, more) = accepted s (parse s) d h in (s, refl, read, more)
    forth other_json h = cc
