-- ===== src/Quotes/Routes.antt =====
-- What `build_route` finds.
use umba_fx_engine.Prelude.{◌≡◌, refl, true, false, List, [], ◌∷◌, arith, Bool-cases, inl, inr, ◌⊎◌}
use umba_fx_engine.Money.{Currency, usd, eur, same}
use umba_fx_engine.Errors.{Exception}
use umba_fx_engine.Repositories.Rates.{CurrentRateBook}
use umba_fx_engine.Session.{World, returned, raised}
use umba_fx_engine.Quotes.Pricing.{find_current_rate, is_some, pivot_works, route_by, build_route}

-- There is a stored rate between the two, in either direction.
abbrev pub IsQuoted : CurrentRateBook → Currency → Currency → Type 0
IsQuoted book a b = is_some (find_current_rate book a b) ≡ true

-- The routes that a quote may take: the direct one, and only without it one over a third currency,
-- dollars or euros, with a stored rate for each of its two hops.
pub data IsRoute (book : CurrentRateBook) (a b : Currency) : List Currency → Type 0 where
  direct : IsQuoted book a b → IsRoute book a b (a ∷ b ∷ [])
  over :
      (pivot : Currency)
      → is_some (find_current_rate book a b) ≡ false
      → (pivot ≡ usd) ⊎ (pivot ≡ eur)
      → same pivot a ≡ false
      → same pivot b ≡ false
      → IsQuoted book a pivot
      → IsQuoted book pivot b
      → IsRoute book a b (a ∷ pivot ∷ b ∷ [])

over_pivot :
    (book : CurrentRateBook) (a b pivot : Currency)
    → is_some (find_current_rate book a b) ≡ false
    → (pivot ≡ usd) ⊎ (pivot ≡ eur)
    → pivot_works book a b pivot ≡ true
    → IsRoute book a b (a ∷ pivot ∷ b ∷ [])
unfolding pivot_works
over_pivot book a b pivot none which h =
    over pivot none which (ground arith) (ground arith) (ground arith) (ground arith)

-- A route over a third currency uses it as `pivot_works` tests it.
IsRoute-pivot :
    (book : CurrentRateBook) (a b pivot : Currency) {route : List Currency}
    → IsRoute book a b route
    → route ≡ a ∷ pivot ∷ b ∷ []
    → pivot_works book a b pivot ≡ true
unfolding pivot_works
IsRoute-pivot book a b pivot (direct found) e = cc
IsRoute-pivot book a b pivot (over p _ which d d' first second) e =
    let same_pivot : p ≡ pivot = cc in rw (← same_pivot) (ground arith)

-- The route that is taken: the direct one where there is one, else the one over dollars, and the one
-- over euros only where there is none over dollars.
pub record IsChosen (book : CurrentRateBook) (a b : Currency) (route : List Currency) : Type 0 where
  pub is_route : IsRoute book a b route
  pub dollars_first : route ≡ a ∷ eur ∷ b ∷ [] → ¬ IsRoute book a b (a ∷ usd ∷ b ∷ [])

not_over_euros : (a b : Currency) → ¬ (a ∷ b ∷ [] ≡ a ∷ eur ∷ b ∷ [])
not_over_euros a b e = cc

dollars_not_euros : (a b : Currency) → ¬ (a ∷ usd ∷ b ∷ [] ≡ a ∷ eur ∷ b ∷ [])
dollars_not_euros a b e = cc

-- What `build_route` returns is the direct route where there is a stored rate between the two currencies
-- in either direction; otherwise the route over dollars where both of its hops have a stored rate; and
-- the route over euros only where the one over dollars is none. Nothing changes.
pub build_route-IsChosen :
    (book : CurrentRateBook) (a b : Currency) (w : World) {route : List Currency} {v : World}
    → build_route book a b w ≡ (returned route, v)
    → (v ≡ w) × IsChosen book a b route
unfolding build_route route_by
build_route-IsChosen book a b w {route} {v} h =
    elim (Bool-cases (is_some (find_current_rate book a b))) [
      | inl found ↦
          let r : route ≡ a ∷ b ∷ [] = ground arith in
          (
            ground arith,
            rw r (record {
              is_route = direct found;
              dollars_first = λ e. absurd (not_over_euros a b e);
            }),
          )
      | inr missing ↦ elim (Bool-cases (pivot_works book a b usd)) [
        | inl works ↦
            let r : route ≡ a ∷ usd ∷ b ∷ [] = ground arith in
            (
              ground arith,
              rw r (record {
                is_route = over_pivot book a b usd missing (inl refl) works;
                dollars_first = λ e. absurd (dollars_not_euros a b e);
              }),
            )
        | inr idle ↦ elim (Bool-cases (pivot_works book a b eur)) [
          | inl works ↦
              let r : route ≡ a ∷ eur ∷ b ∷ [] = ground arith in
              (
                ground arith,
                rw r (record {
                  is_route = over_pivot book a b eur missing (inr refl) works;
                  dollars_first = λ e x. let y = IsRoute-pivot book a b usd x refl in cc;
                }),
              )
          | inr none ↦ ground arith
        ]
      ]
    ]

IsRoute-works :
    (book : CurrentRateBook) (a b : Currency) {route : List Currency}
    → is_some (find_current_rate book a b) ≡ false
    → pivot_works book a b usd ≡ false
    → pivot_works book a b eur ≡ false
    → ¬ IsRoute book a b route
unfolding pivot_works
IsRoute-works book a b missing no_usd no_eur (direct found) = cc
IsRoute-works book a b missing no_usd no_eur (over pivot _ (inl e) d d' first second) =
    ground (arith, e)
IsRoute-works book a b missing no_usd no_eur (over pivot _ (inr e) d d' first second) =
    ground (arith, e)

-- It raises only where there is no route.
pub build_route_raises :
    (book : CurrentRateBook) (a b : Currency) (w : World) {x : Exception} {route : List Currency}
    → (build_route book a b w).0 ≡ raised x
    → ¬ IsRoute book a b route
unfolding build_route route_by
build_route_raises book a b w h =
    IsRoute-works book a b (ground arith) (ground arith) (ground arith)
