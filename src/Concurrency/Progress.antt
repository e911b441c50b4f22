-- ===== src/Concurrency/Progress.antt =====
-- Sessions that wait for one another's locks: there is no deadlock, and every call can end. The locks
-- are taken in one order: the key, the quote, the zero rows by their currencies' codes, the balances by
-- their currencies' codes.
use native.Mathlib.Decide.{dec_lt, ℕ_discrete}
use umba_fx_engine.Prelude.{
  some-injective, String, ℕ, zero, suc, ◌+◌, ◌≤◌, ◌<◌, ◌≡◌, sym, subst, ◌∙◌, some, List, [], ◌∷◌,
  ◌⊎◌, inl, inr, arith, Bool, str_eq, eq_iff, Bool-cases, Option-cases,
}
use umba_fx_engine.Money.{rank, same}
use umba_fx_engine.Schema.{Quote, Payload}
use umba_fx_engine.Session.{Outcome}
use umba_fx_engine.Executions.Rejections.{Request}
use umba_fx_engine.Concurrency.Phases.{
  Phase, fresh, looked, keyed, quoted, checked, opened, prepared, paying_first, paying_both, over,
  first_currency, second_currency, Lock, key_lock, quote_lock, row_lock, balance_lock, held_locks,
  IsHeld, wanted,
}
use umba_fx_engine.Concurrency.Interleaving.{Shared, locks, IsFree, MayGo}
use umba_fx_engine.Concurrency.Invariant.{Inv}

-- The place of a lock in the order.
abbrev pub place : Lock → ℕ
place (key_lock key) = 0
place (quote_lock id) = 1
place (row_lock c k) = 2 + rank k
place (balance_lock c k) = 6 + rank k

place-lt : (l : Lock) → place l < 10
place-lt (key_lock key) = omega arith
place-lt (quote_lock id) = omega arith
place-lt (row_lock c k) = ground arith
place-lt (balance_lock c k) = ground arith

sorted-order :
    (quote : Quote)
    → (rank (first_currency quote) < rank (second_currency quote))
      ⊎ (first_currency quote ≡ second_currency quote)
sorted-order quote = ground arith

-- What a session holds comes before what it waits for, or is that.
held-place :
    (q : Request) (phase : Phase) (l l' : Lock)
    → IsHeld l (held_locks q phase)
    → wanted q phase ≡ some l'
    → (place l < place l') ⊎ (l ≡ l')
held-place q keyed l l' (inl e) w = ground arith
held-place q keyed l l' (inr h) w = absurd h
held-place q (checked quote) l l' h w = ground arith
held-place q (opened quote a) l l' h w = ground (arith, sorted-order quote)
held-place q (prepared quote own) l l' h w = ground arith
held-place q (paying_first quote own first) l l' h w = ground (arith, sorted-order quote)
held-place q fresh l l' h w = absurd h
held-place q looked l l' h w = absurd h
held-place q (quoted quote) l l' h w = cc
held-place q (paying_both quote own first second) l l' h w = cc
held-place q (over r) l l' h w = absurd h

String-discrete : Discrete String
String-discrete s t = elim (Bool-cases (str_eq s t)) [
  | inl same ↦ yes (ground (arith, eq_iff s t))
  | inr differs ↦ no (λ e. ground (arith, eq_iff s t))
]

Lock-discrete : Discrete Lock
Lock-discrete = hlevel (String-discrete, ℕ_discrete)

dec_IsHeld : (l : Lock) (xs : List Lock) → Dec (IsHeld l xs)
dec_IsHeld l [] = no (λ h. h)
dec_IsHeld l (x ∷ xs) = elim (Lock-discrete l x) [
  | yes e ↦ yes (inl e)
  | no differs ↦ elim (dec_IsHeld l xs) [
    | yes h ↦ yes (inr h)
    | no other ↦ no (λ h. elim h [ inl e ↦ differs e | inr h' ↦ other h' ])
  ]
]

-- All the calls that have begun are among the first `n`.
abbrev pub Begun : Shared → ℕ → Type 0
Begun s n = (j : ℕ) → n ≤ j → s.phases j ≡ fresh

abbrev pub IsOver : Shared → ℕ → Type 0
IsOver s j = (r : Outcome (Payload × Bool)) × (s.phases j ≡ over r)

module _ (requests : ℕ → Request) (s : Shared) where
  -- The first `n` sessions are searched for the holder of a lock.
  holder :
      (l : Lock) (n : ℕ)
      → ((j : ℕ) × (j < n) × IsHeld l (locks requests s j))
        ⊎ ((j : ℕ) → j < n → IsHeld l (locks requests s j) → ⊥)
  holder l zero = inr (λ j below h. absurd (omega arith))
  holder l (suc n) = elim (dec_IsHeld l (locks requests s n)) [
    | yes h ↦ inl (n, omega arith, h)
    | no free ↦ elim (holder l n) [
      | inl (j, below, h) ↦ inl (j, omega arith, h)
      | inr none_below ↦ inr (λ j below h. elim (ℕ_discrete j n) [
        | yes last ↦ free (subst (λ k. IsHeld l (locks requests s k)) last h)
        | no earlier ↦ none_below j (omega arith) h
      ])
    ]
  ]

  held-not-IsOver : (l : Lock) (j : ℕ) → IsHeld l (locks requests s j) → ¬ IsOver s j
  held-not-IsOver l j h (r, e) = subst (λ phase. IsHeld l (held_locks (requests j) phase)) e h

  free-MayGo :
      (i : ℕ) (l : Lock)
      → wanted (requests i) (s.phases i) ≡ some l
      → IsFree requests s l i
      → MayGo requests s i
  free-MayGo i l w free l' w' =
      subst (λ x. IsFree requests s x i) (some-injective (sym w ∙ w')) free

module _ {requests : ℕ → Request} {s : Shared} (inv : Inv requests s) (n : ℕ)
    (begun : Begun s n) where
  begun-lt : (l : Lock) (j : ℕ) → IsHeld l (locks requests s j) → j < n
  begun-lt l j h = elim (dec_lt j n) [
    | yes below ↦ below
    | no above ↦
        absurd (subst (λ phase. IsHeld l (held_locks (requests j) phase)) (begun j (omega arith)) h)
  ]

  -- Along the order of the locks, from a session that waits to one that need not.
  follow :
      (bound i : ℕ) (l : Lock)
      → i < n
      → ¬ IsOver s i
      → wanted (requests i) (s.phases i) ≡ some l
      → 10 ≤ bound + place l
      → (j : ℕ) × (j < n) × ¬ IsOver s j × MayGo requests s j
  follow zero i l below running w enough = absurd (omega (arith, place-lt l))
  follow (suc bound) i l below running w enough = elim (holder requests s l n) [
    | inr free ↦
        (i, below, running, free-MayGo requests s i l w (λ j h. absurd (free j (begun-lt l j h) h)))
    | inl (j, below', h) ↦ elim (Option-cases (wanted (requests j) (s.phases j))) [
      | inl rests ↦ (j, below', held-not-IsOver requests s l j h, λ l' w'. cc)
      | inr (l', w') ↦ elim (held-place (requests j) (s.phases j) l l' h w') [
        | inl before ↦ follow bound j l' below' (held-not-IsOver requests s l j h) w' (omega arith)
        | inr own ↦ (
          j,
          below',
          held-not-IsOver requests s l j h,
          free-MayGo requests s j l' w'
              (λ k h'. inv.exclusive l' k j h' (subst (λ x. IsHeld x (locks requests s j)) own h)),
        )
      ]
    ]
  ]

  -- While a call is not over, some call that is not over need not wait.
  pub no_deadlock_from :
      (i : ℕ) → i < n → ¬ IsOver s i → (j : ℕ) × (j < n) × ¬ IsOver s j × MayGo requests s j
  no_deadlock_from i below running = elim (Option-cases (wanted (requests i) (s.phases i))) [
    | inl rests ↦ (i, below, running, λ l w. cc)
    | inr (l, w) ↦ follow 10 i l below running w (omega arith)
  ]
