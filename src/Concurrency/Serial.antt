-- ===== src/Concurrency/Serial.antt =====
-- Concurrent calls of `execute_quote` do to the tables what the same calls do one after another.
use umba_fx_engine.Prelude.{
  ℕ, ◌≡◌, refl, sym, ap, ◌∙◌, false, ◌⊎◌, inl, inr, ◌==◌, ◌↔◌, List, [], ◌∷◌, arith, Bool-cases,
}
use umba_fx_engine.Schema.{Tables, Payload}
use umba_fx_engine.Settings.{Settings}
use umba_fx_engine.Session.{Outcome, returned}
use umba_fx_engine.Session.Backend.{Engine, IsTransactional}
use umba_fx_engine.Executions.Rejections.{Request}
use umba_fx_engine.Executions.Spec.{Transfer}
use umba_fx_engine.System.Requests.{Operation, Answer, serve}
use umba_fx_engine.System.Effects.{Effect, serve-Effect}
use umba_fx_engine.System.Sound.{IsSound}
use umba_fx_engine.Concurrency.Phases.{Phase, looked, keyed, over}
use umba_fx_engine.Concurrency.Follows.{advance-Moves}
use umba_fx_engine.Concurrency.Protocol.{
  Moves, look, replay, claim, find, check, open_first, open_second, lock_first, lock_second,
  transfer, refuse, stay,
}
use umba_fx_engine.Concurrency.Interleaving.{
  Shared, update, turn, served, go, other, Interleaved, none_yet, later, IsStart,
}
use umba_fx_engine.Concurrency.Kept.{Interleaved-Inv}

-- `Serial calls t u`: the calls, each a whole transfer with its response, and other requests between
-- them, one after another lead from the tables `t` to `u`. The last call is first in the list.
pub data Serial (e : Engine) (settings : Settings) (requests : ℕ → Request) (t : Tables)
    : List (ℕ × Payload) → Tables → Type 0 where
  nothing : Serial e settings requests t [] t
  transferred :
      {calls : List (ℕ × Payload)} {u v : Tables} (i : ℕ) {time : ℕ} {p : Payload}
      → Serial e settings requests t calls u
      → Transfer (requests i) time u p v
      → Serial e settings requests t ((i, p) ∷ calls) v
  answered :
      {calls : List (ℕ × Payload)} {u v : Tables} (op : Operation) (r : Outcome Answer)
      → Serial e settings requests t calls u
      → Effect e settings op r u v
      → Serial e settings requests t calls v

abbrev pub IsAmong : ℕ → Payload → List (ℕ × Payload) → Type 0
IsAmong i p [] = ⊥
IsAmong i p ((j, p') ∷ calls) = ((i ≡ j) × (p ≡ p')) ⊎ IsAmong i p calls

-- The calls that have returned a new execution are those of the list.
abbrev pub AreWinners : (ℕ → Phase) → List (ℕ × Payload) → Type 0
AreWinners phases calls =
    (i : ℕ) (p : Payload) → (phases i ≡ over (returned (p, false))) ↔ IsAmong i p calls

over-injective :
    {p p' : Payload} → over (returned (p, false)) ≡ over (returned (p', false)) → p ≡ p'
over-injective h = cc

update_self : (phases : ℕ → Phase) (i : ℕ) (next : Phase) → update phases i next i ≡ next
update_self phases i next = ground arith

update_other :
    (phases : ℕ → Phase) (i : ℕ) (next : Phase) (j : ℕ)
    → (j == i) ≡ false
    → update phases i next j ≡ phases j
update_other phases i next j h = rw h refl

module _ {phases : ℕ → Phase} (calls : List (ℕ × Payload)) (winners : AreWinners phases calls)
    (i : ℕ) where
  -- The session that moves wins, and had not won before.
  won-AreWinners :
      (p : Payload)
      → ((p' : Payload) → ¬ (phases i ≡ over (returned (p', false))))
      → AreWinners (update phases i (over (returned (p, false)))) ((i, p) ∷ calls)
  won-AreWinners p fresh_win j p' = (to, from)
    where
      to :
          update phases i (over (returned (p, false))) j ≡ over (returned (p', false))
          → ((j ≡ i) × (p' ≡ p)) ⊎ IsAmong j p' calls
      to h = elim (Bool-cases (j == i)) [
        | inl here ↦
            let e : j ≡ i = ground arith in
            inl
              (e, over-injective (sym h ∙ rw e (update_self phases i (over (returned (p, false))))))
        | inr away ↦
            inr (
              (winners j p').0
                (sym (update_other phases i (over (returned (p, false))) j away) ∙ h))
      ]

      from :
          ((j ≡ i) × (p' ≡ p)) ⊎ IsAmong j p' calls
          → update phases i (over (returned (p, false))) j ≡ over (returned (p', false))
      from (inl (e, e')) = rw (e, e') (update_self phases i (over (returned (p, false))))
      from (inr h) = elim (Bool-cases (j == i)) [
        | inl here ↦
            let e : j ≡ i = ground arith in
            absurd (fresh_win p' (ap phases (sym e) ∙ (winners j p').1 h))
        | inr away ↦ update_other phases i (over (returned (p, false))) j away ∙ (winners j p').1 h
      ]

  -- The session that moves wins if it had won before.
  same-AreWinners :
      (next : Phase)
      → ((p : Payload)
          → (next ≡ over (returned (p, false))) ↔ (phases i ≡ over (returned (p, false))))
      → AreWinners (update phases i next) calls
  same-AreWinners next same j p = elim (Bool-cases (j == i)) [
    | inl here ↦
        let e : j ≡ i = ground arith in
        let now : update phases i next j ≡ next = rw e (update_self phases i next) in
        (
          λ h. (winners j p).0 (ap phases e ∙ (same p).0 (sym now ∙ h)),
          λ h. now ∙ (same p).1 (ap phases (sym e) ∙ (winners j p).1 h),
        )
    | inr away ↦
        let now = update_other phases i next j away in
        (λ h. (winners j p).0 (sym now ∙ h), λ h. now ∙ (winners j p).1 h)
  ]

-- A move of session `i`, as a step of the serial run.
module _ (e : Engine) (settings : Settings) (requests : ℕ → Request) (t : Tables) where
  abbrev IsSerial : (ℕ → Phase) → Tables → Type 0
  IsSerial phases u =
      (calls : List (ℕ × Payload)) × Serial e settings requests t calls u × AreWinners phases calls

  Moves-IsSerial :
      (i : ℕ) {u v : Tables} {phase next : Phase} (phases : ℕ → Phase)
      → Moves (requests i) u phase next v
      → phases i ≡ phase
      → IsSerial phases u
      → IsSerial (update phases i next) v
  Moves-IsSerial i phases (transfer {p} time x) h (calls, run, winners) =
      ((i, p) ∷ calls, transferred i run x, won-AreWinners calls winners i p (λ p' h'. cc))
  Moves-IsSerial i phases look h (calls, run, winners) =
      (calls, run, same-AreWinners calls winners i looked (λ p. (λ h'. cc, λ h'. cc)))
  Moves-IsSerial i phases (replay r) h (calls, run, winners) =
      (calls, run, same-AreWinners calls winners i _ (λ p. (λ h'. cc, λ h'. cc)))
  Moves-IsSerial i phases (claim g) h (calls, run, winners) =
      (calls, run, same-AreWinners calls winners i keyed (λ p. (λ h'. cc, λ h'. cc)))
  Moves-IsSerial i phases (find g) h (calls, run, winners) =
      (calls, run, same-AreWinners calls winners i _ (λ p. (λ h'. cc, λ h'. cc)))
  Moves-IsSerial i phases (check time g g') h (calls, run, winners) =
      (calls, run, same-AreWinners calls winners i _ (λ p. (λ h'. cc, λ h'. cc)))
  Moves-IsSerial i phases (open_first g) h (calls, run, winners) =
      (calls, run, same-AreWinners calls winners i _ (λ p. (λ h'. cc, λ h'. cc)))
  Moves-IsSerial i phases (open_second g) h (calls, run, winners) =
      (calls, run, same-AreWinners calls winners i _ (λ p. (λ h'. cc, λ h'. cc)))
  Moves-IsSerial i phases (lock_first g) h (calls, run, winners) =
      (calls, run, same-AreWinners calls winners i _ (λ p. (λ h'. cc, λ h'. cc)))
  Moves-IsSerial i phases (lock_second g) h (calls, run, winners) =
      (calls, run, same-AreWinners calls winners i _ (λ p. (λ h'. cc, λ h'. cc)))
  Moves-IsSerial i phases (refuse g) h (calls, run, winners) = (
    calls,
    run,
    same-AreWinners calls winners i _
        (λ p. (λ h'. cc, λ h'. absurd (g (returned (p, false)) (sym h ∙ h')))),
  )
  Moves-IsSerial i phases stay h (calls, run, winners) =
      (calls, run, same-AreWinners calls winners i _ (λ p. (λ h'. h ∙ h', λ h'. sym h ∙ h')))

module _ {e : Engine} (law : IsTransactional e) (settings : Settings) {requests : ℕ → Request}
    {s : Shared} (start : IsStart s) (sound : IsSound s.world.db.committed) where
  -- However calls and other requests are interleaved, from sound tables on: the committed tables are
  -- those of a serial run of whole transfers and whole requests, in which the transfers are those of
  -- exactly the calls that have returned a new execution, each with its response.
  pub Interleaved-Serial :
      {v : Shared}
      → Interleaved e settings requests s v
      → (calls : List (ℕ × Payload)) × Serial e settings requests s.world.db.committed calls
          v.world.db.committed
        × AreWinners v.phases calls
  unfolding turn served
  Interleaved-Serial none_yet = ([], nothing, λ i p. (λ h. let e = start i in cc, λ h. absurd h))
  Interleaved-Serial (later {u} run (go i may)) =
      let inv = Interleaved-Inv law settings start sound run in
      Moves-IsSerial e settings requests s.world.db.committed i u.phases
        (advance-Moves law (requests i) u.world (u.phases i) inv.sound.in_range (inv.relies i)) refl
        (Interleaved-Serial run)
  Interleaved-Serial (later {u} run (other op may)) =
      let (calls, serial, winners) = Interleaved-Serial run in
      (
        calls,
        answered op (serve e settings op u.world).0 serial (
            serve-Effect law settings op u.world
              (Interleaved-Inv law settings start sound run).sound.in_range),
        winners,
      )
