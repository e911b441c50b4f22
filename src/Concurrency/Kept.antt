-- ===== src/Concurrency/Kept.antt =====
-- Every step of the sessions keeps the invariant.
use umba_fx_engine.Prelude.{ℕ, ◌≡◌, refl, true, ◌==◌, arith}
use umba_fx_engine.Settings.{Settings}
use umba_fx_engine.Session.Backend.{Engine, IsTransactional}
use umba_fx_engine.Executions.Rejections.{Request}
use umba_fx_engine.System.Sound.{IsSound}
use umba_fx_engine.System.Requests.{Operation, serve}
use umba_fx_engine.System.Effects.{serve-Effect}
use umba_fx_engine.System.Runs.{Effect-both}
use umba_fx_engine.Concurrency.Views.{seen}
use umba_fx_engine.Concurrency.Phases.{advance}
use umba_fx_engine.Concurrency.Protocol.{Moves}
use umba_fx_engine.Concurrency.Undisturbed.{Relies-kept}
use umba_fx_engine.Concurrency.Others.{Effect-IsUndisturbed}
use umba_fx_engine.Concurrency.Follows.{advance-Moves}
use umba_fx_engine.Concurrency.Interleaving.{
  Shared, MayGo, MayServe, turn, served, Step, go, other, Interleaved, none_yet, later, IsStart,
}
use umba_fx_engine.Concurrency.Invariant.{Inv, IsStart-Inv, Extends-is_executed, after, move-Inv}

module _ {e : Engine} (law : IsTransactional e) (settings : Settings) {requests : ℕ → Request} where
  pub turn-Moves :
      (i : ℕ) {s : Shared}
      → Inv requests s
      → let v = turn e requests i s in
        Moves (requests i) s.world.db.committed (s.phases i) (v.phases i) v.world.db.committed
  unfolding turn
  turn-Moves i {s} inv =
      rw (self i)
        (advance-Moves law (requests i) s.world (s.phases i) inv.sound.in_range (inv.relies i))
    where
      self : (i : ℕ) → (i == i) ≡ true
      self i = ground arith

  turn-Inv :
      (i : ℕ) {s : Shared}
      → MayGo requests s i
      → Inv requests s
      → Inv requests (turn e requests i s)
  unfolding turn after
  turn-Inv i {s} may inv =
      move-Inv inv i may
        (advance-Moves law (requests i) s.world (s.phases i) inv.sound.in_range (inv.relies i))
        (advance e (requests i) (s.phases i) (seen (requests i) (s.phases i) s.world)).1 refl

  served-Inv :
      (op : Operation) {s : Shared}
      → MayServe requests s op (served e settings op s).world.db.committed
      → Inv requests s
      → Inv requests (served e settings op s)
  unfolding served
  served-Inv op {s} may inv =
      let effect = serve-Effect law settings op s.world inv.sound.in_range in
      let r = (serve e settings op s.world).0 in
      let (sound, history) = Effect-both e settings op r effect inv.sound in
      record {
        sound = sound;
        relies = λ j.
            Relies-kept (requests j) (s.phases j)
              (Effect-IsUndisturbed e settings requests s j op r may effect) (inv.relies j);
        exclusive = inv.exclusive;
        executed =
            λ j p won. Extends-is_executed (requests j).quote_id history (inv.executed j p won);
        once = inv.once;
      }

  Step-Inv : {s v : Shared} → Step e settings requests s v → Inv requests s → Inv requests v
  Step-Inv (go i may) inv = turn-Inv i may inv
  Step-Inv (other op may) inv = served-Inv op may inv

  pub Interleaved-Inv :
      {s v : Shared}
      → IsStart s
      → IsSound s.world.db.committed
      → Interleaved e settings requests s v
      → Inv requests v
  Interleaved-Inv {s} start sound none_yet = IsStart-Inv requests s start sound
  Interleaved-Inv start sound (later run step) = Step-Inv step (Interleaved-Inv start sound run)
