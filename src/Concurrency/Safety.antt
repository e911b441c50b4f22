-- ===== src/Concurrency/Safety.antt =====
-- What holds in every state that concurrent calls of `execute_quote` reach.
use umba_fx_engine.Prelude.{ℕ, ◌≡◌, false}
use umba_fx_engine.Schema.{Payload}
use umba_fx_engine.Settings.{Settings}
use umba_fx_engine.Session.{returned}
use umba_fx_engine.Session.Backend.{Engine, IsTransactional}
use umba_fx_engine.Executions.Rejections.{Request}
use umba_fx_engine.System.Sound.{IsSound}
use umba_fx_engine.Concurrency.Phases.{over, Lock, IsHeld}
use umba_fx_engine.Concurrency.Interleaving.{Shared, locks, Interleaved, IsStart}
use umba_fx_engine.Concurrency.Kept.{Interleaved-Inv}

module _ {e : Engine} (law : IsTransactional e) (settings : Settings) {requests : ℕ → Request}
    {s : Shared} (start : IsStart s) (sound : IsSound s.world.db.committed) where
  -- However the phases of any number of calls and the other requests are interleaved, from sound tables
  -- on: the balances are the sums of the ledger, fit their column and are not negative, and no quote has
  -- two executions.
  pub Interleaved-IsSound :
      {v : Shared} → Interleaved e settings requests s v → IsSound v.world.db.committed
  Interleaved-IsSound run = (Interleaved-Inv law settings start sound run).sound

  -- No two sessions hold one lock: a key, a quote or a balance.
  pub mutual_exclusion :
      {v : Shared}
      → Interleaved e settings requests s v
      → (l : Lock) (i j : ℕ) → IsHeld l (locks requests v i)
      → IsHeld l (locks requests v j)
      → i ≡ j
  mutual_exclusion run = (Interleaved-Inv law settings start sound run).exclusive

  -- Of all the calls for one quote, however they are interleaved, at most one returns a new execution.
  pub concurrent_execute_once :
      {v : Shared}
      → Interleaved e settings requests s v
      → (i j : ℕ) (p p' : Payload) → v.phases i ≡ over (returned (p, false))
      → v.phases j ≡ over (returned (p', false))
      → (requests i).quote_id ≡ (requests j).quote_id
      → i ≡ j
  concurrent_execute_once run = (Interleaved-Inv law settings start sound run).once
