-- ===== src/Concurrency/Interleaving.antt =====
-- Any number of calls of `execute_quote` (app/services/executions.py) at a time, each in a session of
-- its own, and between their phases any other request. The row locks and the unique keys of Postgres
-- decide which call may go on: a statement that takes a lock is not run while another session holds
-- it, and the insert of a zero row not while another session has that row inserted and not committed.
-- Only the other requests do not wait for such a row, which allows more orders than Postgres does.
use umba_fx_engine.Prelude.{false, ℕ, ◌≡◌, some, List, ◌∷◌, ◌==◌, if◌then◌else◌}
use umba_fx_engine.Schema.{Tables, Quote}
use umba_fx_engine.Settings.{Settings}
use umba_fx_engine.Session.{World}
use umba_fx_engine.Session.Backend.{Engine}
use umba_fx_engine.Executions.Rejections.{Request}
use umba_fx_engine.System.Requests.{
  Operation, post_customers, get_customer_balances, post_credits, post_quotes, post_executions,
  post_rates_refresh, get_readyz, serve,
}
use umba_fx_engine.Concurrency.Phases.{
  Phase, fresh, Lock, balance_lock, held_locks, IsHeld, wanted, advance,
}
use umba_fx_engine.Concurrency.Views.{seen}
use umba_fx_engine.Concurrency.Follows.{landed}

-- The database, the clock, the counters and the log are shared; each session stands in a phase.
pub record Shared : Type 0 where
  pub world : World
  pub phases : ℕ → Phase

abbrev pub update : (ℕ → Phase) → ℕ → Phase → ℕ → Phase
update f i phase j = if j == i then phase else f j

module _ (requests : ℕ → Request) (s : Shared) where
  abbrev pub locks : ℕ → List Lock
  locks i = held_locks (requests i) (s.phases i)

  -- No session but `i` holds the lock.
  abbrev pub IsFree : Lock → ℕ → Type 0
  IsFree l i = (j : ℕ) → IsHeld l (locks j) → j ≡ i

  -- The lock that session `i` waits for, if it waits for one, is free.
  abbrev pub MayGo : ℕ → Type 0
  MayGo i = (l : Lock) → wanted (requests i) (s.phases i) ≡ some l → IsFree l i

  -- What another request has to wait for, when it leaves the tables `u`. A credit waits for the row of
  -- its balance; the identifier of a new quote is none that a session already names.
  abbrev pub MayServe : Operation → Tables → Type 0
  MayServe (post_credits c payload) u =
      (j : ℕ) → IsHeld (balance_lock c payload.currency) (locks j) → ⊥
  MayServe (post_quotes id payload) u =
      (j : ℕ) (quote : Quote)
      → u.quotes ≡ quote ∷ s.world.db.committed.quotes
      → (quote.id == (requests j).quote_id) ≡ false
  MayServe (post_executions id key quote_id) u = ⊥
  MayServe post_customers u = Unit
  MayServe (get_customer_balances c) u = Unit
  MayServe (post_rates_refresh reply id) u = Unit
  MayServe (get_readyz reachable) u = Unit

-- The next phase of session `i`.
unfoldable pub turn : Engine → (ℕ → Request) → ℕ → Shared → Shared
unfolding advance
turn e requests i s =
    let phase = s.phases i in
    let (r, w) = advance e (requests i) phase (seen (requests i) phase s.world) in
    record { world = w; phases = update s.phases i (landed r) }

-- Another request, served between two phases.
unfoldable pub served : Engine → Settings → Operation → Shared → Shared
unfolding serve
served e settings op s = record s { world = (serve e settings op s.world).1 }

pub data Step (e : Engine) (settings : Settings) (requests : ℕ → Request) (s : Shared)
    : Shared → Type 0 where
  go : (i : ℕ) → MayGo requests s i → Step e settings requests s (turn e requests i s)
  other :
      (op : Operation)
      → MayServe requests s op (served e settings op s).world.db.committed
      → Step e settings requests s (served e settings op s)

pub data Interleaved (e : Engine) (settings : Settings) (requests : ℕ → Request) (s : Shared)
    : Shared → Type 0 where
  none_yet : Interleaved e settings requests s s
  later :
      {u v : Shared}
      → Interleaved e settings requests s u
      → Step e settings requests u v
      → Interleaved e settings requests s v

abbrev pub IsStart : Shared → Type 0
IsStart s = (i : ℕ) → s.phases i ≡ fresh
