-- ===== src/System/Runs.antt =====
-- Sequences of requests, of every kind and in any order, each in a session of its own.
use umba_fx_engine.Prelude.{◌≡◌, inl, inr, subst}
use umba_fx_engine.Errors.{Exception}
use umba_fx_engine.Schema.{Tables}
use umba_fx_engine.Settings.{Settings}
use umba_fx_engine.Session.{World, Outcome, returned, raised}
use umba_fx_engine.Session.Backend.{Engine, IsTransactional}
use umba_fx_engine.System.Requests.{
  Operation, post_customers, get_customer_balances, post_credits, post_quotes, post_executions,
  post_rates_refresh, get_readyz, Answer, serve,
}
use umba_fx_engine.System.Effects.{RefusedEffect, AnsweredEffect, Effect, serve-Effect}
use umba_fx_engine.System.Sound.{
  IsSound, Joined-IsSound, Credit-IsSound, Quoted-IsSound, Transfer-IsSound, IsFailure-IsSound,
  Refreshed-IsSound,
}
use umba_fx_engine.System.History.{
  Extends, Extends-refl, Extends-trans, same-Extends, Joined-Extends, Credit-Extends,
  Quoted-Extends, Transfer-Extends, IsFailure-Extends, Refreshed-Extends,
}

-- The tables that some sequence of requests leads to. The clock and the identifiers that each request
-- meets are any.
pub data Reach (e : Engine) (settings : Settings) (t : Tables) : Tables → Type 0 where
  here : Reach e settings t t
  then :
      {u v : Tables}
      → Reach e settings t u
      → (op : Operation) (w : World) → w.db.committed ≡ u
      → (serve e settings op w).1.db.committed ≡ v
      → Reach e settings t v

-- What one request does keeps the invariant, and extends the history.
RefusedEffect-both :
    (op : Operation) (x : Exception) {before after : Tables}
    → RefusedEffect op x before after
    → IsSound before
    → IsSound after × Extends before after
RefusedEffect-both (post_rates_refresh reply id) x (inl (f, is_api, failure)) s =
    (IsFailure-IsSound failure s, IsFailure-Extends failure)
RefusedEffect-both (post_rates_refresh reply id) x (inr same) s = (rw same s, same-Extends same)
RefusedEffect-both post_customers x same s = (rw same s, same-Extends same)
RefusedEffect-both (get_customer_balances c) x same s = (rw same s, same-Extends same)
RefusedEffect-both (post_credits c payload) x same s = (rw same s, same-Extends same)
RefusedEffect-both (post_quotes id payload) x same s = (rw same s, same-Extends same)
RefusedEffect-both (post_executions id key quote_id) x same s = (rw same s, same-Extends same)
RefusedEffect-both (get_readyz reachable) x same s = (rw same s, same-Extends same)

AnsweredEffect-both :
    (e : Engine) (settings : Settings) (op : Operation) (answer : Answer) {before after : Tables}
    → AnsweredEffect e settings op answer before after
    → IsSound before
    → IsSound after × Extends before after
AnsweredEffect-both e settings post_customers answer (_, _, joined) s =
    (Joined-IsSound joined s, Joined-Extends joined)
AnsweredEffect-both e settings (get_customer_balances c) answer same s =
    (rw same s, same-Extends same)
AnsweredEffect-both e settings (post_credits c payload) answer (_, _, credit) s =
    (Credit-IsSound credit s, Credit-Extends credit)
AnsweredEffect-both e settings (post_quotes id payload) answer (_, _, _, quoted) s =
    (Quoted-IsSound quoted s, Quoted-Extends quoted)
AnsweredEffect-both e settings (post_executions id key quote_id) answer (_, _, _, inl (_, transfer))
      s =
    (Transfer-IsSound transfer s, Transfer-Extends transfer)
AnsweredEffect-both e settings (post_executions id key quote_id) answer (_, _, _, inr (_, same)) s =
    (rw same s, same-Extends same)
AnsweredEffect-both e settings (post_rates_refresh reply id) answer (_, _, _, refreshed) s =
    (Refreshed-IsSound refreshed s, Refreshed-Extends refreshed)
AnsweredEffect-both e settings (get_readyz reachable) answer same s = (rw same s, same-Extends same)

pub Effect-both :
    (e : Engine) (settings : Settings) (op : Operation) (r : Outcome Answer) {before after : Tables}
    → Effect e settings op r before after
    → IsSound before
    → IsSound after × Extends before after
Effect-both e settings op (returned answer) = AnsweredEffect-both e settings op answer
Effect-both e settings op (raised x) = RefusedEffect-both op x

module _ {e : Engine} (law : IsTransactional e) (settings : Settings) {t : Tables} where
  Reach-both : {u : Tables} → Reach e settings t u → IsSound t → IsSound u × Extends t u
  Reach-both here s = (s, Extends-refl t)
  Reach-both (then {u} {v} run op w first last) s =
      let (sound, history) = Reach-both run s in
      let done = serve-Effect law settings op w (rw first sound.in_range) in
      let (sound', history') =
        Effect-both e settings op (serve e settings op w).0 done (rw first sound) in
      (
        subst IsSound last sound',
        Extends-trans history (subst (Extends u) last (rw (← first) history')),
      )

  -- Whatever requests are served, of every kind and in any order, answered or refused: the balances are
  -- the sums of the ledger, fit their column and are not negative, and no quote is executed twice.
  pub Reach-IsSound : {u : Tables} → Reach e settings t u → IsSound t → IsSound u
  Reach-IsSound run s = (Reach-both run s).0

  -- Whatever requests are served, the rows of customers, ledger entries, adjustments, quotes, legs,
  -- executions and snapshots are only added to, and a key that is in use keeps its row.
  pub Reach-Extends : {u : Tables} → Reach e settings t u → IsSound t → Extends t u
  Reach-Extends run s = (Reach-both run s).1
