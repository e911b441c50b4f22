-- ===== src/Repositories/Ledger/Laws.antt =====
-- What the statements of app/repositories/ledger.py do to the table.
use umba_fx_engine.Prelude.{◌≡◌, ◌∷◌, true, false, any, arith}
use umba_fx_engine.Prelude.Int.{pos, ◌<ℤ◌}
use umba_fx_engine.Schema.{LedgerEntry}
use umba_fx_engine.Schema.Columns.{numeric_fits}
use umba_fx_engine.Session.{World, returned}
use umba_fx_engine.Repositories.Ledger.{append_entry, conflicts}

abbrev pub with_entry : LedgerEntry → World → World
with_entry x w = record w {
  db = record w.db { work = record w.db.work { entries = x ∷ w.db.work.entries } };
}

-- An entry that is appended has a positive amount that its column holds; nothing else changes.
pub append_entry-returned :
    (x : LedgerEntry) (w : World) {a : LedgerEntry} {v : World}
    → append_entry x w ≡ (returned a, v)
    → (a ≡ x)
      × (v ≡ with_entry x w)
      × (pos 0 <ℤ x.amount)
      × (numeric_fits x.amount ≡ true)
      × (any (conflicts x) w.db.work.entries ≡ false)
unfolding append_entry
append_entry-returned x w h = ground arith
