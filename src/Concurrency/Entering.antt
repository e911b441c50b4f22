-- ===== src/Concurrency/Entering.antt =====
-- A call follows the protocol from its start until both of its balances have a row.
use umba_fx_engine.Prelude.{◌≡◌, refl, Bool, Option, none, some, Option-cases, inl, inr}
use umba_fx_engine.Schema.{Tables, Quote, IdempotencyKey}
use umba_fx_engine.Session.{World, returned, pure}
use umba_fx_engine.Session.Backend.{Engine}
use umba_fx_engine.Session.Laws.{bind-returned_elim}
use umba_fx_engine.Executions.{claim_key, stored_response, check_same_request, require_key}
use umba_fx_engine.Executions.Rejections.{Request, guarded}
use umba_fx_engine.Executions.Checks.{executions_endpoint, lock_quote}
use umba_fx_engine.Executions.Steps.{lock_quote-returned}
use umba_fx_engine.Executions.Correct.{
  guarded-returned, claim_key-returned, check_same_request-returned, require_key-returned,
}
use umba_fx_engine.Executions.Replays.{check_same_request_passes}
use umba_fx_engine.Concurrency.Phases.{
  Phase, fresh, looked, keyed, quoted, checked, opened, prepared, first_currency, second_currency,
  on_found, look_up, check_quote, insert_row, advance,
}
use umba_fx_engine.Concurrency.Steps.{
  pure-returned, on_stored-returned, check_quote-returned, insert_row-returned,
}
use umba_fx_engine.Concurrency.Views.{view, seen}
use umba_fx_engine.Concurrency.Protocol.{
  Moves, look, replay, claim, find, check, open_first, open_second,
}

-- The protocol is followed, and the pending rows are those of the new phase.
abbrev pub Follows : Request → Tables → Phase → Phase → World → Type 0
Follows q t phase next v =
    Moves q t phase next v.db.committed × (v.db.work ≡ view q next v.db.committed)

module _ (e : Engine) (q : Request) (w : World) where
  pub look_up-Moves :
      {next : Phase} {v : World}
      → look_up q (seen q fresh w) ≡ (returned next, v)
      → Follows q w.db.committed fresh next v
  unfolding look_up on_found
  look_up-Moves {next} {v} h = bind-returned_elim (require_key q) _ (seen q fresh w) h λ _ v1 h1 r1.
      let s1 = require_key-returned q (seen q fresh w) h1 in
      existing (w.db.committed.keys executions_endpoint q.idempotency_key) refl (rw s1 at r1)
    where
      existing :
          (found : Option IdempotencyKey)
          → w.db.committed.keys executions_endpoint q.idempotency_key ≡ found
          → on_found q found (seen q fresh w) ≡ (returned next, v)
          → Follows q w.db.committed fresh next v
      existing none found h =
          let (s1, s2) = pure-returned looked (seen q fresh w) h in rw (s1, s2) (look, refl)
      existing (some row) found h =
          bind-returned_elim (check_same_request q row) _ (seen q fresh w) h λ _ v1 h1 r1.
            let stored = stored_response row.completed_at row.response_payload in
            let s1 = check_same_request-returned q row (seen q fresh w) h1 in
            let (s2, hit, miss) = on_stored-returned stored v1 r1 in
            elim (Option-cases stored) [
              | inl nothing ↦ rw (miss nothing, s2, s1) (look, refl)
              | inr (p, response) ↦
                  rw (hit p response, s2, s1)
                    (
                      replay (record {
                        row = row;
                        found = found;
                        same_request = check_same_request_passes q row (seen q fresh w) h1;
                        response = response;
                      }),
                      refl,
                    )
            ]

  pub looked-Moves :
      {next : Phase} {v : World}
      → advance e q looked (seen q looked w) ≡ (returned next, v)
      → Follows q w.db.committed looked next v
  unfolding advance
  looked-Moves h = bind-returned_elim (claim_key e q) _ (seen q looked w) h λ _ v1 h1 r1.
      let (s1, unclaimed) = claim_key-returned e q (seen q looked w) h1 in
      let (s2, s3) = pure-returned keyed v1 r1 in rw (s2, s3, s1) (claim unclaimed, refl)

  pub keyed-Moves :
      {next : Phase} {v : World}
      → advance e q keyed (seen q keyed w) ≡ (returned next, v)
      → Follows q w.db.committed keyed next v
  unfolding advance
  keyed-Moves h =
      bind-returned_elim (guarded e q none (lock_quote e q.quote_id)) _ (seen q keyed w) h
        λ quote v1 h1 r1.
          let (s1, found) =
            lock_quote-returned e q.quote_id (seen q keyed w)
              (guarded-returned e q none (lock_quote e q.quote_id) (seen q keyed w) h1) in
          let (s2, s3) = pure-returned (quoted quote) v1 r1 in rw (s2, s3, s1) (find found, refl)

  pub quoted-Moves :
      (quote : Quote) {next : Phase} {v : World}
      → advance e q (quoted quote) (seen q (quoted quote) w) ≡ (returned next, v)
      → Follows q w.db.committed (quoted quote) next v
  unfolding advance
  quoted-Moves quote h =
      let w0 = seen q (quoted quote) w in
      bind-returned_elim (guarded e q (some quote.customer_id) (check_quote e quote)) _ w0 h
        λ _ v1 h1 r1.
          let (s1, unexecuted, in_time) =
            check_quote-returned e quote w0
              (guarded-returned e q (some quote.customer_id) (check_quote e quote) w0 h1) in
          let (s2, s3) = pure-returned (checked quote) v1 r1 in
          rw (s2, s3, s1) (check (w.clock w.readings) unexecuted in_time, refl)

  pub checked-Moves :
      (quote : Quote) {next : Phase} {v : World}
      → advance e q (checked quote) (seen q (checked quote) w) ≡ (returned next, v)
      → Follows q w.db.committed (checked quote) next v
  unfolding advance
  checked-Moves quote h =
      let w0 = seen q (checked quote) w in
      let insert = insert_row quote.customer_id (first_currency quote) in
      bind-returned_elim (guarded e q (some quote.customer_id) insert) (λ a. pure (opened quote a))
        w0 h
        λ a v1 h1 r1.
          let (s1, absent) =
            insert_row-returned quote.customer_id (first_currency quote) w0
              (guarded-returned e q (some quote.customer_id) insert w0 h1) in
          let (s2, s3) = pure-returned (opened quote a) v1 r1 in
          rw (s2, s3, s1) (open_first absent, refl)

  pub opened-Moves :
      (quote : Quote) (a : Bool) {next : Phase} {v : World}
      → advance e q (opened quote a) (seen q (opened quote a) w) ≡ (returned next, v)
      → Follows q w.db.committed (opened quote a) next v
  unfolding advance
  opened-Moves quote a h =
      let w0 = seen q (opened quote a) w in
      let insert = insert_row quote.customer_id (second_currency quote) in
      bind-returned_elim (guarded e q (some quote.customer_id) insert)
        (λ b. pure (prepared quote (a, b))) w0 h
        λ b v1 h1 r1.
          let (s1, absent) =
            insert_row-returned quote.customer_id (second_currency quote) w0
              (guarded-returned e q (some quote.customer_id) insert w0 h1) in
          let (s2, s3) = pure-returned (prepared quote (a, b)) v1 r1 in
          rw (s2, s3, s1) (open_second absent, refl)
