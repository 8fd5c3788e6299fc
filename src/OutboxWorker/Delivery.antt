-- ===== src/OutboxWorker/Delivery.antt =====
-- No run of the worker loses a message.
use shortlink_system.Base.{
  ℕ, ◌+◌, ◌≡◌, ◌≢◌, leb, refl, none, some, List, [], ◌∷◌, Text, Bool, true, false, if◌then◌else◌,
  All, arith, Bool-cases, Option, inl, inr,
}
use shortlink_system.Outbox.{
  OutboxMessage, has_effect, pending, sent, failed, Database, claim_pending_outbox,
  mark_outbox_failed,
}
use shortlink_system.OutboxWorker.{
  OutboxWorker, Round, publish_one, publish_loop, dispatch, cleanup, cleanup_due, process_claimed,
  process_pending, Event, cancelled, stopped, ticked, start_loop, start, outbox_batch_size,
  outbox_lease, outbox_max_retry, outbox_retain,
}
use shortlink_system.OutboxWorker.Waiting.{
  Waits, Waits-update_where, claim-Waits, mark_outbox_sent_batch-Waits, delete_sent_outbox-Waits,
}
use shortlink_system.OutboxWorker.Dispatch.{publish_loop-sent}

-- The round publishes no message with this identifier.
abbrev pub Quiet : ℕ → Event → Type 0
Quiet id (ticked r) = r.publishes id ≡ false
Quiet id _ = Unit

failed_not_sent : (b : Bool) → (if b then failed else pending) ≢ sent
failed_not_sent true e = cc
failed_not_sent false e = cc

module _ (id : ℕ) where
  publish_one-Waits :
      (r : Round) (w : Text) (msg : OutboxMessage) (rows : List OutboxMessage) (ids : List ℕ)
      → Waits id rows
      → Waits id (publish_one r w msg (rows, ids)).0
  unfolding publish_one mark_outbox_failed
  publish_one-Waits r w msg rows ids h = elim (Bool-cases (r.publishes msg.id)) [
    | inl fine ↦ rw fine h
    | inr lost ↦ elim (Bool-cases (has_effect (r.marks msg.id))) [
      | inr cut ↦ rw (lost, cut) h
      | inl marked ↦
          rw (lost, marked)
            (Waits-update_where id _ _ (λ m. refl)
              (λ m e hit. failed_not_sent (leb outbox_max_retry (m.retry_count + 1 + 1))) rows h)
    ]
  ]

  publish_loop-Waits :
      (r : Round) (w : Text) (msgs rows : List OutboxMessage) (ids : List ℕ)
      → Waits id rows
      → Waits id (publish_loop r w msgs (rows, ids)).0
  unfolding publish_loop
  publish_loop-Waits r w [] rows ids h = h
  publish_loop-Waits r w (msg ∷ msgs) rows ids h =
      let (rows', ids') = publish_one r w msg (rows, ids) in
      publish_loop-Waits r w msgs rows' ids' (publish_one-Waits r w msg rows ids h)

  dispatch-Waits :
      (r : Round) (w : Text) (msgs rows : List OutboxMessage)
      → r.publishes id ≡ false
      → Waits id rows
      → Waits id (dispatch r w msgs rows)
  unfolding dispatch
  dispatch-Waits r w msgs rows quiet h =
      mark_outbox_sent_batch-Waits id r.batch (publish_loop r w msgs (rows, [])).1 w r.sent_time
        (publish_loop r w msgs (rows, [])).0
        (ground (arith, publish_loop-sent r w msgs rows [] id, quiet))
        (publish_loop-Waits r w msgs rows [] h)

  cleanup-Waits :
      (db : Database) (r : Round) (w : OutboxWorker) (rows : List OutboxMessage)
      → Waits id rows
      → Waits id (cleanup db r w rows).1
  unfolding cleanup
  cleanup-Waits db r w rows h = elim (Bool-cases (cleanup_due w r.cleanup_time)) [
    | inl due ↦
        rw due
          (delete_sent_outbox-Waits id db r.reads r.deletes outbox_retain r.cleanup_time rows h)
    | inr early ↦ rw early h
  ]

  process_claimed-Waits :
      (db : Database) (r : Round) (w : OutboxWorker) (rows : List OutboxMessage)
      (claimed : Option (List OutboxMessage))
      → r.publishes id ≡ false
      → Waits id rows
      → Waits id (process_claimed db r w (rows, claimed)).1
  unfolding process_claimed
  process_claimed-Waits db r w rows none quiet h = h
  process_claimed-Waits db r w rows (some []) quiet h = h
  process_claimed-Waits db r w rows (some (msg ∷ msgs)) quiet h =
      cleanup-Waits db r w (dispatch r w.worker_id (msg ∷ msgs) rows)
        (dispatch-Waits r w.worker_id (msg ∷ msgs) rows quiet h)

  process_pending-Waits :
      (db : Database) (r : Round) (w : OutboxWorker) (rows : List OutboxMessage)
      → r.publishes id ≡ false
      → Waits id rows
      → Waits id (process_pending db r w rows).1
  unfolding process_pending
  process_pending-Waits db r w rows quiet h =
      let (rows', claimed) =
        claim_pending_outbox db r.claims outbox_batch_size w.worker_id outbox_lease r.claim_time
          r.stamp rows in
      process_claimed-Waits db r w rows' claimed quiet (
        claim-Waits id db r.claims outbox_batch_size w.worker_id outbox_lease r.claim_time r.stamp
          rows h)

  start_loop-Waits :
      (db : Database) (events : List Event) (w : OutboxWorker) (rows : List OutboxMessage)
      → All (Quiet id) events
      → Waits id rows
      → Waits id (start_loop db events w rows).1
  unfolding start_loop
  start_loop-Waits db [] w rows quiet h = h
  start_loop-Waits db (cancelled ∷ events) w rows quiet h = h
  start_loop-Waits db (stopped ∷ events) w rows quiet h = h
  start_loop-Waits db (ticked r ∷ events) w rows (q, quiet) h =
      let (w', rows') = process_pending db r w rows in
      start_loop-Waits db events w' rows' quiet (process_pending-Waits db r w rows q h)

  -- No message is lost. If a row is in the table and not 'sent', and no round of the worker publishes
  -- its message, then after any run of the worker the row is still there and not 'sent', whichever
  -- calls of the database fail, and however often the cleanup runs.
  pub start-Waits :
      (db : Database) (first : Round) (events : List Event) (w : OutboxWorker)
      (rows : List OutboxMessage)
      → first.publishes id ≡ false
      → All (Quiet id) events
      → Waits id rows
      → Waits id (start db first events w rows).1
  unfolding start
  start-Waits db first events w rows q quiet h =
      let (w', rows') = process_pending db first w rows in
      start_loop-Waits db events w' rows' quiet (process_pending-Waits db first w rows q h)
