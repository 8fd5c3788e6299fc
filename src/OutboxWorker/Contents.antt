-- ===== src/OutboxWorker/Contents.antt =====
-- What holds of every row of the outbox through a round of the worker.
use shortlink_system.Base.{
  ℕ, ◌+◌, Option, none, some, List, [], ◌∷◌, Text, All, Bool-cases, inl, inr,
}
use shortlink_system.Outbox.{
  OutboxMessage, Database, Calls, leased, as_sent, as_failed, claim_pending_outbox,
}
use shortlink_system.Outbox.Lease.{claim_table}
use shortlink_system.Outbox.History.{
  update_where-All, mark_outbox_sent_batch-All, mark_outbox_failed-All, delete_sent_outbox-All,
}
use shortlink_system.OutboxWorker.{
  OutboxWorker, Round, publish_one, publish_loop, dispatch, cleanup, cleanup_due, process_claimed,
  process_pending, outbox_batch_size, outbox_lease, outbox_max_retry, outbox_retain,
}

module _ (Q : OutboxMessage → Type 0)
    (claims : (w : Text) (until at : ℕ) (m : OutboxMessage) → Q m → Q (leased w until at m))
    (sends : (at : ℕ) (m : OutboxMessage) → Q m → Q (as_sent at m))
    (fails : (limit at : ℕ) (m : OutboxMessage) → Q m → Q (as_failed limit at m)) where
  claim-All :
      (db : Database) (calls : Calls) (limit : ℕ) (w : Text) (lease now at : ℕ)
      (rows : List OutboxMessage)
      → All Q rows
      → All Q (claim_pending_outbox db calls limit w lease now at rows).0
  claim-All db calls limit w lease now at rows h =
      elim (claim_table db calls limit w lease now at rows) [
        | inl same ↦ rw same h
        | inr claimed ↦ rw claimed (
            update_where-All Q _ (leased w (now + lease) at)
              (λ m k _. claims w (now + lease) at m k) rows h)
      ]

  publish_one-All :
      (r : Round) (w : Text) (msg : OutboxMessage) (rows : List OutboxMessage) (ids : List ℕ)
      → All Q rows
      → All Q (publish_one r w msg (rows, ids)).0
  unfolding publish_one
  publish_one-All r w msg rows ids h = elim (Bool-cases (r.publishes msg.id)) [
    | inl fine ↦ rw fine h
    | inr lost ↦ rw lost (
        mark_outbox_failed-All Q (r.marks msg.id) msg.id outbox_max_retry w (r.fail_time msg.id)
          rows (λ m k _. fails outbox_max_retry (r.fail_time msg.id) m k) h)
  ]

  publish_loop-All :
      (r : Round) (w : Text) (msgs rows : List OutboxMessage) (ids : List ℕ)
      → All Q rows
      → All Q (publish_loop r w msgs (rows, ids)).0
  unfolding publish_loop
  publish_loop-All r w [] rows ids h = h
  publish_loop-All r w (msg ∷ msgs) rows ids h =
      let (rows', ids') = publish_one r w msg (rows, ids) in
      publish_loop-All r w msgs rows' ids' (publish_one-All r w msg rows ids h)

  dispatch-All :
      (r : Round) (w : Text) (msgs rows : List OutboxMessage)
      → All Q rows
      → All Q (dispatch r w msgs rows)
  unfolding dispatch
  dispatch-All r w msgs rows h =
      mark_outbox_sent_batch-All Q r.batch (publish_loop r w msgs (rows, [])).1 w r.sent_time
        (publish_loop r w msgs (rows, [])).0 (λ m k _. sends r.sent_time m k)
        (publish_loop-All r w msgs rows [] h)

  cleanup-All :
      (db : Database) (r : Round) (w : OutboxWorker) (rows : List OutboxMessage)
      → All Q rows
      → All Q (cleanup db r w rows).1
  unfolding cleanup
  cleanup-All db r w rows h = elim (Bool-cases (cleanup_due w r.cleanup_time)) [
    | inr early ↦ rw early h
    | inl due ↦
        rw due (delete_sent_outbox-All Q db r.reads r.deletes outbox_retain r.cleanup_time rows h)
  ]

  process_claimed-All :
      (db : Database) (r : Round) (w : OutboxWorker) (rows : List OutboxMessage)
      (claimed : Option (List OutboxMessage))
      → All Q rows
      → All Q (process_claimed db r w (rows, claimed)).1
  unfolding process_claimed
  process_claimed-All db r w rows none h = h
  process_claimed-All db r w rows (some []) h = h
  process_claimed-All db r w rows (some (msg ∷ msgs)) h =
      cleanup-All db r w (dispatch r w.worker_id (msg ∷ msgs) rows)
        (dispatch-All r w.worker_id (msg ∷ msgs) rows h)

  -- What a claim, a sending and a failure keep of a row, a round keeps of all rows.
  pub process_pending-All :
      (db : Database) (r : Round) (w : OutboxWorker) (rows : List OutboxMessage)
      → All Q rows
      → All Q (process_pending db r w rows).1
  unfolding process_pending
  process_pending-All db r w rows h =
      let (rows', claimed) =
        claim_pending_outbox db r.claims outbox_batch_size w.worker_id outbox_lease r.claim_time
          r.stamp rows in
      process_claimed-All db r w rows' claimed (
        claim-All db r.claims outbox_batch_size w.worker_id outbox_lease r.claim_time r.stamp rows
          h)
