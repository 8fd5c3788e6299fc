-- ===== src/OutboxWorker.antt =====
-- internal/worker/outbox.go: one round of the worker that sends outbox messages to RabbitMQ.
pub mod Dispatch
pub mod Rounds
pub mod Waiting
pub mod Delivery
pub mod Contents
use shortlink_system.Base.{
  ℕ, zero, suc, ◌+◌, ◌-◌, ◌*◌, Option, none, some, List, [], ◌∷◌, ◌++◌, Text, Bool, true, false,
  ltb, leb, if◌then◌else◌,
}
use shortlink_system.Outbox.{
  OutboxMessage, Database, Calls, Executed, claim_pending_outbox, mark_outbox_failed,
  mark_outbox_sent_batch, delete_sent_outbox,
}

abbrev pub outbox_batch_size : ℕ
outbox_batch_size = 100

-- Times are milliseconds.
abbrev pub outbox_poll_interval : ℕ
outbox_poll_interval = 1000

abbrev pub outbox_max_retry : ℕ
outbox_max_retry = 3

abbrev pub outbox_retain : ℕ
outbox_retain = 7 * 24 * 3600 * 1000

abbrev pub outbox_cleanup_interval : ℕ
outbox_cleanup_interval = 3600 * 1000

abbrev pub outbox_lease : ℕ
outbox_lease = 30 * 1000

-- The zero time of `lastCleanup` is `none`.
pub record OutboxWorker : Type 0 where
  pub worker_id : Text
  pub last_cleanup : Option ℕ

-- What the database, RabbitMQ and the clock answer in a round: which calls succeed, and when the
-- statements run. `publishes` and `marks` are by the id of the message.
pub record Round : Type 0 where
  pub claims : Calls
  pub claim_time : ℕ
  pub stamp : ℕ
  pub publishes : ℕ → Bool
  pub marks : ℕ → Executed
  pub fail_time : ℕ → ℕ
  pub batch : Executed
  pub sent_time : ℕ
  pub reads : Bool
  pub deletes : Executed
  pub cleanup_time : ℕ

-- The body of the loop: the table, and the identifiers sent so far. An error of `MarkOutboxFailed` is
-- logged and leaves the row to its lease.
unfoldable pub publish_one :
    Round → Text → OutboxMessage → List OutboxMessage × List ℕ → List OutboxMessage × List ℕ
publish_one r w msg (rows, sent_ids) =
    if r.publishes msg.id then (rows, sent_ids ++ msg.id ∷ []) else (
      (mark_outbox_failed (r.marks msg.id) msg.id outbox_max_retry w (r.fail_time msg.id) rows).0,
      sent_ids,
    )

unfoldable pub publish_loop :
    Round → Text → List OutboxMessage → List OutboxMessage × List ℕ → List OutboxMessage × List ℕ
unfolding publish_one
publish_loop r w [] state = state
publish_loop r w (msg ∷ msgs) state = publish_loop r w msgs (publish_one r w msg state)

-- The loop and the batch of `MarkOutboxSentBatch`.
unfoldable pub dispatch :
    Round → Text → List OutboxMessage → List OutboxMessage → List OutboxMessage
unfolding publish_loop
dispatch r w msgs rows =
    let (rows', sent_ids) = publish_loop r w msgs (rows, []) in
    (mark_outbox_sent_batch r.batch sent_ids w r.sent_time rows').0

-- `w.lastCleanup.IsZero() || time.Since(w.lastCleanup) >= outboxCleanupInterval`
unfoldable pub cleanup_due : OutboxWorker → ℕ → Bool
cleanup_due w now = elim w.last_cleanup [
  | none ↦ true
  | some last ↦ leb (last + outbox_cleanup_interval) now
]

unfoldable pub cleanup :
    Database → Round → OutboxWorker → List OutboxMessage → OutboxWorker × List OutboxMessage
unfolding cleanup_due
cleanup db r w rows =
    if cleanup_due w r.cleanup_time
    then (
      record w { last_cleanup = some r.cleanup_time },
      (delete_sent_outbox db r.reads r.deletes outbox_retain r.cleanup_time rows).0,
    )
    else (w, rows)

-- What follows the claim.
unfoldable pub process_claimed :
    Database
    → Round
    → OutboxWorker
    → List OutboxMessage × Option (List OutboxMessage)
    → OutboxWorker × List OutboxMessage
unfolding dispatch cleanup
process_claimed db r w (rows, none) = (w, rows)
process_claimed db r w (rows, some []) = (w, rows)
process_claimed db r w (rows, some (msg ∷ msgs)) =
    cleanup db r w (dispatch r w.worker_id (msg ∷ msgs) rows)

unfoldable pub process_pending :
    Database → Round → OutboxWorker → List OutboxMessage → OutboxWorker × List OutboxMessage
unfolding process_claimed
process_pending db r w rows = process_claimed db r w (
    claim_pending_outbox db r.claims outbox_batch_size w.worker_id outbox_lease r.claim_time r.stamp
      rows)

-- What the `select` of `Start` meets: the end of the context, the closed `stopCh`, or a tick with
-- what its round meets.
pub data Event : Type 0 where
  cancelled : Event
  stopped : Event
  ticked : Round → Event

unfoldable pub start_loop :
    Database → List Event → OutboxWorker → List OutboxMessage → OutboxWorker × List OutboxMessage
unfolding process_pending
start_loop db [] w rows = (w, rows)
start_loop db (cancelled ∷ events) w rows = (w, rows)
start_loop db (stopped ∷ events) w rows = (w, rows)
start_loop db (ticked r ∷ events) w rows =
    let (w', rows') = process_pending db r w rows in start_loop db events w' rows'

-- One round at once, and then the loop.
unfoldable pub start :
    Database
    → Round
    → List Event
    → OutboxWorker
    → List OutboxMessage
    → OutboxWorker × List OutboxMessage
unfolding start_loop
start db first events w rows =
    let (w', rows') = process_pending db first w rows in start_loop db events w' rows'

-- Whether `stopCh` is closed, before and after; `none` is the panic of a second `close`.
unfoldable pub stop : Bool → Option Bool
stop closed = if closed then none else some true
