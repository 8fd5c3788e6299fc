-- ===== src/OutboxWorker/Rounds.antt =====
-- What a whole round does to each row: the claim, the publications, and no cleanup.
use shortlink_system.Base.{
  ℕ, ◌+◌, ◌≡◌, ◌∙◌, ap, refl, some, List, [], ◌∷◌, length, get_elem?, get_elem?-map, text_eq_refl,
  true, false, ◌==◌, if◌then◌else◌, arith, Bool-cases, inl, inr,
}
use shortlink_system.Outbox.{
  OutboxMessage, Database, succeeded, id_in, ids_of, update_where, claimable, leased, as_sent,
  as_failed, claim_pending_outbox,
}
use shortlink_system.OutboxWorker.{
  OutboxWorker, Round, dispatch, cleanup_due, cleanup, process_claimed, process_pending,
  outbox_batch_size, outbox_lease, outbox_max_retry,
}
use shortlink_system.OutboxWorker.Dispatch.{dispatch-row}

module _ (db : Database) (r : Round) (w : OutboxWorker) (rows : List OutboxMessage) where
  -- The rows that the round selects, and a row under its lease.
  abbrev pub selected : List OutboxMessage
  selected = db.select (claimable r.claim_time) outbox_batch_size rows

  abbrev pub under_lease : OutboxMessage → OutboxMessage
  under_lease m = leased w.worker_id (r.claim_time + outbox_lease) r.stamp m

  -- The row after the round.
  abbrev pub after_round : OutboxMessage → OutboxMessage
  after_round m =
      if id_in (ids_of selected) m.id
      then (if r.publishes m.id
          then as_sent r.sent_time (under_lease m)
          else as_failed outbox_max_retry (r.fail_time m.id) (under_lease m))
      else m

  module _ (begins : r.claims.begins ≡ true) (finds : r.claims.finds ≡ true)
      (updates : r.claims.updates ≡ true) (commits : r.claims.commits ≡ true)
      (batch : r.batch ≡ succeeded) (marks : (id : ℕ) → r.marks id ≡ succeeded)
      (early : cleanup_due w r.cleanup_time ≡ false) where
    -- The dispatch of the rows that were selected, on the table that the claim left.
    claimed-row :
        (m : OutboxMessage) (msgs : List OutboxMessage) (i : ℕ)
        → selected ≡ msgs
        → get_elem? rows i ≡ some m
        → get_elem?
            (dispatch r w.worker_id msgs
              (update_where (λ m. id_in (ids_of msgs) m.id) under_lease rows))
            i
          ≡ some (after_round m)
    claimed-row m msgs i shape at =
        let rows' = update_where (λ m. id_in (ids_of msgs) m.id) under_lease rows in
        let there = get_elem?-map _ rows i at in
        elim (Bool-cases (id_in (ids_of msgs) m.id)) [
          | inl hit ↦
              dispatch-row r w.worker_id msgs rows' (under_lease m) i batch marks
                (there ∙ rw hit refl)
              ∙ ap some (rw (shape, hit, text_eq_refl w.worker_id) refl)
          | inr miss ↦
              dispatch-row r w.worker_id msgs rows' m i batch marks (there ∙ rw miss refl)
              ∙ ap some (rw (shape, miss) (ground arith))
        ]

    claimed :
        (msg : OutboxMessage) (msgs : List OutboxMessage)
        → selected ≡ msg ∷ msgs
        → claim_pending_outbox db r.claims outbox_batch_size w.worker_id outbox_lease r.claim_time
            r.stamp rows
          ≡ (
            update_where (λ m. id_in (ids_of (msg ∷ msgs)) m.id) under_lease rows,
            some (msg ∷ msgs),
          )
    unfolding claim_pending_outbox
    claimed msg msgs shape =
        let full : (length (msg ∷ msgs) == 0) ≡ false = ground arith in
        rw (begins, finds, shape, updates, commits, full) refl

    idle :
        selected ≡ []
        → claim_pending_outbox db r.claims outbox_batch_size w.worker_id outbox_lease r.claim_time
            r.stamp rows
          ≡ (rows, some [])
    unfolding claim_pending_outbox
    idle shape = rw (begins, finds, shape, commits) refl

    -- When all calls on the database succeed and no cleanup is due, a round leaves a row that its claim
    -- did not select as it was; a selected row is 'sent' if its message was published, and if not, one
    -- more failed try is counted on the row that the claim has leased.
    pub process_pending-row :
        (m : OutboxMessage) (i : ℕ)
        → get_elem? rows i ≡ some m
        → get_elem? (process_pending db r w rows).1 i ≡ some (after_round m)
    unfolding process_pending process_claimed cleanup
    process_pending-row m i at = go selected refl
      where
        go :
            (msgs : List OutboxMessage)
            → selected ≡ msgs
            → get_elem? (process_pending db r w rows).1 i ≡ some (after_round m)
        go [] e = rw (process_pending, idle e) (at ∙ ap some (rw e refl))
        go (msg ∷ msgs) e =
            rw (process_pending, claimed msg msgs e, early) (claimed-row m (msg ∷ msgs) i e at)
