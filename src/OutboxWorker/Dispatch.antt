-- ===== src/OutboxWorker/Dispatch.antt =====
-- What the publishing part of a round does to each row.
use shortlink_system.Base.{
  ℕ, ◌≡◌, refl, ap, ◌∙◌, some, List, [], ◌∷◌, ◌++◌, get_elem?, get_elem?-map, Text, ◌==◌, ◌&&◌,
  ◌||◌, not, if◌then◌else◌, arith,
}
use shortlink_system.Outbox.{
  OutboxMessage, id_in, ids_of, held_by, as_sent, as_failed, succeeded, has_effect,
  mark_outbox_failed, mark_outbox_sent_batch,
}
use shortlink_system.OutboxWorker.{Round, publish_one, publish_loop, dispatch, outbox_max_retry}

id_in-append : (xs ys : List ℕ) (x : ℕ) → id_in (xs ++ ys) x ≡ (id_in xs x || id_in ys x)
id_in-append [] ys x = refl
id_in-append (y ∷ xs) ys x = ground (arith, id_in-append xs ys x)

module _ (r : Round) (w : Text) where
  -- The row after the failures of the messages.
  abbrev failing : OutboxMessage → OutboxMessage
  failing m = as_failed outbox_max_retry (r.fail_time m.id) m

  abbrev after_loop : List OutboxMessage → OutboxMessage → OutboxMessage
  after_loop msgs m =
      if held_by w m
        && id_in (ids_of msgs) m.id
        && not (r.publishes m.id)
        && has_effect (r.marks m.id)
      then failing m
      else m

  publish_one-row :
      (msg m : OutboxMessage) (rows : List OutboxMessage) (ids : List ℕ) (i : ℕ)
      → get_elem? rows i ≡ some m
      → get_elem? (publish_one r w msg (rows, ids)).0 i ≡ some (after_loop (msg ∷ []) m)
  unfolding publish_one mark_outbox_failed
  publish_one-row msg m rows ids i at = ground (
    arith,
    at,
    get_elem?-map
        (λ x.
          if (x.id == msg.id) && held_by w x
          then as_failed outbox_max_retry (r.fail_time msg.id) x
          else x)
        rows i at,
  )

  after_loop-after_loop :
      (msg m : OutboxMessage) (msgs : List OutboxMessage)
      → after_loop msgs (after_loop (msg ∷ []) m) ≡ after_loop (msg ∷ msgs) m
  after_loop-after_loop msg m msgs = ground arith

  publish_loop-row :
      (msgs : List OutboxMessage) (m : OutboxMessage) (rows : List OutboxMessage) (ids : List ℕ)
      (i : ℕ)
      → get_elem? rows i ≡ some m
      → get_elem? (publish_loop r w msgs (rows, ids)).0 i ≡ some (after_loop msgs m)
  unfolding publish_loop
  publish_loop-row [] m rows ids i at = at ∙ ground arith
  publish_loop-row (msg ∷ msgs) m rows ids i at =
      let (rows', ids') = publish_one r w msg (rows, ids) in
      publish_loop-row msgs (after_loop (msg ∷ []) m) rows' ids' i
        (publish_one-row msg m rows ids i at)
      ∙ ap some (after_loop-after_loop msg m msgs)

  publish_one-sent :
      (msg : OutboxMessage) (rows : List OutboxMessage) (ids : List ℕ) (x : ℕ)
      → id_in (publish_one r w msg (rows, ids)).1 x
        ≡ (id_in ids x || (msg.id == x && r.publishes x))
  unfolding publish_one
  publish_one-sent msg rows ids x = ground (arith, id_in-append ids (msg.id ∷ []) x)

  pub publish_loop-sent :
      (msgs : List OutboxMessage) (rows : List OutboxMessage) (ids : List ℕ) (x : ℕ)
      → id_in (publish_loop r w msgs (rows, ids)).1 x
        ≡ (id_in ids x || (id_in (ids_of msgs) x && r.publishes x))
  unfolding publish_loop
  publish_loop-sent [] rows ids x = ground arith
  publish_loop-sent (msg ∷ msgs) rows ids x =
      let (rows', ids') = publish_one r w msg (rows, ids) in
      publish_loop-sent msgs rows' ids' x ∙ ground (arith, publish_one-sent msg rows ids x)

mark_outbox_sent_batch-row :
    (ids : List ℕ) (w : Text) (at : ℕ) (m : OutboxMessage) (rows : List OutboxMessage) (i : ℕ)
    → get_elem? rows i ≡ some m
    → get_elem? (mark_outbox_sent_batch succeeded ids w at rows).0 i
      ≡ some (if id_in ids m.id && held_by w m then as_sent at m else m)
unfolding mark_outbox_sent_batch
mark_outbox_sent_batch-row [] w at m rows i e = e
mark_outbox_sent_batch-row (id ∷ ids) w at m rows i e = get_elem?-map _ rows i e

-- What the publishing part of a round, between the claim and the cleanup, leaves of a row, when the
-- calls on the database succeed. A row that the worker does not hold, or that is not among the claimed
-- ones, stays as it was. A claimed row is 'sent' if its message was published, and is counted as one
-- more failed try if it was not.
pub dispatch-row :
    (r : Round) (w : Text) (msgs rows : List OutboxMessage) (m : OutboxMessage) (i : ℕ)
    → r.batch ≡ succeeded
    → ((id : ℕ) → r.marks id ≡ succeeded)
    → get_elem? rows i ≡ some m
    → get_elem? (dispatch r w msgs rows) i
      ≡ some (
          if not (held_by w m && id_in (ids_of msgs) m.id)
          then m
          else if r.publishes m.id
          then as_sent r.sent_time m
          else as_failed outbox_max_retry (r.fail_time m.id) m)
unfolding dispatch
dispatch-row r w msgs rows m i batch marks at =
    let (rows', sent_ids) = publish_loop r w msgs (rows, []) in
    rw batch (
      mark_outbox_sent_batch-row sent_ids w r.sent_time (after_loop r w msgs m) rows' i
        (publish_loop-row r w msgs m rows [] i at)
      ∙ ap some (ground (arith, marks m.id, publish_loop-sent r w msgs rows [] m.id)))
