-- ===== src/Outbox/Retry.antt =====
-- The life of a row: claimed, sent, tried again. Outbox.Tries says when it is given up.
use shortlink_system.Base.{
  ℕ, ◌+◌, ◌≡◌, ◌⊎◌, refl, ◌∙◌, some, List, [], ◌∷◌, get_elem?, get_elem?-map, Text, Bool, true,
  false, ◌==◌, ◌&&◌, if◌then◌else◌, arith, Bool-cases, inl, inr,
}
use shortlink_system.Outbox.{
  Status, pending, processing, sent, failed, Executed, succeeded, carried_out, refused, executed,
  OutboxMessage, Database, Calls, id_in, ids_of, update_where, claimable, leased,
  claim_pending_outbox, held_by, as_sent, as_failed, mark_outbox_sent_batch, mark_outbox_failed,
}
use shortlink_system.Outbox.Lease.{claim_table}
use shortlink_system.Outbox.Rows.{Keyed, selected-meets}

-- The edges of the life of a row.
pub data Moves : Status → Status → Type 0 where
  stay : (s : Status) → Moves s s
  claim : Moves pending processing
  reclaim : Moves processing processing
  finish : Moves processing sent
  retry : Moves processing pending
  give_up : Moves processing failed

held-processing : (w : Text) (m : OutboxMessage) → held_by w m ≡ true → m.status ≡ processing
held-processing w m h = ground arith

-- The row at a place before and after a statement.
abbrev pub MovesAt : ℕ → OutboxMessage → List OutboxMessage → Type 0
MovesAt i m rows' =
    (m' : OutboxMessage) × (get_elem? rows' i ≡ some m') × (m'.id ≡ m.id) × Moves m.status m'.status

pub claimable_cases :
    (now : ℕ) (m : OutboxMessage)
    → claimable now m ≡ true
    → (m.status ≡ pending) ⊎ (m.status ≡ processing)
unfolding claimable
claimable_cases now m h = ground arith

Moves-claim : (s : Status) → (s ≡ pending) ⊎ (s ≡ processing) → Moves s processing
Moves-claim pending h = claim
Moves-claim processing h = reclaim
Moves-claim sent h = absurd (ground arith)
Moves-claim failed h = absurd (ground arith)

Moves-give_up : (s : Status) (b : Bool) → s ≡ processing → Moves s (if b then failed else pending)
Moves-give_up processing true e = give_up
Moves-give_up processing false e = retry
Moves-give_up pending b e = absurd (ground arith)
Moves-give_up sent b e = absurd (ground arith)
Moves-give_up failed b e = absurd (ground arith)

Moves-finish : (s : Status) → s ≡ processing → Moves s sent
Moves-finish processing e = finish
Moves-finish pending e = absurd (ground arith)
Moves-finish sent e = absurd (ground arith)
Moves-finish failed e = absurd (ground arith)

module _ (i : ℕ) (m : OutboxMessage) (rows : List OutboxMessage)
    (at : get_elem? rows i ≡ some m) where
  unmoved : MovesAt i m rows
  unmoved = (m, at, refl, stay m.status)

  moved :
      (p : OutboxMessage → Bool) (f : OutboxMessage → OutboxMessage)
      → ((f m).id ≡ m.id)
      → (p m ≡ true → Moves m.status (f m).status)
      → MovesAt i m (update_where p f rows)
  moved p f same step = elim (Bool-cases (p m)) [
    | inl hit ↦ (f m, get_elem?-map _ rows i at ∙ rw hit refl, same, step hit)
    | inr miss ↦ (m, get_elem?-map _ rows i at ∙ rw miss refl, refl, stay m.status)
  ]

  -- Whatever happens in it, a claim takes a row from 'pending' or 'processing' to 'processing', or
  -- leaves it: in a keyed table no row that is sent or failed is ever claimed.
  pub claim-Moves :
      (db : Database) (calls : Calls) (limit : ℕ) (worker_id : Text) (lease now stamp : ℕ)
      → Keyed rows
      → MovesAt i m (claim_pending_outbox db calls limit worker_id lease now stamp rows).0
  claim-Moves db calls limit worker_id lease now stamp k =
      elim (claim_table db calls limit worker_id lease now stamp rows) [
        | inl e ↦ rw e unmoved
        | inr e ↦ rw e (
            moved (λ r. id_in (ids_of (db.select (claimable now) limit rows)) r.id)
              (leased worker_id (now + lease) stamp) refl
              (λ h.
                Moves-claim m.status (
                  claimable_cases now m (selected-meets db (claimable now) limit rows i m k at h))))
      ]

  -- The two statements that end a lease take a row only from 'processing', and only of the worker.
  executed-MovesAt :
      (done : Executed) (rows' : List OutboxMessage)
      → MovesAt i m rows'
      → MovesAt i m (executed done rows rows').0
  executed-MovesAt succeeded rows' h = h
  executed-MovesAt carried_out rows' h = h
  executed-MovesAt refused rows' h = unmoved

  pub mark_outbox_failed-Moves :
      (done : Executed) (id max_retry : ℕ) (worker_id : Text) (now : ℕ)
      → MovesAt i m (mark_outbox_failed done id max_retry worker_id now rows).0
  unfolding mark_outbox_failed
  mark_outbox_failed-Moves done id max_retry worker_id now = executed-MovesAt done _ (
      moved (λ r. (r.id == id) && held_by worker_id r) (as_failed max_retry now) refl
        (λ h. Moves-give_up m.status _ (held-processing worker_id m (ground arith))))

  pub mark_outbox_sent_batch-Moves :
      (done : Executed) (ids : List ℕ) (worker_id : Text) (now : ℕ)
      → MovesAt i m (mark_outbox_sent_batch done ids worker_id now rows).0
  unfolding mark_outbox_sent_batch
  mark_outbox_sent_batch-Moves done [] worker_id now = unmoved
  mark_outbox_sent_batch-Moves done (id ∷ ids) worker_id now = executed-MovesAt done _ (
      moved (λ r. id_in (id ∷ ids) r.id && held_by worker_id r) (as_sent now) refl
        (λ h. Moves-finish m.status (held-processing worker_id m (ground arith))))
