-- ===== src/Outbox/History.antt =====
-- The statements that the workers and `Create` run on the table, one after the other.
use shortlink_system.Base.{
  ℕ, ◌≡◌, List, [], ◌∷◌, ◌&&◌, arith, Text, Bool, true, false, Bool-cases, inl, inr, All, length,
  ◌==◌,
}
use shortlink_system.Outbox.{
  OutboxMessage, Database, Calls, update_where, delete_where, create_outbox, claim_pending_outbox,
  mark_outbox_sent, mark_outbox_sent_batch, mark_outbox_failed, delete_sent_outbox, ids_of, id_in,
  Executed, succeeded, carried_out, refused, executed, as_sent, as_failed, held_by, outdated,
  batch_size,
}

-- What is said of the calls: the rows that are created, the time of each claim and the table that it
-- meets, and the identifier, the maximum and the worker of each failed try.
pub record Rules : Type 1 where
  pub creates : OutboxMessage → Type 0
  pub claims : ℕ → List OutboxMessage → Type 0
  pub fails : ℕ → ℕ → Text → Type 0

module _ (db : Database) (rules : Rules) where
  -- One statement, by any worker, whatever fails in it.
  pub data Edit (rows : List OutboxMessage) : List OutboxMessage → Type 0 where
    creates : (msg : OutboxMessage) → rules.creates msg → Edit rows (create_outbox msg rows)
    claims :
        (calls : Calls) (limit : ℕ) (worker_id : Text) (lease now at : ℕ)
        → rules.claims now rows
        → Edit rows (claim_pending_outbox db calls limit worker_id lease now at rows).0
    sends : (done : Executed) (id at : ℕ) → Edit rows (mark_outbox_sent done id at rows).0
    sends_batch :
        (done : Executed) (ids : List ℕ) (worker_id : Text) (at : ℕ)
        → Edit rows (mark_outbox_sent_batch done ids worker_id at rows).0
    fails :
        (done : Executed) (id max_retry : ℕ) (worker_id : Text) (now : ℕ)
        → rules.fails id max_retry worker_id
        → Edit rows (mark_outbox_failed done id max_retry worker_id now rows).0
    cleans :
        (read : Bool) (done : Executed) (retain now : ℕ)
        → Edit rows (delete_sent_outbox db read done retain now rows).0

  pub data Edits (rows : List OutboxMessage) : List OutboxMessage → Type 0 where
    none_yet : Edits rows rows
    then_one :
        {rows' rows'' : List OutboxMessage}
        → Edits rows rows'
        → Edit rows' rows''
        → Edits rows rows''

  -- What every statement keeps holds after any number of them.
  pub Edits-All :
      (P : OutboxMessage → Type 0)
      → ((rows rows' : List OutboxMessage) → Edit rows rows' → All P rows → All P rows')
      → (rows rows' : List OutboxMessage) → Edits rows rows'
      → All P rows
      → All P rows'
  Edits-All P keep rows rows' none_yet h = h
  Edits-All P keep rows rows' (then_one {rows' = before} edits edit) h =
      keep before rows' edit (Edits-All P keep rows before edits h)

module _ (P : OutboxMessage → Type 0) where
  pub update_where-All :
      (p : OutboxMessage → Bool) (f : OutboxMessage → OutboxMessage)
      → ((m : OutboxMessage) → P m → p m ≡ true → P (f m))
      → (rows : List OutboxMessage) → All P rows
      → All P (update_where p f rows)
  update_where-All p f keep [] h = tt
  update_where-All p f keep (m ∷ rows) (h, hs) = (
    elim (Bool-cases (p m)) [ inl hit ↦ rw hit (keep m h hit) | inr miss ↦ rw miss h ],
    update_where-All p f keep rows hs,
  )

  -- The same where more is known of the rows that are met.
  pub update_where-All_of :
      (C : OutboxMessage → Type 0) (p : OutboxMessage → Bool) (f : OutboxMessage → OutboxMessage)
      → ((m : OutboxMessage) → P m → C m → P (f m))
      → (rows : List OutboxMessage) → All (λ m. p m ≡ true → C m) rows
      → All P rows
      → All P (update_where p f rows)
  update_where-All_of C p f keep [] c h = tt
  update_where-All_of C p f keep (m ∷ rows) (c, cs) (h, hs) = (
    elim (Bool-cases (p m)) [ inl hit ↦ rw hit (keep m h (c hit)) | inr miss ↦ rw miss h ],
    update_where-All_of C p f keep rows cs hs,
  )

  pub delete_where-All :
      (p : OutboxMessage → Bool) (rows : List OutboxMessage)
      → All P rows
      → All P (delete_where p rows)
  delete_where-All p [] h = tt
  delete_where-All p (m ∷ rows) (h, hs) = elim (Bool-cases (p m)) [
    | inl hit ↦ rw hit (delete_where-All p rows hs)
    | inr miss ↦ rw miss (h, delete_where-All p rows hs)
  ]

  pub create_outbox-All :
      (msg : OutboxMessage) (rows : List OutboxMessage)
      → P msg
      → All P rows
      → All P (create_outbox msg rows)
  unfolding create_outbox
  create_outbox-All msg [] h hs = (h, tt)
  create_outbox-All msg (m ∷ rows) h (k, ks) = (k, create_outbox-All msg rows h ks)

  executed-All :
      (done : Executed) (rows rows' : List OutboxMessage)
      → All P rows
      → All P rows'
      → All P (executed done rows rows').0
  executed-All succeeded rows rows' h h' = h'
  executed-All carried_out rows rows' h h' = h'
  executed-All refused rows rows' h h' = h

  -- The cleanup only takes rows away.
  pub delete_sent_outbox-All :
      (db : Database) (read : Bool) (done : Executed) (retain now : ℕ) (rows : List OutboxMessage)
      → All P rows
      → All P (delete_sent_outbox db read done retain now rows).0
  unfolding delete_sent_outbox
  delete_sent_outbox-All db false done retain now rows h = h
  delete_sent_outbox-All db true done retain now rows h =
      let ids = ids_of (db.select (outdated now retain) batch_size rows) in
      elim (Bool-cases (length ids == 0)) [
        | inl nothing ↦ rw nothing h
        | inr found ↦ rw found (
            executed-All done rows (delete_where (λ m. id_in ids m.id) rows) h
              (delete_where-All (λ m. id_in ids m.id) rows h))
      ]

  -- The three UPDATEs that end a lease, by what they do to the rows that they meet.
  pub mark_outbox_sent-All :
      (done : Executed) (id at : ℕ) (rows : List OutboxMessage)
      → ((m : OutboxMessage) → P m → P (as_sent at m))
      → All P rows
      → All P (mark_outbox_sent done id at rows).0
  unfolding mark_outbox_sent
  mark_outbox_sent-All done id at rows keep h =
      executed-All done rows _ h (update_where-All _ (as_sent at) (λ m k _. keep m k) rows h)

  pub mark_outbox_sent_batch-All :
      (done : Executed) (ids : List ℕ) (worker_id : Text) (at : ℕ) (rows : List OutboxMessage)
      → ((m : OutboxMessage) → P m → held_by worker_id m ≡ true → P (as_sent at m))
      → All P rows
      → All P (mark_outbox_sent_batch done ids worker_id at rows).0
  unfolding mark_outbox_sent_batch
  mark_outbox_sent_batch-All done [] worker_id at rows keep h = h
  mark_outbox_sent_batch-All done (id ∷ ids) worker_id at rows keep h =
      executed-All done rows _ h
        (update_where-All _ (as_sent at) (λ m k hit. keep m k (ground (arith, hit))) rows h)

  pub mark_outbox_failed-All :
      (done : Executed) (id max_retry : ℕ) (worker_id : Text) (now : ℕ) (rows : List OutboxMessage)
      → ((m : OutboxMessage)
          → P m
          → ((m.id == id) && held_by worker_id m) ≡ true
          → P (as_failed max_retry now m))
      → All P rows
      → All P (mark_outbox_failed done id max_retry worker_id now rows).0
  unfolding mark_outbox_failed
  mark_outbox_failed-All done id max_retry worker_id now rows keep h =
      executed-All done rows _ h (update_where-All _ (as_failed max_retry now) keep rows h)
