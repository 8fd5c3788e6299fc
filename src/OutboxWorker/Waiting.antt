-- ===== src/OutboxWorker/Waiting.antt =====
-- A message that waits in the table, under the statements of the outbox.
use shortlink_system.Base.{
  ℕ, ◌≡◌, ◌≢◌, refl, sym, ap, ◌∙◌, List, [], ◌∷◌, length, Text, Bool, true, false, ◌==◌, All, arith,
  Bool-cases, inl, inr,
}
use shortlink_system.Outbox.{
  OutboxMessage, Executed, has_effect, processing, sent, Database, Calls, id_in, ids_of,
  update_where, delete_where, outdated, batch_size, claim_pending_outbox, mark_outbox_sent_batch,
  delete_sent_outbox,
}
use shortlink_system.Outbox.Lease.{claim_table}

processing_not_sent : processing ≢ sent
processing_not_sent e = cc

outdated-sent :
    (now retain : ℕ) (m : OutboxMessage) → outdated now retain m ≡ true → m.status ≡ sent
unfolding outdated
outdated-sent now retain m h = ground (arith, h)

module _ (id : ℕ) where
  -- A row with the identifier is there, and none with it is 'sent'.
  pub record Waits (rows : List OutboxMessage) : Type 0 where
    pub there : id_in (ids_of rows) id ≡ true
    pub unsent : All (λ m. m.id ≡ id → m.status ≢ sent) rows

  module _ (p : OutboxMessage → Bool) (f : OutboxMessage → OutboxMessage)
      (same : (m : OutboxMessage) → (f m).id ≡ m.id) where
    ids_of-update_where : (rows : List OutboxMessage) → ids_of (update_where p f rows) ≡ ids_of rows
    ids_of-update_where [] = refl
    ids_of-update_where (m ∷ rows) = ground (arith, ids_of-update_where rows, same m)

    unsent-update_where :
        ((m : OutboxMessage) → m.id ≡ id → p m ≡ true → (f m).status ≢ sent)
        → (rows : List OutboxMessage) → All (λ m. m.id ≡ id → m.status ≢ sent) rows
        → All (λ m. m.id ≡ id → m.status ≢ sent) (update_where p f rows)
    unsent-update_where step [] h = tt
    unsent-update_where step (m ∷ rows) (h, hs) = (
      elim (Bool-cases (p m)) [
        | inl hit ↦ rw hit (λ e. step m (sym (same m) ∙ e) hit)
        | inr miss ↦ rw miss h
      ],
      unsent-update_where step rows hs,
    )

    pub Waits-update_where :
        ((m : OutboxMessage) → m.id ≡ id → p m ≡ true → (f m).status ≢ sent)
        → (rows : List OutboxMessage) → Waits rows
        → Waits (update_where p f rows)
    Waits-update_where step rows h = record {
      there = rw (ids_of-update_where rows) h.there;
      unsent = unsent-update_where step rows h.unsent;
    }

  pub claim-Waits :
      (db : Database) (calls : Calls) (limit : ℕ) (w : Text) (lease now at : ℕ)
      (rows : List OutboxMessage)
      → Waits rows
      → Waits (claim_pending_outbox db calls limit w lease now at rows).0
  claim-Waits db calls limit w lease now at rows h =
      elim (claim_table db calls limit w lease now at rows) [
        | inl same ↦ rw same h
        | inr new ↦
            rw new (Waits-update_where _ _ (λ m. refl) (λ m e hit. processing_not_sent) rows h)
      ]

  pub mark_outbox_sent_batch-Waits :
      (done : Executed) (ids : List ℕ) (w : Text) (at : ℕ) (rows : List OutboxMessage)
      → id_in ids id ≡ false
      → Waits rows
      → Waits (mark_outbox_sent_batch done ids w at rows).0
  unfolding mark_outbox_sent_batch
  mark_outbox_sent_batch-Waits done [] w at rows out h = h
  mark_outbox_sent_batch-Waits done (i ∷ ids) w at rows out h =
      elim (Bool-cases (has_effect done)) [
        | inr cut ↦ rw cut h
        | inl marked ↦ rw marked (
            Waits-update_where _ _ (λ m. refl)
              (λ m e hit. absurd (ground (arith, ap (id_in (i ∷ ids)) e, out, hit))) rows h)
      ]

  -- The cleanup does not find the row that waits.
  ids_of-outdated :
      (now retain : ℕ) (msgs : List OutboxMessage)
      → All (λ m. m.id ≡ id → m.status ≢ sent) msgs
      → All (λ m. outdated now retain m ≡ true) msgs
      → id_in (ids_of msgs) id ≡ false
  ids_of-outdated now retain [] h k = refl
  ids_of-outdated now retain (m ∷ msgs) (h, hs) (k, ks) = elim (Bool-cases (m.id == id)) [
    | inl same ↦ absurd (h (ground (arith, same)) (outdated-sent now retain m k))
    | inr other ↦ ground (arith, other, ids_of-outdated now retain msgs hs ks)
  ]

  delete_where-there :
      (ids : List ℕ) (rows : List OutboxMessage)
      → id_in ids id ≡ false
      → id_in (ids_of rows) id ≡ true
      → id_in (ids_of (delete_where (λ m. id_in ids m.id) rows)) id ≡ true
  delete_where-there ids [] out h = h
  delete_where-there ids (m ∷ rows) out h = elim (Bool-cases (m.id == id)) [
    | inl same ↦
        let kept : id_in ids m.id ≡ false = ground (arith, same, out) in
        rw kept (ground (arith, same))
    | inr other ↦
        let rest = delete_where-there ids rows out (ground (arith, other, h)) in
        elim (Bool-cases (id_in ids m.id)) [
          | inl hit ↦ rw hit rest
          | inr miss ↦ rw miss (ground (arith, rest))
        ]
  ]

  delete_where-unsent :
      (p : OutboxMessage → Bool) (rows : List OutboxMessage)
      → All (λ m. m.id ≡ id → m.status ≢ sent) rows
      → All (λ m. m.id ≡ id → m.status ≢ sent) (delete_where p rows)
  delete_where-unsent p [] h = tt
  delete_where-unsent p (m ∷ rows) (h, hs) = elim (Bool-cases (p m)) [
    | inl hit ↦ rw hit (delete_where-unsent p rows hs)
    | inr miss ↦ rw miss (h, delete_where-unsent p rows hs)
  ]

  pub delete_sent_outbox-Waits :
      (db : Database) (read : Bool) (done : Executed) (retain now : ℕ) (rows : List OutboxMessage)
      → Waits rows
      → Waits (delete_sent_outbox db read done retain now rows).0
  unfolding delete_sent_outbox
  delete_sent_outbox-Waits db false done retain now rows h = h
  delete_sent_outbox-Waits db true done retain now rows h =
      let msgs = db.select (outdated now retain) batch_size rows in
      let out : id_in (ids_of msgs) id ≡ false =
        ids_of-outdated now retain msgs
          (db.select-within (outdated now retain) batch_size rows _ h.unsent)
          (db.select-meets (outdated now retain) batch_size rows) in
      elim (Bool-cases (length (ids_of msgs) == 0)) [
        | inl nothing ↦ rw nothing h
        | inr found ↦ elim (Bool-cases (has_effect done)) [
          | inr cut ↦ rw (found, cut) h
          | inl deleted ↦
              rw (found, deleted)
                (record {
                  there = delete_where-there (ids_of msgs) rows out h.there;
                  unsent = delete_where-unsent (λ m. id_in (ids_of msgs) m.id) rows h.unsent;
                })
        ]
      ]
