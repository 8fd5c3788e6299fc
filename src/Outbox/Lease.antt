-- ===== src/Outbox/Lease.antt =====
-- What a lease promises to the worker that holds it.
use shortlink_system.Base.{
  ℕ, ◌+◌, ◌≤◌, ◌≡◌, ◌⊎◌, refl, ap, some, List, [], ◌∷◌, length, Text, text_eq, text_eq_refl,
  text_eq_iff, ◌==◌, ◌&&◌, true, false, All, arith, Bool-cases, inl, inr,
}
use shortlink_system.Outbox.{
  OutboxMessage, Database, Calls, id_in, ids_of, update_where, claimable, leased,
  claim_pending_outbox, sent, processing, held_by, as_failed,
}
use shortlink_system.Outbox.History.{
  Rules, Edit, creates, claims, sends, sends_batch, fails, cleans, Edits, Edits-All,
  update_where-All, create_outbox-All, delete_sent_outbox-All, mark_outbox_sent-All,
  mark_outbox_sent_batch-All, mark_outbox_failed-All,
}

abbrev pub claim_update :
    List OutboxMessage → Text → ℕ → ℕ → List OutboxMessage → List OutboxMessage
claim_update msgs worker_id until at =
    update_where (λ m. id_in (ids_of msgs) m.id) (leased worker_id until at)

module _ (P Q R : OutboxMessage → Type 0) (f : (m : OutboxMessage) → P m → Q m → R m) where
  All-both : (rows : List OutboxMessage) → All P rows → All Q rows → All R rows
  All-both [] p q = tt
  All-both (m ∷ rows) (p, ps) (q, qs) = (f m p q, All-both rows ps qs)

All-outside :
    (ids : List ℕ) (rows : List OutboxMessage) → ids ≡ [] → All (λ m. id_in ids m.id ≡ false) rows
All-outside ids [] e = tt
All-outside ids (m ∷ rows) e = (rw e refl, All-outside ids rows e)

module _ (db : Database) where
  -- Either nothing was found, or the found rows were leased.
  pub claim_cases :
      (calls : Calls) (limit : ℕ) (worker_id : Text) (lease now at : ℕ) (rows : List OutboxMessage)
      {rows' msgs : List OutboxMessage}
      → claim_pending_outbox db calls limit worker_id lease now at rows ≡ (rows', some msgs)
      → ((msgs ≡ []) × (rows' ≡ rows))
        ⊎ ((msgs ≡ db.select (claimable now) limit rows)
            × (rows' ≡ claim_update msgs worker_id (now + lease) at rows))
  unfolding claim_pending_outbox
  claim_cases calls limit worker_id lease now at rows e = ground arith

  pub claim_table :
      (calls : Calls) (limit : ℕ) (worker_id : Text) (lease now at : ℕ) (rows : List OutboxMessage)
      → let rows' = (claim_pending_outbox db calls limit worker_id lease now at rows).0 in
        (rows' ≡ rows)
        ⊎ (rows'
            ≡ claim_update (db.select (claimable now) limit rows) worker_id (now + lease) at rows)
  unfolding claim_pending_outbox
  claim_table calls limit worker_id lease now at rows = ground arith

  -- A claim returns at most `limit` rows, each of which was free or held by a lease that is over.
  claim_bounds :
      (calls : Calls) (limit : ℕ) (worker_id : Text) (lease now at : ℕ) (rows : List OutboxMessage)
      {rows' msgs : List OutboxMessage}
      → claim_pending_outbox db calls limit worker_id lease now at rows ≡ (rows', some msgs)
      → (length msgs ≤ limit) × All (λ m. claimable now m ≡ true) msgs
  claim_bounds calls limit worker_id lease now at rows e =
      elim (claim_cases calls limit worker_id lease now at rows e) [
        | inl (none_found, _) ↦ rw none_found (omega arith, tt)
        | inr (found, _) ↦
            rw found (db.length-select-le _ limit rows, db.select-meets (claimable now) limit rows)
      ]

module _ (ids : List ℕ) (worker_id : Text) (until : ℕ) where
  -- A row with one of the identifiers is sent, or the worker still holds it.
  abbrev Leased : OutboxMessage → Type 0
  Leased m =
      id_in ids m.id ≡ true
      → (m.status ≡ sent)
        ⊎ ((m.status ≡ processing) × (m.worker_id ≡ worker_id) × (m.locked_until ≡ some until))

  -- While the lease runs: new rows have other identifiers, claims come before its end, and a failed try
  -- is counted by another worker or for another row.
  abbrev pub meanwhile : Rules
  meanwhile = record {
    creates = λ m. id_in ids m.id ≡ false;
    claims = λ now rows. now ≤ until;
    fails = λ id max_retry other. (text_eq worker_id other ≡ false) ⊎ (id_in ids id ≡ false);
  }

  Leased-other : (m : OutboxMessage) → id_in ids m.id ≡ false → Leased m
  Leased-other m out inside = absurd (ground (arith, out, inside))

  Leased-claimable :
      (now : ℕ) (m : OutboxMessage)
      → now ≤ until
      → claimable now m ≡ true
      → Leased m
      → id_in ids m.id ≡ false
  unfolding claimable
  Leased-claimable now m h c l = elim (Bool-cases (id_in ids m.id)) [
    | inr out ↦ out
    | inl inside ↦ elim (l inside) [
      | inl done ↦ absurd (ground (arith, c, done))
      | inr (held, _, lease) ↦ absurd (ground (arith, c, held, lease, h))
    ]
  ]

  Leased-claim_update :
      (at : ℕ) (msgs rows : List OutboxMessage)
      → ids_of msgs ≡ ids
      → All Leased (claim_update msgs worker_id until at rows)
  Leased-claim_update at msgs [] e = tt
  Leased-claim_update at msgs (m ∷ rows) e = (
    elim (Bool-cases (id_in (ids_of msgs) m.id)) [
      | inl hit ↦ rw hit (λ _. inr (refl, refl, refl))
      | inr miss ↦ rw miss (Leased-other m (rw (← e) miss))
    ],
    Leased-claim_update at msgs rows e,
  )

  -- What a claim finds while the lease runs are other rows.
  selected-others :
      (db : Database) (limit now : ℕ) (rows : List OutboxMessage)
      → now ≤ until
      → All Leased rows
      → All (λ m. id_in ids m.id ≡ false) (db.select (claimable now) limit rows)
  selected-others db limit now rows h l =
      All-both _ _ _ (λ m. Leased-claimable now m h) (db.select (claimable now) limit rows)
        (db.select-meets (claimable now) limit rows)
        (db.select-within (claimable now) limit rows Leased l)

  others_id :
      (msgs : List OutboxMessage) (id : ℕ)
      → All (λ m. id_in ids m.id ≡ false) msgs
      → id_in (ids_of msgs) id ≡ true
      → id_in ids id ≡ false
  others_id [] id h e = cc
  others_id (m ∷ msgs) id (h, hs) e = elim (Bool-cases (m.id == id)) [
    | inl same ↦ let one : m.id ≡ id = ground (arith, same) in rw (← one) h
    | inr other ↦ others_id msgs id hs (ground (arith, other, e))
  ]

  -- No statement that may run meanwhile takes a row from the worker.
  Edit-Leased :
      (db : Database) (rows rows' : List OutboxMessage)
      → Edit db meanwhile rows rows'
      → All Leased rows
      → All Leased rows'
  Edit-Leased db rows _ (creates msg new) l =
      create_outbox-All Leased msg rows (Leased-other msg new) l
  Edit-Leased db rows _ (claims calls limit other lease now at h) l =
      elim (claim_table db calls limit other lease now at rows) [
        | inl same ↦ rw same l
        | inr claimed ↦ rw claimed (
            update_where-All Leased _ (leased other (now + lease) at)
              (λ m _ hit. Leased-other (leased other (now + lease) at m) (
                others_id (db.select (claimable now) limit rows) m.id
                  (selected-others db limit now rows h l) hit))
              rows l)
      ]
  Edit-Leased db rows _ (sends done id at) l =
      mark_outbox_sent-All Leased done id at rows (λ m _ _. inl refl) l
  Edit-Leased db rows _ (sends_batch done id other at) l =
      mark_outbox_sent_batch-All Leased done id other at rows (λ m _ _ _. inl refl) l
  Edit-Leased db rows _ (fails done id max_retry other now why) l =
      mark_outbox_failed-All Leased done id max_retry other now rows (λ m h hit. kept m why hit h) l
    where
      kept :
          (m : OutboxMessage)
          → (text_eq worker_id other ≡ false) ⊎ (id_in ids id ≡ false)
          → ((m.id == id) && held_by other m) ≡ true
          → Leased m
          → Leased (as_failed max_retry now m)
      kept m (inr out) hit h = λ inside. absurd (ground (arith, hit, out, inside))
      kept m (inl differ) hit h = λ inside. elim (h inside) [
        | inl done ↦ absurd (ground (arith, hit, done))
        | inr (_, holder, _) ↦
            absurd (
              ground
                (arith, hit, holder, differ, text_eq_iff m.worker_id other, text_eq_refl other))
      ]
  Edit-Leased db rows _ (cleans read done retain now) l =
      delete_sent_outbox-All Leased db read done retain now rows l

module _ (db : Database) where
  -- While the leases of a claim run, no claim by any worker returns one of its rows: whatever
  -- statements come between, if new rows have new identifiers, the claims among them come before the
  -- end of the lease, and no failed try is counted for these rows by a worker of that name.
  pub claims_disjoint :
      (calls calls' : Calls) (limit limit' : ℕ) (worker_id worker_id' : Text)
      (lease lease' now now' at at' : ℕ) (rows between : List OutboxMessage)
      {rows' rows'' msgs msgs' : List OutboxMessage}
      → claim_pending_outbox db calls limit worker_id lease now at rows ≡ (rows', some msgs)
      → Edits db (meanwhile (ids_of msgs) worker_id (now + lease)) rows' between
      → now' ≤ now + lease
      → claim_pending_outbox db calls' limit' worker_id' lease' now' at' between
        ≡ (rows'', some msgs')
      → All (λ m. id_in (ids_of msgs) m.id ≡ false) msgs'
  claims_disjoint calls calls' limit limit' worker_id worker_id' lease lease' now now' at at' rows
        between {rows'} {rows''} {msgs} {msgs'} e edits h e' =
      elim (claim_cases db calls limit worker_id lease now at rows e) [
        | inl (none_found, _) ↦ All-outside (ids_of msgs) msgs' (ap ids_of none_found)
        | inr (found, shape) ↦
            elim (claim_cases db calls' limit' worker_id' lease' now' at' between e') [
              | inl (none_found, _) ↦ rw none_found tt
              | inr (found', _) ↦ rw found' (
                  selected-others (ids_of msgs) worker_id (now + lease) db limit' now' between h (
                    Edits-All db (meanwhile (ids_of msgs) worker_id (now + lease))
                      (Leased (ids_of msgs) worker_id (now + lease))
                      (Edit-Leased (ids_of msgs) worker_id (now + lease) db) rows' between edits
                      (rw shape (
                        Leased-claim_update (ids_of msgs) worker_id (now + lease) at msgs rows
                          refl))))
            ]
      ]
