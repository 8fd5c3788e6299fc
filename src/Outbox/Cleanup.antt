-- ===== src/Outbox/Cleanup.antt =====
-- What the cleanup deletes.
use shortlink_system.Base.{
  ℕ, zero, suc, ◌≡◌, none, some, List, [], ◌∷◌, length, get_elem?, Bool, true, false, ◌==◌, arith,
  Bool-cases, inl, inr,
}
use shortlink_system.Outbox.{
  OutboxMessage, Executed, has_effect, Database, id_in, ids_of, delete_where, outdated, batch_size,
  delete_sent_outbox,
}
use shortlink_system.Outbox.Rows.{Keyed, selected-meets}

delete_where-keeps :
    (p : OutboxMessage → Bool) (rows : List OutboxMessage) (i : ℕ) (m : OutboxMessage)
    → get_elem? rows i ≡ some m
    → p m ≡ false
    → (j : ℕ) × (get_elem? (delete_where p rows) j ≡ some m)
delete_where-keeps p [] i m at h = absurd (never at)
  where
    never : {m : OutboxMessage} → none ≡ some m → ⊥
    never e = cc
delete_where-keeps p (r ∷ rows) zero m at h = (0, ground (arith, at, h))
delete_where-keeps p (r ∷ rows) (suc i) m at h =
    let (j, found) = delete_where-keeps p rows i m at h in
    elim (Bool-cases (p r)) [ inl hit ↦ (j, rw hit found) | inr miss ↦ (suc j, rw miss found) ]

-- The cleanup keeps every row that is not both sent and older than the retention time, whether its
-- statements succeed or fail.
delete_sent_outbox-keeps :
    (db : Database) (read : Bool) (done : Executed) (retain now i : ℕ) (m : OutboxMessage)
    (rows : List OutboxMessage)
    → Keyed rows
    → get_elem? rows i ≡ some m
    → outdated now retain m ≡ false
    → (j : ℕ) × (get_elem? (delete_sent_outbox db read done retain now rows).0 j ≡ some m)
unfolding delete_sent_outbox
delete_sent_outbox-keeps db false done retain now i m rows k at fresh = (i, at)
delete_sent_outbox-keeps db true done retain now i m rows k at fresh =
    let ids = ids_of (db.select (outdated now retain) batch_size rows) in
    elim (Bool-cases (length ids == 0)) [
      | inl nothing ↦ (i, rw nothing at)
      | inr some_found ↦ elim (Bool-cases (has_effect done)) [
        | inr cut ↦ (i, rw (some_found, cut) at)
        | inl deleted ↦
            rw (some_found, deleted)
              (delete_where-keeps (λ r. id_in ids r.id) rows i m at
                (elim (Bool-cases (id_in ids m.id)) [
                  | inl hit ↦ absurd (
                      clash (selected-meets db (outdated now retain) batch_size rows i m k at hit)
                        fresh)
                  | inr miss ↦ miss
                ]))
      ]
    ]
  where
    clash : {b : Bool} → b ≡ true → b ≡ false → ⊥
    clash h k = cc
