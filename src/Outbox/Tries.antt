-- ===== src/Outbox/Tries.antt =====
-- How often a message is tried before it is given up, and that a row nobody holds carries no lease.
use shortlink_system.Base.{
  ℕ, ◌+◌, ◌≤◌, ◌<◌, ◌≡◌, ◌≢◌, ◌⊎◌, refl, none, List, [], Text, true, arith, inl, inr, All,
}
use shortlink_system.Outbox.{
  pending, processing, failed, OutboxMessage, Database, leased, held_by, as_sent, as_failed,
  claimable,
}
use shortlink_system.Outbox.Rows.{Keyed, selected-All}
use shortlink_system.Outbox.Lease.{claim_table}
use shortlink_system.Outbox.Retry.{claimable_cases}
use shortlink_system.Outbox.History.{
  Rules, Edit, creates, claims, sends, sends_batch, fails, cleans, Edits, Edits-All,
  update_where-All_of, create_outbox-All, delete_sent_outbox-All, mark_outbox_sent-All,
  mark_outbox_sent_batch-All, mark_outbox_failed-All,
}

module _ (max_retry : ℕ) where
  -- The rows that `Create` writes, claims on a table whose identifiers differ, and failed tries with one maximum.
  abbrev pub service_rules : Rules
  service_rules = record {
    creates = λ m.
        (m.status ≡ pending) × (m.retry_count ≡ 0) × (m.worker_id ≡ []) × (m.locked_until ≡ none);
    claims = λ now rows. Keyed rows;
    fails = λ id max worker_id. max ≡ max_retry;
  }

  -- Only a row in processing has a worker and a lease; one that may be tried again was never tried or
  -- has a try left; one that is given up was tried once, or one time less than the maximum.
  pub record Tried (m : OutboxMessage) : Type 0 where
    pub free : m.status ≢ processing → (m.worker_id ≡ []) × (m.locked_until ≡ none)
    pub again :
        (m.status ≡ pending) ⊎ (m.status ≡ processing)
        → (m.retry_count ≡ 0) ⊎ (m.retry_count + 1 < max_retry)
    pub given_up :
        m.status ≡ failed
        → (max_retry ≤ m.retry_count + 1) × ((m.retry_count ≡ 1) ⊎ (m.retry_count + 1 ≡ max_retry))

  as_sent-Tried : (at : ℕ) (m : OutboxMessage) → Tried (as_sent at m)
  as_sent-Tried at m = record {
    free = λ _. (refl, refl);
    again = λ h. absurd (ground (arith, h));
    given_up = λ h. absurd (ground (arith, h));
  }

  leased-Tried :
      (worker_id : Text) (until at : ℕ) (m : OutboxMessage)
      → (m.status ≡ pending) ⊎ (m.status ≡ processing)
      → Tried m
      → Tried (leased worker_id until at m)
  leased-Tried worker_id until at m was t = record {
    free = λ h. absurd (h refl);
    again = λ _. t.again was;
    given_up = λ h. absurd (ground (arith, h));
  }

  as_failed-Tried :
      (now : ℕ) (worker_id : Text) (m : OutboxMessage)
      → Tried m
      → held_by worker_id m ≡ true
      → Tried (as_failed max_retry now m)
  as_failed-Tried now worker_id m t h =
      let before : (m.retry_count ≡ 0) ⊎ (m.retry_count + 1 < max_retry) =
        t.again (inr (ground (arith, h))) in
      record {
        free = λ _. (refl, refl);
        again = λ open_again. ground arith;
        given_up = λ lost. (ground arith, ground arith);
      }

  Edit-Tried :
      (db : Database) (rows rows' : List OutboxMessage)
      → Edit db service_rules rows rows'
      → All Tried rows
      → All Tried rows'
  Edit-Tried db rows _ (creates msg (is_pending, untried, nobody, unlocked)) t =
      create_outbox-All Tried msg rows
        (record {
          free = λ _. (nobody, unlocked);
          again = λ _. inl untried;
          given_up = λ h. absurd (ground (arith, is_pending, h));
        })
        t
  Edit-Tried db rows _ (claims calls limit worker_id lease now at keyed) t =
      elim (claim_table db calls limit worker_id lease now at rows) [
        | inl same ↦ rw same t
        | inr claimed ↦ rw claimed (
            update_where-All_of Tried (λ m. claimable now m ≡ true) _
              (leased worker_id (now + lease) at)
              (λ m k c. leased-Tried worker_id (now + lease) at m (claimable_cases now m c) k) rows
              (selected-All db (claimable now) limit rows keyed) t)
      ]
  Edit-Tried db rows _ (sends done id at) t =
      mark_outbox_sent-All Tried done id at rows (λ m _. as_sent-Tried at m) t
  Edit-Tried db rows _ (sends_batch done ids worker_id at) t =
      mark_outbox_sent_batch-All Tried done ids worker_id at rows (λ m _ _. as_sent-Tried at m) t
  Edit-Tried db rows _ (fails done id max worker_id now same) t = rw same (
      mark_outbox_failed-All Tried done id max_retry worker_id now rows
        (λ m k hit. as_failed-Tried now worker_id m k (ground (arith, hit))) t)
  Edit-Tried db rows _ (cleans read done retain now) t =
      delete_sent_outbox-All Tried db read done retain now rows t

  -- Whatever statements run one after the other, whichever fail, on a table that starts empty, gets its
  -- rows as `Create` writes them, has identifiers that differ at each claim and failed tries with one
  -- maximum: a row that is not in processing has no worker and no lease; a row that may be tried again
  -- was never tried or has less failed tries than the maximum minus one; and a row that is given up has
  -- at least that many, and exactly that many unless it was tried once.
  pub Edits-Tried :
      (db : Database) (rows : List OutboxMessage) → Edits db service_rules [] rows → All Tried rows
  Edits-Tried db rows edits = Edits-All db service_rules Tried (Edit-Tried db) [] rows edits tt
