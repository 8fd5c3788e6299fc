-- ===== src/Tests/Outboxes.antt =====
-- The outbox on concrete rows.
use shortlink_system.Base.{
  ℕ, zero, suc, ◌+◌, ◌≡◌, refl, none, some, bytes, text_eq, List, [], ◌∷◌, true, false, Bool, All,
  get_elem?, ◌==◌, if◌then◌else◌, Bool-cases, inl, inr, take, All-take, length-take-le, arith,
}
use shortlink_system.Outbox.{
  pending, processing, sent, OutboxMessage, Database, Calls, succeeded, id_in, claimable,
  claim_pending_outbox, mark_outbox_failed, create_outbox, outdated,
}
use shortlink_system.Outbox.Lease.{meanwhile, claims_disjoint}
use shortlink_system.Outbox.Rows.{Keyed}
use shortlink_system.Outbox.History.{none_yet, then_one, creates, claims, fails, Edits}
use shortlink_system.Outbox.Tries.{service_rules, Tried, Edits-Tried}
use mathlib.Core.Path.{subst}
use shortlink_system.OutboxWorker.Waiting.{Waits}
use shortlink_system.OutboxWorker.Delivery.{start-Waits}
use shortlink_system.OutboxWorker.{
  OutboxWorker, Round, outbox_retain, cleanup_due, process_pending, ticked, stopped, start,
}
use shortlink_system.OutboxWorker.Rounds.{process_pending-row}

-- A database that returns the rows in the order of the table.
pub matching : (OutboxMessage → Bool) → List OutboxMessage → List OutboxMessage
matching p [] = []
matching p (m ∷ rows) = let rest = matching p rows in if p m then m ∷ rest else rest

pub matching-meets :
    (p : OutboxMessage → Bool) (rows : List OutboxMessage) → All (λ m. p m ≡ true) (matching p rows)
unfolding matching
matching-meets p [] = tt
matching-meets p (m ∷ rows) = elim (Bool-cases (p m)) [
  | inl hit ↦ rw hit (hit, matching-meets p rows)
  | inr miss ↦ rw miss (matching-meets p rows)
]

pub matching-within :
    (p : OutboxMessage → Bool) (rows : List OutboxMessage) (P : OutboxMessage → Type 0)
    → All P rows
    → All P (matching p rows)
unfolding matching
matching-within p [] P h = tt
matching-within p (m ∷ rows) P (h, hs) = elim (Bool-cases (p m)) [
  | inl hit ↦ rw hit (h, matching-within p rows P hs)
  | inr miss ↦ rw miss (matching-within p rows P hs)
]

abbrev pub database : Database
database = record {
  select = λ p limit rows. take limit (matching p rows);
  select-meets = λ p limit rows. All-take _ limit (matching p rows) (matching-meets p rows);
  select-within =
      λ p limit rows P h. All-take P limit (matching p rows) (matching-within p rows P h);
  length-select-le = λ p limit rows. length-take-le limit (matching p rows);
}

abbrev row : OutboxMessage
row = record {
  id = 1;
  short_code = bytes "Pv";
  long_url = bytes "https://a.example";
  url_hash = bytes "00ff";
  status = pending;
  retry_count = 0;
  worker_id = [];
  locked_until = none;
  created_at = 10;
  updated_at = 10;
}

abbrev old : OutboxMessage
old = record row { id = 2; status = sent; updated_at = 5 }

abbrev rows : List OutboxMessage
rows = row ∷ old ∷ []

abbrev calls : Calls
calls = record { begins = true; finds = true; updates = true; commits = true; carried_out = true }

abbrev taken : OutboxMessage
taken = record row {
  status = processing;
  worker_id = bytes "w1";
  locked_until = some 130;
  updated_at = 100;
}

claimed :
    claim_pending_outbox database calls 100 (bytes "w1") 30 100 100 rows
    ≡ (taken ∷ old ∷ [], some (row ∷ []))
unfolding claim_pending_outbox claimable matching
claimed = refl

-- Another worker finds nothing at 130, and the row again at 131.
held :
    claim_pending_outbox database calls 100 (bytes "w2") 30 130 130 (taken ∷ old ∷ [])
    ≡ (taken ∷ old ∷ [], some [])
unfolding claim_pending_outbox claimable matching
held = refl

abbrev retaken : OutboxMessage
retaken = record taken { worker_id = bytes "w2"; locked_until = some 161; updated_at = 131 }

expired :
    claim_pending_outbox database calls 100 (bytes "w2") 30 131 131 (taken ∷ old ∷ [])
    ≡ (retaken ∷ old ∷ [], some (taken ∷ []))
unfolding claim_pending_outbox claimable matching
expired = refl

abbrev next : OutboxMessage
next = record row { id = 3; short_code = bytes "hv" }

claimed_one :
    claim_pending_outbox database calls 1 (bytes "w1") 30 100 100 (row ∷ next ∷ [])
    ≡ (taken ∷ next ∷ [], some (row ∷ []))
unfolding claim_pending_outbox claimable matching
claimed_one = refl

abbrev next_taken : OutboxMessage
next_taken = record next {
  status = processing;
  worker_id = bytes "w2";
  locked_until = some 160;
  updated_at = 130;
}

-- Between the two claims the other worker reports a failure of the row, which is not its own.
abbrev disturbed : List OutboxMessage
disturbed = (mark_outbox_failed succeeded 1 3 (bytes "w2") 110 (taken ∷ next ∷ [])).0

disturbs : Edits database (meanwhile (1 ∷ []) (bytes "w1") 130) (taken ∷ next ∷ []) disturbed
unfolding text_eq
disturbs = then_one none_yet (fails succeeded 1 3 (bytes "w2") 110 (inl refl))

claimed_other :
    claim_pending_outbox database calls 100 (bytes "w2") 30 130 130 disturbed
    ≡ (taken ∷ next_taken ∷ [], some (next ∷ []))
unfolding claim_pending_outbox claimable matching mark_outbox_failed text_eq
claimed_other = refl

claims_disjoint_example : All (λ (m : OutboxMessage). id_in (1 ∷ []) m.id ≡ false) (next ∷ [])
claims_disjoint_example =
    claims_disjoint database calls calls 1 100 (bytes "w1") (bytes "w2") 30 30 100 130 100 130
      (row ∷ next ∷ []) disturbed claimed_one disturbs (omega arith) claimed_other

row-Keyed : Keyed (row ∷ [])
row-Keyed = record { unique = one }
  where
    one :
        (i j : ℕ) (a b : OutboxMessage)
        → get_elem? (row ∷ []) i ≡ some a
        → get_elem? (row ∷ []) j ≡ some b
        → a.id ≡ b.id
        → a ≡ b
    one zero zero a b e f h = cc
    one zero (suc j) a b e f h = cc
    one (suc i) j a b e f h = cc

-- A row is created, claimed and tried without success.
abbrev tried_once : List OutboxMessage
tried_once = (mark_outbox_failed succeeded 1 3 (bytes "w1") 120 (taken ∷ [])).0

claimed_alone :
    (claim_pending_outbox database calls 1 (bytes "w1") 30 100 100 (row ∷ [])).0 ≡ taken ∷ []
unfolding claim_pending_outbox claimable matching
claimed_alone = refl

tried : Edits database (service_rules 3) [] tried_once
unfolding create_outbox
tried =
    then_one
      (subst (λ rows. Edits database (service_rules 3) [] rows) claimed_alone
        (then_one (then_one none_yet (creates row (refl, refl, refl, refl)))
          (claims calls 1 (bytes "w1") 30 100 100 row-Keyed)))
      (fails succeeded 1 3 (bytes "w1") 120 refl)

Edits-Tried_example : All (Tried 3) tried_once
Edits-Tried_example = Edits-Tried 3 database tried_once tried

rows-Keyed : Keyed rows
rows-Keyed = record { unique = distinct_ids }
  where
    distinct_ids :
        (i j : ℕ) (a b : OutboxMessage)
        → get_elem? rows i ≡ some a
        → get_elem? rows j ≡ some b
        → a.id ≡ b.id
        → a ≡ b
    distinct_ids zero zero a b e f h = cc
    distinct_ids zero (suc zero) a b e f h = ground (arith, e, f, h)
    distinct_ids (suc zero) zero a b e f h = ground (arith, e, f, h)
    distinct_ids (suc zero) (suc zero) a b e f h = cc
    distinct_ids (suc (suc i)) j a b e f h = cc
    distinct_ids zero (suc (suc j)) a b e f h = cc
    distinct_ids (suc zero) (suc (suc j)) a b e f h = cc

recent : outdated 100 200 old ≡ false
unfolding outdated
recent = refl

abbrev round : Round
round = record {
  claims = calls;
  claim_time = 100;
  stamp = 100;
  publishes = λ id. id == 1;
  marks = λ id. succeeded;
  fail_time = λ id. 110;
  batch = succeeded;
  sent_time = 120;
  reads = true;
  deletes = succeeded;
  cleanup_time = 125;
}

abbrev rested : OutboxWorker
rested = record { worker_id = bytes "w1"; last_cleanup = some 100 }

not_due : cleanup_due rested 125 ≡ false
unfolding cleanup_due
not_due = refl

process_pending-row_example :
    get_elem? (process_pending database round rested rows).1 0
    ≡ some (record row { status = sent; updated_at = 120 })
unfolding claimable matching
process_pending-row_example =
    process_pending-row database round rested rows refl refl refl refl refl (λ id. refl) not_due row
      0 refl

-- RabbitMQ is down for two rounds, and the cleanup runs.
abbrev unheard : Round
unheard = record round { publishes = λ id. false; cleanup_time = outbox_retain + 50 }

abbrev worker : OutboxWorker
worker = record { worker_id = bytes "w1"; last_cleanup = none }

row-Waits : Waits 1 rows
row-Waits = record { there = refl; unsent = (λ e s. pending_sent s, (λ e. absurd (other e), tt)) }
  where
    pending_sent : pending ≡ sent → ⊥
    pending_sent e = cc

    other : {P : Type 0} → ◌≡◌ {A = ℕ} 2 1 → P
    other e = absurd (omega arith)

start-Waits_example : Waits 1 (start database unheard (ticked unheard ∷ stopped ∷ []) worker rows).1
start-Waits_example =
    start-Waits 1 database unheard (ticked unheard ∷ stopped ∷ []) worker rows refl (refl, (tt, tt))
      row-Waits
