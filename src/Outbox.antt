-- ===== src/Outbox.antt =====
-- internal/model/outbox.go and internal/repository/outbox.go: the table outbox_messages and the SQL
-- statements on it. The table is the list of its rows. An UPDATE with its WHERE is a map over the
-- rows, and a DELETE a filter; a transaction that is rolled back or not committed leaves the table as
-- it was. Which rows a SELECT with ORDER BY, LIMIT and SKIP LOCKED returns is MySQL's choice within
-- the laws of `Database`. Times are numbers, and NULL is `none`.
pub mod Lease
pub mod Rows
pub mod Retry
pub mod Cleanup
pub mod History
pub mod Tries
use shortlink_system.Base.{
  ℕ, zero, suc, ◌+◌, ◌-◌, ◌≤◌, ◌≡◌, Option, none, some, List, [], ◌∷◌, ◌++◌, map, length, Text,
  text_eq, Bool, true, false, not, ◌&&◌, ◌||◌, ltb, leb, ◌==◌, if◌then◌else◌, All,
}

-- The four texts that the column `status` takes.
pub data Status : Type 0 where
  pending processing sent failed : Status

pub record OutboxMessage : Type 0 where
  pub id : ℕ
  pub short_code : Text
  pub long_url : Text
  pub url_hash : Text
  pub status : Status
  pub retry_count : ℕ
  pub worker_id : Text
  pub locked_until : Option ℕ
  pub created_at : ℕ
  pub updated_at : ℕ

abbrev pub is_pending : Status → Bool
is_pending pending = true
is_pending _ = false

abbrev pub is_processing : Status → Bool
is_processing processing = true
is_processing _ = false

abbrev pub is_sent : Status → Bool
is_sent sent = true
is_sent _ = false

-- `id IN ?`
abbrev pub id_in : List ℕ → ℕ → Bool
id_in [] id = false
id_in (j ∷ ids) id = if j == id then true else id_in ids id

abbrev pub ids_of : List OutboxMessage → List ℕ
ids_of = map (λ m. m.id)

-- A comparison with NULL is not true.
abbrev pub before : Option ℕ → ℕ → Bool
before none now = false
before (some t) now = ltb t now

-- The rows that a SELECT returns: rows of the table that meet the condition, at most as many as the
-- limit.
pub record Database : Type 1 where
  pub select : (OutboxMessage → Bool) → ℕ → List OutboxMessage → List OutboxMessage
  pub select-meets :
      (p : OutboxMessage → Bool) (limit : ℕ) (rows : List OutboxMessage)
      → All (λ m. p m ≡ true) (select p limit rows)
  pub select-within :
      (p : OutboxMessage → Bool) (limit : ℕ) (rows : List OutboxMessage)
      (P : OutboxMessage → Type 0)
      → All P rows
      → All P (select p limit rows)
  pub length-select-le :
      (p : OutboxMessage → Bool) (limit : ℕ) (rows : List OutboxMessage)
      → length (select p limit rows) ≤ limit

abbrev pub update_where :
    (OutboxMessage → Bool)
    → (OutboxMessage → OutboxMessage)
    → List OutboxMessage
    → List OutboxMessage
update_where p f = map (λ m. if p m then f m else m)

abbrev pub delete_where : (OutboxMessage → Bool) → List OutboxMessage → List OutboxMessage
delete_where p [] = []
delete_where p (m ∷ rows) = let rest = delete_where p rows in if p m then rest else m ∷ rest

-- Which calls of the database in a transaction succeed. A commit that returns an error may have been
-- carried out.
pub record Calls : Type 0 where
  pub begins : Bool
  pub finds : Bool
  pub updates : Bool
  pub commits : Bool
  pub carried_out : Bool

-- The table after a statement, and whether it returned no error.
abbrev pub Statement : Type 0
Statement = List OutboxMessage → List OutboxMessage × Bool

-- How a statement goes. One that returns an error may have been carried out.
pub data Executed : Type 0 where
  succeeded carried_out refused : Executed

abbrev pub has_effect : Executed → Bool
has_effect refused = false
has_effect _ = true

abbrev pub has_succeeded : Executed → Bool
has_succeeded succeeded = true
has_succeeded _ = false

abbrev pub executed : Executed → List OutboxMessage → List OutboxMessage → List OutboxMessage × Bool
executed done rows rows' = (if has_effect done then rows' else rows, has_succeeded done)

unfoldable pub create_outbox : OutboxMessage → List OutboxMessage → List OutboxMessage
create_outbox msg rows = rows ++ msg ∷ []

-- `status = 'pending' OR (status = 'processing' AND locked_until < now)`
unfoldable pub claimable : ℕ → OutboxMessage → Bool
claimable now m = is_pending m.status || is_processing m.status && before m.locked_until now

-- The row after the UPDATE of a claim; `at` is the time that gorm writes to `updated_at`.
abbrev pub leased : Text → ℕ → ℕ → OutboxMessage → OutboxMessage
leased worker_id locked_until at m = record m {
  status = processing;
  worker_id = worker_id;
  locked_until = some locked_until;
  updated_at = at;
}

module _ (db : Database) where
  -- The table, and the claimed rows as they were read, or `none` for an error. `now` is the time of
  -- the call, and the lease ends at `now + lease`.
  unfoldable pub claim_pending_outbox :
      Calls
      → ℕ
      → Text
      → ℕ
      → ℕ
      → ℕ
      → List OutboxMessage
      → List OutboxMessage × Option (List OutboxMessage)
  claim_pending_outbox calls limit worker_id lease now at rows =
      if limit == 0
      then (rows, some [])
      else if not (calls.begins && calls.finds)
      then (rows, none)
      else (let msgs = db.select (claimable now) limit rows in
          if length msgs == 0
          then (rows, if calls.commits then some [] else none)
          else if not calls.updates
          then (rows, none)
          else (let rows' =
                update_where (λ m. id_in (ids_of msgs) m.id) (leased worker_id (now + lease) at)
                  rows in
              if calls.commits
              then (rows', some msgs)
              else ((if calls.carried_out then rows' else rows), none)))

-- The columns that the two UPDATEs to 'sent' write.
abbrev pub as_sent : ℕ → OutboxMessage → OutboxMessage
as_sent at m = record m { status = sent; worker_id = []; locked_until = none; updated_at = at }

unfoldable pub mark_outbox_sent : Executed → ℕ → ℕ → Statement
mark_outbox_sent done id at rows =
    executed done rows (update_where (λ m. m.id == id) (as_sent at) rows)

-- `status = 'processing' AND worker_id = ?`
abbrev pub held_by : Text → OutboxMessage → Bool
held_by worker_id m = is_processing m.status && text_eq m.worker_id worker_id

unfoldable pub mark_outbox_sent_batch : Executed → List ℕ → Text → ℕ → Statement
mark_outbox_sent_batch done [] worker_id at rows = (rows, true)
mark_outbox_sent_batch done (id ∷ ids) worker_id at rows =
    executed done rows
      (update_where (λ m. id_in (id ∷ ids) m.id && held_by worker_id m) (as_sent at) rows)

-- MySQL evaluates the assignments of an UPDATE from left to right, and a column that was assigned
-- stands for its new value: in the CASE `retry_count` is already incremented.
abbrev pub as_failed : ℕ → ℕ → OutboxMessage → OutboxMessage
as_failed max_retry now m =
    let m' : OutboxMessage = record m { retry_count = m.retry_count + 1 } in
    record m' {
      status = if leb max_retry (m'.retry_count + 1) then failed else pending;
      worker_id = [];
      locked_until = none;
      updated_at = now;
    }

unfoldable pub mark_outbox_failed : Executed → ℕ → ℕ → Text → ℕ → Statement
mark_outbox_failed done id max_retry worker_id now rows =
    executed done rows
      (update_where (λ m. (m.id == id) && held_by worker_id m) (as_failed max_retry now) rows)

-- `status = 'sent' AND updated_at < deadline`. A time before 1970 is 0: nothing is older.
unfoldable pub outdated : ℕ → ℕ → OutboxMessage → Bool
outdated now retain m = is_sent m.status && ltb m.updated_at (now - retain)

abbrev pub batch_size : ℕ
batch_size = 1000

-- `read` and `done` are the outcomes of the SELECT and of the DELETE.
unfoldable pub delete_sent_outbox : Database → Bool → Executed → ℕ → ℕ → Statement
delete_sent_outbox db read done retain now rows =
    if not read
    then (rows, false)
    else (let ids = ids_of (db.select (outdated now retain) batch_size rows) in
        if length ids == 0
        then (rows, true)
        else executed done rows (delete_where (λ m. id_in ids m.id) rows))
