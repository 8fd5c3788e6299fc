-- ===== src/Outbox/Rows.antt =====
-- Rows of a table whose primary keys differ, and what a SELECT says of them.
use shortlink_system.Base.{
  ℕ, ◌≡◌, some, List, [], ◌∷◌, get_elem?, Bool, true, ◌==◌, All, All-of_get_elem?, arith,
  Bool-cases, inl, inr,
}
use mathlib.Core.Path.{subst}
use shortlink_system.Outbox.{OutboxMessage, Database, id_in, ids_of}

-- The primary key: two rows with one id are one row.
pub record Keyed (rows : List OutboxMessage) : Type 0 where
  pub unique :
      (i j : ℕ) (a b : OutboxMessage)
      → get_elem? rows i ≡ some a
      → get_elem? rows j ≡ some b
      → a.id ≡ b.id
      → a ≡ b

id_in-meets :
    (p : OutboxMessage → Bool) (r : OutboxMessage) (msgs : List OutboxMessage)
    → All (λ m. p m ≡ true) msgs
    → All (λ m. m.id ≡ r.id → m ≡ r) msgs
    → id_in (ids_of msgs) r.id ≡ true
    → p r ≡ true
id_in-meets p r [] h k e = cc
id_in-meets p r (m ∷ msgs) (h, hs) (k, ks) e = elim (Bool-cases (m.id == r.id)) [
  | inl same ↦ subst (λ x. p x ≡ true) (k (ground (arith, same))) h
  | inr other ↦ id_in-meets p r msgs hs ks (ground (arith, other, e))
]

-- In a keyed table a row whose id was selected meets the condition.
pub selected-meets :
    (db : Database) (p : OutboxMessage → Bool) (limit : ℕ) (rows : List OutboxMessage) (i : ℕ)
    (r : OutboxMessage)
    → Keyed rows
    → get_elem? rows i ≡ some r
    → id_in (ids_of (db.select p limit rows)) r.id ≡ true
    → p r ≡ true
selected-meets db p limit rows i r k at e =
    id_in-meets p r (db.select p limit rows) (db.select-meets p limit rows)
      (db.select-within p limit rows (λ m. m.id ≡ r.id → m ≡ r)
        (All-of_get_elem? _ rows (λ j m there same. k.unique j i m r there at same)))
      e

pub selected-All :
    (db : Database) (p : OutboxMessage → Bool) (limit : ℕ) (rows : List OutboxMessage)
    → Keyed rows
    → All (λ m. id_in (ids_of (db.select p limit rows)) m.id ≡ true → p m ≡ true) rows
selected-All db p limit rows k =
    All-of_get_elem? _ rows (λ i m at. selected-meets db p limit rows i m k at)
