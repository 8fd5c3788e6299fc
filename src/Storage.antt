-- ===== src/Storage.antt =====
-- internal/repository/storage.go: which database answers a read.
pub mod Replicas
pub mod HashTags
pub mod Batches
pub mod Setup
pub mod ReadBack
pub mod Queries
use shortlink_system.Base.{
  ℕ, zero, suc, ◌+◌, ◌-◌, ◌%◌, ◌^◌, Option, none, some, List, length, get_elem?, ltb, ◌==◌,
  if◌then◌else◌,
}

-- `negsuc n` is -(n + 1).
pub data ℤ : Type 0 where
  pos : ℕ → ℤ
  negsuc : ℕ → ℤ

-- The int32 that 32 bits stand for.
abbrev pub int32_of : ℕ → ℤ
int32_of bits = if ltb bits (2 ^ 31) then pos bits else negsuc (2 ^ 32 - 1 - bits)

abbrev pub negate : ℕ → ℤ
negate zero = pos 0
negate (suc n) = negsuc n

-- `%` of Go for a positive divisor: the remainder has the sign of the dividend.
abbrev pub remainder : ℤ → ℕ → ℤ
remainder (pos a) n = pos (a % n)
remainder (negsuc a) n = negate ((a + 1) % n)

-- `xs[i]`; `none` is the panic of an index that is out of range.
abbrev pub index {ℓ} : {A : Type ℓ} → List A → ℤ → Option A
index xs (pos i) = get_elem? xs i
index xs (negsuc i) = none

-- `atomic.AddInt32(&s.readIndex, 1)`: the 32 bits of the counter.
abbrev pub next_index : ℕ → ℕ
next_index read_index = (read_index + 1) % 2 ^ 32

-- The counter afterwards and the database; `none` is a panic. There are less than 2^31 slaves, so
-- that `int32(len(s.SlaveDBs))` is their number.
unfoldable pub get_read_db {ℓ} : {A : Type ℓ} → A → List A → ℕ → ℕ × Option A
get_read_db master_db slave_dbs read_index =
    if length slave_dbs == 0 then (read_index, some master_db) else (
      next_index read_index,
      index slave_dbs (remainder (int32_of (next_index read_index)) (length slave_dbs)),
    )
