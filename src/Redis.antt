-- ===== src/Redis.antt =====
-- What the code asks of Redis, which is not part of the repository: strings with a time to live,
-- bitmaps, and pipelines. `get` is what GET returns at that moment, so a key whose time is over reads
-- as a missing key.
pub mod Pipelines
pub mod Memory
pub mod Expiry
pub mod Entries
use shortlink_system.Base.{
  ℕ, ◌≡◌, ◌≢◌, Option, none, some, Text, Bool, true, false, ◌&&◌, ◌==◌, text_eq, if◌then◌else◌,
}

pub record Redis : Type 1 where
  pub Store : Type 0
  pub get : Store → Text → Option Text
  pub set : Store → Text → Text → ℕ → Store
  pub get_bit : Store → Text → ℕ → Bool
  pub set_bit : Store → Text → ℕ → Store
  pub get-set :
      (s : Store) (k j v : Text) (ttl : ℕ)
      → get (set s k v ttl) j ≡ (if text_eq k j then some v else get s j)
  pub get-set_bit :
      (s : Store) (k j : Text) (i : ℕ) → text_eq k j ≡ false → get (set_bit s k i) j ≡ get s j
  pub get_bit-set_bit :
      (s : Store) (k j : Text) (i n : ℕ)
      → get_bit (set_bit s k i) j n ≡ (if text_eq k j && (i == n) then true else get_bit s j n)
  pub get_bit-set :
      (s : Store) (k j v : Text) (ttl n : ℕ)
      → text_eq k j ≡ false
      → get_bit (set s k v ttl) j n ≡ get_bit s j n
