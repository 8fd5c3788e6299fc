-- ===== src/Tests/Filters.antt =====
-- The Bloom filter on a store in memory.
use shortlink_system.Base.{◌≡◌, refl, some, bytes, text_eq, List, [], ◌∷◌, true, false}
use shortlink_system.Redis.Memory.{empty, memory}
use shortlink_system.Redis.Pipelines.{Command, set, set_bit, success, failure, exec}
use shortlink_system.Bloom.{RedisBloomFilter, new_redis_bloom, queue_add, contains}
use shortlink_system.Bloom.Membership.{run, contains-queue_add}

abbrev filter : RedisBloomFilter
filter = record { key = bytes "bloom"; size = 1000; seeds = 7 ∷ 12 ∷ [] }

production_seeds :
    new_redis_bloom (bytes "bloom") 10_000_000 5
    ≡ record { key = bytes "bloom"; size = 10_000_000; seeds = 7 ∷ 12 ∷ 15 ∷ 34 ∷ 41 ∷ [] }
unfolding new_redis_bloom
production_seeds = refl

missing : contains memory filter true empty (bytes "ab") ≡ some (some false)
unfolding contains
missing = refl

abbrev both : List Command
both = set_bit (bytes "bloom") 777 ∷ set_bit (bytes "bloom") 262 ∷ []

queued : queue_add filter (bytes "ab") [] ≡ some both
unfolding queue_add
queued = refl

contains-queue_add_example :
    contains memory filter true
      (run memory
        (exec memory success empty both)
        ((failure 1, set (bytes "k") (bytes "v") 9 ∷ []) ∷ []))
      (bytes "ab")
    ≡ some (some true)
unfolding text_eq
contains-queue_add_example =
    contains-queue_add memory filter (bytes "ab") empty [] both
      ((failure 1, set (bytes "k") (bytes "v") 9 ∷ []) ∷ []) queued ((refl, tt), tt)
