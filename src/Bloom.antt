-- ===== src/Bloom.antt =====
-- pkg/bloom/bloom.go: the Bloom filter on a bitmap in Redis.
pub mod Offsets
pub mod Membership
use shortlink_system.Base.{
  ℕ, zero, suc, ◌+◌, ◌*◌, ◌%◌, ◌^◌, Option, none, some, List, [], ◌∷◌, ◌++◌, length, get_elem?,
  Text, Bool, true, false, ◌==◌, if◌then◌else◌, map,
}
use shortlink_system.Redis.{Redis}
use shortlink_system.Redis.Pipelines.{Command, set_bit, Outcome, exec, succeeded}

abbrev pub base_primes : List ℕ
base_primes = 7 ∷ 11 ∷ 13 ∷ 31 ∷ 37 ∷ 61 ∷ 89 ∷ 97 ∷ 101 ∷ 107 ∷ []

pub record RedisBloomFilter : Type 0 where
  pub key : Text
  pub size : ℕ
  pub seeds : List ℕ

-- `basePrimes[i%len(basePrimes)] + uint32(i)`, a uint32. The index is in range.
unfoldable pub seed : ℕ → ℕ
seed i = elim (get_elem? base_primes (i % 10)) [ none ↦ 0 | some p ↦ (p + i % 2 ^ 32) % 2 ^ 32 ]

-- The loop of `NewRedisBloom`: `n` seeds from `i` on.
unfoldable pub seeds_from : ℕ → ℕ → List ℕ
unfolding seed
seeds_from i zero = []
seeds_from i (suc n) = seed i ∷ seeds_from (i + 1) n

unfoldable pub new_redis_bloom : Text → ℕ → ℕ → RedisBloomFilter
unfolding seeds_from
new_redis_bloom key size hash_count = record {
  key = key;
  size = size;
  seeds = seeds_from 0 hash_count;
}

-- The loop of `hash`, on a uint64.
unfoldable pub hash_loop : ℕ → ℕ → Text → ℕ
hash_loop seed h [] = h
hash_loop seed h (c ∷ str) = hash_loop seed ((h * seed % 2 ^ 64 + c) % 2 ^ 64) str

unfoldable pub hash : Text → ℕ → ℕ
unfolding hash_loop
hash str seed = hash_loop seed 0 str

-- `hashVal % bf.size` for each seed. `none` is the panic of a division by 0.
unfoldable pub offsets_of : ℕ → Text → List ℕ → Option (List ℕ)
unfolding hash
offsets_of size str [] = some []
offsets_of size str (seed ∷ seeds) =
    let rest = offsets_of size str seeds in
    if size == 0
    then none
    else (elim rest [ none ↦ none | some os ↦ some (hash str seed % size ∷ os) ])

abbrev pub offsets : RedisBloomFilter → Text → Option (List ℕ)
offsets bf str = offsets_of bf.size str bf.seeds

-- The commands that `QueueAdd` adds to the pipeline.
unfoldable pub queue_add : RedisBloomFilter → Text → List Command → Option (List Command)
unfolding offsets_of
queue_add bf str pipe = elim (offsets bf str) [
  | none ↦ none
  | some os ↦ some (pipe ++ map (set_bit bf.key) os)
]

module _ (r : Redis) where
  open r use {Store}

  -- The store after `Add`, and whether it returned no error; `none` is a panic.
  unfoldable pub add : RedisBloomFilter → Outcome → Store → Text → Option (Store × Bool)
  unfolding queue_add exec
  add bf outcome s str = elim (queue_add bf str []) [
    | none ↦ none
    | some pipe ↦ some (exec r outcome s pipe, succeeded outcome)
  ]

  -- The Lua script: 0 at the first bit that is not set, else 1.
  unfoldable pub contains_script : Store → Text → List ℕ → ℕ
  contains_script s key [] = 1
  contains_script s key (arg ∷ args) = if r.get_bit s key arg then contains_script s key args else 0

  -- The outer `none` is a panic, the inner one the error of `Run`, which `reachable` decides.
  unfoldable pub contains : RedisBloomFilter → Bool → Store → Text → Option (Option Bool)
  unfolding offsets_of contains_script
  contains bf reachable s str = elim (offsets bf str) [
    | none ↦ none
    | some os ↦ some (if reachable then some (contains_script s bf.key os == 1) else none)
  ]
