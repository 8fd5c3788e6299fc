-- ===== src/L1Cache.antt =====
-- pkg/cache/l1cache.go: the whole cache, 256 shards behind a hash of the key.
pub mod Routing
pub mod Contents
use Prim.Native.Nat.{bit_and, bit_xor}
use shortlink_system.Base.{
  ℕ, ◌+◌, ◌-◌, ◌*◌, ◌/◌, ◌%◌, ◌^◌, Option, none, some, List, [], ◌∷◌, get_elem?, set_elem,
  replicate, Text, ltb, if◌then◌else◌,
}
use shortlink_system.Cache
use shortlink_system.Cache.{CacheShard, new_shard}

abbrev pub default_shard_count : ℕ
default_shard_count = 256

pub record L1Cache : Type 0 where
  pub shards : List CacheShard
  pub shard_mask : ℕ

-- `capacity / shardCount`, and at least 1.
abbrev pub per_shard : ℕ → ℕ
per_shard capacity = let share = capacity / default_shard_count in if ltb share 1 then 1 else share

unfoldable pub new_l1_cache : ℕ → ℕ → L1Cache
new_l1_cache capacity ttl = record {
  shards = replicate default_shard_count (new_shard (per_shard capacity) ttl);
  shard_mask = default_shard_count - 1;
}

-- `fnv.New64a`, `Write` and `Sum64` of the standard library.
unfoldable pub fnv_1a : ℕ → Text → ℕ
fnv_1a h [] = h
fnv_1a h (c ∷ key) = fnv_1a (bit_xor h c * 1099511628211 % 2 ^ 64) key

unfoldable pub shard_index : L1Cache → Text → ℕ
unfolding fnv_1a
shard_index c key = bit_and (fnv_1a 14695981039346656037 key) c.shard_mask

-- `none` is the panic of an index out of range.
unfoldable pub get_shard : L1Cache → Text → Option CacheShard
unfolding shard_index
get_shard c key = get_elem? c.shards (shard_index c key)

-- A shard is shared by reference: a method changes it in its place.
abbrev pub put_shard : L1Cache → Text → CacheShard → L1Cache
put_shard c key s = record c { shards = set_elem c.shards (shard_index c key) s }

unfoldable pub get : L1Cache → ℕ → Text → Option (L1Cache × Option Text)
unfolding get_shard
get c now key = elim (get_shard c key) [
  | none ↦ none
  | some s ↦ let (s', value) = Cache.get s now key in some (put_shard c key s', value)
]

unfoldable pub set : L1Cache → ℕ → Text → Text → Option L1Cache
unfolding get_shard
set c now key value = elim (get_shard c key) [
  | none ↦ none
  | some s ↦ some (put_shard c key (Cache.set s now key value))
]

unfoldable pub invalidate : L1Cache → Text → Option L1Cache
unfolding get_shard
invalidate c key = elim (get_shard c key) [
  | none ↦ none
  | some s ↦ some (put_shard c key (Cache.invalidate s key))
]
