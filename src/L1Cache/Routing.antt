-- ===== src/L1Cache/Routing.antt =====
-- Every key has a shard, and the methods keep the shards valid.
use shortlink_system.Base.{
  ℕ, ◌<◌, ◌≡◌, refl, ◌∙◌, ap, some, length, get_elem?, Text, arith, All, All-get_elem?,
  All-set_elem, All-replicate, length-set_elem, get_elem?-of_lt,
}
use Prim.Native.Nat.{bit_and}
use shortlink_system.Base.Bits.{bit_and_mask}
use shortlink_system.Cache.{CacheShard, new_shard}
use shortlink_system.Cache.Views
use shortlink_system.Cache.Views.{view, Shows}
use shortlink_system.Cache.Writes.{new_shard-Shows}
use shortlink_system.L1Cache.{L1Cache, per_shard, new_l1_cache, fnv_1a, shard_index, put_shard}

pub record IsValid (c : L1Cache) : Type 0 where
  pub mask : c.shard_mask ≡ 255
  pub count : length c.shards ≡ 256
  pub each : All Views.IsValid c.shards

shard_index-lt : {c : L1Cache} (key : Text) → IsValid c → shard_index c key < 256
unfolding shard_index
shard_index-lt {c} key v =
    let h = fnv_1a 14695981039346656037 key in
    omega (arith, ap (bit_and h) v.mask, bit_and_mask 8 h)

pub index_in_range : {c : L1Cache} (key : Text) → IsValid c → shard_index c key < length c.shards
index_in_range key v = omega (arith, v.count, shard_index-lt key v)

-- The index of a key is in range, and its shard is valid.
pub get_shard_lem :
    {c : L1Cache} (key : Text)
    → IsValid c
    → (s : CacheShard) × (get_elem? c.shards (shard_index c key) ≡ some s) × Views.IsValid s
get_shard_lem {c} key v =
    let (s, e) = get_elem?-of_lt c.shards (shard_index c key) (index_in_range key v) in
    (s, e, All-get_elem? Views.IsValid c.shards (shard_index c key) v.each e)

pub put_shard-IsValid :
    {c : L1Cache} (key : Text) (s : CacheShard)
    → IsValid c
    → Views.IsValid s
    → IsValid (put_shard c key s)
put_shard-IsValid {c} key s v w = record {
  mask = v.mask;
  count = length-set_elem c.shards (shard_index c key) s ∙ v.count;
  each = All-set_elem Views.IsValid c.shards (shard_index c key) s v.each w;
}

-- `NewL1Cache` builds a valid cache for every capacity.
pub new_l1_cache-IsValid : (capacity ttl : ℕ) → IsValid (new_l1_cache capacity ttl)
unfolding new_l1_cache
new_l1_cache-IsValid capacity ttl = record {
  mask = refl;
  count = refl;
  each =
      All-replicate Views.IsValid 256 (new_shard (per_shard capacity) ttl)
        (new_shard-Shows (per_shard capacity) ttl (ground arith)).valid;
}
