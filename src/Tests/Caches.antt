-- ===== src/Tests/Caches.antt =====
-- The local cache on concrete calls.
use shortlink_system.Base.{
  ◌+◌, ◌≡◌, refl, none, some, Text, bytes, text_eq, ltb, if◌then◌else◌, arith,
}
use shortlink_system.Base.Maps.{lookup, insert, erase}
use shortlink_system.Cache.{CacheShard, new_shard, get, set, evict, invalidate}
use shortlink_system.Cache.Lru
use shortlink_system.Cache.Views
use shortlink_system.Cache.Views.{view, Shows}
use shortlink_system.Cache.Reads.{get-Shows}
use shortlink_system.Cache.Writes.{set-Shows, new_shard-Shows}
use shortlink_system.L1Cache
use shortlink_system.L1Cache.{L1Cache, new_l1_cache}
use shortlink_system.L1Cache.Routing.{new_l1_cache-IsValid}
use shortlink_system.L1Cache.Contents.{Sound, new_l1_cache-Sound, get-set_ttl}

-- Room for two entries that live for 10.
abbrev shard : CacheShard
shard = new_shard 2 10

abbrev three : CacheShard
three =
    set (set (set shard 0 (bytes "a") (bytes "1")) 1 (bytes "b") (bytes "2")) 2 (bytes "c")
      (bytes "3")

eviction :
    ((get three 3 (bytes "a")).1 ≡ none)
    × ((get three 3 (bytes "b")).1 ≡ some (bytes "2"))
    × ((get three 12 (bytes "b")).1 ≡ none)
    × ((get (invalidate three (bytes "c")) 3 (bytes "c")).1 ≡ none)
unfolding get set evict invalidate new_shard lookup insert erase text_eq
eviction = (refl, refl, refl, refl)

shard-IsValid : Views.IsValid shard
shard-IsValid = (new_shard-Shows 2 10 (omega arith)).valid

abbrev one : CacheShard
one = set shard 0 (bytes "a") (bytes "1")

one-IsValid : Views.IsValid one
one-IsValid = (set-Shows shard 0 (bytes "a") (bytes "1") shard-IsValid).valid

set-Shows_example : Shows one (Lru.set 2 10 (bytes "a") (bytes "1") (view shard))
unfolding new_shard
set-Shows_example = set-Shows shard 0 (bytes "a") (bytes "1") shard-IsValid

get-Shows_example :
    Shows (get one 3 (bytes "a")).0 (Lru.get 3 (bytes "a") (view one)).0
    × ((get one 3 (bytes "a")).1 ≡ (Lru.get 3 (bytes "a") (view one)).1)
get-Shows_example = get-Shows one (bytes "a") one-IsValid 3

abbrev cache : L1Cache
cache = new_l1_cache 1000 50

-- Only keys with themselves for values.
abbrev Echo : Text → Text → Type 0
Echo k v = v ≡ k

cache-Sound : Sound Echo cache
cache-Sound = new_l1_cache-Sound Echo 1000 50

get-set_ttl_example :
    (s : CacheShard) × (c c' : L1Cache) × (L1Cache.get_shard cache (bytes "k") ≡ some s)
    × (L1Cache.set cache 3 (bytes "k") (bytes "v") ≡ some c)
    × (L1Cache.get c 20 (bytes "k")
        ≡ some (c', if ltb (3 + s.ttl) 20 then none else some (bytes "v")))
get-set_ttl_example = get-set_ttl (bytes "k") (bytes "v") 3 20 (new_l1_cache-IsValid 1000 50)
