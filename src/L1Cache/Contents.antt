-- ===== src/L1Cache/Contents.antt =====
-- What can be read from the cache: only what was stored, and what was just stored, for its time to
-- live.
use shortlink_system.Base.{
  arith, ℕ, ◌+◌, ◌≡◌, sym, ap, ◌∙◌, Option, none, some, get_elem?, Text, ltb, if◌then◌else◌, All,
  All-map, All-get_elem?, All-set_elem, All-replicate, get_elem?-set_elem,
}
use mathlib.Core.Path.{subst}
use shortlink_system.Cache
use shortlink_system.Cache.{CacheShard, L1Entry, new_shard}
use shortlink_system.Cache.Views.{view}
use shortlink_system.Cache.Reads.{get-Shows}
use shortlink_system.Cache.Writes.{set-Shows, new_shard-Shows}
use shortlink_system.Cache.Lru
use shortlink_system.Cache.Lru.{Good, get-Good, set-Good}
use shortlink_system.L1Cache.{
  L1Cache, per_shard, new_l1_cache, shard_index, get_shard, put_shard, get, set,
}
use shortlink_system.L1Cache.Routing.{
  IsValid, index_in_range, get_shard_lem, put_shard-IsValid, new_l1_cache-IsValid,
}

get_at :
    (c : L1Cache) (k : Text) (now : ℕ) (s : CacheShard)
    → get_elem? c.shards (shard_index c k) ≡ some s
    → get c now k ≡ some (put_shard c k (Cache.get s now k).0, (Cache.get s now k).1)
unfolding get get_shard
get_at c k now s e = rw (e, get)

set_at :
    (c : L1Cache) (k : Text) (now : ℕ) (value : Text) (s : CacheShard)
    → get_elem? c.shards (shard_index c k) ≡ some s
    → set c now k value ≡ some (put_shard c k (Cache.set s now k value))
unfolding set get_shard
set_at c k now value s e = rw (e, set)

-- Every entry of the cache satisfies `P`.
pub record Sound (P : Text → Text → Type 0) (c : L1Cache) : Type 0 where
  pub valid : IsValid c
  pub good : All (λ s. All (Good P) (view s)) c.shards

-- A new cache holds nothing.
pub new_l1_cache-Sound :
    (P : Text → Text → Type 0) (capacity ttl : ℕ) → Sound P (new_l1_cache capacity ttl)
unfolding new_l1_cache
new_l1_cache-Sound P capacity ttl = record {
  valid = new_l1_cache-IsValid capacity ttl;
  good =
      All-replicate (λ s. All (Good P) (view s)) 256 (new_shard (per_shard capacity) ttl)
        (subst (All (Good P)) (sym (new_shard-Shows (per_shard capacity) ttl (ground arith)).list)
          tt);
}

-- A weaker predicate holds of the same entries.
pub Sound-map :
    (P Q : Text → Text → Type 0) {c : L1Cache}
    → ((k v : Text) → P k v → Q k v)
    → Sound P c
    → Sound Q c
Sound-map P Q {c} f h = record {
  valid = h.valid;
  good =
      All-map {P = λ s. All (Good P) (view s)} {Q = λ s. All (Good Q) (view s)} c.shards
        (λ s. All-map {P = Good P} {Q = Good Q} (view s) (λ e. f e.key e.value)) h.good;
}

module _ (P : Text → Text → Type 0) {c : L1Cache} (k : Text) (h : Sound P c) where
  -- `Get` does not panic, returns only values that satisfy `P`, and keeps the others.
  pub get-Sound :
      (now : ℕ)
      → (c' : L1Cache) × (o : Option Text) × (get c now k ≡ some (c', o))
        × Sound P c'
        × ((v : Text) → o ≡ some v → P k v)
  get-Sound now =
      let (s, e, v) = get_shard_lem k h.valid in
      let (shows, same) = get-Shows s k v now in
      let (kept, found) = get-Good P now k (view s) (All-get_elem? _ c.shards _ h.good e) in
      let s' = (Cache.get s now k).0 in
      (
        put_shard c k s',
        (Cache.get s now k).1,
        get_at c k now s e,
        record {
          valid = put_shard-IsValid k s' h.valid shows.valid;
          good = All-set_elem _ c.shards _ s' h.good (subst (All (Good P)) (sym shows.list) kept);
        },
        λ v e'. found v (sym same ∙ e'),
      )

  -- `Set` does not panic, and keeps a sound cache sound if the new entry satisfies `P`.
  pub set-Sound :
      (now : ℕ) (value : Text)
      → P k value
      → (c' : L1Cache) × (set c now k value ≡ some c') × Sound P c'
  set-Sound now value p =
      let (s, e, v) = get_shard_lem k h.valid in
      let shows = set-Shows s now k value v in
      let s' = Cache.set s now k value in
      (
        put_shard c k s',
        set_at c k now value s e,
        record {
          valid = put_shard-IsValid k s' h.valid shows.valid;
          good = All-set_elem _ c.shards _ s' h.good (
              subst (All (Good P)) (sym shows.list) (
                set-Good P s.capacity (now + s.ttl) k value (view s)
                  (All-get_elem? _ c.shards _ h.good e) p));
        },
      )

-- After `Set` a `Get` of the key returns the value as long as its time to live lasts, and nothing
-- when it is over, in a cache of any number of other entries.
pub get-set_ttl :
    {c : L1Cache} (k value : Text) (now later : ℕ)
    → IsValid c
    → (s : CacheShard) × (c' c'' : L1Cache) × (get_shard c k ≡ some s)
      × (set c now k value ≡ some c')
      × (get c' later k ≡ some (c'', if ltb (now + s.ttl) later then none else some value))
get-set_ttl {c} k value now later v =
    let (s, e, w) = get_shard_lem k v in
    let s' = Cache.set s now k value in
    let c' = put_shard c k s' in
    let shows = set-Shows s now k value w in
    let at = get_elem?-set_elem c.shards (shard_index c k) s' (index_in_range k v) in
    let answer : (Cache.get s' later k).1 ≡ (if ltb (now + s.ttl) later then none else some value) =
      (get-Shows s' k shows.valid later).1
      ∙ ap (λ l. (Lru.get later k l).1) shows.list
      ∙ Lru.get-set s.capacity (now + s.ttl) later k value (view s) w.positive in
    (
      s,
      c',
      put_shard c' k (Cache.get s' later k).0,
      unfold get_shard in e,
      set_at c k now value s e,
      get_at c' k later s' (unfold shard_index in at)
          ∙ ap (λ o. some (put_shard c' k (Cache.get s' later k).0, o)) answer,
    )
