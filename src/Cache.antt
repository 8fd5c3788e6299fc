-- ===== src/Cache.antt =====
-- pkg/cache/l1cache.go: the local cache, shards of a map and a list of pointers in order of use.
-- A `*list.Element` is a number, and `heap` gives the entry that it carries; `fresh` is the next
-- number that is not in use. Times are nanoseconds. A method holds the lock of its shard throughout,
-- so that methods of one shard do not interleave.
pub mod Pointers
pub mod Lru
pub mod Linked
pub mod Views
pub mod Reads
pub mod Writes
use Prim.Native.Nat.{bit_and}
use shortlink_system.Base.{
  ℕ, zero, suc, ◌+◌, ◌-◌, ◌*◌, ◌/◌, ◌%◌, ◌^◌, Option, none, some, List, [], ◌∷◌, length, get_elem?,
  Text, Bool, true, false, ltb, ◌==◌, if◌then◌else◌,
}
use shortlink_system.Base.Maps.{lookup, insert, erase}

pub record L1Entry : Type 0 where
  pub key : Text
  pub value : Text
  pub expire_at : ℕ

pub record CacheShard : Type 0 where
  pub capacity : ℕ
  pub ttl : ℕ
  pub items : List (Text × ℕ)
  pub evict_list : List ℕ
  pub heap : ℕ → L1Entry
  pub fresh : ℕ

-- `container/list` on pointers, the front first.
abbrev pub member : ℕ → List ℕ → Bool
member p [] = false
member p (q ∷ ps) = if q == p then true else member p ps

abbrev pub remove : ℕ → List ℕ → List ℕ
remove p [] = []
remove p (q ∷ ps) = if q == p then ps else q ∷ remove p ps

-- `MoveToFront` does nothing to an element that is not in the list.
abbrev pub move_to_front : ℕ → List ℕ → List ℕ
move_to_front p ps = if member p ps then p ∷ remove p ps else ps

abbrev pub back : List ℕ → Option ℕ
back [] = none
back (p ∷ []) = some p
back (p ∷ q ∷ ps) = back (q ∷ ps)

abbrev pub write : (ℕ → L1Entry) → ℕ → L1Entry → ℕ → L1Entry
write heap p e q = if p == q then e else heap q

-- The shards hold zero values until an element is allocated.
abbrev no_entry : L1Entry
no_entry = record { key = []; value = []; expire_at = 0 }

unfoldable pub new_shard : ℕ → ℕ → CacheShard
new_shard capacity ttl = record {
  capacity = capacity;
  ttl = ttl;
  items = [];
  evict_list = [];
  heap = λ p. no_entry;
  fresh = 0;
}

-- `s.evictList.Remove(elem)` and `delete(s.items, key)`.
abbrev pub unlink : CacheShard → ℕ → Text → CacheShard
unlink s elem key = record s { evict_list = remove elem s.evict_list; items = erase key s.items }

unfoldable pub get : CacheShard → ℕ → Text → CacheShard × Option Text
get s now key = elim (lookup key s.items) [
  | none ↦ (s, none)
  | some elem ↦
      let entry = s.heap elem in
      if ltb entry.expire_at now
      then (unlink s elem key, none)
      else (record s { evict_list = move_to_front elem s.evict_list }, some entry.value)
]

unfoldable pub evict : CacheShard → CacheShard
evict s = elim (back s.evict_list) [ none ↦ s | some elem ↦ unlink s elem (s.heap elem).key ]

-- `for s.evictList.Len() > s.capacity`, with fuel.
unfoldable pub evict_loop : ℕ → CacheShard → CacheShard
evict_loop zero s = s
evict_loop (suc fuel) s =
    let rest = evict_loop fuel (evict s) in if ltb s.capacity (length s.evict_list) then rest else s

unfoldable pub set : CacheShard → ℕ → Text → Text → CacheShard
unfolding evict_loop
set s now key value = elim (lookup key s.items) [
  | some elem ↦ record s {
    evict_list = move_to_front elem s.evict_list;
    heap = write s.heap elem (record (s.heap elem) { value = value; expire_at = now + s.ttl });
  }
  | none ↦
      let entry : L1Entry = record { key = key; value = value; expire_at = now + s.ttl } in
      let elem = s.fresh in
      evict_loop (suc (length s.evict_list)) (record s {
        evict_list = elem ∷ s.evict_list;
        items = insert key elem s.items;
        heap = write s.heap elem entry;
        fresh = s.fresh + 1;
      })
]

unfoldable pub invalidate : CacheShard → Text → CacheShard
invalidate s key = elim (lookup key s.items) [ none ↦ s | some elem ↦ unlink s elem key ]
