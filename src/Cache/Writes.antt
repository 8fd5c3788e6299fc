-- ===== src/Cache/Writes.antt =====
-- `Set`, with its evictions, does to the entries of a shard what the specification says.
use mathlib.Core.Path.{subst, ap₂}
use shortlink_system.Base.{
  ℕ, zero, suc, ◌+◌, ◌≡◌, refl, ap, sym, ◌∙◌, ◌<◌, ◌≤◌, none, some, Option-cases, List, [], ◌∷◌,
  length, map, Text, true, false, ltb, arith, Bool-cases, inl, inr, take, map-take,
  take_of_length-le, length-map,
}
use shortlink_system.Base.Maps.{lookup, insert, lookup-nil}
use shortlink_system.Cache.{
  L1Entry, CacheShard, new_shard, remove, move_to_front, back, write, evict, evict_loop, set,
}
use shortlink_system.Cache.Pointers.{
  member-remove_self, length-remove, back-member, back-none, remove-back, map-write,
}
use shortlink_system.Cache.Lru
use shortlink_system.Cache.Lru.{find, without}
use shortlink_system.Cache.Linked.{Linked, Linked-unlink, Linked-write, Linked-insert, unused}
use shortlink_system.Cache.Views.{IsValid, view, without_hit, without_miss, Shows}
use shortlink_system.Cache.Reads.{front-Shows}

evict_loop-stop :
    (fuel : ℕ) (s : CacheShard) → length s.evict_list ≤ s.capacity → evict_loop fuel s ≡ s
unfolding evict_loop
evict_loop-stop zero s h = refl
evict_loop-stop (suc fuel) s h = ground arith

-- A shard that is one entry too large loses its last entry.
evict-Shows :
    (s : CacheShard)
    → 0 < s.capacity
    → Linked s
    → length s.evict_list ≡ suc s.capacity
    → Shows (evict s) (take s.capacity (view s))
unfolding evict
evict-Shows s pos h len = elim (Option-cases (back s.evict_list)) [
  | inl e ↦ absurd (never s.evict_list e len)
  | inr (q, e) ↦
      let kept = remove-back q s.capacity s.evict_list h.distinct e len in
      let m = back-member q s.evict_list e in
      rw (e, evict)
        (record {
          valid = record {
            positive = pos;
            bounded = omega (arith, length-remove q s.evict_list m);
            linked = Linked-unlink h (s.heap q).key q (h.mapped q m);
          };
          list = ap (map s.heap) kept ∙ map-take s.heap s.capacity s.evict_list;
        })
]
  where
    never : {n : ℕ} (ps : List ℕ) → back ps ≡ none → length ps ≡ suc n → ⊥
    never [] e l = omega arith
    never (p ∷ ps) e l = let (q, f) = back-none p ps in cc (e, f)

evict_loop-Shows :
    (fuel : ℕ) (s : CacheShard)
    → 0 < s.capacity
    → Linked s
    → length s.evict_list ≤ suc s.capacity
    → Shows (evict_loop (suc fuel) s) (take s.capacity (view s))
evict_loop-Shows fuel s pos h len = elim (Bool-cases (ltb s.capacity (length s.evict_list))) [
  | inl over ↦
      let shows = evict-Shows s pos h (ground arith) in
      rw (evict_loop-over over) (rw (evict_loop-stop fuel (evict s) shows.valid.bounded) shows)
  | inr fits ↦
      rw
        (
          evict_loop-stop (suc fuel) s (ground arith),
          take_of_length-le s.capacity (view s)
              (omega (arith, length-map s.heap s.evict_list, le_of fits)),
        )
        (record {
          valid = record { positive = pos; bounded = le_of fits; linked = h };
          list = refl;
        })
]
  where
    le_of : ltb s.capacity (length s.evict_list) ≡ false → length s.evict_list ≤ s.capacity
    le_of e = ground arith

    evict_loop-over :
        ltb s.capacity (length s.evict_list) ≡ true
        → evict_loop (suc fuel) s ≡ evict_loop fuel (evict s)
    evict_loop-over e = unfold evict_loop in rw e

module _ (s : CacheShard) (now : ℕ) (k value : Text) (v : IsValid s) where
  abbrev stored : L1Entry
  stored = record { key = k; value = value; expire_at = now + s.ttl }

  set_hit :
      (q : ℕ)
      → lookup k s.items ≡ some q
      → Shows (set s now k value) (Lru.set s.capacity (now + s.ttl) k value (view s))
  unfolding set Lru.set
  set_hit q e =
      let e' : L1Entry = record (s.heap q) { value = value; expire_at = now + s.ttl } in
      let s1 : CacheShard = record s { heap = write s.heap q e' } in
      let v1 : IsValid s1 = record {
        positive = v.positive;
        bounded = v.bounded;
        linked = Linked-write v.linked q e' refl;
      } in
      let shows = front-Shows v1 k q e in
      let rest : without k (view s1) ≡ without k (view s) =
        without_hit v1.linked k q e
        ∙ map-write s.heap q e' (remove q s.evict_list)
            (member-remove_self q s.evict_list v.linked.distinct)
        ∙ sym (without_hit v.linked k q e) in
      let head : s1.heap q ≡ stored = ground (arith, v.linked.keyed k q e) in
      let list : view (record s1 { evict_list = move_to_front q s.evict_list })
          ≡ stored ∷ without k (view s) =
        shows.list ∙ ap₂ ◌∷◌ head rest in
      let short : length (stored ∷ without k (view s)) ≤ s.capacity = omega (
        arith,
        ap length list,
        length-map s1.heap (move_to_front q s.evict_list),
        shows.valid.bounded,
      ) in
      rw (e, set)
        (record {
          valid = shows.valid;
          list = list ∙ sym (take_of_length-le s.capacity (stored ∷ without k (view s)) short);
        })

  set_miss :
      lookup k s.items ≡ none
      → Shows (set s now k value) (Lru.set s.capacity (now + s.ttl) k value (view s))
  unfolding set Lru.set
  set_miss e =
      let s1 : CacheShard = record s {
        evict_list = s.fresh ∷ s.evict_list;
        items = insert k s.fresh s.items;
        heap = write s.heap s.fresh stored;
        fresh = s.fresh + 1;
      } in
      let shows =
        evict_loop-Shows (length s.evict_list) s1 v.positive
          (Linked-insert v.linked k stored refl e) (omega (arith, v.bounded)) in
      let head : s1.heap s.fresh ≡ stored = ground arith in
      let list : view s1 ≡ stored ∷ view s =
        ap₂ ◌∷◌ head (map-write s.heap s.fresh stored s.evict_list (unused v.linked)) in
      rw (e, set, without_miss v.linked k e)
        (subst (λ l. Shows (evict_loop (suc (length s.evict_list)) s1) (take s.capacity l)) list
          shows)

  -- `Set` puts the entry in front, in place of an older one of that key, and drops the last entry
  -- if there are more than the capacity.
  pub set-Shows : Shows (set s now k value) (Lru.set s.capacity (now + s.ttl) k value (view s))
  set-Shows = elim (Option-cases (lookup k s.items)) [
    | inl e ↦ set_miss e
    | inr (q, e) ↦ set_hit q e
  ]

pub new_shard-Shows : (capacity ttl : ℕ) → 0 < capacity → Shows (new_shard capacity ttl) []
unfolding new_shard
new_shard-Shows capacity ttl h = record {
  valid = record {
    positive = h;
    bounded = omega arith;
    linked = record {
      distinct = tt;
      allocated = λ p m. cc;
      mapped = λ p m. cc;
      listed = λ k p e. cc (lookup-nil {V = ℕ} k);
      keyed = λ k p e. cc (lookup-nil {V = ℕ} k);
    };
  };
  list = refl;
}
