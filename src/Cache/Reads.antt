-- ===== src/Cache/Reads.antt =====
-- `Get` and `Invalidate` do to the entries of a shard what the specification says.
use shortlink_system.Base.{
  ℕ, ◌≡◌, refl, sym, some, Option-cases, ◌∷◌, Text, ltb, arith, Bool-cases, inl, inr,
}
use shortlink_system.Base.Maps.{lookup}
use shortlink_system.Cache.{CacheShard, move_to_front, unlink, get, invalidate}
use shortlink_system.Cache.Pointers.{length-remove}
use shortlink_system.Cache.Lru
use shortlink_system.Cache.Lru.{find, without}
use shortlink_system.Cache.Linked.{Linked-unlink, Linked-front}
use shortlink_system.Cache.Views.{
  IsValid, view, find_hit, without_hit, find_miss, without_miss, Shows,
}

module _ {s : CacheShard} (v : IsValid s) (k : Text) (q : ℕ) (e : lookup k s.items ≡ some q) where
  pub unlink-Shows : Shows (unlink s q k) (without k (view s))
  unlink-Shows = record {
    valid = record {
      positive = v.positive;
      bounded = omega (arith, v.bounded, length-remove q s.evict_list (v.linked.listed k q e));
      linked = Linked-unlink v.linked k q e;
    };
    list = sym (without_hit v.linked k q e);
  }

  pub front-Shows :
      Shows (record s { evict_list = move_to_front q s.evict_list }) (s.heap q ∷ without k (view s))
  front-Shows =
      let m = v.linked.listed k q e in
      rw (m, without_hit v.linked k q e)
        (record {
          valid = record {
            positive = v.positive;
            bounded = omega (arith, v.bounded, length-remove q s.evict_list m);
            linked = Linked-front v.linked q m;
          };
          list = refl;
        })

module _ (s : CacheShard) (k : Text) (v : IsValid s) where
  -- `Get` returns what the specification returns, and leaves a valid shard with its list.
  pub get-Shows :
      (now : ℕ)
      → Shows (get s now k).0 (Lru.get now k (view s)).0
        × ((get s now k).1 ≡ (Lru.get now k (view s)).1)
  unfolding get Lru.get
  get-Shows now = elim (Option-cases (lookup k s.items)) [
    | inl e ↦ rw (e, get, find_miss v.linked k e, Lru.get) (record { valid = v; list = refl }, refl)
    | inr (q, e) ↦
        rw (e, get, find_hit v.linked k q e, Lru.get)
          (elim (Bool-cases (ltb (s.heap q).expire_at now)) [
            | inl old ↦ rw old (unlink-Shows v k q e, refl)
            | inr new ↦ rw new (front-Shows v k q e, refl)
          ])
  ]

  -- `Invalidate` takes the key out and nothing else.
  pub invalidate-Shows : Shows (invalidate s k) (without k (view s))
  unfolding invalidate
  invalidate-Shows = elim (Option-cases (lookup k s.items)) [
    | inl e ↦ rw (e, invalidate, without_miss v.linked k e) (record { valid = v; list = refl })
    | inr (q, e) ↦ rw (e, invalidate) (unlink-Shows v k q e)
  ]
