-- ===== src/Cache/Linked.antt =====
-- The invariant that ties the map of a shard to its list of pointers, and the steps that keep it.
use shortlink_system.Base.{
  ℕ, ◌+◌, ◌≡◌, ◌∙◌, ◌<◌, none, some, ◌∷◌, Text, text_eq_iff, text_eq_refl, true, false, arith,
  Bool-cases, inl, inr,
}
use shortlink_system.Base.Maps.{lookup, insert, lookup-insert, lookup-erase}
use shortlink_system.Cache.{L1Entry, CacheShard, member, remove, write, unlink}
use shortlink_system.Cache.Pointers.{
  Distinct, member-remove_ne, member_of-remove, member-remove_self, Distinct-remove,
}

-- Each pointer of the list is the one that the map has for its key, and the map has no others.
pub record Linked (s : CacheShard) : Type 0 where
  pub distinct : Distinct s.evict_list
  pub allocated : (p : ℕ) → member p s.evict_list ≡ true → p < s.fresh
  pub mapped : (p : ℕ) → member p s.evict_list ≡ true → lookup (s.heap p).key s.items ≡ some p
  pub listed : (k : Text) (p : ℕ) → lookup k s.items ≡ some p → member p s.evict_list ≡ true
  pub keyed : (k : Text) (p : ℕ) → lookup k s.items ≡ some p → (s.heap p).key ≡ k

module _ {s : CacheShard} (h : Linked s) where
  pub Linked-unlink : (k : Text) (q : ℕ) → lookup k s.items ≡ some q → Linked (unlink s q k)
  Linked-unlink k q e = record {
    distinct = Distinct-remove q s.evict_list h.distinct;
    allocated = λ p m. h.allocated p (member_of-remove p q s.evict_list m);
    mapped = λ p m. ground (
      arith,
      lookup-erase k (s.heap p).key s.items,
      h.mapped p (member_of-remove p q s.evict_list m),
      text_eq_iff k (s.heap p).key,
      member-remove_self q s.evict_list h.distinct,
    );
    listed = λ j p f. ground (
      arith,
      lookup-erase k j s.items,
      h.listed j p,
      h.keyed j p,
      h.keyed k q e,
      member-remove_ne p q s.evict_list,
      text_eq_refl k,
    );
    keyed = λ j p f. ground (arith, lookup-erase k j s.items, h.keyed j p);
  }

  pub Linked-front :
      (q : ℕ)
      → member q s.evict_list ≡ true
      → Linked (record s { evict_list = q ∷ remove q s.evict_list })
  Linked-front q m = record {
    distinct =
        (member-remove_self q s.evict_list h.distinct, Distinct-remove q s.evict_list h.distinct);
    allocated = λ p f. h.allocated p (inside p f);
    mapped = λ p f. h.mapped p (inside p f);
    listed = λ j p f. ground (arith, h.listed j p f, member-remove_ne p q s.evict_list);
    keyed = h.keyed;
  }
    where
      inside : (p : ℕ) → member p (q ∷ remove q s.evict_list) ≡ true → member p s.evict_list ≡ true
      inside p f = ground (arith, member_of-remove p q s.evict_list)

  -- A write that keeps the key of an entry.
  pub Linked-write :
      (q : ℕ) (e : L1Entry) → e.key ≡ (s.heap q).key → Linked (record s { heap = write s.heap q e })
  Linked-write q e same = record {
    distinct = h.distinct;
    allocated = h.allocated;
    mapped = λ p m. rw (same_key p) (h.mapped p m);
    listed = h.listed;
    keyed = λ j p f. same_key p ∙ h.keyed j p f;
  }
    where
      same_key : (p : ℕ) → (write s.heap q e p).key ≡ (s.heap p).key
      same_key p = ground arith

  pub unused : member s.fresh s.evict_list ≡ false
  unused = elim (Bool-cases (member s.fresh s.evict_list)) [
    | inl m ↦ absurd (omega (arith, h.allocated s.fresh m))
    | inr m ↦ m
  ]

  pub Linked-insert :
      (k : Text) (e : L1Entry)
      → e.key ≡ k
      → lookup k s.items ≡ none
      → Linked (record s {
        evict_list = s.fresh ∷ s.evict_list;
        items = insert k s.fresh s.items;
        heap = write s.heap s.fresh e;
        fresh = s.fresh + 1;
      })
  Linked-insert k e same miss = record {
    distinct = (unused, h.distinct);
    allocated = λ p m. ground (arith, h.allocated p);
    mapped = λ p m. ground (
      arith,
      h.mapped p,
      lookup-insert k (write s.heap s.fresh e p).key s.fresh s.items,
      text_eq_iff k (write s.heap s.fresh e p).key,
      text_eq_refl k,
    );
    listed = λ j p f. ground (arith, h.listed j p, lookup-insert k j s.fresh s.items);
    keyed = λ j p f. ground (
      arith,
      h.listed j p,
      h.keyed j p,
      lookup-insert k j s.fresh s.items,
      text_eq_iff k j,
      unused,
    );
  }
