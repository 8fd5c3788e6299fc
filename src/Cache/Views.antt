-- ===== src/Cache/Views.antt =====
-- The entries that a valid shard shows, in order of use.
use shortlink_system.Base.{
  ℕ, ◌≡◌, refl, ◌<◌, ◌≤◌, none, some, List, [], ◌∷◌, length, map, Text, text_eq, text_eq_iff, true,
  false, arith,
}
use shortlink_system.Base.Maps.{lookup}
use shortlink_system.Cache.{L1Entry, CacheShard, member, remove}
use shortlink_system.Cache.Lru.{find, without}
use shortlink_system.Cache.Linked.{Linked}

pub record IsValid (s : CacheShard) : Type 0 where
  pub positive : 0 < s.capacity
  pub bounded : length s.evict_list ≤ s.capacity
  pub linked : Linked s

abbrev pub view : CacheShard → List L1Entry
view s = map s.heap s.evict_list

-- The pointer of a key is the one whose entry has the key.
module _ (heap : ℕ → L1Entry) (k : Text) (q : ℕ) where
  pub find-view :
      (ps : List ℕ)
      → ((p : ℕ) → member p ps ≡ true → (text_eq (heap p).key k ≡ true) → p ≡ q)
      → text_eq (heap q).key k ≡ true
      → member q ps ≡ true
      → find k (map heap ps) ≡ some (heap q)
  unfolding find
  find-view [] only this m = cc
  find-view (p ∷ ps) only this m =
      ground (arith, only p, find-view ps (λ x f. only x (ground arith)) this)

  pub without-view :
      (ps : List ℕ)
      → ((p : ℕ) → member p ps ≡ true → (text_eq (heap p).key k ≡ true) → p ≡ q)
      → text_eq (heap q).key k ≡ true
      → without k (map heap ps) ≡ map heap (remove q ps)
  unfolding without
  without-view [] only this = refl
  without-view (p ∷ ps) only this =
      ground (arith, only p, without-view ps (λ x f. only x (ground arith)) this)

module _ (heap : ℕ → L1Entry) (k : Text) where
  pub find-view_none :
      (ps : List ℕ)
      → ((p : ℕ) → member p ps ≡ true → text_eq (heap p).key k ≡ false)
      → find k (map heap ps) ≡ none
  unfolding find
  find-view_none [] other = refl
  find-view_none (p ∷ ps) other =
      ground (arith, other p, find-view_none ps (λ x m. other x (ground arith)))

  pub without-view_none :
      (ps : List ℕ)
      → ((p : ℕ) → member p ps ≡ true → text_eq (heap p).key k ≡ false)
      → without k (map heap ps) ≡ map heap ps
  unfolding without
  without-view_none [] other = refl
  without-view_none (p ∷ ps) other =
      ground (arith, other p, without-view_none ps (λ x m. other x (ground arith)))

module _ {s : CacheShard} (h : Linked s) (k : Text) where
  pub only_pointer :
      (q : ℕ)
      → lookup k s.items ≡ some q
      → (p : ℕ) → member p s.evict_list ≡ true
      → text_eq (s.heap p).key k ≡ true
      → p ≡ q
  only_pointer q e p m t = ground (arith, h.mapped p m, e, text_eq_iff (s.heap p).key k)

  pub this_pointer : (q : ℕ) → lookup k s.items ≡ some q → text_eq (s.heap q).key k ≡ true
  this_pointer q e = (text_eq_iff (s.heap q).key k).1 (h.keyed k q e)

  pub no_pointer :
      lookup k s.items ≡ none
      → (p : ℕ) → member p s.evict_list ≡ true
      → text_eq (s.heap p).key k ≡ false
  no_pointer e p m = ground (arith, h.mapped p m, e, text_eq_iff (s.heap p).key k)

  pub find_hit : (q : ℕ) → lookup k s.items ≡ some q → find k (view s) ≡ some (s.heap q)
  find_hit q e =
      find-view s.heap k q s.evict_list (only_pointer q e) (this_pointer q e) (h.listed k q e)

  pub without_hit :
      (q : ℕ) → lookup k s.items ≡ some q → without k (view s) ≡ map s.heap (remove q s.evict_list)
  without_hit q e = without-view s.heap k q s.evict_list (only_pointer q e) (this_pointer q e)

  pub find_miss : lookup k s.items ≡ none → find k (view s) ≡ none
  find_miss e = find-view_none s.heap k s.evict_list (no_pointer e)

  pub without_miss : lookup k s.items ≡ none → without k (view s) ≡ view s
  without_miss e = without-view_none s.heap k s.evict_list (no_pointer e)

-- What a method leaves: a valid shard that shows the list `l`.
pub record Shows (s : CacheShard) (l : List L1Entry) : Type 0 where
  pub valid : IsValid s
  pub list : view s ≡ l
