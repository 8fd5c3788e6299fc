-- ===== src/Cache/Lru.antt =====
-- What a shard promises: a list of entries in order of use, the most recent first, that holds a key
-- at most once and no more than its capacity.
use shortlink_system.Base.{
  ℕ, zero, suc, ◌≡◌, Option, none, some, List, [], ◌∷◌, Text, text_eq, ltb, if◌then◌else◌, take,
  ◌<◌, sym, ap, ◌∙◌, All, All-take, text_eq_iff, text_eq_refl, Bool-cases, Option-cases, inl, inr,
  arith,
}
use mathlib.Core.Path.{subst, subst₂}
use mathlib.Core.Option.{some-injective}
use shortlink_system.Cache.{L1Entry}

unfoldable pub find : Text → List L1Entry → Option L1Entry
find k [] = none
find k (e ∷ l) = if text_eq e.key k then some e else find k l

unfoldable pub without : Text → List L1Entry → List L1Entry
without k [] = []
without k (e ∷ l) = if text_eq e.key k then l else e ∷ without k l

unfoldable pub get : ℕ → Text → List L1Entry → List L1Entry × Option Text
get now k l = elim (find k l) [
  | none ↦ (l, none)
  | some e ↦ if ltb e.expire_at now then (without k l, none) else (e ∷ without k l, some e.value)
]

unfoldable pub set : ℕ → ℕ → Text → Text → List L1Entry → List L1Entry
set capacity expire_at k v l =
    take capacity (record { key = k; value = v; expire_at = expire_at } ∷ without k l)

-- A found entry has the key, and is one of the list.
pub find_lem :
    (P : L1Entry → Type 0) (k : Text) (l : List L1Entry) (e : L1Entry)
    → All P l
    → find k l ≡ some e
    → (e.key ≡ k) × P e
unfolding find
find_lem P k [] e h f = absurd (never f)
  where
    never : none ≡ some e → ⊥
    never f = cc
find_lem P k (d ∷ l) e (h, hs) f = elim (Bool-cases (text_eq d.key k)) [
  | inl same ↦
      let eq : d ≡ e = ground (arith, f, same) in
      (ap (λ (x : L1Entry). x.key) (sym eq) ∙ (text_eq_iff d.key k).0 same, subst P eq h)
  | inr other ↦ find_lem P k l e hs (ground (arith, f, other))
]

pub All-without :
    (P : L1Entry → Type 0) (k : Text) (l : List L1Entry) → All P l → All P (without k l)
unfolding without
All-without P k [] h = tt
All-without P k (d ∷ l) (h, hs) = elim (Bool-cases (text_eq d.key k)) [
  | inl same ↦ rw same hs
  | inr other ↦ rw other (h, All-without P k l hs)
]

abbrev pub Good : (Text → Text → Type 0) → L1Entry → Type 0
Good P e = P e.key e.value

module _ (P : Text → Text → Type 0) where
  -- `get` drops or moves entries; a value that it returns belongs to the key.
  pub get-Good :
      (now : ℕ) (k : Text) (l : List L1Entry)
      → All (Good P) l
      → All (Good P) (get now k l).0 × ((v : Text) → (get now k l).1 ≡ some v → P k v)
  unfolding get
  get-Good now k l h = elim (Option-cases (find k l)) [
    | inl e ↦ rw (e, get, All) (h, λ v f. cc)
    | inr (d, e) ↦
        let (key, good) = find_lem (Good P) k l d h e in
        rw (e, get, All)
          (elim (Bool-cases (ltb d.expire_at now)) [
            | inl old ↦ rw old (All-without (Good P) k l h, λ v f. cc)
            | inr new ↦ rw new (
              (good, All-without (Good P) k l h),
              λ v f. subst₂ P key (some-injective _ _ f) good,
            )
          ])
  ]

  pub set-Good :
      (capacity expire_at : ℕ) (k v : Text) (l : List L1Entry)
      → All (Good P) l
      → P k v
      → All (Good P) (set capacity expire_at k v l)
  unfolding set
  set-Good capacity expire_at k v l h p =
      All-take (Good P) capacity _ (p, All-without (Good P) k l h)

-- Within the time to live a value that was just set is returned, and after it no longer.
pub get-set :
    (capacity expire_at now : ℕ) (k v : Text) (l : List L1Entry)
    → 0 < capacity
    → (get now k (set capacity expire_at k v l)).1 ≡ (if ltb expire_at now then none else some v)
unfolding get set find
get-set zero expire_at now k v l h = elim h [ ]
get-set (suc c) expire_at now k v l h = ground (arith, text_eq_refl k)
