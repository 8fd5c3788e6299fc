-- ===== src/Rebuild/Order.antt =====
-- The order of the primary key: `ORDER BY id ASC` sorts and keeps the rows.
use shortlink_system.Base.{
  ℕ, ◌<◌, ◌≡◌, ◌≢◌, ◌⊎◌, inl, inr, List, [], ◌∷◌, Bool-cases, ltb, sym, All, arith,
}
use mathlib.Core.Path.{subst}
use shortlink_system.Service.{ShortLink}
use shortlink_system.Rebuild.{insert_by_id, by_id}

abbrev pub In : ShortLink → List ShortLink → Type 0
In link [] = ⊥
In link (l ∷ links) = (link ≡ l) ⊎ In link links

-- The rows stand in the order of their identifiers.
abbrev pub Ascending : List ShortLink → Type 0
Ascending [] = Unit
Ascending (l ∷ links) = All (λ m. l.id < m.id) links × Ascending links

pub All-In {κ} :
    (P : ShortLink → Type κ) (link : ShortLink) (links : List ShortLink)
    → All P links
    → In link links
    → P link
All-In P link [] h m = elim m [ ]
All-In P link (l ∷ links) (h, hs) (inl e) = subst P (sym e) h
All-In P link (l ∷ links) (h, hs) (inr m) = All-In P link links hs m

-- The primary key.
abbrev pub DistinctIds : List ShortLink → Type 0
DistinctIds [] = Unit
DistinctIds (l ∷ links) = All (λ m. m.id ≢ l.id) links × DistinctIds links

All-insert_by_id {κ} :
    (P : ShortLink → Type κ) (link : ShortLink) (links : List ShortLink)
    → P link
    → All P links
    → All P (insert_by_id link links)
unfolding insert_by_id
All-insert_by_id P link [] p h = (p, tt)
All-insert_by_id P link (l ∷ links) p (h, hs) = elim (Bool-cases (ltb l.id link.id)) [
  | inl t ↦ simp t (h, All-insert_by_id P link links p hs)
  | inr t ↦ simp t (p, (h, hs))
]

All-by_id {κ} :
    (P : ShortLink → Type κ) (links : List ShortLink) → All P links → All P (by_id links)
unfolding by_id
All-by_id P [] h = h
All-by_id P (l ∷ links) (h, hs) = All-insert_by_id P l (by_id links) h (All-by_id P links hs)

All-above :
    (a b : ℕ) (links : List ShortLink)
    → a < b
    → All (λ m. b < m.id) links
    → All (λ m. a < m.id) links
All-above a b [] h k = tt
All-above a b (l ∷ links) h (k, ks) = (omega arith, All-above a b links h ks)

insert_by_id-Ascending :
    (link : ShortLink) (links : List ShortLink)
    → Ascending links
    → All (λ m. m.id ≢ link.id) links
    → Ascending (insert_by_id link links)
unfolding insert_by_id
insert_by_id-Ascending link [] h k = (tt, tt)
insert_by_id-Ascending link (l ∷ links) (h, hs) (k, ks) = elim (Bool-cases (ltb l.id link.id)) [
  | inl t ↦ simp t (
    All-insert_by_id (λ m. l.id < m.id) link links (ground (arith, t)) h,
    insert_by_id-Ascending link links hs ks,
  )
  | inr t ↦
      let first : link.id < l.id = ground (arith, t, k) in
      simp t ((first, All-above link.id l.id links first h), (h, hs))
]

pub by_id-Ascending : (links : List ShortLink) → DistinctIds links → Ascending (by_id links)
unfolding by_id
by_id-Ascending [] h = h
by_id-Ascending (l ∷ links) (h, hs) =
    insert_by_id-Ascending l (by_id links) (by_id-Ascending links hs)
      (All-by_id (λ m. m.id ≢ l.id) links h)

In-insert_by_id :
    (k link : ShortLink) (links : List ShortLink)
    → (k ≡ link) ⊎ In k links
    → In k (insert_by_id link links)
unfolding insert_by_id
In-insert_by_id k link [] m = m
In-insert_by_id k link (l ∷ links) m = elim (Bool-cases (ltb l.id link.id)) [
  | inl t ↦ simp t (deeper (In-insert_by_id k link links) m)
  | inr t ↦ simp t m
]
  where
    deeper :
        ((k ≡ link) ⊎ In k links → In k (insert_by_id link links))
        → (k ≡ link) ⊎ In k (l ∷ links)
        → (k ≡ l) ⊎ In k (insert_by_id link links)
    deeper go (inl e) = inr (go (inl e))
    deeper go (inr (inl e)) = inl e
    deeper go (inr (inr m)) = inr (go (inr m))

In-of_insert_by_id :
    (k link : ShortLink) (links : List ShortLink)
    → In k (insert_by_id link links)
    → (k ≡ link) ⊎ In k links
unfolding insert_by_id
In-of_insert_by_id k link [] m = m
In-of_insert_by_id k link (l ∷ links) m = elim (Bool-cases (ltb l.id link.id)) [
  | inl t ↦ deeper (In-of_insert_by_id k link links) (simp t at m)
  | inr t ↦ simp t at m
]
  where
    deeper :
        (In k (insert_by_id link links) → (k ≡ link) ⊎ In k links)
        → (k ≡ l) ⊎ In k (insert_by_id link links)
        → (k ≡ link) ⊎ In k (l ∷ links)
    deeper go (inl e) = inr (inl e)
    deeper go (inr m) = elim (go m) [ inl e ↦ inl e | inr m ↦ inr (inr m) ]

pub In-by_id : (k : ShortLink) (links : List ShortLink) → In k links → In k (by_id links)
unfolding by_id
In-by_id k [] m = m
In-by_id k (l ∷ links) (inl e) = In-insert_by_id k l (by_id links) (inl e)
In-by_id k (l ∷ links) (inr m) = In-insert_by_id k l (by_id links) (inr (In-by_id k links m))

pub In-of_by_id : (k : ShortLink) (links : List ShortLink) → In k (by_id links) → In k links
unfolding by_id
In-of_by_id k [] m = m
In-of_by_id k (l ∷ links) m = elim (In-of_insert_by_id k l (by_id links) m) [
  | inl e ↦ inl e
  | inr m ↦ inr (In-of_by_id k links m)
]
