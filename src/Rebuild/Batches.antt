-- ===== src/Rebuild/Batches.antt =====
-- What a batch holds of a table whose identifiers differ.
use shortlink_system.Base.{
  ℕ, zero, suc, ◌<◌, ◌≤◌, ◌≡◌, ◌≢◌, refl, ◌⊎◌, inl, inr, none, some, List, [], ◌∷◌, Bool-cases, ltb,
  lt→ltb, sym, take, length, All, arith,
}
use mathlib.Core.Path.{ap}
use mathlib.Core.Option.{some-injective}
use shortlink_system.Service.{ShortLink}
use shortlink_system.Rebuild.{after, by_id, list_short_codes_after, last_link}
use shortlink_system.Rebuild.Order.{
  In, Ascending, DistinctIds, All-In, In-by_id, In-of_by_id, by_id-Ascending,
}

In-after :
    (last_id : ℕ) (link : ShortLink) (links : List ShortLink)
    → In link links
    → last_id < link.id
    → In link (after last_id links)
unfolding after
In-after last_id link [] m h = m
In-after last_id link (l ∷ links) (inl e) h =
    let later : last_id < l.id = rw (← e) h in simp (lt→ltb last_id l.id later) (inl e)
In-after last_id link (l ∷ links) (inr m) h = elim (Bool-cases (ltb last_id l.id)) [
  | inl t ↦ simp t (inr (In-after last_id link links m h))
  | inr t ↦ simp t (In-after last_id link links m h)
]

All-after {κ} :
    (P : ShortLink → Type κ) (last_id : ℕ) (links : List ShortLink)
    → All P links
    → All P (after last_id links)
unfolding after
All-after P last_id [] h = h
All-after P last_id (l ∷ links) (h, hs) = elim (Bool-cases (ltb last_id l.id)) [
  | inl t ↦ simp t (h, All-after P last_id links hs)
  | inr t ↦ simp t (All-after P last_id links hs)
]

after-DistinctIds :
    (last_id : ℕ) (links : List ShortLink) → DistinctIds links → DistinctIds (after last_id links)
unfolding after
after-DistinctIds last_id [] h = h
after-DistinctIds last_id (l ∷ links) (h, hs) = elim (Bool-cases (ltb last_id l.id)) [
  | inl t ↦
      simp t (All-after (λ m. m.id ≢ l.id) last_id links h, after-DistinctIds last_id links hs)
  | inr t ↦ simp t (after-DistinctIds last_id links hs)
]

after-lt : (last_id : ℕ) (links : List ShortLink) → All (λ l. last_id < l.id) (after last_id links)
unfolding after
after-lt last_id [] = tt
after-lt last_id (l ∷ links) = elim (Bool-cases (ltb last_id l.id)) [
  | inl t ↦ simp t (ground arith, after-lt last_id links)
  | inr t ↦ simp t (after-lt last_id links)
]

-- A row is among the first ones, or behind the last of them.
In-take :
    (n : ℕ) (link : ShortLink) (links : List ShortLink)
    → Ascending links
    → In link links
    → In link (take (suc n) links)
      ⊎ ((end : ShortLink) × (last_link (take (suc n) links) ≡ some end) × (end.id < link.id))
In-take n link [] h m = elim m [ ]
In-take n link (l ∷ links) h (inl e) = inl (inl e)
In-take zero link (l ∷ links) (h, hs) (inr m) =
    inr (l, refl, All-In (λ k. l.id < k.id) link links h m)
In-take (suc n) link (l ∷ []) h (inr m) = elim m [ ]
In-take (suc n) link (l ∷ k ∷ links) (h, hs) (inr m) = elim (In-take n link (k ∷ links) hs m) [
  | inl found ↦ inl (inr found)
  | inr behind ↦ inr behind
]

-- The rows in front of which a batch ends come off the rows that are left.
length-after-le :
    (low high : ℕ) (links : List ShortLink)
    → low ≤ high
    → length (after high links) ≤ length (after low links)
unfolding after
length-after-le low high [] h = omega arith
length-after-le low high (l ∷ links) h = ground (arith, length-after-le low high links h)

pub length-after-lt :
    (low high : ℕ) (link : ShortLink) (links : List ShortLink)
    → In link links
    → low < link.id
    → link.id ≤ high
    → length (after high links) < length (after low links)
unfolding after
length-after-lt low high link [] m h k = elim m [ ]
length-after-lt low high link (l ∷ links) (inl e) h k =
    ground (arith, ap (λ m. m.id) e, length-after-le low high links (omega arith))
length-after-lt low high link (l ∷ links) (inr m) h k =
    ground (arith, length-after-lt low high link links m h k)

pub length-after : (low : ℕ) (links : List ShortLink) → length (after low links) ≤ length links
unfolding after
length-after low [] = omega arith
length-after low (l ∷ links) = ground (arith, length-after low links)

last_link-In :
    (links : List ShortLink) (link : ShortLink) → last_link links ≡ some link → In link links
last_link-In [] link e = absurd (none_some e)
  where
    none_some : none ≡ some link → ⊥
    none_some e = cc
last_link-In (l ∷ []) link e = inl (sym (some-injective _ _ e))
last_link-In (l ∷ k ∷ links) link e = inr (last_link-In (k ∷ links) link e)

In-of_take :
    (n : ℕ) (link : ShortLink) (links : List ShortLink) → In link (take n links) → In link links
In-of_take zero link links m = elim m [ ]
In-of_take (suc n) link [] m = m
In-of_take (suc n) link (l ∷ links) (inl e) = inl e
In-of_take (suc n) link (l ∷ links) (inr m) = inr (In-of_take n link links m)

In-of_after :
    (low : ℕ) (link : ShortLink) (links : List ShortLink)
    → In link (after low links)
    → In link links
unfolding after
In-of_after low link [] m = m
In-of_after low link (l ∷ links) m = elim (Bool-cases (ltb low l.id)) [
  | inl t ↦ kept (simp t at m) (In-of_after low link links)
  | inr t ↦ inr (In-of_after low link links (simp t at m))
]
  where
    kept :
        In link (l ∷ after low links)
        → (In link (after low links) → In link links)
        → In link (l ∷ links)
    kept (inl e) back = inl e
    kept (inr m) back = inr (back m)

-- The last row of a batch is a row of the table behind the ones that were read.
pub end_of_batch :
    (low n : ℕ) (links : List ShortLink) (end : ShortLink)
    → last_link (list_short_codes_after low n links) ≡ some end
    → In end links × (low < end.id)
unfolding list_short_codes_after
end_of_batch low n links end e =
    let m =
      In-of_by_id end (after low links)
        (In-of_take n end (by_id (after low links)) (last_link-In _ end e)) in
    (
      In-of_after low end links m,
      All-In (λ l. low < l.id) end (after low links) (after-lt low links) m,
    )

-- A batch holds a row that was not read, or ends in front of it.
pub In-batch :
    (low n : ℕ) (link : ShortLink) (links : List ShortLink)
    → DistinctIds links
    → In link links
    → low < link.id
    → In link (list_short_codes_after low (suc n) links)
      ⊎ ((end : ShortLink) × (last_link (list_short_codes_after low (suc n) links) ≡ some end)
          × (end.id < link.id))
unfolding list_short_codes_after
In-batch low n link links h m lt =
    In-take n link (by_id (after low links))
      (by_id-Ascending (after low links) (after-DistinctIds low links h))
      (In-by_id link (after low links) (In-after low link links m lt))

pub last_link-ne-none :
    (link : ShortLink) (links : List ShortLink) → In link links → last_link links ≢ none
last_link-ne-none link [] m e = m
last_link-ne-none link (l ∷ []) m e = some_none e
  where
    some_none : some l ≡ none → ⊥
    some_none e = cc
last_link-ne-none link (l ∷ k ∷ links) m e = last_link-ne-none k (k ∷ links) (inl refl) e
