-- ===== src/Bloom/Offsets.antt =====
-- Where the bits of a text lie.
use shortlink_system.Base.{
  ℕ, zero, suc, ◌+◌, ◌%◌, ◌≡◌, refl, ◌<◌, ap, ◌∙◌, some, List, [], ◌∷◌, length, All, Text, arith,
}
use shortlink_system.Bloom.{seeds_from, new_redis_bloom, hash, offsets_of, offsets}

length-seeds_from : (i n : ℕ) → length (seeds_from i n) ≡ n
unfolding seeds_from
length-seeds_from i zero = refl
length-seeds_from i (suc n) = ap suc (length-seeds_from (i + 1) n)

pub offsets_of_lem :
    (size : ℕ) (str : Text) (seeds : List ℕ)
    → 0 < size
    → (os : List ℕ) × (offsets_of size str seeds ≡ some os)
      × All (λ o. o < size) os
      × (length os ≡ length seeds)
unfolding offsets_of
offsets_of_lem size str [] h = ([], refl, tt, refl)
offsets_of_lem size str (sd ∷ seeds) h =
    let (os, e, bounded, len) = offsets_of_lem size str seeds h in
    ((hash str sd % size) ∷ os, ground (arith, e), (omega arith, bounded), ap suc len)

-- A filter of positive size never panics: each text has one offset for each hash function that was
-- asked for, and each offset lies in the bitmap.
offsets_in_range :
    (key : Text) (size hash_count : ℕ) (str : Text)
    → 0 < size
    → (os : List ℕ) × (offsets (new_redis_bloom key size hash_count) str ≡ some os)
      × All (λ o. o < size) os
      × (length os ≡ hash_count)
unfolding new_redis_bloom
offsets_in_range key size hash_count str h =
    let (os, e, bounded, len) = offsets_of_lem size str (seeds_from 0 hash_count) h in
    (os, e, bounded, len ∙ length-seeds_from 0 hash_count)
