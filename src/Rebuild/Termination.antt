-- ===== src/Rebuild/Termination.antt =====
-- The rebuild ends.
use shortlink_system.Base.{
  ℕ, zero, suc, ◌<◌, ◌≡◌, refl, inl, inr, some, List, [], true, Option-cases, length, arith,
}
use shortlink_system.Redis.{Redis}
use shortlink_system.Redis.Pipelines.{success, exec}
use shortlink_system.Bloom.{RedisBloomFilter}
use shortlink_system.Service.{ShortLink, ShortLinkService}
use shortlink_system.Rebuild.{
  after, list_short_codes_after, last_link, Rounds, rebuilt, rebuild_loop, rebuild_bloom,
}
use shortlink_system.Rebuild.Batches.{length-after-lt, length-after, end_of_batch}
use shortlink_system.Rebuild.Queues.{queue_all_total}

module _ (r : Redis) (rounds : Rounds) (links : List ShortLink)
    (still : (round : ℕ) → rounds.table round ≡ links)
    (reads : (round : ℕ) → rounds.reads round ≡ true)
    (writes : (round : ℕ) → rounds.writes round ≡ success) where
  -- Each round leaves fewer rows.
  rebuild_loop-ends :
      (bf : RedisBloomFilter) (fuel round last_id : ℕ) (s : r.Store)
      → 0 < bf.size
      → length (after last_id links) < fuel
      → (s' : r.Store) × (rebuild_loop r bf rounds fuel round last_id s ≡ some (s', rebuilt))
  unfolding rebuild_loop
  rebuild_loop-ends bf zero round last_id s h lt = absurd (omega arith)
  rebuild_loop-ends bf (suc fuel) round last_id s h lt =
      elim (Option-cases (last_link (list_short_codes_after last_id 500 links))) [
        | inl none_left ↦ (s, simp (rebuild_loop, reads, still, none_left) refl)
        | inr (end, more) ↦
            let (pipe, good) =
              queue_all_total r bf (list_short_codes_after last_id 500 links) [] h in
            let (m, above) = end_of_batch last_id 500 links end more in
            let (s', e) =
              rebuild_loop-ends bf fuel (suc round) end.id (exec r success s pipe) h
                (omega (arith, length-after-lt last_id end.id end links m above (omega arith))) in
            (s', simp (rebuild_loop, reads, still, more, good, writes) e)
      ]

  -- With a filter of positive size, a table that stays as it is and no failing call, `RebuildBloom`
  -- ends without an error after at most one round for each row and one more.
  pub rebuild_bloom_total :
      (s : ShortLinkService r)
      → 0 < s.bloom.size
      → (s' : ShortLinkService r) × (rebuild_bloom r rounds (suc (length links)) s
          ≡ some (s', rebuilt))
        × (s'.bloom_ready ≡ true)
  unfolding rebuild_bloom
  rebuild_bloom_total s h =
      let (store, e) =
        rebuild_loop-ends s.bloom (suc (length links)) 0 0 s.store h
          (omega (arith, length-after 0 links)) in
      (record s { store = store; bloom_ready = true }, simp (rebuild_bloom, e) refl, refl)
