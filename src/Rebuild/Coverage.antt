-- ===== src/Rebuild/Coverage.antt =====
-- What the filter contains when the rebuild has ended.
use shortlink_system.Base.{
  ℕ, zero, suc, ◌<◌, ◌≤◌, ◌≡◌, ◌≢◌, sym, ap, ◌∙◌, inl, inr, none, some, List, [], true, Bool-cases,
  Option-cases, ltb, arith,
}
use mathlib.Core.Path.{subst}
use mathlib.Core.Option.{some-injective}
use shortlink_system.Redis.{Redis}
use shortlink_system.Redis.Pipelines.{Command, success, succeeded, success_only, exec}
use shortlink_system.Bloom.{RedisBloomFilter, contains}
use shortlink_system.Service.{ShortLink, ShortLinkService}
use shortlink_system.Rebuild.{
  list_short_codes_after, queue_all, last_link, Rounds, Ended, rebuilt, failed, out_of_fuel,
  rebuild_loop, rebuild_bloom,
}
use shortlink_system.Rebuild.Queues.{
  Contained, contains_of, Contained-exec, queue_all_cases, queue_all-Contained,
}
use shortlink_system.Rebuild.Order.{In, DistinctIds}
use shortlink_system.Rebuild.Batches.{In-batch, last_link-ne-none}

module _ (r : Redis) (bf : RedisBloomFilter) (rounds : Rounds) (link : ShortLink)
    (ordered : (round : ℕ) → DistinctIds (rounds.table round))
    (there : (round : ℕ) → In link (rounds.table round)) where
  -- What a round that succeeds adds.
  batch-Contained :
      (round last_id : ℕ) (s : r.Store) (end : ShortLink) (pipe : List Command)
      → last_link (list_short_codes_after last_id 500 (rounds.table round)) ≡ some end
      → queue_all bf (list_short_codes_after last_id 500 (rounds.table round)) [] ≡ some pipe
      → (link.id ≤ last_id → Contained r bf s link.short_code)
      → link.id ≤ end.id
      → Contained r bf (exec r success s pipe) link.short_code
  batch-Contained round last_id s end pipe e f before le = elim (Bool-cases (ltb last_id link.id)) [
    | inr old ↦
        let (more, shape, spares) = queue_all_cases r bf _ [] pipe f in
        Contained-exec r bf success s pipe link.short_code (rw shape spares) (before (ground arith))
    | inl new ↦
        elim (In-batch last_id 499 link (rounds.table round) (ordered round) (there round)
          (ground arith)) [
            | inl m ↦ queue_all-Contained r bf _ link [] pipe s f m
            | inr (end', e', behind) ↦
                let same : end'.id ≡ end.id = ap (λ k. k.id) (some-injective _ _ (sym e' ∙ e)) in
                absurd (omega arith)
          ]
  ]

  -- Nothing is left to read only behind the row.
  end-le :
      (round last_id : ℕ)
      → last_link (list_short_codes_after last_id 500 (rounds.table round)) ≡ none
      → link.id ≤ last_id
  end-le round last_id e = elim (Bool-cases (ltb last_id link.id)) [
    | inr old ↦ ground arith
    | inl new ↦
        elim (In-batch last_id 499 link (rounds.table round) (ordered round) (there round)
          (ground arith)) [
            | inl m ↦ absurd (last_link-ne-none link _ m e)
            | inr (end, e', behind) ↦ absurd (none_some (sym e ∙ e'))
          ]
  ]
    where
      none_some : {end : ShortLink} → none ≡ some end → ⊥
      none_some e = cc

  -- A row that stays in the table is in the filter as soon as the loop has passed it.
  rebuild_loop-Contained :
      (fuel round last_id : ℕ) (s s' : r.Store)
      → (link.id ≤ last_id → Contained r bf s link.short_code)
      → rebuild_loop r bf rounds fuel round last_id s ≡ some (s', rebuilt)
      → Contained r bf s' link.short_code
  unfolding rebuild_loop
  rebuild_loop-Contained zero round last_id s s' h e = absurd (no_fuel (ground arith))
    where
      no_fuel : out_of_fuel ≡ rebuilt → ⊥
      no_fuel e = cc
  rebuild_loop-Contained (suc fuel) round last_id s s' h e =
      elim (Bool-cases (rounds.reads round)) [
        | inr down ↦ absurd (ground (arith, e, down))
        | inl up ↦
            elim (Option-cases
              (last_link (list_short_codes_after last_id 500 (rounds.table round)))) [
                | inl none_left ↦
                    let same : s ≡ s' = ground (arith, e, up, none_left) in
                    subst (λ t. Contained r bf t link.short_code) same
                      (h (end-le round last_id none_left))
                | inr (end, more) ↦
                    elim (Option-cases
                      (queue_all bf (list_short_codes_after last_id 500 (rounds.table round)) [])) [
                        | inl bad ↦ absurd (ground (arith, e, up, more, bad))
                        | inr (pipe, good) ↦ elim (Bool-cases (succeeded (rounds.writes round))) [
                          | inr lost ↦ absurd (ground (arith, e, up, more, good, lost))
                          | inl ok ↦
                              rebuild_loop-Contained fuel (suc round) end.id
                                (exec r (rounds.writes round) s pipe) s'
                                (λ le.
                                  rw (success_only (rounds.writes round) ok)
                                    (batch-Contained round last_id s end pipe more good h le))
                                (ground (arith, e, up, more, good, ok))
                        ]
                      ]
              ]
      ]

-- The filter is put to use only once it is complete. If the identifiers of the table differ and
-- `RebuildBloom` returns without an error, then the filter is ready and contains the code of every
-- row with a positive identifier that was in the table in all rounds; otherwise it is as ready as it
-- was.
pub rebuild_bloom-contains :
    (r : Redis) (rounds : Rounds) (fuel : ℕ) (s s' : ShortLinkService r) (ended : Ended)
    → ((round : ℕ) → DistinctIds (rounds.table round))
    → rebuild_bloom r rounds fuel s ≡ some (s', ended)
    → (ended ≡ rebuilt
        → (s'.bloom_ready ≡ true)
          × ((link : ShortLink)
              → 0 < link.id
              → ((round : ℕ) → In link (rounds.table round))
              → contains r s'.bloom true s'.store link.short_code ≡ some (some true)))
      × (ended ≢ rebuilt → s'.bloom_ready ≡ s.bloom_ready)
unfolding rebuild_bloom
rebuild_bloom-contains r rounds fuel s s' ended ordered e =
    elim (Option-cases (rebuild_loop r s.bloom rounds fuel 0 0 s.store)) [
      | inl bad ↦ absurd (ground (arith, e, bad))
      | inr ((store, how), good) ↦ go store how good
    ]
  where
    go :
        (store : r.Store) (how : Ended)
        → rebuild_loop r s.bloom rounds fuel 0 0 s.store ≡ some (store, how)
        → (ended ≡ rebuilt
            → (s'.bloom_ready ≡ true)
              × ((link : ShortLink)
                  → 0 < link.id
                  → ((round : ℕ) → In link (rounds.table round))
                  → contains r s'.bloom true s'.store link.short_code ≡ some (some true)))
          × (ended ≢ rebuilt → s'.bloom_ready ≡ s.bloom_ready)
    go store rebuilt good = (
      λ done. (
        ground (arith, e, good),
        λ link positive there.
            let same : record s { store = store; bloom_ready = true } ≡ s' =
              ground (arith, e, good) in
            subst (λ t. contains r t.bloom true t.store link.short_code ≡ some (some true)) same
              (contains_of r s.bloom store link.short_code (
                rebuild_loop-Contained r s.bloom rounds link ordered there fuel 0 0 s.store store
                  (λ le. absurd (omega arith)) good)),
      ),
      λ other. absurd (other (ground (arith, e, good))),
    )
    go store failed good =
        (λ done. absurd (ground (arith, e, good, done)), λ other. ground (arith, e, good))
    go store out_of_fuel good =
        (λ done. absurd (ground (arith, e, good, done)), λ other. ground (arith, e, good))
