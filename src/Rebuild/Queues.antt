-- ===== src/Rebuild/Queues.antt =====
-- What the pipeline of a batch leaves in the filter.
use shortlink_system.Base.{
  ℕ, ◌<◌, ◌≡◌, refl, sym, ap, ◌∙◌, inl, inr, some, List, [], ◌∷◌, ◌++◌, map, Text, true,
  Option-cases, All, All-append, arith,
}
use mathlib.Core.Option.{some-injective}
use mathlib.Core.List.{append-nil, append_assoc}
use shortlink_system.Redis.{Redis}
use shortlink_system.Redis.Pipelines.{
  Command, set_bit, Outcome, success, exec, apply_all, Spares, apply_all-append,
}
use shortlink_system.Bloom.{RedisBloomFilter, offsets, queue_add, contains}
use shortlink_system.Bloom.Offsets.{offsets_of_lem}
use shortlink_system.Bloom.Membership.{
  AllSet, map-set_bit-Spares, AllSet-map-set_bit, AllSet-exec, contains_script-one, queue_add_cases,
}
use shortlink_system.Service.{ShortLink}
use shortlink_system.Rebuild.{queue_all}
use shortlink_system.Rebuild.Order.{In}

module _ (r : Redis) (bf : RedisBloomFilter) where
  -- All bits of the code are set.
  pub record Contained (s : r.Store) (code : Text) : Type 0 where
    pub places : List ℕ
    pub at : offsets bf code ≡ some places
    pub bits : AllSet r s bf.key places

  pub contains_of :
      (s : r.Store) (code : Text) → Contained s code → contains r bf true s code ≡ some (some true)
  unfolding contains
  contains_of s code h = ground (arith, h.at, contains_script-one r s bf.key h.places h.bits)

  pub Contained-exec :
      (o : Outcome) (s : r.Store) (cs : List Command) (code : Text)
      → All (Spares r bf.key) cs
      → Contained s code
      → Contained (exec r o s cs) code
  Contained-exec o s cs code spares h = record {
    places = h.places;
    at = h.at;
    bits = AllSet-exec r o s bf.key h.places cs spares h.bits;
  }

  -- What `queue_all` puts behind the pipeline.
  pub queue_all_cases :
      (links : List ShortLink) (pipe pipe' : List Command)
      → queue_all bf links pipe ≡ some pipe'
      → (more : List Command) × (pipe' ≡ pipe ++ more) × All (Spares r bf.key) more
  unfolding queue_all
  queue_all_cases [] pipe pipe' e = ([], sym (some-injective _ _ e) ∙ sym (append-nil pipe), tt)
  queue_all_cases (link ∷ links) pipe pipe' e =
      elim (Option-cases (queue_add bf link.short_code pipe)) [
        | inl bad ↦ absurd (ground (arith, e, bad))
        | inr (next, good) ↦
            let (os, _, shape) = queue_add_cases r bf link.short_code pipe next good in
            let (more, shape', spares) =
              queue_all_cases links next pipe' (ground (arith, e, good)) in
            (
              map (set_bit bf.key) os ++ more,
              simp (shape', shape, append_assoc) refl,
              All-append (Spares r bf.key) _ _ (map-set_bit-Spares r bf.key os) spares,
            )
      ]

  -- The code that one call adds is in the filter after the pipeline that goes on from there.
  queue_add-Contained :
      (code : Text) (pipe next more pipe' : List Command) (s : r.Store)
      → queue_add bf code pipe ≡ some next
      → pipe' ≡ next ++ more
      → All (Spares r bf.key) more
      → Contained (exec r success s pipe') code
  unfolding exec
  queue_add-Contained code pipe next more pipe' s e shape spares =
      let (os, at, shape') = queue_add_cases r bf code pipe next e in
      let set = AllSet-map-set_bit r (apply_all r s pipe) bf.key os in
      let run : apply_all r s pipe'
          ≡ apply_all r (apply_all r (apply_all r s pipe) (map (set_bit bf.key) os)) more =
        ap (apply_all r s) shape
        ∙ apply_all-append r s next more
        ∙ ap (λ cs. apply_all r (apply_all r s cs) more) shape'
        ∙ ap (λ t. apply_all r t more) (apply_all-append r s pipe (map (set_bit bf.key) os)) in
      record {
        places = os;
        at = at;
        bits = rw run (AllSet-exec r success _ bf.key os more spares set);
      }

  -- Every code of the batch is in the filter once the pipeline has run.
  pub queue_all-Contained :
      (links : List ShortLink) (link : ShortLink) (pipe pipe' : List Command) (s : r.Store)
      → queue_all bf links pipe ≡ some pipe'
      → In link links
      → Contained (exec r success s pipe') link.short_code
  unfolding queue_all
  queue_all-Contained [] link pipe pipe' s e m = elim m [ ]
  queue_all-Contained (l ∷ links) link pipe pipe' s e m =
      elim (Option-cases (queue_add bf l.short_code pipe)) [
        | inl bad ↦ absurd (ground (arith, e, bad))
        | inr (next, good) ↦
            let later : queue_all bf links next ≡ some pipe' = ground (arith, e, good) in
            let (more, shape, spares) = queue_all_cases links next pipe' later in
            elim m [
              | inl same ↦
                  rw same
                    (queue_add-Contained l.short_code pipe next more pipe' s good shape spares)
              | inr m' ↦ queue_all-Contained links link next pipe' s later m'
            ]
      ]

  pub queue_all_total :
      (links : List ShortLink) (pipe : List Command)
      → 0 < bf.size
      → (pipe' : List Command) × (queue_all bf links pipe ≡ some pipe')
  unfolding queue_all queue_add
  queue_all_total [] pipe h = (pipe, refl)
  queue_all_total (link ∷ links) pipe h =
      let (os, e, _, _) = offsets_of_lem bf.size link.short_code bf.seeds h in
      let (pipe', f) = queue_all_total links (pipe ++ map (set_bit bf.key) os) h in
      (pipe', simp (queue_all, queue_add, e) f)
