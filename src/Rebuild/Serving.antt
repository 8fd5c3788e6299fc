-- ===== src/Rebuild/Serving.antt =====
-- Redirects after the filter was rebuilt.
use shortlink_system.Base.{
  ℕ, zero, suc, ◌<◌, ◌≡◌, ◌≢◌, refl, sym, ap, ◌∙◌, ◌⊎◌, inl, inr, Option, some, List, [], ◌∷◌, map,
  Text, true, false, text_eq, Bool-cases, Option-cases, All, All-append, arith,
}
use mathlib.Core.Path.{subst}
use shortlink_system.Redis.{Redis}
use shortlink_system.Redis.Pipelines.{
  Command, set, set_bit, Outcome, success, failure, succeeded, exec, apply, apply_all, apply_first,
}
use shortlink_system.Bloom.{RedisBloomFilter, queue_add}
use shortlink_system.Bloom.Membership.{queue_add_cases}
use shortlink_system.Service.{
  ShortLink, row, not_found, Replica, Weather, Answer, url, take_link, chosen, ShortLinkService,
  redirect, cache_key,
}
use shortlink_system.Service.Entries.{Holds}
use shortlink_system.Service.Redirects.{redirect_finds}
use shortlink_system.Rebuild.{
  list_short_codes_after, queue_all, last_link, Rounds, Ended, rebuilt, failed, out_of_fuel,
  rebuild_loop, rebuild_bloom,
}
use shortlink_system.Rebuild.Order.{In, DistinctIds}
use shortlink_system.Rebuild.Coverage.{rebuild_bloom-contains}

-- A command that sets a bit under the key.
abbrev Sets : Text → Command → Type 0
Sets key (set k v ttl) = ⊥
Sets key (set_bit k i) = k ≡ key

map-set_bit-Sets : (key : Text) (os : List ℕ) → All (Sets key) (map (set_bit key) os)
map-set_bit-Sets key [] = tt
map-set_bit-Sets key (o ∷ os) = (refl, map-set_bit-Sets key os)

module _ (r : Redis) (key k : Text) (other : text_eq key k ≡ false) where
  apply_get : (s : r.Store) (c : Command) → Sets key c → r.get (apply r s c) k ≡ r.get s k
  unfolding apply
  apply_get s (set j v ttl) h = absurd h
  apply_get s (set_bit j i) h = r.get-set_bit s j k i (rw h other)

  exec_get :
      (o : Outcome) (s : r.Store) (cs : List Command)
      → All (Sets key) cs
      → r.get (exec r o s cs) k ≡ r.get s k
  unfolding exec apply_all apply_first
  exec_get success s [] h = refl
  exec_get success s (c ∷ cs) (h, hs) = exec_get success (apply r s c) cs hs ∙ apply_get s c h
  exec_get (failure zero) s cs h = refl
  exec_get (failure (suc n)) s [] h = refl
  exec_get (failure (suc n)) s (c ∷ cs) (h, hs) =
      exec_get (failure n) (apply r s c) cs hs ∙ apply_get s c h

module _ (r : Redis) (bf : RedisBloomFilter) where
  queue_all-Sets :
      (links : List ShortLink) (pipe pipe' : List Command)
      → queue_all bf links pipe ≡ some pipe'
      → All (Sets bf.key) pipe
      → All (Sets bf.key) pipe'
  unfolding queue_all
  queue_all-Sets [] pipe pipe' e h =
      let same : pipe ≡ pipe' = cc in subst (All (Sets bf.key)) same h
  queue_all-Sets (link ∷ links) pipe pipe' e h =
      elim (Option-cases (queue_add bf link.short_code pipe)) [
        | inl bad ↦ absurd (ground (arith, e, bad))
        | inr (next, good) ↦
            let (os, _, shape) = queue_add_cases r bf link.short_code pipe next good in
            queue_all-Sets links next pipe' (ground (arith, e, good))
              (rw shape (All-append (Sets bf.key) pipe _ h (map-set_bit-Sets bf.key os)))
      ]

  -- The rebuild changes no string but what may stand under the key of the filter.
  pub rebuild_loop_get :
      (rounds : Rounds) (k : Text)
      → text_eq bf.key k ≡ false
      → (fuel round last_id : ℕ) (s s' : r.Store) (how : Ended)
      → rebuild_loop r bf rounds fuel round last_id s ≡ some (s', how)
      → r.get s' k ≡ r.get s k
  unfolding rebuild_loop
  rebuild_loop_get rounds k other zero round last_id s s' how e =
      let same : s ≡ s' = cc in ap (λ t. r.get t k) (sym same)
  rebuild_loop_get rounds k other (suc fuel) round last_id s s' how e =
      elim (Bool-cases (rounds.reads round)) [
        | inr down ↦ let same : s ≡ s' = ground (arith, e, down) in ap (λ t. r.get t k) (sym same)
        | inl up ↦
            elim (Option-cases
              (last_link (list_short_codes_after last_id 500 (rounds.table round)))) [
                | inl none_left ↦
                    let same : s ≡ s' = ground (arith, e, up, none_left) in
                    ap (λ t. r.get t k) (sym same)
                | inr (end, more) ↦
                    elim (Option-cases
                      (queue_all bf (list_short_codes_after last_id 500 (rounds.table round)) [])) [
                        | inl bad ↦ absurd (ground (arith, e, up, more, bad))
                        | inr (pipe, good) ↦
                            let s'' = exec r (rounds.writes round) s pipe in
                            let step : r.get s'' k ≡ r.get s k =
                              exec_get r bf.key k other (rounds.writes round) s pipe
                                (queue_all-Sets _ [] pipe good tt) in
                            elim (Bool-cases (succeeded (rounds.writes round))) [
                              | inr lost ↦
                                  let same : s'' ≡ s' = ground (arith, e, up, more, good, lost) in
                                  ap (λ t. r.get t k) (sym same) ∙ step
                              | inl ok ↦
                                  rebuild_loop_get rounds k other fuel (suc round) end.id s'' s' how
                                    (ground (arith, e, up, more, good, ok))
                                  ∙ step
                            ]
                      ]
              ]
      ]

-- The store afterwards, however the rebuild ends.
pub rebuild_bloom_store :
    (r : Redis) (rounds : Rounds) (fuel : ℕ) (s s' : ShortLinkService r) (how : Ended)
    → rebuild_bloom r rounds fuel s ≡ some (s', how)
    → rebuild_loop r s.bloom rounds fuel 0 0 s.store ≡ some (s'.store, how)
unfolding rebuild_bloom
rebuild_bloom_store r rounds fuel s s' how e =
    elim (Option-cases (rebuild_loop r s.bloom rounds fuel 0 0 s.store)) [
      | inl bad ↦ absurd (ground (arith, e, bad))
      | inr ((store, ended), good) ↦ good ∙ go store ended good
    ]
  where
    go :
        (store : r.Store) (ended : Ended)
        → rebuild_loop r s.bloom rounds fuel 0 0 s.store ≡ some (store, ended)
        → ◌≡◌ {A = Option (r.Store × Ended)} (some (store, ended)) (some (s'.store, how))
    go store rebuilt good = ground (arith, e, good)
    go store failed good = ground (arith, e, good)
    go store out_of_fuel good = ground (arith, e, good)

-- What a rebuild that ends changes: the store and the flag.
rebuild_bloom_cases :
    (r : Redis) (rounds : Rounds) (fuel : ℕ) (s s' : ShortLinkService r)
    → rebuild_bloom r rounds fuel s ≡ some (s', rebuilt)
    → (store : r.Store) × (rebuild_loop r s.bloom rounds fuel 0 0 s.store ≡ some (store, rebuilt))
      × (record s { store = store; bloom_ready = true } ≡ s')
unfolding rebuild_bloom
rebuild_bloom_cases r rounds fuel s s' e =
    elim (Option-cases (rebuild_loop r s.bloom rounds fuel 0 0 s.store)) [
      | inl bad ↦ absurd (ground (arith, e, bad))
      | inr ((store, how), good) ↦ go store how good
    ]
  where
    go :
        (store : r.Store) (how : Ended)
        → rebuild_loop r s.bloom rounds fuel 0 0 s.store ≡ some (store, how)
        → (store : r.Store) × (rebuild_loop r s.bloom rounds fuel 0 0 s.store
            ≡ some (store, rebuilt))
          × (record s { store = store; bloom_ready = true } ≡ s')
    go store rebuilt good = (store, good, ground (arith, e, good))
    go store failed good = absurd (ground (arith, e, good))
    go store out_of_fuel good = absurd (ground (arith, e, good))

-- The filter never hides a link that was stored when it was rebuilt. If the identifiers of the table
-- differ, `RebuildBloom` ends without an error, the link was in the table in all rounds and has a URL
-- and a positive identifier, `GetReadDB` chooses a database, which answers and has the link or misses
-- it, the master has it, the caches held nothing but its URL under its key, which is not that of the
-- filter, the filter has a positive size, and a shared result is that URL, then the filter is in use
-- and a redirect of the code answers the URL.
pub redirect-rebuild_bloom :
    (r : Redis) (rounds : Rounds) (fuel : ℕ) (s s' : ShortLinkService r) (link : ShortLink)
    (w : Weather) (replica : Replica) (shared : Option Answer)
    → ((round : ℕ) → DistinctIds (rounds.table round))
    → rebuild_bloom r rounds fuel s ≡ some (s', rebuilt)
    → 0 < link.id
    → ((round : ℕ) → In link (rounds.table round))
    → link.long_url ≢ []
    → chosen w ≡ some replica
    → (take_link w.same_text replica link.short_code ≡ row link)
      ⊎ (take_link w.same_text replica link.short_code ≡ not_found)
    → take_link w.same_text w.master link.short_code ≡ row link
    → Holds r (λ k v. k ≡ cache_key link.short_code → v ≡ link.long_url) s
    → text_eq s.bloom.key (cache_key link.short_code) ≡ false
    → 0 < s.bloom.size
    → ((a : Answer) → shared ≡ some a → a ≡ url link.long_url)
    → (s'.bloom_ready ≡ true)
      × ((s'' : ShortLinkService r) × (redirect r w shared link.short_code s'
            ≡ some (s'', url link.long_url))
          × Holds r (λ k v. k ≡ cache_key link.short_code → v ≡ link.long_url) s'')
redirect-rebuild_bloom r rounds fuel s s' link w replica shared ordered e positive there nonempty
      choice has master h other some_bits others =
    let (store, loop, same) = rebuild_bloom_cases r rounds fuel s s' e in
    let (is_ready, contained) =
      (rebuild_bloom-contains r rounds fuel s s' rebuilt ordered e).0 refl in
    let holds : Holds r (λ k v. k ≡ cache_key link.short_code → v ≡ link.long_url)
        (record s { store = store; bloom_ready = true }) =
      record {
        sound = h.sound;
        kept = λ k v at k_is.
            h.kept k v
              (sym (
                  rebuild_loop_get r s.bloom rounds k (rw k_is other) fuel 0 0 s.store store rebuilt
                    loop)
                ∙ at)
              k_is;
      } in
    (
      is_ready,
      redirect_finds r w replica link link.short_code s' shared nonempty choice has master
          (subst (Holds r (λ k v. k ≡ cache_key link.short_code → v ≡ link.long_url)) same holds)
          (subst (λ (t : ShortLinkService r). 0 < t.bloom.size) same some_bits)
          (λ _. contained link positive there) others,
    )
