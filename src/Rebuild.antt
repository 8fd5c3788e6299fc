-- ===== src/Rebuild.antt =====
-- internal/service/shortlink.go: `RebuildBloom`, which puts every code of the master table into the
-- filter, and `ListShortCodesAfter` of internal/repository/storage.go, which it reads the codes by.
pub mod Order
pub mod Batches
pub mod Queues
pub mod Coverage
pub mod Termination
pub mod Serving
use shortlink_system.Base.{
  ℕ, zero, suc, Option, none, some, List, [], ◌∷◌, Text, Bool, true, false, ltb, take, not,
  if◌then◌else◌,
}
use shortlink_system.Bloom.{RedisBloomFilter, queue_add}
use shortlink_system.Redis.{Redis}
use shortlink_system.Redis.Pipelines.{Command, Outcome, succeeded, exec}
use shortlink_system.Service.{ShortLink, ShortLinkService}

-- `id > ?`
unfoldable pub after : ℕ → List ShortLink → List ShortLink
after last_id [] = []
after last_id (link ∷ links) =
    let rest = after last_id links in if ltb last_id link.id then link ∷ rest else rest

-- `ORDER BY id ASC`, by insertion.
unfoldable pub insert_by_id : ShortLink → List ShortLink → List ShortLink
insert_by_id link [] = link ∷ []
insert_by_id link (l ∷ links) =
    let rest = insert_by_id link links in if ltb l.id link.id then l ∷ rest else link ∷ l ∷ links

unfoldable pub by_id : List ShortLink → List ShortLink
unfolding insert_by_id
by_id [] = []
by_id (link ∷ links) = insert_by_id link (by_id links)

unfoldable pub list_short_codes_after : ℕ → ℕ → List ShortLink → List ShortLink
unfolding after by_id
list_short_codes_after last_id limit links = take limit (by_id (after last_id links))

abbrev pub rebuild_batch_size : ℕ
rebuild_batch_size = 500

-- The loop over a batch; `none` is a panic of the filter.
unfoldable pub queue_all : RedisBloomFilter → List ShortLink → List Command → Option (List Command)
unfolding queue_add
queue_all bf [] pipe = some pipe
queue_all bf (link ∷ links) pipe = elim (queue_add bf link.short_code pipe) [
  | none ↦ none
  | some pipe' ↦ queue_all bf links pipe'
]

-- `links[len(links)-1]`
abbrev pub last_link : List ShortLink → Option ShortLink
last_link [] = none
last_link (link ∷ []) = some link
last_link (link ∷ next ∷ links) = last_link (next ∷ links)

-- What each round meets: the table of the master, whether the query answers, and how the pipeline
-- goes.
pub record Rounds : Type 0 where
  pub table : ℕ → List ShortLink
  pub reads : ℕ → Bool
  pub writes : ℕ → Outcome

-- `rebuilt` and `failed` are the returns without and with an error.
pub data Ended : Type 0 where
  rebuilt : Ended
  failed : Ended
  out_of_fuel : Ended

module _ (r : Redis) where
  -- `for { … }`, with fuel.
  unfoldable pub rebuild_loop :
      RedisBloomFilter → Rounds → ℕ → ℕ → ℕ → r.Store → Option (r.Store × Ended)
  unfolding list_short_codes_after queue_all exec
  rebuild_loop bf rounds zero round last_id s = some (s, out_of_fuel)
  rebuild_loop bf rounds (suc fuel) round last_id s =
      let links = list_short_codes_after last_id rebuild_batch_size (rounds.table round) in
      let batch : Option (r.Store × Ended) = elim (last_link links) [
        | none ↦ some (s, rebuilt)
        | some end ↦ elim (queue_all bf links []) [
          | none ↦ none
          | some pipe ↦
              let s' = exec r (rounds.writes round) s pipe in
              let rest = rebuild_loop bf rounds fuel (suc round) end.id s' in
              if succeeded (rounds.writes round) then rest else some (s', failed)
        ]
      ] in
      if rounds.reads round then batch else some (s, failed)

  unfoldable pub rebuild_bloom :
      Rounds → ℕ → ShortLinkService r → Option (ShortLinkService r × Ended)
  unfolding rebuild_loop
  rebuild_bloom rounds fuel s = elim (rebuild_loop s.bloom rounds fuel 0 0 s.store) [
    | none ↦ none
    | some (store, rebuilt) ↦ some (record s { store = store; bloom_ready = true }, rebuilt)
    | some (store, failed) ↦ some (record s { store = store }, failed)
    | some (store, out_of_fuel) ↦ some (record s { store = store }, out_of_fuel)
  ]
