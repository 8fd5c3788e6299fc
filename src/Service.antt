-- ===== src/Service.antt =====
-- internal/service/shortlink.go: the way of a redirect through the caches and the tables.
pub mod Entries
pub mod Answers
pub mod Redirects
pub mod Retries
pub mod WriteThrough
pub mod Pipelines
pub mod Syncing
use shortlink_system.Base.{
  ℕ, ◌+◌, ◌*◌, ◌≡◌, ◌⊎◌, Option, none, some, List, [], ◌∷◌, ◌++◌, Text, bytes, text_eq, Bool, true,
  false, if◌then◌else◌,
}
use shortlink_system.L1Cache
use shortlink_system.L1Cache.{L1Cache}
use shortlink_system.Bloom.{RedisBloomFilter, contains}
use mathlib.Core.List.{Mem}
use shortlink_system.Storage.{get_read_db}
use shortlink_system.Redis.{Redis}
use shortlink_system.Redis.Pipelines.{Outcome, set, exec}

pub record ShortLink : Type 0 where
  pub id : ℕ
  pub short_code : Text
  pub long_url : Text
  pub long_url_hash : Text

-- What `Take` returns: a row, `gorm.ErrRecordNotFound`, or another error.
pub data Taken : Type 0 where
  row : ShortLink → Taken
  not_found : Taken
  broken : Taken

-- A database as a query meets it.
pub record Replica : Type 0 where
  pub reachable : Bool
  pub links : List ShortLink

unfoldable pub first_link : (Text → Text → Bool) → Text → List ShortLink → Taken
first_link same_text code [] = not_found
first_link same_text code (link ∷ links) =
    if same_text link.short_code code then row link else first_link same_text code links

unfoldable pub take_link : (Text → Text → Bool) → Replica → Text → Taken
unfolding first_link
take_link same_text db code = if db.reachable then first_link same_text code db.links else broken

-- What the services answer in one redirect, and the readings of the clock. `same_text` is the `=` of
-- the collation of the column; `slave_dbs` are the slaves as the query meets them, and `read_index`
-- the counter of the reads as it finds it.
pub record Weather : Type 0 where
  pub same_text : Text → Text → Bool
  pub first_look : ℕ
  pub second_look : ℕ
  pub stored_at : ℕ
  pub redis_get : Bool
  pub bloom_run : Bool
  pub slave_dbs : List Replica
  pub read_index : ℕ
  pub master : Replica
  pub redis_set : Outcome
  pub jitter : ℕ

pub data Answer : Type 0 where
  url : Text → Answer
  no_such_link : Answer
  query_failed : Answer

abbrev pub cache_key : Text → Text
cache_key code = bytes "shortlink:" ++ code

abbrev pub answer : Text → Answer
answer value = if text_eq value [] then no_such_link else url value

-- Seconds: 24 hours and a random share of an hour.
unfoldable pub generate_jitter_expiration : ℕ → ℕ
generate_jitter_expiration jitter = 24 * 3600 + jitter

-- The database that `GetReadDB` chooses; `none` is its panic.
abbrev pub chosen : Weather → Option Replica
chosen w = (get_read_db w.master w.slave_dbs w.read_index).1

-- A row that the query may see.
abbrev pub Shows : Weather → ShortLink → Type 0
Shows w link =
    ((replica : Replica) × (chosen w ≡ some replica) × Mem link replica.links)
    ⊎ Mem link w.master.links

-- The master, if the chosen replica has no such row.
unfoldable pub confirm : Weather → Text → Taken → Taken
unfolding take_link
confirm w code (row link) = row link
confirm w code not_found = take_link w.same_text w.master code
confirm w code broken = broken

-- `none` is the panic of the choice.
unfoldable pub query : Weather → Text → Option Taken
unfolding confirm take_link
query w code = elim (chosen w) [
  | none ↦ none
  | some replica ↦ some (confirm w code (take_link w.same_text replica code))
]

module _ (r : Redis) where
  open r use {Store}

  pub record ShortLinkService : Type 0 where
    pub l1_cache : L1Cache
    pub bloom : RedisBloomFilter
    pub bloom_ready : Bool
    pub store : Store

  -- The state and the result of a call; `none` is a panic.
  abbrev pub Reply : Type 0
  Reply = Option (ShortLinkService × Answer)

  -- `s.l1Cache.Set(cacheKey, value)`, and then the return.
  unfoldable pub remember : ShortLinkService → ℕ → Text → Text → Answer → Reply
  remember s now key value a = elim (L1Cache.set s.l1_cache now key value) [
    | none ↦ none
    | some c ↦ some (record s { l1_cache = c }, a)
  ]

  -- L3: the tables, and the caches filled from them.
  unfoldable pub from_tables : Weather → Text → Text → ShortLinkService → Reply
  unfolding query remember exec generate_jitter_expiration
  from_tables w code key s =
      let put : Text → ℕ → ShortLinkService =
        λ v ttl. record s { store = exec r w.redis_set s.store (set key v ttl ∷ []) } in
      elim (query w code) [
        | none ↦ none
        | some (row link) ↦
            remember (put link.long_url (generate_jitter_expiration w.jitter)) w.stored_at key
              link.long_url (url link.long_url)
        | some not_found ↦ remember (put [] (5 * 60)) w.stored_at key [] no_such_link
        | some broken ↦ some (s, query_failed)
      ]

  -- The filter is asked only after it was rebuilt; an error of it lets the request pass.
  unfoldable pub from_bloom : Weather → Text → Text → ShortLinkService → Reply
  unfolding from_tables remember contains
  from_bloom w code key s =
      let tables = from_tables w code key s in
      let asked : Reply = elim (contains r s.bloom w.bloom_run s.store code) [
        | none ↦ none
        | some none ↦ tables
        | some (some might_exist) ↦
            if might_exist then tables else remember s w.stored_at key [] no_such_link
      ] in
      if s.bloom_ready then asked else tables

  -- L2: Redis.
  unfoldable pub from_redis : Weather → Text → Text → ShortLinkService → Reply
  unfolding from_bloom remember
  from_redis w code key s =
      let deeper = from_bloom w code key s in
      let asked : Reply = elim (r.get s.store key) [
        | none ↦ deeper
        | some long_url ↦
            if text_eq long_url []
            then remember s w.stored_at key [] no_such_link
            else remember s w.stored_at key long_url (url long_url)
      ] in
      if w.redis_get then asked else deeper

  unfoldable pub resolve_redirect : Weather → Text → Text → ShortLinkService → Reply
  unfolding from_redis
  resolve_redirect w code key s = elim (L1Cache.get s.l1_cache w.second_look key) [
    | none ↦ none
    | some (c, some value) ↦ some (record s { l1_cache = c }, answer value)
    | some (c, none) ↦ from_redis w code key (record s { l1_cache = c })
  ]

  -- `shared` is the result of a concurrent call for the same code that `singleflight` hands out;
  -- `none` lets this call run the function itself.
  unfoldable pub redirect : Weather → Option Answer → Text → ShortLinkService → Reply
  unfolding resolve_redirect
  redirect w shared code s = elim (L1Cache.get s.l1_cache w.first_look (cache_key code)) [
    | none ↦ none
    | some (c, some value) ↦ some (record s { l1_cache = c }, answer value)
    | some (c, none) ↦ elim shared [
      | none ↦ resolve_redirect w code (cache_key code) (record s { l1_cache = c })
      | some a ↦ some (record s { l1_cache = c }, a)
    ]
  ]
