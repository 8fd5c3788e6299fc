-- ===== src/Creation.antt =====
-- internal/service/shortlink.go: `Create`.
pub mod Commits
pub mod Outcomes
pub mod NewLinks
pub mod Transactions
pub mod Serving
use shortlink_system.Base.{
  ℕ, Option, none, some, List, [], ◌∷◌, ◌++◌, Text, bytes, text_eq, Bool, true, false, ◌==◌, ◌||◌,
  not, if◌then◌else◌,
}
use shortlink_system.Base62.{Base62, encode}
use shortlink_system.Snowflake.{Node, Generated, issued, severe, waiting, generate}
use shortlink_system.L1Cache
use shortlink_system.L1Cache.{L1Cache}
use shortlink_system.Bloom.{RedisBloomFilter}
use shortlink_system.Redis.{Redis}
use shortlink_system.Redis.Pipelines.{Outcome, set, exec}
use shortlink_system.Outbox.{OutboxMessage, pending, create_outbox}
use shortlink_system.Service.{ShortLink, generate_jitter_expiration, cache_key}
use shortlink_system.Service.WriteThrough.{url_hash_key, write_through}

-- What the services answer to one call, and the readings of the clock. `md5_hex` is the digest of
-- the standard library, `same_text` the `=` of the collation.
pub record Conditions : Type 0 where
  pub md5_hex : Text → Text
  pub same_text : Text → Text → Bool
  pub looked_at : ℕ
  pub stored_at : ℕ
  pub indexed_at : ℕ
  pub redis_get : Bool
  pub find : Bool
  pub redis_set : Outcome
  pub jitter : ℕ
  pub clock : List ℕ
  pub begins : Bool
  pub inserts : Bool
  pub outbox_id : ℕ
  pub outbox_time : ℕ
  pub inserts_outbox : Bool
  pub commits : Bool
  -- A commit that returns an error may have been carried out.
  pub carried_out : Bool
  pub outcomes : ℕ → Outcome
  pub cancelled : ℕ → Bool

-- The tables that the transaction writes.
pub record Tables : Type 0 where
  pub links : List ShortLink
  pub outbox : List OutboxMessage

-- Whether the primary key or a unique index keeps the row out.
unfoldable pub clashes : (Text → Text → Bool) → ShortLink → List ShortLink → Bool
clashes same_text link [] = false
clashes same_text link (l ∷ links) =
    l.id == link.id
    || same_text l.short_code link.short_code
    || same_text l.long_url_hash link.long_url_hash
    || clashes same_text link links

abbrev pub outbox_message : Conditions → ShortLink → OutboxMessage
outbox_message t link = record {
  id = t.outbox_id;
  short_code = link.short_code;
  long_url = link.long_url;
  url_hash = link.long_url_hash;
  status = pending;
  retry_count = 0;
  worker_id = [];
  locked_until = none;
  created_at = t.outbox_time;
  updated_at = t.outbox_time;
}

-- Both rows in one transaction, and whether no error was returned.
unfoldable pub transact : Conditions → ShortLink → Tables → Tables × Bool
unfolding clashes create_outbox
transact t link tables =
    let written : Tables = record {
      links = tables.links ++ link ∷ [];
      outbox = create_outbox (outbox_message t link) tables.outbox;
    } in
    if not t.begins
    then (tables, false)
    else if clashes t.same_text link tables.links || not t.inserts
    then (tables, false)
    else if not t.inserts_outbox
    then (tables, false)
    else if t.commits
    then (written, true)
    else ((if t.carried_out then written else tables), false)

-- The first row with the hash; `none` is `gorm.ErrRecordNotFound`.
unfoldable pub find_by_long_url_hash_from_master :
    (Text → Text → Bool) → Text → List ShortLink → Option ShortLink
find_by_long_url_hash_from_master same_text url_hash [] = none
find_by_long_url_hash_from_master same_text url_hash (link ∷ links) =
    if same_text link.long_url_hash url_hash
    then some link
    else find_by_long_url_hash_from_master same_text url_hash links

pub data Created : Type 0 where
  short_url : Text → Created
  empty_url : Created
  lookup_failed : Created
  clock_error : Created
  database_error : Created
  -- `Generate` waits for a later reading.
  unfinished : Created

module _ (r : Redis) where
  pub record Creator : Type 0 where
    pub node : Node
    pub bloom : RedisBloomFilter
    pub b62 : Base62
    pub url_prefix : Text
    pub l1_cache : L1Cache
    pub url_hash_l1 : L1Cache
    pub store : r.Store
    pub tables : Tables

  abbrev pub Reply : Type 0
  Reply = Option (Creator × Created)

  -- `s.urlHashL1.Set`, and then the return.
  unfoldable pub answer_code : Conditions → Text → Text → Creator → Reply
  answer_code t key short_code s = elim (L1Cache.set s.url_hash_l1 t.stored_at key short_code) [
    | none ↦ none
    | some c ↦ some (record s { url_hash_l1 = c }, short_url (s.url_prefix ++ short_code))
  ]

  -- After the commit: the local caches, Redis and the filter.
  unfoldable pub after_commit : Conditions → ShortLink → Text → Creator → Reply
  unfolding write_through
  after_commit t link key s =
      elim (L1Cache.set s.l1_cache t.stored_at (cache_key link.short_code) link.long_url) [
        | none ↦ none
        | some l1 ↦ elim (L1Cache.set s.url_hash_l1 t.indexed_at key link.short_code) [
          | none ↦ none
          | some l2 ↦
              elim (write_through r t.outcomes t.cancelled t.jitter s.bloom link.short_code
                link.long_url link.long_url_hash s.store) [
                  | none ↦ none
                  | some (store, logged) ↦ some (
                    record s { l1_cache = l1; url_hash_l1 = l2; store = store },
                    short_url (s.url_prefix ++ link.short_code),
                  )
                ]
        ]
      ]

  -- The identifier, the code, the transaction.
  unfoldable pub create_link : Conditions → Text → Text → Text → Creator → Reply
  unfolding transact after_commit
  create_link t long_url url_hash key s = elim (generate s.node t.clock) [
    | severe n clock ↦ some (record s { node = n }, clock_error)
    | waiting n ↦ some (record s { node = n }, unfinished)
    | issued id n clock ↦ elim (encode s.b62 id) [
      | none ↦ none
      | some code ↦
          let link : ShortLink = record {
            id = id;
            short_code = code;
            long_url = long_url;
            long_url_hash = url_hash;
          } in
          let (tables', ok) = transact t link s.tables in
          let s' : Creator = record s { node = n; tables = tables' } in
          if ok then after_commit t link key s' else some (s', database_error)
    ]
  ]

  -- The reverse index in Redis.
  abbrev pub redis_get_url_hash : r.Store → Text → Option Text
  redis_get_url_hash store url_hash = r.get store (url_hash_key url_hash)

  abbrev pub redis_set_url_hash : Outcome → r.Store → Text → Text → ℕ → r.Store
  redis_set_url_hash o store url_hash short_code ttl =
      exec r o store (set (url_hash_key url_hash) short_code ttl ∷ [])

  -- The lookup in the master, which decides whether the URL is new.
  unfoldable pub from_master : Conditions → Text → Text → Text → Creator → Reply
  unfolding find_by_long_url_hash_from_master create_link answer_code generate_jitter_expiration
  from_master t long_url url_hash key s =
      let found : Reply =
        elim (find_by_long_url_hash_from_master t.same_text url_hash s.tables.links) [
          | none ↦ create_link t long_url url_hash key s
          | some existing ↦ answer_code t key existing.short_code (record s {
            store =
                redis_set_url_hash t.redis_set s.store url_hash existing.short_code
                  (generate_jitter_expiration t.jitter);
          })
        ] in
      if t.find then found else some (s, lookup_failed)

  -- The reverse index in Redis; an empty entry counts as none.
  unfoldable pub from_index : Conditions → Text → Text → Text → Creator → Reply
  unfolding from_master answer_code
  from_index t long_url url_hash key s =
      let deeper = from_master t long_url url_hash key s in
      let asked : Reply = elim (redis_get_url_hash s.store url_hash) [
        | none ↦ deeper
        | some code ↦ if text_eq code [] then deeper else answer_code t key code s
      ] in
      if t.redis_get then asked else deeper

  unfoldable pub create : Conditions → Text → Creator → Reply
  unfolding from_index
  create t long_url s =
      let url_hash = t.md5_hex long_url in
      let key = url_hash_key url_hash in
      let looked : Reply = elim (L1Cache.get s.url_hash_l1 t.looked_at key) [
        | none ↦ none
        | some (c, none) ↦ from_index t long_url url_hash key (record s { url_hash_l1 = c })
        | some (c, some code) ↦
            if text_eq code []
            then from_index t long_url url_hash key (record s { url_hash_l1 = c })
            else some (record s { url_hash_l1 = c }, short_url (s.url_prefix ++ code))
      ] in
      if text_eq long_url [] then some (s, empty_url) else looked
