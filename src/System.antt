-- ===== src/System.antt =====
-- The whole service: the pods, each with its generator and its local caches, over one Redis, the
-- tables of the master and the queue. A step is one call of a handler, a round of the worker, a
-- delivery, or something that happens to the services. A call is one step: two calls do not overlap,
-- but for the result that `singleflight` shares and for replicas that lag behind.
pub mod Unique
pub mod Entries
pub mod Ledger
pub mod Creates
pub mod Pods
pub mod Deliveries
pub mod Invariant
pub mod Safety
pub mod Registry
pub mod Refinement
use shortlink_system.Base.{
  ℕ, ◌≡◌, ◌⊎◌, Option, none, some, List, [], ◌∷◌, ◌++◌, get_elem?, Text, bytes, Bool, true, false,
  ◌==◌, if◌then◌else◌,
}
use mathlib.Core.List.{Mem}
use shortlink_system.Base62.{new_base62}
use shortlink_system.Snowflake.{Node}
use shortlink_system.L1Cache.{L1Cache}
use shortlink_system.Bloom.{RedisBloomFilter, new_redis_bloom}
use shortlink_system.Redis.{Redis}
use shortlink_system.Outbox.{OutboxMessage, Database}
use shortlink_system.OutboxWorker.{OutboxWorker, Round, process_pending}
use shortlink_system.Service.{ShortLink, Weather, Shows, Answer, ShortLinkService, redirect}
use shortlink_system.Creation.{Tables, Creator, Conditions, Created, create}
use shortlink_system.Creation.Serving.{serving}
use shortlink_system.Consumer.{CacheSyncConsumer}
use shortlink_system.Queue.{Json, Publishing, Disposition, handle_delivery}
use shortlink_system.Delivery.{Attempt, publish, callback}
use shortlink_system.Rebuild.{Rounds, Ended, rebuild_bloom}
use shortlink_system.Startup.{
  Host, bloom_bit_size, bloom_hash_count, new_short_link_service, new_cache_sync_consumer,
}

-- What the pods have in common: the digest, the collation of the tables, the prefix of the addresses,
-- the encoder of the messages, and what MySQL selects.
pub record Deployment : Type 1 where
  pub md5_hex : Text → Text
  pub same_text : Text → Text → Bool
  pub url_prefix : Text
  pub json : Json
  pub db : Database

-- The filter that `NewShortLinkService` makes.
abbrev pub filter : RedisBloomFilter
filter = new_redis_bloom (bytes "sys:bloom:shortcodes:v2") bloom_bit_size bloom_hash_count

-- What a pod has for itself.
pub record Pod : Type 0 where
  pub node : Node
  pub l1_cache : L1Cache
  pub url_hash_l1 : L1Cache
  pub bloom_ready : Bool

-- A cache of the consumer that may be absent.
abbrev pub or_old : L1Cache → Option L1Cache → L1Cache
or_old old none = old
or_old old (some new) = new

module _ (r : Redis) (d : Deployment) where
  -- `queue` is every body that was published, since a body may be delivered again; `redirects` and
  -- `creates` are what was answered so far, with the code and the URL that were asked for.
  pub record World : Type 0 where
    pub pods : ℕ → Option Pod
    pub tables : Tables
    pub store : r.Store
    pub queue : List Text
    pub redirects : List (Text × Answer)
    pub creates : List (Text × Created)

  abbrev pub creator : World → Pod → Creator r
  creator w p = record {
    node = p.node;
    bloom = filter;
    b62 = new_base62 [];
    url_prefix = d.url_prefix;
    l1_cache = p.l1_cache;
    url_hash_l1 = p.url_hash_l1;
    store = w.store;
    tables = w.tables;
  }

  abbrev pub service : World → Pod → ShortLinkService r
  service w p = serving r p.bloom_ready (creator w p)

  abbrev pub consumer : World → Pod → CacheSyncConsumer r
  consumer w p = new_cache_sync_consumer r (creator w p)

  abbrev pub put_pod : ℕ → Pod → World → World
  put_pod i p w = record w { pods = λ j. if i == j then some p else w.pods j }

  -- The digest and the collation are those of the deployment.
  abbrev pub in_deployment : Conditions → Conditions
  in_deployment t = record t { md5_hex = d.md5_hex; same_text = d.same_text }

  abbrev pub in_collation : Weather → Weather
  in_collation t = record t { same_text = d.same_text }

  pub data Step (w : World) : World → Type 0 where
    -- A pod comes up, or comes up again, with empty caches.
    starts :
        (i : ℕ) (h : Host) (s : Creator r)
        → new_short_link_service r h d.url_prefix w.store w.tables ≡ some s
        → Step w (
            put_pod i
              (record {
                node = s.node;
                l1_cache = s.l1_cache;
                url_hash_l1 = s.url_hash_l1;
                bloom_ready = false;
              })
              w)
    -- A pod is gone.
    ends : (i : ℕ) → Step w (record w { pods = λ j. if i == j then none else w.pods j })
    creates :
        (i : ℕ) (p : Pod) (t : Conditions) (long_url : Text) (s : Creator r) (a : Created)
        → w.pods i ≡ some p
        → create r (in_deployment t) long_url (creator w p) ≡ some (s, a)
        → Step w (
            put_pod i
              (record p { node = s.node; l1_cache = s.l1_cache; url_hash_l1 = s.url_hash_l1 })
              (record w {
                tables = s.tables;
                store = s.store;
                creates = (long_url, a) ∷ w.creates;
              }))
    -- The replica may lag behind the master, and a call that panics is no step. A shared result is one
    -- that was answered for the code.
    redirects :
        (i : ℕ) (p : Pod) (t : Weather) (shared : Option Answer) (code : Text)
        (s : ShortLinkService r) (a : Answer)
        → w.pods i ≡ some p
        → ((l : ShortLink) → Shows t l → Mem l w.tables.links)
        → ((a : Answer) → shared ≡ some a → (n : ℕ) × (get_elem? w.redirects n ≡ some (code, a)))
        → redirect r (in_collation t) shared code (service w p) ≡ some (s, a)
        → Step w (
            put_pod i
              (record p { l1_cache = s.l1_cache })
              (record w { store = s.store; redirects = (code, a) ∷ w.redirects }))
    rebuilds :
        (i : ℕ) (p : Pod) (rounds : Rounds) (fuel : ℕ) (s : ShortLinkService r) (how : Ended)
        → w.pods i ≡ some p
        → rebuild_bloom r rounds fuel (service w p) ≡ some (s, how)
        → Step w
            (put_pod i (record p { bloom_ready = s.bloom_ready }) (record w { store = s.store }))
    -- A row of the outbox is sent to the queue, which may take it even if an error is returned.
    publishes :
        (n : ℕ) (m : OutboxMessage) (accepted : Bool) (p : Publishing)
        → get_elem? w.tables.outbox n ≡ some m
        → publish d.json accepted m ≡ some (p, accepted)
        → Step w (record w { queue = w.queue ++ p.body ∷ [] })
    -- What a round of a worker leaves in the table.
    works :
        (round : Round) (worker : OutboxWorker)
        → Step w (record w {
          tables = record w.tables {
            outbox = (process_pending d.db round worker w.tables.outbox).1;
          };
        })
    delivers :
        (i : ℕ) (p : Pod) (t : Attempt) (n : ℕ) (body : Text) (c : CacheSyncConsumer r)
        (how : Disposition)
        → w.pods i ≡ some p
        → get_elem? w.queue n ≡ some body
        → handle_delivery d.json (callback r t) body (consumer w p) ≡ some (c, how)
        → Step w (
            put_pod i
              (record p {
                l1_cache = c.l1_cache;
                url_hash_l1 = or_old p.url_hash_l1 c.url_hash_cache;
              })
              (record w { store = c.store }))
    -- Keys of Redis expire or are evicted, and bits may be lost.
    expires :
        (store : r.Store)
        → ((k v : Text) → r.get store k ≡ some v → r.get w.store k ≡ some v)
        → Step w (record w { store = store })

  -- No pod, no row, no message.
  pub record Initial (w : World) : Type 0 where
    pub no_pods : (i : ℕ) → w.pods i ≡ none
    pub no_links : w.tables.links ≡ []
    pub no_outbox : w.tables.outbox ≡ []
    pub no_keys : (k : Text) → r.get w.store k ≡ none
    pub no_queue : w.queue ≡ []
    pub no_redirects : w.redirects ≡ []
    pub no_creates : w.creates ≡ []

  pub data Reach : World → Type 0 where
    initial : {w : World} → Initial w → Reach w
    next : {w w' : World} → Reach w → Step w w' → Reach w'
