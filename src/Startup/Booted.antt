-- ===== src/Startup/Booted.antt =====
-- What a process that has come up can rely on.
use shortlink_system.Base.{◌<◌, ◌≡◌, refl, some, [], Text, bytes, arith}
use shortlink_system.Base62.{new_base62}
use shortlink_system.Base62.Alphabet.{IsAlphabet, default_alphabet-IsAlphabet}
use shortlink_system.Snowflake.{fetch_worker_id_by_ip}
use shortlink_system.Snowflake.Order.{IsValid}
use shortlink_system.Snowflake.Workers.{new_node-fetch}
use shortlink_system.Bloom.{new_redis_bloom}
use shortlink_system.L1Cache.{new_l1_cache}
use shortlink_system.L1Cache.Contents.{Sound, new_l1_cache-Sound}
use shortlink_system.Redis.{Redis}
use shortlink_system.Creation.{Tables, Creator, Conditions, create}
use shortlink_system.Creation.Outcomes.{Anything, anything_goes, Returns}
use shortlink_system.Creation.Transactions.{create-Returns}
use shortlink_system.Queue.{RabbitMq, new_rabbit_mq}
use shortlink_system.Config.{Config, load_config}
use shortlink_system.Storage.Setup.{Storage, new_storage}
use shortlink_system.Startup.{
  Host, new_short_link_service, World, Process, running, main, bloom_bit_size, bloom_hash_count,
  l1_cache_capacity, l1_cache_ttl, url_hash_capacity, url_hash_ttl, new_outbox_worker,
  new_cache_sync_consumer, storage_cfg, rabbit_mq_url,
}

module _ (r : Redis) where
  -- The node, the dictionary, the filter and the local caches as the other theorems want them, over
  -- the store and the tables as they are.
  pub record Fresh (store : r.Store) (tables : Tables) (s : Creator r) : Type 1 where
    pub worker : IsValid s.node
    pub alphabet : IsAlphabet s.b62.alphabet
    pub positive : 0 < s.bloom.size
    pub local : (P : Text → Text → Type 0) → Sound P s.l1_cache
    pub index : (P : Text → Text → Type 0) → Sound P s.url_hash_l1
    pub same_store : s.store ≡ store
    pub same_tables : s.tables ≡ tables

  -- The worker number fits, whatever the host tells, so the service is made.
  pub new_short_link_service-Fresh :
      (h : Host) (prefix : Text) (store : r.Store) (tables : Tables)
      → (s : Creator r) × (new_short_link_service r h prefix store tables ≡ some s)
        × Fresh store tables s
  unfolding new_short_link_service new_base62 new_redis_bloom
  new_short_link_service-Fresh h prefix store tables =
      let (e, valid) = new_node-fetch h.checksum h.pod_ip h.addrs in
      let svc : Creator r = record {
        node = record {
          timestamp = 0;
          node_id = fetch_worker_id_by_ip h.checksum h.pod_ip h.addrs;
          step = 0;
        };
        bloom = new_redis_bloom (bytes "sys:bloom:shortcodes:v2") bloom_bit_size bloom_hash_count;
        b62 = new_base62 [];
        url_prefix = prefix;
        l1_cache = new_l1_cache l1_cache_capacity l1_cache_ttl;
        url_hash_l1 = new_l1_cache url_hash_capacity url_hash_ttl;
        store = store;
        tables = tables;
      } in
      (
        svc,
        simp (new_short_link_service, e) refl,
        record {
          worker = valid;
          alphabet = default_alphabet-IsAlphabet;
          positive = omega arith;
          local = λ P. new_l1_cache-Sound P l1_cache_capacity l1_cache_ttl;
          index = λ P. new_l1_cache-Sound P url_hash_capacity url_hash_ttl;
          same_store = refl;
          same_tables = refl;
        },
      )

  -- If the configuration is read, the master and Redis answer and the broker is dialled, then the
  -- process comes up with these, on the store and the tables as they are, and no call of `Create` on
  -- it panics: each leaves the tables as they are or adds one link, as `create-Returns` says. The
  -- worker number cannot prevent that, whatever the host tells.
  pub main-Returns :
      (w : World) (store : r.Store) (tables : Tables) (cfg : Config) (repo : Storage)
      (mq : RabbitMq)
      → load_config w.read w.unmarshalled w.get_string ≡ some cfg
      → new_storage w.opening w.pings (storage_cfg cfg) ≡ some repo
      → new_rabbit_mq (w.dialling (rabbit_mq_url cfg)) ≡ some mq
      → (p : Process r) × (main r w store tables ≡ running p)
        × (p.storage ≡ repo)
        × (p.mq_client ≡ mq)
        × Fresh store tables p.svc
        × ((t : Conditions) (long_url : Text)
            → Returns r Anything t long_url p.svc (create r t long_url p.svc))
  unfolding main
  main-Returns w store tables cfg repo mq e f g =
      let (svc, made, fresh) = new_short_link_service-Fresh w.host cfg.url_prefix store tables in
      (
        record {
          storage = repo;
          svc = svc;
          mq_client = mq;
          outbox_worker = new_outbox_worker w.host;
          cache_consumer = new_cache_sync_consumer r svc;
        },
        simp (main, e, f, made, g) refl,
        refl,
        refl,
        fresh,
        λ t long_url.
            create-Returns r Anything t long_url svc fresh.alphabet fresh.positive
              (anything_goes r t long_url svc)
              (record {
                worker = fresh.worker;
                local = fresh.local (λ k v. Unit);
                index = fresh.index (λ k v. Unit);
                kept = λ k v e. tt;
              }),
      )
