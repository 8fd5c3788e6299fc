-- ===== src/Consumer.antt =====
-- internal/worker/consumer.go: a message of the queue brings Redis and the local caches up to date.
pub mod Messages
pub mod Stores
use shortlink_system.Base.{ℕ, ◌*◌, Option, none, some, Text, Bool}
use shortlink_system.L1Cache
use shortlink_system.L1Cache.{L1Cache}
use shortlink_system.Redis.{Redis}
use shortlink_system.Redis.Pipelines.{Outcome}
use shortlink_system.Bloom.{RedisBloomFilter}
use shortlink_system.Service.{cache_key}
use shortlink_system.Service.Retries.{Retried, done, exhausted, context_error}
use shortlink_system.Service.Retries
use shortlink_system.Service.WriteThrough.{url_hash_key, sync_commands, run_pipeline}

pub record CacheUpdateMessage : Type 0 where
  pub short_code : Text
  pub long_url : Text
  pub url_hash : Text

-- Seconds.
abbrev pub cache_ttl_base : ℕ
cache_ttl_base = 24 * 3600

-- The text promises a jitter; there is none.
abbrev pub generate_jitter_expiration : ℕ
generate_jitter_expiration = cache_ttl_base

-- `withRetry` of the consumer repeats that of the service.
abbrev pub with_retry {ℓ} : {S : Type ℓ} → (ℕ → S → S × Bool) → (ℕ → Bool) → ℕ → S → S × Retried
with_retry fn cancelled max_attempts s = Retries.with_retry fn cancelled max_attempts s

module _ (r : Redis) where
  -- The consumer and the store that it writes to; the reverse index may be absent.
  pub record CacheSyncConsumer : Type 0 where
    pub l1_cache : L1Cache
    pub url_hash_cache : Option L1Cache
    pub bloom : RedisBloomFilter
    pub store : r.Store

  -- The two local caches, at the readings `now` and `later` of the clock.
  unfoldable pub update_locals :
      ℕ → ℕ → CacheUpdateMessage → CacheSyncConsumer → Option CacheSyncConsumer
  update_locals now later msg c =
      elim (L1Cache.set c.l1_cache now (cache_key msg.short_code) msg.long_url) [
        | none ↦ none
        | some l1 ↦ elim c.url_hash_cache [
          | none ↦ some (record c { l1_cache = l1 })
          | some cache ↦ elim (L1Cache.set cache later (url_hash_key msg.url_hash) msg.short_code) [
            | none ↦ none
            | some l2 ↦ some (record c { l1_cache = l1; url_hash_cache = some l2 })
          ]
        ]
      ]

  -- The consumer afterwards, with the error that is returned; `none` is a panic.
  unfoldable pub handle_message :
      (ℕ → Outcome)
      → (ℕ → Bool)
      → ℕ
      → ℕ
      → CacheUpdateMessage
      → CacheSyncConsumer
      → Option (CacheSyncConsumer × Retried)
  unfolding sync_commands update_locals
  handle_message outcomes cancelled now later msg c =
      elim (sync_commands c.bloom msg.short_code msg.long_url msg.url_hash
        generate_jitter_expiration) [
          | none ↦ none
          | some pipe ↦
              let (s, err) = with_retry (run_pipeline r outcomes pipe) cancelled 3 c.store in
              let c' : CacheSyncConsumer = record c { store = s } in
              elim err [
                | exhausted ↦ some (c', exhausted)
                | context_error ↦ some (c', context_error)
                | done ↦ elim (update_locals now later msg c') [
                  | none ↦ none
                  | some c'' ↦ some (c'', done)
                ]
              ]
        ]
