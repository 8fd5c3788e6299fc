-- ===== src/Tests/Writes.antt =====
-- Retried pipelines on a store in memory.
use shortlink_system.Base.{
  ℕ, ◌≡◌, ◌≢◌, refl, none, some, List, [], ◌∷◌, bytes, text_eq, false, zero, suc, arith,
}
use shortlink_system.Redis.Memory.{Memory, empty, memory}
use shortlink_system.Redis.Pipelines.{Command, Outcome, success, failure, set, set_bit, exec}
use shortlink_system.L1Cache.{L1Cache, new_l1_cache}
use shortlink_system.L1Cache.Contents.{new_l1_cache-Sound}
use shortlink_system.Bloom.{RedisBloomFilter}
use shortlink_system.Service.Retries.{Retried, done, exhausted, with_retry}
use shortlink_system.Service.WriteThrough.{Synced}
use shortlink_system.Consumer.{CacheUpdateMessage, CacheSyncConsumer, handle_message}
use shortlink_system.Consumer.Messages.{Locals, handle_message_lem}

abbrev pub filter : RedisBloomFilter
filter = record { key = bytes "bloom"; size = 1000; seeds = 7 ∷ 12 ∷ [] }

-- The first attempt stops after one command, the later ones succeed.
abbrev pub second_time : ℕ → Outcome
second_time zero = failure 1
second_time (suc i) = success

no_retry : with_retry {S = ℕ} (λ _ s. (s, false)) (λ _. false) 3 5 ≡ (5, exhausted)
unfolding with_retry
no_retry = refl

abbrev pipe : List Command
pipe =
    set (bytes "shortlink:ab") (bytes "http://x") 86407
    ∷ set (bytes "urlhash:f0") (bytes "ab") 86407
    ∷ set_bit (bytes "bloom") 777
    ∷ set_bit (bytes "bloom") 262
    ∷ []

abbrev synced : Memory
synced = exec memory success (exec memory (failure 1) empty pipe) pipe

abbrev msg : CacheUpdateMessage
msg = record { short_code = bytes "aB"; long_url = bytes "http://x"; url_hash = bytes "f0" }

abbrev pub consumer : CacheSyncConsumer memory
consumer = record {
  l1_cache = new_l1_cache 1000 300;
  url_hash_cache = none;
  bloom = filter;
  store = empty;
}

pub consumer-Locals : Locals memory (λ k v. v ≢ []) consumer
consumer-Locals = (new_l1_cache-Sound (λ k v. v ≢ []) 1000 300, λ l e. absurd (impossible l e))
  where
    impossible : (l : L1Cache) → none ≡ some l → ⊥
    impossible l e = cc

handle_message_lem_example :
    (c' : CacheSyncConsumer memory) × (err : Retried) × (handle_message memory second_time
        (λ _. false)
        10
        11
        msg
        consumer
      ≡ some (c', err))
    × Locals memory (λ k v. v ≢ []) c'
    × (err ≡ done → Synced memory filter (bytes "aB") (bytes "http://x") (bytes "f0") c'.store)
    × (err ≢ done
        → (c'.l1_cache ≡ consumer.l1_cache) × (c'.url_hash_cache ≡ consumer.url_hash_cache))
unfolding text_eq
handle_message_lem_example =
    handle_message_lem memory (λ k v. v ≢ []) second_time (λ _. false) 10 11 msg consumer
      (ground arith) refl refl (λ e. cc) (λ e. cc) consumer-Locals
