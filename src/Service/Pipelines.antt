-- ===== src/Service/Pipelines.antt =====
-- internal/service/shortlink.go: the strings that `writeThrough` may write to Redis.
use shortlink_system.Base.{
  ℕ, ◌≡◌, some, List, [], ◌∷◌, map, Text, All, All-append, Option-cases, inl, inr, Bool, arith,
}
use mathlib.Core.Path.{subst}
use shortlink_system.Redis.{Redis}
use shortlink_system.Redis.Pipelines.{Command, Outcome, set_bit, set}
use shortlink_system.Redis.Entries.{Kept, Allowed, exec-Kept}
use shortlink_system.Bloom.{RedisBloomFilter, queue_add}
use shortlink_system.Bloom.Membership.{queue_add_cases}
use shortlink_system.Service.{generate_jitter_expiration, cache_key}
use shortlink_system.Service.Retries.{Retried, with_retry, with_retry_keeps}
use shortlink_system.Service.WriteThrough.{url_hash_key, sync_commands, run_pipeline, write_through}

module _ (Q : Command → Type 0) (bf : RedisBloomFilter)
    (bits : (i : ℕ) → Q (set_bit bf.key i)) where
  map-set_bit-All : (os : List ℕ) → All Q (map (set_bit bf.key) os)
  map-set_bit-All [] = tt
  map-set_bit-All (o ∷ os) = (bits o, map-set_bit-All os)

  queue_add-All :
      (r : Redis) (code : Text) (pipe pipe' : List Command)
      → queue_add bf code pipe ≡ some pipe'
      → All Q pipe
      → All Q pipe'
  queue_add-All r code pipe pipe' e h =
      let (os, _, shape) = queue_add_cases r bf code pipe pipe' e in
      rw shape (All-append Q pipe (map (set_bit bf.key) os) h (map-set_bit-All os))

  -- What holds of the two SETs and of the bits of the filter holds of all commands.
  pub sync_commands-All :
      (r : Redis) (code long_url url_hash : Text) (ttl : ℕ) (pipe : List Command)
      → Q (set (cache_key code) long_url ttl)
      → Q (set (url_hash_key url_hash) code ttl)
      → sync_commands bf code long_url url_hash ttl ≡ some pipe
      → All Q pipe
  unfolding sync_commands
  sync_commands-All r code long_url url_hash ttl pipe p q e =
      queue_add-All r code _ pipe e (p, (q, tt))

module _ (r : Redis) (P : Text → Text → Type 0) where
  module _ (bf : RedisBloomFilter) (free : (v : Text) → P bf.key v) (code long_url url_hash : Text)
      (forward : P (cache_key code) long_url) (reverse : P (url_hash_key url_hash) code) where
    pub sync_commands-Allowed :
        (ttl : ℕ) (pipe : List Command)
        → sync_commands bf code long_url url_hash ttl ≡ some pipe
        → All (Allowed r P) pipe
    sync_commands-Allowed ttl pipe e =
        sync_commands-All (Allowed r P) bf (λ i. free) r code long_url url_hash ttl pipe forward
          reverse e

    -- The retried pipeline, however its attempts go.
    with_retry-Kept :
        (outcomes : ℕ → Outcome) (cancelled : ℕ → Bool) (ttl : ℕ) (pipe : List Command)
        (s : r.Store)
        → sync_commands bf code long_url url_hash ttl ≡ some pipe
        → Kept r P s
        → Kept r P (with_retry (run_pipeline r outcomes pipe) cancelled 3 s).0
    with_retry-Kept outcomes cancelled ttl pipe s e h =
        with_retry_keeps (run_pipeline r outcomes pipe) cancelled (Kept r P)
          (λ i s h. exec-Kept r P (outcomes i) s pipe h (sync_commands-Allowed ttl pipe e)) 3 s h

    pub write_through-Kept :
        (outcomes : ℕ → Outcome) (cancelled : ℕ → Bool) (jitter : ℕ) (s s' : r.Store)
        (err : Retried)
        → write_through r outcomes cancelled jitter bf code long_url url_hash s ≡ some (s', err)
        → Kept r P s
        → Kept r P s'
    unfolding write_through
    write_through-Kept outcomes cancelled jitter s s' err e h =
        elim (Option-cases
          (sync_commands bf code long_url url_hash (generate_jitter_expiration jitter))) [
            | inl bad ↦ absurd (ground (arith, e, bad))
            | inr (pipe, good) ↦
                let same : (with_retry (run_pipeline r outcomes pipe) cancelled 3 s).0 ≡ s' =
                  ground (arith, e, good) in
                subst (Kept r P) same (
                  with_retry-Kept outcomes cancelled (generate_jitter_expiration jitter) pipe s good
                    h)
          ]
