-- ===== src/Consumer/Stores.antt =====
-- What a message writes to Redis.
use shortlink_system.Base.{
  ℕ, ◌≡◌, refl, sym, ap, ◌∙◌, some, List, Text, Bool, Option-cases, inl, inr, arith,
}
use mathlib.Core.Path.{subst}
use shortlink_system.Redis.{Redis}
use shortlink_system.Redis.Pipelines.{Command, Outcome, exec}
use shortlink_system.Redis.Entries.{Kept, exec-Kept}
use shortlink_system.Service.{cache_key}
use shortlink_system.Service.Retries.{
  Retried, done, exhausted, context_error, with_retry, with_retry_keeps,
}
use shortlink_system.Service.WriteThrough.{url_hash_key, sync_commands, run_pipeline}
use shortlink_system.Service.Pipelines.{sync_commands-Allowed}
use shortlink_system.Consumer.{
  CacheUpdateMessage, CacheSyncConsumer, cache_ttl_base, update_locals, handle_message,
}

module _ (r : Redis) where
  update_locals_store :
      (now later : ℕ) (msg : CacheUpdateMessage) (c c' : CacheSyncConsumer r)
      → update_locals r now later msg c ≡ some c'
      → (c'.store ≡ c.store) × (c'.bloom ≡ c.bloom)
  unfolding update_locals
  update_locals_store now later msg c c' e = ground (arith, e)

  -- What every run of the pipeline keeps of the store, a message keeps, and the filter is the same.
  pub handle_message_keeps :
      (I : r.Store → Type 0) (outcomes : ℕ → Outcome) (cancelled : ℕ → Bool) (now later : ℕ)
      (msg : CacheUpdateMessage) (c c' : CacheSyncConsumer r) (err : Retried)
      → ((pipe : List Command)
          → sync_commands c.bloom msg.short_code msg.long_url msg.url_hash cache_ttl_base
            ≡ some pipe
          → (o : Outcome) (s : r.Store) → I s
          → I (exec r o s pipe))
      → I c.store
      → handle_message r outcomes cancelled now later msg c ≡ some (c', err)
      → I c'.store × (c'.bloom ≡ c.bloom)
  unfolding handle_message
  handle_message_keeps I outcomes cancelled now later msg c c' err step h e =
      elim (Option-cases
        (sync_commands c.bloom msg.short_code msg.long_url msg.url_hash cache_ttl_base)) [
          | inl bad ↦ absurd (ground (arith, e, bad))
          | inr (pipe, good) ↦
              go pipe good (with_retry (run_pipeline r outcomes pipe) cancelled 3 c.store).1
                (with_retry (run_pipeline r outcomes pipe) cancelled 3 c.store).0 refl
                (with_retry_keeps (run_pipeline r outcomes pipe) cancelled I
                  (λ i s. step pipe good (outcomes i) s) 3 c.store h)
        ]
    where
      go :
          (pipe : List Command)
          → sync_commands c.bloom msg.short_code msg.long_url msg.url_hash cache_ttl_base
            ≡ some pipe
          → (how : Retried) (s : r.Store)
          → with_retry (run_pipeline r outcomes pipe) cancelled 3 c.store ≡ (s, how)
          → I s
          → I c'.store × (c'.bloom ≡ c.bloom)
      go pipe good exhausted s f k =
          (subst I (ground (arith, e, good, f)) k, ground (arith, e, good, f))
      go pipe good context_error s f k =
          (subst I (ground (arith, e, good, f)) k, ground (arith, e, good, f))
      go pipe good done s f k =
          elim (Option-cases (update_locals r now later msg (record c { store = s }))) [
            | inl bad ↦ absurd (ground (arith, e, good, f, bad))
            | inr (d, fine) ↦
                let one : d ≡ c' = ground (arith, e, good, f, fine) in
                let (store, bloom) =
                  update_locals_store now later msg (record c { store = s }) d fine in
                (
                  subst I (sym store ∙ ap (λ (x : CacheSyncConsumer r). x.store) one) k,
                  sym (ap (λ (x : CacheSyncConsumer r). x.bloom) one) ∙ bloom,
                )
          ]

  -- A message keeps the strings right if its two entries are, and any string under the key of the
  -- filter is.
  pub handle_message-Kept :
      (P : Text → Text → Type 0) (outcomes : ℕ → Outcome) (cancelled : ℕ → Bool) (now later : ℕ)
      (msg : CacheUpdateMessage) (c c' : CacheSyncConsumer r) (err : Retried)
      → ((v : Text) → P c.bloom.key v)
      → P (cache_key msg.short_code) msg.long_url
      → P (url_hash_key msg.url_hash) msg.short_code
      → Kept r P c.store
      → handle_message r outcomes cancelled now later msg c ≡ some (c', err)
      → Kept r P c'.store
  handle_message-Kept P outcomes cancelled now later msg c c' err free p q h e =
      (handle_message_keeps (Kept r P) outcomes cancelled now later msg c c' err
        (λ pipe good o s k. exec-Kept r P o s pipe k (
          sync_commands-Allowed r P c.bloom free msg.short_code msg.long_url msg.url_hash p q
            cache_ttl_base pipe good))
        h e).0
