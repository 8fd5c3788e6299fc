-- ===== src/Consumer/Messages.antt =====
-- What a message leaves in Redis and in the local caches.
use shortlink_system.Base.{
  ℕ, ◌<◌, ◌≡◌, ◌≢◌, List, [], ◌∷◌, ◌++◌, map, sym, refl, some, Text, Bool, false, text_eq,
  Option-cases, inl, inr,
}
use mathlib.Core.Path.{subst}
use mathlib.Core.Option.{some-injective}
use shortlink_system.L1Cache.{L1Cache}
use shortlink_system.L1Cache.Contents.{Sound, set-Sound}
use shortlink_system.Redis.{Redis}
use shortlink_system.Redis.Pipelines.{Command, Outcome, set, set_bit}
use shortlink_system.Bloom.{queue_add}
use shortlink_system.Bloom.Offsets.{offsets_of_lem}
use shortlink_system.Service.{cache_key}
use shortlink_system.Service.Retries.{Retried, done, exhausted, context_error, with_retry}
use shortlink_system.Service.WriteThrough.{
  url_hash_key, sync_commands, run_pipeline, Synced, retries-Synced,
}
use shortlink_system.Consumer.{
  CacheUpdateMessage, CacheSyncConsumer, cache_ttl_base, update_locals, handle_message,
}

module _ (r : Redis) (P : Text → Text → Type 0) where
  -- The local caches hold only entries that satisfy `P`.
  abbrev pub Locals : CacheSyncConsumer r → Type 0
  Locals c = Sound P c.l1_cache × ((l : L1Cache) → c.url_hash_cache ≡ some l → Sound P l)

  update_locals_lem :
      (now later : ℕ) (msg : CacheUpdateMessage) (c : CacheSyncConsumer r)
      → P (cache_key msg.short_code) msg.long_url
      → P (url_hash_key msg.url_hash) msg.short_code
      → Locals c
      → (c' : CacheSyncConsumer r) × (update_locals r now later msg c ≡ some c')
        × Locals c'
        × (c'.store ≡ c.store)
  unfolding update_locals
  update_locals_lem now later msg c p q (h, k) =
      let (l1, e, sound) = set-Sound P (cache_key msg.short_code) h now msg.long_url p in
      elim (Option-cases c.url_hash_cache) [
        | inl absent ↦
            (record c { l1_cache = l1 }, simp (update_locals, e, absent) refl, (sound, k), refl)
        | inr (cache, present) ↦
            let (l2, f, sound') =
              set-Sound P (url_hash_key msg.url_hash) (k cache present) later msg.short_code q in
            (
              record c { l1_cache = l1; url_hash_cache = some l2 },
              simp (update_locals, e, present, f) refl,
              (sound, λ l eq. subst (Sound P) (some-injective _ _ eq) sound'),
              refl,
            )
      ]

  sync_commands_total :
      (c : CacheSyncConsumer r) (code long_url url_hash : Text) (ttl : ℕ)
      → 0 < c.bloom.size
      → (pipe : List Command) × (sync_commands c.bloom code long_url url_hash ttl ≡ some pipe)
  unfolding sync_commands queue_add
  sync_commands_total c code long_url url_hash ttl h =
      let (os, e, _, _) = offsets_of_lem c.bloom.size code c.bloom.seeds h in
      (
        (set (cache_key code) long_url ttl ∷ set (url_hash_key url_hash) code ttl ∷ [])
            ++ map (set_bit c.bloom.key) os,
        simp (queue_add, e) refl,
      )

  -- For a filter of positive size whose key is not one of the two that are written, and local caches
  -- that hold only entries that satisfy `P`, a message whose two entries satisfy it does not panic. If
  -- no error is returned, Redis and the filter have the link; if one is returned, the local caches are
  -- as they were. In both cases they keep holding only entries that satisfy `P`.
  pub handle_message_lem :
      (outcomes : ℕ → Outcome) (cancelled : ℕ → Bool) (now later : ℕ) (msg : CacheUpdateMessage)
      (c : CacheSyncConsumer r)
      → 0 < c.bloom.size
      → text_eq c.bloom.key (cache_key msg.short_code) ≡ false
      → text_eq c.bloom.key (url_hash_key msg.url_hash) ≡ false
      → P (cache_key msg.short_code) msg.long_url
      → P (url_hash_key msg.url_hash) msg.short_code
      → Locals c
      → (c' : CacheSyncConsumer r) × (err : Retried) × (handle_message r outcomes cancelled now
            later msg c
          ≡ some (c', err))
        × Locals c'
        × (err ≡ done → Synced r c.bloom msg.short_code msg.long_url msg.url_hash c'.store)
        × (err ≢ done → (c'.l1_cache ≡ c.l1_cache) × (c'.url_hash_cache ≡ c.url_hash_cache))
  unfolding handle_message
  handle_message_lem outcomes cancelled now later msg c positive h k p q locals =
      let (pipe, e) =
        sync_commands_total c msg.short_code msg.long_url msg.url_hash cache_ttl_base positive in
      go pipe e (with_retry (run_pipeline r outcomes pipe) cancelled 3 c.store) refl
    where
      go :
          (pipe : List Command)
          → sync_commands c.bloom msg.short_code msg.long_url msg.url_hash cache_ttl_base
            ≡ some pipe
          → (res : r.Store × Retried)
          → with_retry (run_pipeline r outcomes pipe) cancelled 3 c.store ≡ res
          → (c' : CacheSyncConsumer r) × (err : Retried) × (handle_message r outcomes cancelled now
                later msg c
              ≡ some (c', err))
            × Locals c'
            × (err ≡ done → Synced r c.bloom msg.short_code msg.long_url msg.url_hash c'.store)
            × (err ≢ done → (c'.l1_cache ≡ c.l1_cache) × (c'.url_hash_cache ≡ c.url_hash_cache))
      go pipe e (s, exhausted) f = (
        record c { store = s },
        exhausted,
        simp (handle_message, e, f) refl,
        locals,
        λ x. absurd (not_done x),
        λ _. (refl, refl),
      )
        where
          not_done : exhausted ≡ done → ⊥
          not_done x = cc
      go pipe e (s, context_error) f = (
        record c { store = s },
        context_error,
        simp (handle_message, e, f) refl,
        locals,
        λ x. absurd (not_done x),
        λ _. (refl, refl),
      )
        where
          not_done : context_error ≡ done → ⊥
          not_done x = cc
      go pipe e (s, done) f =
          let (c', g, kept, same) =
            update_locals_lem now later msg (record c { store = s }) p q locals in
          (
            c',
            done,
            simp (handle_message, e, f, g) refl,
            kept,
            λ _. subst (Synced r c.bloom msg.short_code msg.long_url msg.url_hash) (sym same) (
                retries-Synced r outcomes cancelled c.bloom msg.short_code msg.long_url msg.url_hash
                  cache_ttl_base pipe c.store s h k e f),
            λ x. absurd (x refl),
          )
