-- ===== src/Delivery/Draining.antt =====
-- A queue that drains into the consumer of internal/worker/consumer.go.
use shortlink_system.Base.{
  ℕ, ◌+◌, ◌<◌, ◌≤◌, ◌≡◌, refl, sym, ◌∙◌, Option, none, some, List, [], ◌∷◌, length, Text, text_eq,
  Bool, true, false, All, Option-cases, inl, inr, arith,
}
use mathlib.Core.Path.{subst}
use shortlink_system.Redis.{Redis}
use shortlink_system.Redis.Pipelines.{success}
use shortlink_system.Bloom.{RedisBloomFilter}
use shortlink_system.Consumer.{
  CacheUpdateMessage, CacheSyncConsumer, handle_message, cache_ttl_base,
}
use shortlink_system.Consumer.Messages.{Locals, handle_message_lem}
use shortlink_system.Consumer.Stores.{handle_message_keeps}
use shortlink_system.Service.{cache_key}
use shortlink_system.Service.Retries.{Retried, done, exhausted, context_error, with_retry}
use shortlink_system.Service.WriteThrough.{url_hash_key, Synced, sync_commands}
use shortlink_system.Service.Syncing.{exec-Synced}
use shortlink_system.Queue.{Json}
use shortlink_system.Queue.Draining.{Broker, session, Expected, session-drains}
use shortlink_system.Delivery.{Attempt, callback, no_error}

-- Redis answers, at that reading of the clock.
abbrev pub calm : ℕ → Attempt
calm now = record { outcomes = λ i. success; cancelled = λ i. false; now = now; later = now }

module _ (r : Redis) (now : ℕ) where
  -- The consumer, and what the calls of an outage meet; when it is over, nothing fails.
  abbrev pub Draining : Type 0
  Draining = CacheSyncConsumer r × List Attempt

  abbrev pub with_rest :
      List Attempt → Option (CacheSyncConsumer r × Bool) → Option (Draining × Bool)
  with_rest ts none = none
  with_rest ts (some (c, ok)) = some ((c, ts), ok)

  abbrev pub consume_one : CacheUpdateMessage → Draining → Option (Draining × Bool)
  consume_one msg (c, []) = with_rest [] (callback r (calm now) msg c)
  consume_one msg (c, t ∷ ts) = with_rest ts (callback r t msg c)

  rest_of :
      (ts : List Attempt) (o : Option (CacheSyncConsumer r × Bool)) {c : CacheSyncConsumer r}
      {ts' : List Attempt} {ok : Bool}
      → with_rest ts o ≡ some ((c, ts'), ok)
      → o ≡ some (c, ok)
  rest_of ts none e = cc
  rest_of ts (some (c', ok')) e = cc

  no_error_done : (err : Retried) → no_error err ≡ true → err ≡ done
  no_error_done done x = refl
  no_error_done exhausted x = cc
  no_error_done context_error x = cc

  -- When Redis answers, a message that does not panic returns no error.
  calm_done :
      (msg : CacheUpdateMessage) (c c' : CacheSyncConsumer r) (err : Retried)
      → handle_message r (λ i. success) (λ i. false) now now msg c ≡ some (c', err)
      → err ≡ done
  unfolding handle_message with_retry
  calm_done msg c c' err e =
      elim (Option-cases
        (sync_commands c.bloom msg.short_code msg.long_url msg.url_hash cache_ttl_base)) [
          | inl bad ↦ absurd (ground (arith, e, bad))
          | inr (pipe, good) ↦ ground (arith, e, good)
        ]

  module _ (bf : RedisBloomFilter) (positive : 0 < bf.size)
      (cache_apart : (c : Text) → text_eq bf.key (cache_key c) ≡ false)
      (index_apart : (h : Text) → text_eq bf.key (url_hash_key h) ≡ false)
      (Good : CacheUpdateMessage → Type 0)
      (same_url : (m o : CacheUpdateMessage)
        → Good m
        → Good o
        → o.short_code ≡ m.short_code
        → o.long_url ≡ m.long_url)
      (same_code : (m o : CacheUpdateMessage)
        → Good m
        → Good o
        → o.url_hash ≡ m.url_hash
        → o.short_code ≡ m.short_code) where
    -- The local caches are well formed, and the filter is that one.
    abbrev pub Ok : Draining → Type 0
    Ok (c, ts) = Locals r (λ k v. Unit) c × (c.bloom ≡ bf)

    abbrev pub outage : Draining → ℕ
    outage (c, ts) = length ts

    abbrev pub Done : CacheUpdateMessage → Draining → Type 0
    Done msg (c, ts) = Synced r bf msg.short_code msg.long_url msg.url_hash c.store

    -- One attempt.
    attempt_lem :
        (t : Attempt) (msg : CacheUpdateMessage) (c : CacheSyncConsumer r)
        → Locals r (λ k v. Unit) c
        → c.bloom ≡ bf
        → (c' : CacheSyncConsumer r) × (err : Retried) × (handle_message r t.outcomes t.cancelled
              t.now t.later msg c
            ≡ some (c', err))
          × Locals r (λ k v. Unit) c'
          × (c'.bloom ≡ bf)
          × (err ≡ done → Synced r bf msg.short_code msg.long_url msg.url_hash c'.store)
    attempt_lem t msg c locals same =
        let (c', err, e, kept, synced, _) =
          handle_message_lem r (λ k v. Unit) t.outcomes t.cancelled t.now t.later msg c
            (subst (λ (b : RedisBloomFilter). 0 < b.size) (sym same) positive)
            (subst (λ (b : RedisBloomFilter). text_eq b.key (cache_key msg.short_code) ≡ false)
              (sym same) (cache_apart msg.short_code))
            (subst (λ (b : RedisBloomFilter). text_eq b.key (url_hash_key msg.url_hash) ≡ false)
              (sym same) (index_apart msg.url_hash))
            tt tt locals in
        let (_, still) =
          handle_message_keeps r (λ s. Unit) t.outcomes t.cancelled t.now t.later msg c c' err
            (λ pipe good o s h. tt) tt e in
        (
          c',
          err,
          e,
          kept,
          still ∙ same,
          λ fine.
              subst (λ b. Synced r b msg.short_code msg.long_url msg.url_hash c'.store) same
                (synced fine),
        )

    consume_one_works :
        (msg : CacheUpdateMessage) (s : Draining)
        → Good msg
        → Ok s
        → (s' : Draining) × (ok : Bool) × (consume_one msg s ≡ some (s', ok))
          × Ok s'
          × (ok ≡ true → (outage s' ≤ outage s) × Done msg s')
          × (ok ≡ false → outage s' < outage s)
    unfolding callback
    consume_one_works msg (c, []) good (locals, same) =
        let (c', err, e, kept, still, synced) = attempt_lem (calm now) msg c locals same in
        let fine = calm_done msg c c' err e in
        (
          (c', []),
          true,
          simp (callback, e, fine) refl,
          (kept, still),
          λ _. (omega arith, synced fine),
          λ x. absurd (true_false x),
        )
      where
        true_false : true ≡ false → ⊥
        true_false x = cc
    consume_one_works msg (c, t ∷ ts) good (locals, same) =
        let (c', err, e, kept, still, synced) = attempt_lem t msg c locals same in
        (
          (c', ts),
          no_error err,
          simp (callback, e) refl,
          (kept, still),
          λ x. (omega arith, synced (no_error_done err x)),
          λ _. omega arith,
        )

    -- A message keeps what another one has done.
    attempt_keeps :
        (t : Attempt) (msg other : CacheUpdateMessage) (c c' : CacheSyncConsumer r) (ok : Bool)
        → Good msg
        → Good other
        → c.bloom ≡ bf
        → Synced r bf msg.short_code msg.long_url msg.url_hash c.store
        → callback r t other c ≡ some (c', ok)
        → Synced r bf msg.short_code msg.long_url msg.url_hash c'.store
    unfolding callback
    attempt_keeps t msg other c c' ok g k same d e =
        elim (Option-cases (handle_message r t.outcomes t.cancelled t.now t.later other c)) [
          | inl bad ↦ absurd (ground (arith, e, bad))
          | inr ((c'', err), good) ↦
              let one : c'' ≡ c' = ground (arith, e, good) in
              subst
                (λ (c : CacheSyncConsumer r).
                  Synced r bf msg.short_code msg.long_url msg.url_hash c.store)
                one
                (handle_message_keeps r (Synced r bf msg.short_code msg.long_url msg.url_hash)
                  t.outcomes t.cancelled t.now t.later other c c'' err
                  (λ pipe fine.
                    exec-Synced r bf msg.short_code msg.long_url msg.url_hash other.short_code
                      other.long_url other.url_hash (same_url msg other g k)
                      (same_code msg other g k) cache_apart index_apart cache_ttl_base pipe
                      (subst
                        (λ b.
                          sync_commands b other.short_code other.long_url other.url_hash
                            cache_ttl_base
                          ≡ some pipe)
                        same fine))
                  d good).0
        ]

    consume_one_keeps :
        (msg other : CacheUpdateMessage) (s s' : Draining) (ok : Bool)
        → Good msg
        → Good other
        → Ok s
        → Done msg s
        → consume_one other s ≡ some (s', ok)
        → Done msg s'
    consume_one_keeps msg other (c, []) (c', ts') ok g k (locals, same) d e =
        attempt_keeps (calm now) msg other c c' ok g k same d (rest_of [] _ e)
    consume_one_keeps msg other (c, t ∷ ts) (c', ts') ok g k (locals, same) d e =
        attempt_keeps t msg other c c' ok g k same d (rest_of ts _ e)

    -- The queue drains into the consumer. If the filter has a positive size and a key of its own, all
    -- bodies of the queue that can be decoded are expected, expected messages with one code have one
    -- URL and those with one hash have one code, and the local caches are well formed, then after as
    -- many deliveries as the outage and the length of the queue together no message waits any more, and
    -- Redis and the filter have the link of each body that can be decoded, whatever the calls of the
    -- outage meet and wherever the broker puts the messages that are given back.
    pub consumer-drains :
        (broker : Broker) (json : Json) (n : ℕ) (queue : List Text) (s : Draining)
        → All (Expected broker json consume_one outage Ok Good Done) queue
        → Ok s
        → outage s + length queue ≤ n
        → (s' : Draining) × (session broker json consume_one n queue s ≡ some ([], s'))
          × All
              (λ body. (msg : CacheUpdateMessage) → json.unmarshal body ≡ some msg → Done msg s')
              queue
    consumer-drains broker json n queue s expected fit enough =
        session-drains broker json consume_one outage Ok Good Done consume_one_works
          consume_one_keeps n queue s expected fit enough
