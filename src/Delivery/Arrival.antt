-- ===== src/Delivery/Arrival.antt =====
-- What the delivery of a published row does.
use shortlink_system.Base.{
  ◌<◌, ◌≡◌, ◌≢◌, refl, ap, ◌∙◌, inl, inr, some, Text, Bool, false, text_eq, Option-cases, arith,
}
use shortlink_system.Redis.{Redis}
use shortlink_system.Outbox.{OutboxMessage}
use shortlink_system.Consumer.{CacheUpdateMessage, CacheSyncConsumer, handle_message}
use shortlink_system.Consumer.Messages.{Locals, handle_message_lem}
use shortlink_system.Service.{cache_key}
use shortlink_system.Service.Retries.{Retried, done, exhausted, context_error}
use shortlink_system.Service.WriteThrough.{url_hash_key, Synced}
use shortlink_system.Queue.{Json, Publishing, Disposition, ack, requeue, handle_delivery}
use shortlink_system.Queue
use shortlink_system.Delivery.{message_of, publish, Attempt, callback}

-- What the encoder writes, the decoder reads.
abbrev pub Faithful : Json → Type 0
Faithful json =
    (msg : CacheUpdateMessage) (body : Text)
    → json.marshal msg ≡ some body
    → json.unmarshal body ≡ some msg

pub body_of :
    (json : Json) (accepted : Bool) (m : OutboxMessage) (p : Publishing)
    → publish json accepted m ≡ some (p, accepted)
    → json.marshal (message_of m) ≡ some p.body
unfolding publish Queue.publish
body_of json accepted m p e = elim (Option-cases (json.marshal (message_of m))) [
  | inl bad ↦ absurd (ground (arith, e, bad))
  | inr (body, good) ↦ let same : body ≡ p.body = ground (arith, e, good) in good ∙ ap some same
]

module _ (r : Redis) where
  -- What is left after the answer.
  abbrev pub Settled :
      OutboxMessage → CacheSyncConsumer r → CacheSyncConsumer r → Disposition → Type 0
  Settled m c c' ack = Synced r c.bloom m.short_code m.long_url m.url_hash c'.store
  Settled m c c' requeue = (c'.l1_cache ≡ c.l1_cache) × (c'.url_hash_cache ≡ c.url_hash_cache)
  Settled m c c' _ = ⊥

module _ (r : Redis) (P : Text → Text → Type 0) where
  -- A published row is never thrown away. If the decoder reads what the encoder writes, the filter has
  -- a positive size and a key of its own, and the local caches hold only entries that satisfy `P`, as
  -- do the two of the row, then the delivery of its message does not panic. It is acknowledged, and
  -- then Redis and the filter have the link of the row; or it is put back in the queue, and the local
  -- caches are as they were.
  pub handle_delivery-publish :
      (json : Json) (accepted : Bool) (m : OutboxMessage) (p : Publishing) (t : Attempt)
      (c : CacheSyncConsumer r)
      → Faithful json
      → publish json accepted m ≡ some (p, accepted)
      → 0 < c.bloom.size
      → text_eq c.bloom.key (cache_key m.short_code) ≡ false
      → text_eq c.bloom.key (url_hash_key m.url_hash) ≡ false
      → P (cache_key m.short_code) m.long_url
      → P (url_hash_key m.url_hash) m.short_code
      → Locals r P c
      → (c' : CacheSyncConsumer r) × (answer : Disposition) × (handle_delivery json
            (callback r t)
            p.body
            c
          ≡ some (c', answer))
        × Locals r P c'
        × Settled r m c c' answer
  unfolding handle_delivery callback
  handle_delivery-publish json accepted m p t c faithful e positive h k entry index locals =
      let read = faithful (message_of m) p.body (body_of json accepted m p e) in
      let (c', err, f, kept, synced, untouched) =
        handle_message_lem r P t.outcomes t.cancelled t.now t.later (message_of m) c positive h k
          entry index locals in
      go read c' err f kept synced untouched
    where
      go :
          json.unmarshal p.body ≡ some (message_of m)
          → (c' : CacheSyncConsumer r) (err : Retried)
          → handle_message r t.outcomes t.cancelled t.now t.later (message_of m) c ≡ some (c', err)
          → Locals r P c'
          → (err ≡ done → Synced r c.bloom m.short_code m.long_url m.url_hash c'.store)
          → (err ≢ done → (c'.l1_cache ≡ c.l1_cache) × (c'.url_hash_cache ≡ c.url_hash_cache))
          → (c' : CacheSyncConsumer r) × (answer : Disposition) × (handle_delivery json
                (callback r t)
                p.body
                c
              ≡ some (c', answer))
            × Locals r P c'
            × Settled r m c c' answer
      go read c' done f kept synced untouched =
          (c', ack, simp (handle_delivery, read, callback, f) refl, kept, synced refl)
      go read c' exhausted f kept synced untouched =
          (c', requeue, simp (handle_delivery, read, callback, f) refl, kept, untouched (λ x. cc))
      go read c' context_error f kept synced untouched =
          (c', requeue, simp (handle_delivery, read, callback, f) refl, kept, untouched (λ x. cc))
