-- ===== src/System/Deliveries.antt =====
-- What the delivery of a message does to a pod and to Redis.
use shortlink_system.Base.{◌≡◌, refl, inl, inr, Option, none, some, Text, true, Option-cases, arith}
use mathlib.Core.Path.{subst}
use mathlib.Core.Option.{some-injective}
use shortlink_system.L1Cache.{L1Cache}
use shortlink_system.L1Cache.Contents.{Sound}
use shortlink_system.Redis.{Redis}
use shortlink_system.Redis.Entries.{Kept}
use shortlink_system.Service.{cache_key}
use shortlink_system.Service.WriteThrough.{url_hash_key}
use shortlink_system.Consumer.{CacheUpdateMessage, CacheSyncConsumer}
use shortlink_system.Consumer.Messages.{Locals, handle_message_lem}
use shortlink_system.Consumer.Stores.{handle_message-Kept}
use shortlink_system.Queue.{Disposition, handle_delivery}
use shortlink_system.Delivery.{Attempt, callback}
use shortlink_system.System.{Deployment, World, Pod, consumer, or_old}
use shortlink_system.System.Unique.{Collation}
use shortlink_system.System.Entries.{
  Truthful, Truthful-filter, Truthful-forward, Truthful-reverse, filter_not_cache, filter_not_index,
}
use shortlink_system.System.Ledger.{Told, Carries}
use shortlink_system.System.Creates.{filter_positive}
use shortlink_system.System.Pods.{Held}

module _ (r : Redis) (d : Deployment) (same : Collation d.same_text) (w : World r d) (p : Pod)
    (held : Held d w.tables.links p)
    (kept : Kept r (Truthful d.same_text w.tables.links) w.store) where
  abbrev True : Text → Text → Type 0
  True = Truthful d.same_text w.tables.links

  Told-forward :
      (msg : CacheUpdateMessage)
      → Told w.tables.links msg
      → True (cache_key msg.short_code) msg.long_url
  Told-forward msg (link, at, code, url, hash) = subst (True (cache_key msg.short_code)) url (
      Truthful-forward d.same_text w.tables.links link msg.short_code at
        (subst (λ x. d.same_text link.short_code x ≡ true) code (same.same_refl link.short_code)))

  Told-reverse :
      (msg : CacheUpdateMessage)
      → Told w.tables.links msg
      → True (url_hash_key msg.url_hash) msg.short_code
  Told-reverse msg (link, at, code, url, hash) = subst (True (url_hash_key msg.url_hash)) code (
      Truthful-reverse d.same_text w.tables.links link msg.url_hash at (
        subst (λ x. d.same_text link.long_url_hash x ≡ true) hash
          (same.same_refl link.long_url_hash)))

  start-Locals : Locals r True (consumer r d w p)
  start-Locals = (held.local, λ l e. subst (Sound True) (some-injective _ _ e) held.index)

  -- A delivery keeps the local caches and Redis right.
  pub handle_delivery-Held :
      (t : Attempt) (body : Text) (c : CacheSyncConsumer r) (how : Disposition)
      → Carries d w.tables.links body
      → handle_delivery d.json (callback r t) body (consumer r d w p) ≡ some (c, how)
      → Locals r True c × Kept r True c.store
  unfolding handle_delivery callback
  handle_delivery-Held t body c how carries e = elim (Option-cases (d.json.unmarshal body)) [
    | inl bad ↦
        let one : consumer r d w p ≡ c = ground (arith, e, bad) in
        subst (λ c. Locals r True c × Kept r True c.store) one (start-Locals, kept)
    | inr (msg, read) ↦
        let told = carries msg read in
        let (c', err, f, locals, _, _) =
          handle_message_lem r True t.outcomes t.cancelled t.now t.later msg (consumer r d w p)
            filter_positive (filter_not_cache msg.short_code) (filter_not_index msg.url_hash)
            (Told-forward msg told) (Told-reverse msg told) start-Locals in
        let one : c' ≡ c = ground (arith, e, read, f) in
        subst (λ c. Locals r True c × Kept r True c.store) one
          (
            locals,
            handle_message-Kept r True t.outcomes t.cancelled t.now t.later msg (consumer r d w p)
                c' err (Truthful-filter d.same_text w.tables.links) (Told-forward msg told)
                (Told-reverse msg told) kept f,
          )
  ]

  pub or_old-Sound :
      (c : CacheSyncConsumer r)
      → Locals r True c
      → Sound True (or_old p.url_hash_l1 c.url_hash_cache)
  or_old-Sound c (local, index) = go c.url_hash_cache index
    where
      go :
          (o : Option L1Cache)
          → ((l : L1Cache) → o ≡ some l → Sound True l)
          → Sound True (or_old p.url_hash_l1 o)
      go none h = held.index
      go (some l) h = h l refl
