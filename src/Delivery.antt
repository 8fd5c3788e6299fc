-- ===== src/Delivery.antt =====
-- From a row of the outbox to the caches: `publish` of internal/worker/outbox.go, and `Start` of
-- internal/worker/consumer.go, which gives `handleMessage` to the queue.
pub mod Arrival
pub mod Draining
use shortlink_system.Base.{ℕ, Option, none, some, Text, Bool, true, false}
use shortlink_system.Redis.{Redis}
use shortlink_system.Redis.Pipelines.{Outcome}
use shortlink_system.Outbox.{OutboxMessage}
use shortlink_system.Consumer.{CacheUpdateMessage, CacheSyncConsumer, handle_message}
use shortlink_system.Service.Retries.{Retried, done, exhausted, context_error}
use shortlink_system.Queue
use shortlink_system.Queue.{Json, Publishing}

abbrev pub message_of : OutboxMessage → CacheUpdateMessage
message_of msg = record {
  short_code = msg.short_code;
  long_url = msg.long_url;
  url_hash = msg.url_hash;
}

-- `accepted` is the result of the call of the channel; `none` is the error of the encoder.
unfoldable pub publish : Json → Bool → OutboxMessage → Option (Publishing × Bool)
unfolding Queue.publish
publish json accepted msg = Queue.publish json accepted (message_of msg)

-- What one call of `handleMessage` meets.
pub record Attempt : Type 0 where
  pub outcomes : ℕ → Outcome
  pub cancelled : ℕ → Bool
  pub now : ℕ
  pub later : ℕ

-- Whether the error is nil.
abbrev pub no_error : Retried → Bool
no_error done = true
no_error exhausted = false
no_error context_error = false

-- The callback of `Consume`: the consumer afterwards, and whether no error was returned.
unfoldable pub callback :
    (r : Redis)
    → Attempt
    → CacheUpdateMessage
    → CacheSyncConsumer r
    → Option (CacheSyncConsumer r × Bool)
unfolding handle_message
callback r t msg c = elim (handle_message r t.outcomes t.cancelled t.now t.later msg c) [
  | none ↦ none
  | some (c', err) ↦ some (c', no_error err)
]
