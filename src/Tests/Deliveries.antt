-- ===== src/Tests/Deliveries.antt =====
-- A row of the outbox that is published and delivered.
use shortlink_system.Base.{
  ℕ, zero, suc, ◌≡◌, ◌≢◌, refl, Option, none, some, [], ◌∷◌, ◌++◌, length, Text, bytes, text_eq,
  true, false, arith,
}
use mathlib.Core.Path.{subst}
use mathlib.Core.Option.{some-injective}
use shortlink_system.Redis.Memory.{memory}
use shortlink_system.Outbox.{OutboxMessage, processing}
use shortlink_system.Consumer.{CacheUpdateMessage, CacheSyncConsumer}
use shortlink_system.Consumer.Messages.{Locals}
use shortlink_system.Queue.{
  Json, Publishing, exchange_name, routing_key, Disposition, handle_delivery,
}
use shortlink_system.Queue
use shortlink_system.Delivery.{publish, Attempt, callback}
use shortlink_system.Delivery.Arrival.{Faithful, Settled, handle_delivery-publish}
use shortlink_system.Tests.Writes.{second_time, consumer, consumer-Locals}

-- Two texts with their lengths in front, and the third.
abbrev marshal : CacheUpdateMessage → Text
marshal m = length m.short_code ∷ m.short_code ++ (length m.long_url ∷ m.long_url ++ m.url_hash)

abbrev cut : ℕ → Text → Text × Text
cut zero s = ([], s)
cut (suc n) [] = ([], [])
cut (suc n) (c ∷ s) = let (front, back) = cut n s in (c ∷ front, back)

cut-append : (s t : Text) → cut (length s) (s ++ t) ≡ (s, t)
cut-append [] t = refl
cut-append (c ∷ s) t = rw (cut-append s t) refl

abbrev second_and_third : Text × Text → Option CacheUpdateMessage
second_and_third (code, []) = none
second_and_third (code, n ∷ s) =
    let (long, hash) = cut n s in
    some (record { short_code = code; long_url = long; url_hash = hash })

abbrev unmarshal : Text → Option CacheUpdateMessage
unmarshal [] = none
unmarshal (n ∷ s) = second_and_third (cut n s)

abbrev pub json : Json
json = record { marshal = λ m. some (marshal m); unmarshal = unmarshal }

pub unmarshal-marshal : (m : CacheUpdateMessage) → unmarshal (marshal m) ≡ some m
unmarshal-marshal m =
    rw
      (
        cut-append m.short_code (length m.long_url ∷ m.long_url ++ m.url_hash),
        cut-append m.long_url m.url_hash,
      )
      refl

pub json-Faithful : Faithful json
json-Faithful msg body e =
    subst (λ b. unmarshal b ≡ some msg) (some-injective _ _ e) (unmarshal-marshal msg)

abbrev pub claimed : OutboxMessage
claimed = record {
  id = 1;
  short_code = bytes "aB";
  long_url = bytes "http://x";
  url_hash = bytes "f0";
  status = processing;
  retry_count = 0;
  worker_id = bytes "w1";
  locked_until = some 30;
  created_at = 10;
  updated_at = 10;
}

abbrev pub published : Publishing
published = record {
  exchange = exchange_name;
  key = routing_key;
  mandatory = true;
  persistent = true;
  body = 2 ∷ bytes "aB" ++ (8 ∷ bytes "http://x" ++ bytes "f0");
}

abbrev attempt : Attempt
attempt = record { outcomes = second_time; cancelled = λ i. false; now = 10; later = 11 }

publishes : publish json true claimed ≡ some (published, true)
unfolding publish Queue.publish
publishes = refl

handle_delivery-publish_example :
    (c' : CacheSyncConsumer memory) × (answer : Disposition) × (handle_delivery json
        (callback memory attempt)
        published.body
        consumer
      ≡ some (c', answer))
    × Locals memory (λ k v. v ≢ []) c'
    × Settled memory claimed consumer c' answer
unfolding text_eq
handle_delivery-publish_example =
    handle_delivery-publish memory (λ k v. v ≢ []) json true claimed published attempt consumer
      json-Faithful publishes (ground arith) refl refl (λ e. cc) (λ e. cc) consumer-Locals
