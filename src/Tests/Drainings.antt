-- ===== src/Tests/Drainings.antt =====
-- A queue that drains after an outage.
use shortlink_system.Base.{
  ◌≡◌, refl, sym, ap, ◌∙◌, none, some, List, [], ◌∷◌, Text, text_eq, false, All, arith,
}
use shortlink_system.Redis.Memory.{memory}
use shortlink_system.Redis.Pipelines.{failure}
use mathlib.Core.Option.{some-injective}
use shortlink_system.L1Cache.{L1Cache}
use shortlink_system.L1Cache.Contents.{new_l1_cache-Sound}
use shortlink_system.Service.{cache_key}
use shortlink_system.Service.WriteThrough.{url_hash_key}
use shortlink_system.Consumer.{CacheUpdateMessage}
use shortlink_system.Consumer.Messages.{Locals}
use shortlink_system.Delivery.{Attempt, message_of}
use shortlink_system.Delivery.Draining.{Draining, Done, consume_one, consumer-drains}
use shortlink_system.Queue.Draining.{Broker, session}
use shortlink_system.Tests.Writes.{consumer, filter}
use shortlink_system.Tests.Deliveries.{json, claimed, published, unmarshal-marshal}

-- A message that is given back keeps its place.
abbrev in_place : Broker
in_place = record {
  back = λ body queue. body ∷ queue;
  length-back = λ body queue. refl;
  All-back = λ P body queue h. h;
  back-All = λ P body queue p h. (p, h);
}

-- Redis is down for three attempts, and then the caller gives up.
abbrev outage_attempt : Attempt
outage_attempt = record { outcomes = λ i. failure 1; cancelled = λ i. false; now = 20; later = 21 }

abbrev start : Draining memory 30
start = (consumer, outage_attempt ∷ [])

abbrev Good : CacheUpdateMessage → Type 0
Good m = m ≡ message_of claimed

same_url :
    (m o : CacheUpdateMessage)
    → Good m
    → Good o
    → o.short_code ≡ m.short_code
    → o.long_url ≡ m.long_url
same_url m o g h _ = ap (λ (x : CacheUpdateMessage). x.long_url) (h ∙ sym g)

same_code :
    (m o : CacheUpdateMessage)
    → Good m
    → Good o
    → o.url_hash ≡ m.url_hash
    → o.short_code ≡ m.short_code
same_code m o g h _ = ap (λ (x : CacheUpdateMessage). x.short_code) (h ∙ sym g)

cache_apart : (c : Text) → text_eq filter.key (cache_key c) ≡ false
unfolding text_eq
cache_apart c = refl

index_apart : (h : Text) → text_eq filter.key (url_hash_key h) ≡ false
unfolding text_eq
index_apart h = refl

-- The message of the row, and a body that cannot be decoded.
abbrev queue : List Text
queue = published.body ∷ [] ∷ []

consumer-drains_example :
    (s' : Draining memory 30) × (session in_place json (consume_one memory 30) 3 queue start
      ≡ some ([], s'))
    × All
        (λ body.
          (msg : CacheUpdateMessage)
          → json.unmarshal body ≡ some msg
          → Done memory 30 filter
              (omega arith)
              cache_apart
              index_apart
              Good
              same_url
              same_code
              msg
              s')
        queue
consumer-drains_example =
    consumer-drains memory 30 filter (omega arith) cache_apart index_apart Good same_url same_code
      in_place json 3 queue start (first, (garbage, tt)) (locals, refl) (omega arith)
  where
    first : (msg : CacheUpdateMessage) → json.unmarshal published.body ≡ some msg → Good msg
    first msg e = sym (some-injective _ _ (sym (unmarshal-marshal (message_of claimed)) ∙ e))

    garbage : (msg : CacheUpdateMessage) → none ≡ some msg → Good msg
    garbage msg e = absurd (nothing e)
      where
        nothing : none ≡ some msg → ⊥
        nothing e = cc

    locals : Locals memory (λ k v. Unit) consumer
    locals = (new_l1_cache-Sound (λ k v. Unit) 1000 300, λ l e. absurd (impossible l e))
      where
        impossible : (l : L1Cache) → none ≡ some l → ⊥
        impossible l e = cc
