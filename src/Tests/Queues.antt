-- ===== src/Tests/Queues.antt =====
-- Deliveries to a consumer that fails for a while.
use shortlink_system.Base.{
  ℕ, zero, suc, ◌≡◌, refl, Option, none, some, List, [], ◌∷◌, Text, bytes, Bool, true, false,
}
use shortlink_system.Consumer.{CacheUpdateMessage}
use shortlink_system.Queue.{
  Json, new_rabbit_mq, wait_until_ready, ack, discard, requeue, delivery, closed, no_more,
  consume_loop,
}

-- A codec that keeps the code only; the empty body is none of its texts.
abbrev decode : Text → Option CacheUpdateMessage
decode [] = none
decode (c ∷ body) = some (record { short_code = c ∷ body; long_url = []; url_hash = [] })

abbrev json : Json
json = record { marshal = λ m. some m.short_code; unmarshal = decode }

-- A consumer that fails for so many calls, and keeps what it was told afterwards.
abbrev Told : Type 0
Told = ℕ × List CacheUpdateMessage

abbrev tell : CacheUpdateMessage → Told → Option (Told × Bool)
tell m (zero, told) = some ((zero, m ∷ told), true)
tell m (suc n, told) = some ((n, told), false)

answers :
    consume_loop json tell
      (delivery (bytes "a")
        ∷ delivery []
        ∷ delivery (bytes "b")
        ∷ closed
        ∷ delivery (bytes "c")
        ∷ [])
      (1, [])
    ≡ some (
      (0, record { short_code = bytes "b"; long_url = []; url_hash = [] } ∷ []),
      requeue ∷ discard ∷ ack ∷ [],
      no_more,
    )
unfolding consume_loop
answers = refl

-- A binding that fails leaves no client.
unbound :
    new_rabbit_mq (record {
      dial = true;
      opens = true;
      exchange_declare = true;
      queue_declare = true;
      queue_bind = false;
    })
    ≡ none
unfolding new_rabbit_mq
unbound = refl

waited : wait_until_ready 10 ((8, false) ∷ (9, true) ∷ []) ≡ some true
unfolding wait_until_ready
waited = refl
