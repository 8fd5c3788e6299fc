-- ===== src/Queue.antt =====
-- pkg/mq/rabbitmq.go: the client of RabbitMQ.
pub mod Draining
use shortlink_system.Base.{
  ℕ, zero, suc, ◌+◌, Option, none, some, List, [], ◌∷◌, Text, bytes, Bool, true, false, ltb, not,
  ◌&&◌, if◌then◌else◌,
}
use shortlink_system.Consumer.{CacheUpdateMessage}

abbrev pub exchange_name : Text
exchange_name = bytes "shortlink.cache.direct"

abbrev pub queue_name : Text
queue_name = bytes "shortlink.cache.update"

abbrev pub routing_key : Text
routing_key = bytes "shortlink.cache.update"

-- `encoding/json` on the message.
pub record Json : Type 0 where
  pub marshal : CacheUpdateMessage → Option Text
  pub unmarshal : Text → Option CacheUpdateMessage

-- The client: which of the two handles it has, which are not nil.
pub record RabbitMq : Type 0 where
  pub conn : Bool
  pub channel : Bool

-- Which calls of `connect` succeed.
pub record Dialling : Type 0 where
  pub dial : Bool
  pub opens : Bool
  pub exchange_declare : Bool
  pub queue_declare : Bool
  pub queue_bind : Bool

-- The client afterwards, and whether no error was returned.
unfoldable pub connect : Dialling → RabbitMq → RabbitMq × Bool
connect d r =
    if not d.dial
    then (r, false)
    else if not d.opens
    then (r, false)
    else if not d.exchange_declare
    then (r, false)
    else if not d.queue_declare
    then (r, false)
    else if not d.queue_bind
    then (r, false)
    else (record { conn = true; channel = true }, true)

unfoldable pub new_rabbit_mq : Dialling → Option RabbitMq
unfolding connect
new_rabbit_mq d =
    let (mq, ok) = connect d (record { conn = false; channel = false }) in
    if ok then some mq else none

-- What is handed to the exchange.
pub record Publishing : Type 0 where
  pub exchange : Text
  pub key : Text
  pub mandatory : Bool
  pub persistent : Bool
  pub body : Text

-- `none` is the error of the encoder; `accepted` is the result of the call.
unfoldable pub publish : Json → Bool → CacheUpdateMessage → Option (Publishing × Bool)
publish json accepted msg = elim (json.marshal msg) [
  | none ↦ none
  | some body ↦ some (
    record {
      exchange = exchange_name;
      key = routing_key;
      mandatory = true;
      persistent = true;
      body = body;
    },
    accepted,
  )
]

-- What a consumer answers to a delivery: `Ack(false)`, `Nack(false, false)`, `Nack(false, true)`.
pub data Disposition : Type 0 where
  ack : Disposition
  discard : Disposition
  requeue : Disposition

-- What the `select` of `Consume` meets.
pub data Event : Type 0 where
  cancelled : Event
  closed : Event
  delivery : Text → Event

-- How `Consume` ends: with the error of the context, without an error when the channel is closed, or
-- it still waits.
pub data Consuming : Type 0 where
  context_error : Consuming
  no_more : Consuming
  still_waiting : Consuming

module _ {S : Type 0} (json : Json) (callback : CacheUpdateMessage → S → Option (S × Bool)) where
  -- One delivery. `none` is a panic of the callback.
  unfoldable pub handle_delivery : Text → S → Option (S × Disposition)
  handle_delivery body s = elim (json.unmarshal body) [
    | none ↦ some (s, discard)
    | some msg ↦ elim (callback msg s) [
      | none ↦ none
      | some (s', ok) ↦ some (s', if ok then ack else requeue)
    ]
  ]

  -- `for { select … }`: the state, the answers so far, the end.
  unfoldable pub consume_loop : List Event → S → Option (S × List Disposition × Consuming)
  unfolding handle_delivery
  consume_loop [] s = some (s, [], still_waiting)
  consume_loop (cancelled ∷ events) s = some (s, [], context_error)
  consume_loop (closed ∷ events) s = some (s, [], no_more)
  consume_loop (delivery body ∷ events) s = elim (handle_delivery body s) [
    | none ↦ none
    | some (s', answer) ↦ elim (consume_loop events s') [
      | none ↦ none
      | some (s'', answers, end) ↦ some (s'', answer ∷ answers, end)
    ]
  ]

  -- The outer `none` is the error of `channel.Consume`.
  unfoldable pub consume :
      Bool → List Event → S → Option (Option (S × List Disposition × Consuming))
  unfolding consume_loop
  consume starts events s = if starts then some (consume_loop events s) else none

-- What `Close` has closed, and whether it returned no error. A channel that cannot be closed leaves
-- the connection open.
pub record Closing : Type 0 where
  pub channel_closed : Bool
  pub conn_closed : Bool
  pub no_error : Bool

unfoldable pub close : Bool → Bool → RabbitMq → Closing
close channel_closes conn_closes r =
    if r.channel && not channel_closes
    then record { channel_closed = false; conn_closed = false; no_error = false }
    else if r.conn
    then record { channel_closed = r.channel; conn_closed = conn_closes; no_error = conn_closes }
    else record { channel_closed = r.channel; conn_closed = false; no_error = true }

-- The readings of `time.Now` and the results of `Qos`, one of each for a round. `none` says that the
-- list ended in front of the return.
unfoldable pub wait_until_ready : ℕ → List (ℕ × Bool) → Option Bool
wait_until_ready deadline [] = none
wait_until_ready deadline ((now, qos) ∷ rounds) =
    let rest = wait_until_ready deadline rounds in
    if ltb now deadline then (if qos then some true else rest) else some false
