-- ===== src/Lib.antt =====
-- A verification library for the short link service: a long URL is given an identifier by a
-- snowflake generator, the identifier is written in base 62 as the short code, the pair is stored
-- in MySQL together with an outbox row in one transaction, and local caches, Redis and a Bloom
-- filter answer most reads. A worker sends the outbox rows to RabbitMQ, and a consumer brings the
-- caches up to date.
--
-- Which file models which part:
--
-- - Base62 and below: pkg/base62/base62.go, and the type of the short codes. NewBase62, Encode
--   and Decode are new_base62, encode and decode; the loops are encode_loop and decode_loop. A Go
--   string is the list of its bytes, `none` of an encoder is a panic, of the decoder the error.
--   The index into the buffer of 11 bytes is what encode_loop recurs on.
-- - Snowflake and below: pkg/snowflake/snowflake.go. Generate is generate, with after_sleep,
--   tick, spin and issue for its parts. The clock is the list of the readings to come, and the
--   outcome `waiting` says that the list ended before the call returned; generate-ne-waiting says
--   which readings are enough.
-- - Redis and below: an interface for the Redis server, which is not part of the repository, with
--   the laws that are used, and an instance in memory. A pipeline that fails has applied some of
--   its commands.
-- - Bloom and below: pkg/bloom/bloom.go, over that interface.
-- - Cache and below: one shard of pkg/cache/l1cache.go. The elements of container/list are
--   numbers into a heap of entries. Cache.Lru is the specification, a list of entries in order of
--   use. evict_loop has the length of the list as fuel, one more than it can use.
-- - L1Cache and below: the 256 shards of pkg/cache/l1cache.go behind FNV-1a.
-- - Outbox and below: internal/model/outbox.go and internal/repository/outbox.go. The table is
--   the list of its rows, and each SQL statement a function on it. What a SELECT returns is an
--   interface with laws; which calls fail, and which of those were carried out all the same, is an
--   argument. Outbox.History has the statements of all workers one after the other, Outbox.Lease
--   and Outbox.Tries what holds of the rows under them.
-- - OutboxWorker and below: internal/worker/outbox.go. Start is start, a loop over the list of
--   what its select meets; processPending is process_pending, with the answers of the database
--   and of RabbitMQ as arguments (Round).
-- - Service and below: Redirect, resolveRedirect, writeThrough and withRetry of
--   internal/service/shortlink.go, which are redirect, resolve_redirect with from_redis,
--   from_bloom and from_tables for its parts, write_through and with_retry. What the services
--   answer, the readings of the clock and the collation of the tables are arguments (Weather);
--   the result of a concurrent call that singleflight hands out is one too; `none` is a panic, of
--   GetReadDB for one, which query takes its database from. The attempts of
--   with_retry are the recursion of retry_loop.
-- - Creation and below: Create of internal/service/shortlink.go is create, with from_index,
--   from_master, create_link, transact and after_commit for its parts; Creation.Outcomes says
--   what it may leave behind, for any meaning that the entries of the caches have, and
--   Creation.Serving goes on with a redirect. The MD5 digest, the answers of the services and the
--   collation are arguments (Conditions).
-- - Consumer and below: handleMessage of internal/worker/consumer.go, whose withRetry is the same
--   loop.
-- - Storage and below: internal/repository/storage.go. Storage has GetReadDB, whose counter is
--   kept as the 32 bits of its int32, with the signed remainder and the index of Go, and any type
--   for a database; Storage.HashTags the keys with hash tags, Storage.Batches the pipelines of SET
--   and GET, Storage.Setup NewStorage with the answers of the services as arguments.
-- - RateLimit and below: internal/middleware/ratelimit.go. The Lua script is token_bucket, with
--   read_bucket, refill and write_bucket for its parts, its run on the server run_script;
--   RateLimit.Bucket has the specification, a number of tokens and a time. The decimal numbers of
--   Lua are an interface that is right up to 14 digits, golang.org/x/time/rate is one without
--   laws, and Redis one with the time to live (Redis.Expiry).
-- - Rebuild and below: RebuildBloom of internal/service/shortlink.go and ListShortCodesAfter.
--   What the rounds of the loop meet is an argument (Rounds), and ORDER BY is an insertion sort,
--   by_id; the loop has fuel, and rebuild_bloom_total says how much is enough.
-- - Queue and below: pkg/mq/rabbitmq.go. The select of Consume runs over a list of events;
--   Queue.Draining puts a broker around it that delivers a message again which was given back,
--   with a bound on the deliveries as fuel.
-- - Delivery and below: publish of internal/worker/outbox.go, and the callback that Start of
--   internal/worker/consumer.go gives to Consume: from a row of the outbox through the queue to
--   the caches. Delivery.Draining runs the broker of Queue.Draining with this consumer through an
--   outage, which is the list of what the failing calls meet.
-- - Config and below: pkg/config/config.go, with viper as a function from keys to texts.
-- - Api and below: internal/api/handler.go and internal/api/health.go. A handler maps the result
--   of the service to a status and a body.
-- - System and below: the parts together. A world has the pods, each with its generator and local
--   caches, Redis, the tables, the bodies that were published and what was answered so far; a
--   step is a call of Create, Redirect or RebuildBloom on a pod, the delivery of a body, a round
--   of the worker, a publication, the start or the end of a pod, or the loss of keys of Redis.
--   The handlers are those of the other modules, with any behaviour of the services, any readings
--   of the clock and replicas that lag behind. A call is one step, so calls that overlap are only
--   there as the result that singleflight shares and as failures. System.Registry is the
--   specification, a map from codes to URLs; System.Invariant holds of every world that can be
--   reached. A call that panics is no step.
-- - Startup and below: cmd/server/main.go, up to the routes and from the signal to the end,
--   NewShortLinkService, NewOutboxWorker and NewCacheSyncConsumer. What the host and the services
--   answer is an argument (World); a call of log.Fatalf is a constructor of Boot.
-- - Base and below hold what the others share: names of the libraries, lists, texts, maps, bit
--   operations. Tests and below hold runs on concrete inputs and the theorems at concrete inputs.
--
-- Not modelled: the settings of connections, the HTTP server, the YAML and Kubernetes files and
-- logging, which are input and output around third-party libraries; locks and goroutines of one
-- process, since the methods that are modelled run under one lock each or in one database
-- statement or transaction; blanks beyond ASCII, which strings.TrimSpace takes off too; the time
-- to live of keys of Redis outside of the rate limiter, where a key is lost at any time instead.
pub mod Base
pub mod Base62
pub mod Snowflake
pub mod Redis
pub mod Bloom
pub mod Cache
pub mod L1Cache
pub mod Outbox
pub mod OutboxWorker
pub mod Service
pub mod Consumer
pub mod Creation
pub mod Storage
pub mod RateLimit
pub mod Rebuild
pub mod Queue
pub mod Delivery
pub mod Config
pub mod Api
pub mod Startup
pub mod System
mod Tests
