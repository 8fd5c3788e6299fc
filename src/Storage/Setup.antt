-- ===== src/Storage/Setup.antt =====
-- internal/repository/storage.go: what `NewStorage` connects to.
use shortlink_system.Base.{ℕ, Option, none, some, List, [], ◌∷◌, Text, Bool, ◌&&◌, if◌then◌else◌}

-- `Config` of the package.
pub record Config : Type 0 where
  pub master_dsn : Text
  pub slave_dsns : List Text
  pub redis_addrs : List Text
  pub redis_pass : Text

-- What opening a database meets. A migration that fails is only logged.
pub record Opening : Type 0 where
  pub opens : Text → Bool
  pub has_handle : Text → Bool

pub data RedisClient : Type 0 where
  cluster : List Text → RedisClient
  client : Text → RedisClient

pub record Storage : Type 0 where
  pub master_db : Text
  pub slave_dbs : List Text
  pub redis_client : RedisClient
  pub read_index : ℕ

abbrev pub init_db : Opening → Text → Bool
init_db o dsn = o.opens dsn && o.has_handle dsn

-- A slave that cannot be reached is left out.
unfoldable pub open_slaves : Opening → List Text → List Text
open_slaves o [] = []
open_slaves o (dsn ∷ dsns) =
    let rest = open_slaves o dsns in if init_db o dsn then dsn ∷ rest else rest

unfoldable pub new_redis_client : List Text → Option RedisClient
new_redis_client [] = none
new_redis_client (addr ∷ []) = some (client addr)
new_redis_client (addr ∷ next ∷ addrs) = some (cluster (addr ∷ next ∷ addrs))

-- `none` is an error. `pings` says which client answers.
unfoldable pub new_storage : Opening → (RedisClient → Bool) → Config → Option Storage
unfolding open_slaves new_redis_client
new_storage o pings cfg =
    let connected : Option Storage = elim (new_redis_client cfg.redis_addrs) [
      | none ↦ none
      | some c ↦
          if pings c
          then some (record {
            master_db = cfg.master_dsn;
            slave_dbs = open_slaves o cfg.slave_dsns;
            redis_client = c;
            read_index = 0;
          })
          else none
    ] in
    if init_db o cfg.master_dsn then connected else none
