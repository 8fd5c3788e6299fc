-- ===== src/Config.antt =====
-- pkg/config/config.go: the configuration, its file and the environment. The library viper is a
-- function from keys to texts.
pub mod Blanks
pub mod Items
use mathlib.Core.List.{reverse}
use shortlink_system.Base.{
  ℕ, Option, none, some, List, [], ◌∷◌, ◌++◌, Text, bytes, text_eq, Bool, true, false, ltb, leb,
  ◌==◌, ◌&&◌, ◌||◌, length, if◌then◌else◌,
}

-- The server section has the port and the mode.
pub record Config : Type 0 where
  pub port : ℕ
  pub mode : Text
  pub master_dsn : Text
  pub slave_dsns : List Text
  pub cluster_addrs : List Text
  pub pass : Text
  pub node_id : ℕ
  pub url_prefix : Text
  pub rabbit_mq_url : Text

-- `unicode.IsSpace` on ASCII.
abbrev pub is_space : ℕ → Bool
is_space c = (leb 9 c && leb c 13) || (c == 32)

unfoldable pub trim_left : Text → Text
trim_left [] = []
trim_left (c ∷ s) = let rest = trim_left s in if is_space c then rest else c ∷ s

-- `strings.TrimSpace`
unfoldable pub trim_space : Text → Text
unfolding trim_left
trim_space s = reverse (trim_left (reverse (trim_left s)))

-- `strings.Split(value, ",")`, the item that is read in front.
unfoldable pub split_from : Text → Text → List Text
split_from item [] = item ∷ []
split_from item (c ∷ s) =
    if c == b',' then item ∷ split_from [] s else split_from (item ++ c ∷ []) s

unfoldable pub split : Text → List Text
unfolding split_from
split value = split_from [] value

-- The loop over the items.
unfoldable pub keep_non_empty : List Text → List Text
unfolding trim_space text_eq
keep_non_empty [] = []
keep_non_empty (item ∷ items) =
    let rest = keep_non_empty items in
    if text_eq (trim_space item) [] then rest else trim_space item ∷ rest

unfoldable pub split_non_empty : Text → List Text
unfolding keep_non_empty split
split_non_empty value = if text_eq (trim_space value) [] then [] else keep_non_empty (split value)

abbrev pub bindings : List (Text × List Text)
bindings =
    (bytes "server.mode", bytes "SERVER_MODE" ∷ bytes "GIN_MODE" ∷ [])
    ∷ (bytes "server.port", bytes "SERVER_PORT" ∷ [])
    ∷ (
      bytes "database.mysql.master_dsn",
      bytes "DATABASE_MYSQL_MASTER_DSN" ∷ bytes "MYSQL_MASTER_DSN" ∷ [],
    )
    ∷ (
      bytes "database.mysql.slave_dsns",
      bytes "DATABASE_MYSQL_SLAVE_DSNS" ∷ bytes "MYSQL_SLAVE_DSNS" ∷ [],
    )
    ∷ (
      bytes "database.redis.cluster_addrs",
      bytes "DATABASE_REDIS_CLUSTER_ADDRS" ∷ bytes "REDIS_CLUSTER_ADDRS" ∷ [],
    )
    ∷ (bytes "database.redis.pass", bytes "DATABASE_REDIS_PASS" ∷ bytes "REDIS_PASSWORD" ∷ [])
    ∷ (bytes "app.node_id", bytes "APP_NODE_ID" ∷ [])
    ∷ (bytes "app.url_prefix", bytes "APP_URL_PREFIX" ∷ bytes "URL_PREFIX" ∷ [])
    ∷ (bytes "mq.rabbitmq.url", bytes "MQ_RABBITMQ_URL" ∷ bytes "RABBITMQ_URL" ∷ [])
    ∷ (bytes "mysql.slave1_dsn", bytes "MYSQL_SLAVE1_DSN" ∷ [])
    ∷ (bytes "mysql.slave2_dsn", bytes "MYSQL_SLAVE2_DSN" ∷ [])
    ∷ []

-- The data source names of the variables for one slave each.
unfoldable pub single_slaves : (Text → Text) → List Text
unfolding trim_space text_eq
single_slaves get_string =
    let slave1 = trim_space (get_string (bytes "mysql.slave1_dsn")) in
    let slave2 = trim_space (get_string (bytes "mysql.slave2_dsn")) in
    (if text_eq slave1 [] then [] else slave1 ∷ [])
    ++ (if text_eq slave2 [] then [] else slave2 ∷ [])

-- `if len(items) > 0 { *field = items }`
abbrev pub override : List Text → List Text → List Text
override [] field = field
override (item ∷ items) field = item ∷ items

unfoldable pub apply_env_slices : (Text → Text) → Config → Config
unfolding split_non_empty single_slaves
apply_env_slices get_string cfg = record cfg {
  slave_dsns =
      override (single_slaves get_string) (
        override (split_non_empty (get_string (bytes "database.mysql.slave_dsns"))) cfg.slave_dsns);
  cluster_addrs =
      override (split_non_empty (get_string (bytes "database.redis.cluster_addrs")))
        cfg.cluster_addrs;
}

-- `read` and `unmarshalled` are what viper answers; `none` is an error.
unfoldable pub load_config : Bool → Option Config → (Text → Text) → Option Config
unfolding apply_env_slices
load_config read unmarshalled get_string =
    if read
    then (elim unmarshalled [ none ↦ none | some cfg ↦ some (apply_env_slices get_string cfg) ])
    else none
