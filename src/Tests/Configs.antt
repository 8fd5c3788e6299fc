-- ===== src/Tests/Configs.antt =====
-- Lists in the environment.
use shortlink_system.Base.{◌≡◌, refl, some, [], ◌∷◌, bytes, text_eq, true, if◌then◌else◌}
use shortlink_system.Config.{Config, split_non_empty, load_config}

spaced : split_non_empty (bytes " a:1 ,,  b c,") ≡ bytes "a:1" ∷ bytes "b c" ∷ []
unfolding split_non_empty
spaced = refl

abbrev file : Config
file = record {
  port = 8080;
  mode = bytes "release";
  master_dsn = bytes "m";
  slave_dsns = bytes "s" ∷ [];
  cluster_addrs = bytes "r" ∷ [];
  pass = [];
  node_id = 1;
  url_prefix = bytes "http://s/";
  rabbit_mq_url = bytes "amqp://q";
}

-- The variables for one slave each win over the list, and what is not set stays.
overridden :
    load_config true (some file) (λ key.
      if text_eq key (bytes "mysql.slave2_dsn")
      then bytes " t "
      else if text_eq key (bytes "database.mysql.slave_dsns")
      then bytes "u,v"
      else [])
    ≡ some (record file { slave_dsns = bytes "t" ∷ [] })
unfolding load_config text_eq
overridden = refl
