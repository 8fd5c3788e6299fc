-- ===== src/Tests/Startups.antt =====
-- A process that comes up.
use shortlink_system.Base.{◌≡◌, refl, none, some, [], ◌∷◌, Text, bytes, Bool, true, false}
use shortlink_system.Redis.Memory.{empty, memory}
use shortlink_system.Config.{Config, load_config}
use shortlink_system.Storage.Setup.{client, new_storage}
use shortlink_system.Queue.{new_rabbit_mq}
use shortlink_system.Creation.{Tables, Conditions, create}
use shortlink_system.Creation.Outcomes.{Anything, Returns}
use shortlink_system.Startup.{
  World, Process, running, main, mq_failed, rabbit_mq_url, new_outbox_worker,
}
use shortlink_system.Startup.Booted.{Fresh, main-Returns}

abbrev file : Config
file = record {
  port = 8080;
  mode = bytes "release";
  master_dsn = bytes "m";
  slave_dsns = [];
  cluster_addrs = bytes "r" ∷ [];
  pass = [];
  node_id = 1;
  url_prefix = bytes "https://s/";
  rabbit_mq_url = [];
}

-- Everything answers, but the host does not tell its name.
abbrev world : Bool → World
world dials = record {
  read = true;
  unmarshalled = some file;
  get_string = λ key. [];
  opening = record { opens = λ dsn. true; has_handle = λ dsn. true };
  pings = λ c. true;
  host = record {
    checksum = λ ip. 70000;
    pod_ip = bytes "10.0.0.7";
    addrs = none;
    hostname = none;
    pid = bytes "7";
  };
  dialling = λ url. record {
    dial = dials;
    opens = true;
    exchange_declare = true;
    queue_declare = true;
    queue_bind = true;
  };
}

abbrev no_tables : Tables
no_tables = record { links = []; outbox = [] }

no_broker : main memory (world false) empty no_tables ≡ mq_failed
unfolding main load_config new_storage new_rabbit_mq shortlink_system.Snowflake.new_node
    shortlink_system.Snowflake.fetch_worker_id_by_ip
no_broker = refl

nameless : (new_outbox_worker (world true).host).worker_id ≡ bytes "unknown-7"
unfolding shortlink_system.Startup.host_name
nameless = refl

loads : load_config true (some file) (λ key. []) ≡ some file
unfolding load_config
loads = refl

opens :
    new_storage (world true).opening (λ c. true) (shortlink_system.Startup.storage_cfg file)
    ≡ some (record {
      master_db = bytes "m";
      slave_dbs = [];
      redis_client = client (bytes "r");
      read_index = 0;
    })
unfolding new_storage
opens = refl

dials :
    new_rabbit_mq ((world true).dialling (rabbit_mq_url file))
    ≡ some (record { conn = true; channel = true })
unfolding new_rabbit_mq
dials = refl

main-Returns_example :
    (p : Process memory) × (main memory (world true) empty no_tables ≡ running p)
    × (p.storage ≡ record {
      master_db = bytes "m";
      slave_dbs = [];
      redis_client = client (bytes "r");
      read_index = 0;
    })
    × (p.mq_client ≡ record { conn = true; channel = true })
    × Fresh memory empty no_tables p.svc
    × ((t : Conditions) (long_url : Text)
        → Returns memory Anything t long_url p.svc (create memory t long_url p.svc))
main-Returns_example =
    main-Returns memory (world true) empty no_tables file
      (record {
        master_db = bytes "m";
        slave_dbs = [];
        redis_client = client (bytes "r");
        read_index = 0;
      })
      (record { conn = true; channel = true }) loads opens dials
