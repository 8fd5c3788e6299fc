-- ===== src/Tests/Creations.antt =====
-- A call of `Create` on a store in memory.
use shortlink_system.Base.{
  ℕ, ◌+◌, ◌*◌, ◌∙◌, ◌<◌, ◌^◌, ◌≡◌, ◌≢◌, refl, sym, ap, length, Option, none, some, ◌++◌, List, [],
  ◌∷◌, bytes, text_eq, true, false, arith,
}
use shortlink_system.Redis.Memory.{empty, memory}
use shortlink_system.Redis.Pipelines.{success}
use shortlink_system.L1Cache.{new_l1_cache}
use shortlink_system.L1Cache.Contents.{new_l1_cache-Sound}
use shortlink_system.Base62.{default_alphabet}
use shortlink_system.Base62.Alphabet.{default_alphabet-IsAlphabet}
use shortlink_system.Snowflake.{generate, make_id}
use shortlink_system.Creation.{Tables, short_url, Conditions, Creator, create}
use shortlink_system.Snowflake.Order.{IsValid}
use shortlink_system.Creation.Commits.{extended}
use shortlink_system.Creation.Serving.{Serves, redirect-create}
use shortlink_system.Service.{ShortLink}
use shortlink_system.Base62.{decode}

abbrev pub conditions : Conditions
conditions = record {
  md5_hex = λ s. s;
  same_text = text_eq;
  looked_at = 5;
  stored_at = 6;
  indexed_at = 6;
  redis_get = true;
  find = true;
  redis_set = success;
  jitter = 9;
  clock = 1_767_225_601_000 ∷ [];
  begins = true;
  inserts = true;
  outbox_id = 1;
  outbox_time = 7;
  inserts_outbox = true;
  commits = true;
  carried_out = true;
  outcomes = λ i. success;
  cancelled = λ i. false;
}

abbrev pub creator : Creator memory
creator = record {
  node = record { timestamp = 0; node_id = 5; step = 0 };
  bloom = record { key = bytes "bloom"; size = 1000; seeds = 7 ∷ 12 ∷ [] };
  b62 = record { alphabet = default_alphabet };
  url_prefix = bytes "https://s/";
  l1_cache = new_l1_cache 1000 300;
  url_hash_l1 = new_l1_cache 1000 600;
  store = empty;
  tables = record { links = []; outbox = [] };
}

creator_worker : IsValid creator.node
creator_worker = record { node_fits = omega arith; step_fits = omega arith }

-- The state after the call.
abbrev created : Creator memory
created = elim (create memory conditions (bytes "http://x") creator) [
  | none ↦ creator
  | some (s, a) ↦ s
]

creates :
    create memory conditions (bytes "http://x") creator
    ≡ some (created, short_url (bytes "https://s/zfISlI"))
unfolding create text_eq shortlink_system.L1Cache.get new_l1_cache shortlink_system.Cache.get
    shortlink_system.Base.Maps.lookup shortlink_system.Cache.new_shard generate
    shortlink_system.Base62.encode make_id shortlink_system.L1Cache.set
    shortlink_system.Bloom.queue_add
creates = refl

one_link : length created.tables.links ≡ 1
unfolding create text_eq shortlink_system.L1Cache.get new_l1_cache shortlink_system.Cache.get
    shortlink_system.Base.Maps.lookup shortlink_system.Cache.new_shard generate
    shortlink_system.Base62.encode make_id shortlink_system.L1Cache.set
    shortlink_system.Bloom.queue_add
one_link = refl

redirect-create_example :
    (link : ShortLink) × (created.tables ≡ extended conditions link creator.tables)
    × (link.long_url ≡ bytes "http://x")
    × (decode creator.b62 link.short_code ≡ some link.id)
    × (bytes "https://s/zfISlI" ≡ creator.url_prefix ++ link.short_code)
    × Serves memory 6 creator.l1_cache link.short_code (bytes "http://x") created
redirect-create_example =
    redirect-create memory conditions (bytes "http://x") creator default_alphabet-IsAlphabet
      (ground arith) (new_l1_cache-Sound (λ k v. Unit) 1000 300)
      (new_l1_cache-Sound (λ k v. Unit) 1000 600) creator_worker created (bytes "https://s/zfISlI")
      creates changed
  where
    changed : created.tables ≢ creator.tables
    changed e = omega (arith, one_link, ap (λ (t : Tables). length t.links) e)
