-- ===== src/Tests/Worlds.antt =====
-- Two pods, a link that is asked for twice, and a redirect, call by call.
use shortlink_system.Base.{
  ℕ, ◌+◌, ◌*◌, ◌≡◌, ◌≢◌, ◌⊎◌, get_elem?, refl, sym, ap, ◌∙◌, Option, none, some, List, [], ◌∷◌,
  ◌++◌, Text, bytes, text_eq, text_eq_iff, text_eq_refl, text_eq_comm, Bool, true, false, ◌==◌,
  Bool-cases, inl, inr, arith,
}
use shortlink_system.Redis.Memory.{empty, memory}
use shortlink_system.L1Cache.{new_l1_cache}
use shortlink_system.Creation.{Creator, Created, short_url, Conditions, create}
use shortlink_system.Service.{ShortLink, ShortLinkService, Answer, Weather, url, redirect}
use shortlink_system.Startup.{
  Host, l1_cache_capacity, l1_cache_ttl, url_hash_capacity, url_hash_ttl, new_short_link_service,
}
use shortlink_system.System.{
  Deployment, World, Pod, put_pod, creator, service, in_deployment, in_collation, starts, Initial,
  Reach, initial, next,
}
use shortlink_system.System.Unique.{Collation}
use shortlink_system.Tests.Outboxes.{database}
use shortlink_system.Tests.Deliveries.{json}
use shortlink_system.Tests.Creations.{conditions}
use shortlink_system.Tests.Redirects.{lagging}

abbrev pub deployment : Deployment
deployment = record {
  md5_hex = λ s. s;
  same_text = text_eq;
  url_prefix = bytes "https://s/";
  json = json;
  db = database;
}

pub text_eq-Collation : Collation text_eq
text_eq-Collation = record {
  same_refl = text_eq_refl;
  same_sym = text_eq_comm;
  same_trans = λ s t u e f. (text_eq_iff s u).1 ((text_eq_iff s t).0 e ∙ (text_eq_iff t u).0 f);
}

abbrev pub W : Type 0
W = World memory deployment

abbrev pub nothing : W
nothing = record {
  pods = λ i. none;
  tables = record { links = []; outbox = [] };
  store = empty;
  queue = [];
  redirects = [];
  creates = [];
}

abbrev pub host : Host
host = record {
  checksum = λ ip. 5;
  pod_ip = bytes "10.0.0.7";
  addrs = none;
  hostname = none;
  pid = bytes "7";
}

abbrev pub pod : Pod
pod = record {
  node = record { timestamp = 0; node_id = 5; step = 0 };
  l1_cache = new_l1_cache l1_cache_capacity l1_cache_ttl;
  url_hash_l1 = new_l1_cache url_hash_capacity url_hash_ttl;
  bloom_ready = false;
}

abbrev pub two_pods : W
two_pods = put_pod memory deployment 2 pod (put_pod memory deployment 1 pod nothing)

pub two_pods-Reach : Reach memory deployment two_pods
unfolding new_short_link_service shortlink_system.Snowflake.new_node
    shortlink_system.Snowflake.fetch_worker_id_by_ip
two_pods-Reach =
    next
      (next (initial nothing-Initial) (starts 1 host (creator memory deployment nothing pod) refl))
      (starts 2 host (creator memory deployment (put_pod memory deployment 1 pod nothing) pod) refl)
  where
    nothing-Initial : Initial memory deployment nothing
    nothing-Initial = record {
      no_pods = λ i. refl;
      no_links = refl;
      no_outbox = refl;
      no_keys = λ k. refl;
      no_queue = refl;
      no_redirects = refl;
      no_creates = refl;
    }

-- One second later for each call.
abbrev pub conditions_at : ℕ → Conditions
conditions_at n = record conditions {
  clock = (1_767_225_601_000 + n) ∷ [];
  looked_at = n;
  stored_at = n;
  indexed_at = n;
}

-- The state after a call, and what it answers.
abbrev pub called : Creator memory → Option (Creator memory × Created) → Creator memory × Created
called s none = (s, short_url [])
called s (some x) = x

-- `Create` on a pod.
abbrev pub call : ℕ → Text → Pod → W → Creator memory × Created
call n long_url p w =
    let s = creator memory deployment w p in
    called s (create memory (in_deployment memory deployment (conditions_at n)) long_url s)

abbrev pub after_call : ℕ → Text → Pod → Creator memory × Created → W → W
after_call i long_url p (s, a) w =
    put_pod memory deployment i
      (record p { node = s.node; l1_cache = s.l1_cache; url_hash_l1 = s.url_hash_l1 })
      (record w { tables = s.tables; store = s.store; creates = (long_url, a) ∷ w.creates })

abbrev pub pod_after : Pod → Creator memory → Pod
pod_after p s = record p { node = s.node; l1_cache = s.l1_cache; url_hash_l1 = s.url_hash_l1 }

abbrev pub once : W
once = after_call 1 (bytes "http://x") pod (call 1 (bytes "http://x") pod two_pods) two_pods

abbrev pub twice : W
twice = after_call 2 (bytes "http://x") pod (call 2 (bytes "http://x") pod once) once

abbrev pub pod_2 : Pod
pod_2 = pod_after pod (call 2 (bytes "http://x") pod once).0

abbrev pub thrice : W
thrice = after_call 2 (bytes "http://y") pod_2 (call 3 (bytes "http://y") pod_2 twice) twice

abbrev pub pod_3 : Pod
pod_3 = pod_after pod_2 (call 3 (bytes "http://y") pod_2 twice).0

abbrev pub short_x : Text
short_x = bytes "zF9J0T"

-- The tables cannot be asked.
abbrev pub cut_off : Weather
cut_off = record lagging {
  slave_dbs = record { reachable = false; links = [] } ∷ [];
  read_index = 0;
  master = record { reachable = false; links = [] };
}

-- `Redirect` on the second pod.
abbrev pub followed : Option (ShortLinkService memory × Answer) → ShortLinkService memory × Answer
followed none = (service memory deployment thrice pod_3, url [])
followed (some x) = x

abbrev pub redirected : ShortLinkService memory × Answer
redirected = followed (
    redirect memory (in_collation memory deployment cut_off) none short_x
      (service memory deployment thrice pod_3))

abbrev pub served : W
served =
    put_pod memory deployment 2 (record pod_3 { l1_cache = redirected.0.l1_cache })
      (record thrice {
        store = redirected.0.store;
        redirects = (short_x, redirected.1) ∷ thrice.redirects;
      })

-- The code again, on the same pod, whose local cache has it by now.
abbrev pub pod_4 : Pod
pod_4 = record pod_3 { l1_cache = redirected.0.l1_cache }

abbrev pub again : ShortLinkService memory × Answer
again = followed (
    redirect memory (in_collation memory deployment cut_off) none short_x
      (service memory deployment served pod_4))

abbrev pub served_again : W
served_again =
    put_pod memory deployment 2 (record pod_4 { l1_cache = again.0.l1_cache })
      (record served { store = again.0.store; redirects = (short_x, again.1) ∷ served.redirects })

abbrev pub Happens : Type 0
Happens =
    (create memory (in_deployment memory deployment (conditions_at 1)) (bytes "http://x")
        (creator memory deployment two_pods pod)
      ≡ some (call 1 (bytes "http://x") pod two_pods))
    × (create memory (in_deployment memory deployment (conditions_at 2)) (bytes "http://x")
          (creator memory deployment once pod)
        ≡ some (call 2 (bytes "http://x") pod once))
    × (create memory (in_deployment memory deployment (conditions_at 3)) (bytes "http://y")
          (creator memory deployment twice pod_2)
        ≡ some (call 3 (bytes "http://y") pod_2 twice))
    × (redirect memory (in_collation memory deployment cut_off) none short_x
          (service memory deployment thrice pod_3)
        ≡ some redirected)
    × (served.creates
        ≡ (bytes "http://y", short_url (bytes "https://s/zFynbh"))
          ∷ (bytes "http://x", short_url (bytes "https://s/zF9J0T"))
          ∷ (bytes "http://x", short_url (bytes "https://s/zF9J0T"))
          ∷ [])
    × (served.redirects ≡ (short_x, url (bytes "http://x")) ∷ [])
    × (redirect memory (in_collation memory deployment cut_off) none short_x
          (service memory deployment served pod_4)
        ≡ some again)
    × (served_again.redirects
        ≡ (short_x, url (bytes "http://x")) ∷ (short_x, url (bytes "http://x")) ∷ [])

pub happens : Happens
unfolding create redirect text_eq shortlink_system.L1Cache.get new_l1_cache
    shortlink_system.Cache.get shortlink_system.Base.Maps.lookup shortlink_system.Cache.new_shard
    shortlink_system.Snowflake.generate shortlink_system.Base62.encode
    shortlink_system.Base62.new_base62 shortlink_system.Snowflake.make_id
    shortlink_system.L1Cache.set shortlink_system.Bloom.queue_add
    shortlink_system.Bloom.new_redis_bloom shortlink_system.Service.Retries.with_retry
    shortlink_system.Cache.set shortlink_system.Base.Maps.insert
happens = (refl, refl, refl, refl, refl, refl, refl, refl)
