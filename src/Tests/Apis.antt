-- ===== src/Tests/Apis.antt =====
-- Responses of the handlers, on the store of the redirects.
use shortlink_system.Base.{◌≡◌, ◌≢◌, refl, none, some, [], ◌∷◌, bytes, true, false, arith}
use shortlink_system.Redis.Memory.{memory}
use shortlink_system.Storage.{get_read_db}
use shortlink_system.Service.{Weather, Answer, query_failed, query, ShortLinkService, cache_key}
use shortlink_system.Service.Entries.{Holds}
use shortlink_system.Api.{json_error, redirect_handler, ready_check, degraded}
use shortlink_system.Api.Statuses.{redirect_handler-outage}
use shortlink_system.Tests.Redirects.{stored, lagging, fresh, fresh-Holds}

-- Both databases are down.
abbrev outage : Weather
outage = record lagging {
  slave_dbs = record { reachable = false; links = [] } ∷ [];
  read_index = 0;
  master = record { reachable = false; links = stored ∷ [] };
}

redirect_handler-outage_example :
    (s' : ShortLinkService memory) × (redirect_handler memory outage none (bytes "aB") (fresh false)
      ≡ some (s', json_error 404))
    × Holds memory (λ k v. k ≢ cache_key (bytes "aB")) s'
unfolding query get_read_db
redirect_handler-outage_example =
    redirect_handler-outage memory outage (bytes "aB") (fresh false) none refl
      (fresh-Holds (λ k v. k ≢ cache_key (bytes "aB")) false) (ground arith) (λ e. cc) no_other
  where
    no_other : (a : Answer) → none ≡ some a → a ≡ query_failed
    no_other a e = absurd (impossible e)
      where
        impossible : none ≡ some a → ⊥
        impossible e = cc

probe : (ready_check true false).status ≡ degraded
unfolding ready_check
probe = refl
