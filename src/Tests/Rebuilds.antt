-- ===== src/Tests/Rebuilds.antt =====
-- A rebuild of the filter on a store in memory.
use shortlink_system.Base.{
  Text, text_eq, none, inl, inr, ℕ, ◌<◌, ◌≡◌, ◌≢◌, refl, some, List, [], ◌∷◌, bytes, true, false,
  arith,
}
use shortlink_system.Redis.Memory.{empty, memory}
use shortlink_system.Redis.Pipelines.{Command, success, set_bit, exec}
use shortlink_system.L1Cache.{new_l1_cache}
use shortlink_system.L1Cache.Contents.{new_l1_cache-Sound}
use shortlink_system.Bloom.{contains}
use shortlink_system.Storage.{get_read_db}
use shortlink_system.Service.{
  ShortLink, ShortLinkService, Weather, Answer, url, take_link, redirect, cache_key,
}
use shortlink_system.Service.Entries.{Holds}
use shortlink_system.Rebuild.{Rounds, rebuilt, rebuild_bloom, list_short_codes_after}
use shortlink_system.Rebuild.Order.{In}
use shortlink_system.Rebuild.Coverage.{rebuild_bloom-contains}
use shortlink_system.Rebuild.Termination.{rebuild_bloom_total}
use shortlink_system.Rebuild.Serving.{redirect-rebuild_bloom}

abbrev first : ShortLink
first = record {
  id = 3;
  short_code = bytes "ab";
  long_url = bytes "http://x";
  long_url_hash = bytes "f0";
}

abbrev second : ShortLink
second = record {
  id = 8;
  short_code = bytes "ac";
  long_url = bytes "http://y";
  long_url_hash = bytes "f1";
}

-- The rows behind an identifier, at most as many as asked for.
page : list_short_codes_after 0 1 (second ∷ first ∷ []) ≡ first ∷ []
unfolding list_short_codes_after
page = refl

abbrev rounds : Rounds
rounds = record {
  table = λ round. first ∷ second ∷ [];
  reads = λ round. true;
  writes = λ round. success;
}

abbrev service : ShortLinkService memory
service = record {
  l1_cache = new_l1_cache 1000 300;
  bloom = record { key = bytes "bloom"; size = 1000; seeds = 7 ∷ 12 ∷ [] };
  bloom_ready = false;
  store = empty;
}

abbrev pipe : List Command
pipe =
    set_bit (bytes "bloom") 777
    ∷ set_bit (bytes "bloom") 262
    ∷ set_bit (bytes "bloom") 778
    ∷ set_bit (bytes "bloom") 263
    ∷ []

abbrev filled : ShortLinkService memory
filled = record service { store = exec memory success empty pipe; bloom_ready = true }

rebuild_bloom-contains_example :
    (rebuilt ≡ rebuilt
      → (filled.bloom_ready ≡ true)
        × ((link : ShortLink)
            → 0 < link.id
            → ((round : ℕ) → In link (rounds.table round))
            → contains memory filled.bloom true filled.store link.short_code ≡ some (some true)))
    × (rebuilt ≢ rebuilt → filled.bloom_ready ≡ service.bloom_ready)
unfolding rebuild_bloom
rebuild_bloom-contains_example =
    rebuild_bloom-contains memory rounds 2 service filled rebuilt
      (λ round. ((omega arith, tt), (tt, tt))) refl

rebuild_bloom_total_example :
    (s' : ShortLinkService memory) × (rebuild_bloom memory rounds 3 service ≡ some (s', rebuilt))
    × (s'.bloom_ready ≡ true)
rebuild_bloom_total_example =
    rebuild_bloom_total memory rounds (first ∷ second ∷ []) (λ round. refl) (λ round. refl)
      (λ round. refl) service (omega arith)

-- The replica has nothing yet.
abbrev weather : Weather
weather = record {
  same_text = text_eq;
  first_look = 10;
  second_look = 11;
  stored_at = 12;
  redis_get = true;
  bloom_run = true;
  slave_dbs = record { reachable = true; links = [] } ∷ [];
  read_index = 0;
  master = record { reachable = true; links = first ∷ second ∷ [] };
  redis_set = success;
  jitter = 7;
}

rebuilds : rebuild_bloom memory rounds 2 service ≡ some (filled, rebuilt)
unfolding rebuild_bloom
rebuilds = refl

redirect-rebuild_bloom_example :
    (filled.bloom_ready ≡ true)
    × ((s'' : ShortLinkService memory) × (redirect memory weather none (bytes "ab") filled
          ≡ some (s'', url (bytes "http://x")))
        × Holds memory (λ k v. k ≡ cache_key (bytes "ab") → v ≡ bytes "http://x") s'')
unfolding take_link text_eq get_read_db
redirect-rebuild_bloom_example =
    redirect-rebuild_bloom memory rounds 2 service filled first weather
      (record { reachable = true; links = [] }) none (λ round. ((omega arith, tt), (tt, tt)))
      rebuilds (omega arith) (λ round. inl refl) (λ e. cc) refl (inr refl) refl
      (record {
        sound =
            new_l1_cache-Sound (λ k v. k ≡ cache_key (bytes "ab") → v ≡ bytes "http://x") 1000 300;
        kept = λ k v e. absurd (nothing v e);
      })
      refl (omega arith) no_other
  where
    nothing : (v : Text) → none ≡ some v → ⊥
    nothing v e = cc

    no_other : (a : Answer) → none ≡ some a → a ≡ url (bytes "http://x")
    no_other a e = absurd (impossible e)
      where
        impossible : none ≡ some a → ⊥
        impossible e = cc
