-- ===== src/Tests/Redirects.antt =====
-- Redirects on a store in memory.
use shortlink_system.Base.{
  ◌≡◌, refl, ◌⊎◌, inl, inr, none, some, [], ◌∷◌, Text, bytes, text_eq, Bool, true, false, ltb, ◌+◌,
  ◌&&◌, if◌then◌else◌, arith,
}
use mathlib.Core.List.{Mem, not-mem-nil}
use shortlink_system.Redis.Memory.{empty, memory}
use shortlink_system.Redis.Pipelines.{success}
use shortlink_system.L1Cache.{new_l1_cache}
use shortlink_system.L1Cache.Contents.{new_l1_cache-Sound}
use shortlink_system.Service.{
  ShortLink, Weather, Answer, url, take_link, Replica, chosen, Shows, ShortLinkService, redirect,
  cache_key,
}
use mathlib.Core.Path.{subst}
use shortlink_system.Storage.{get_read_db}
use shortlink_system.Service.Entries.{Holds}
use shortlink_system.Service.Redirects.{Stored, Right, redirect-Right, redirect_finds}

abbrev pub stored : ShortLink
stored = record {
  id = 10;
  short_code = bytes "aB";
  long_url = bytes "http://x";
  long_url_hash = bytes "f0";
}

-- The replica lags behind the master, and nothing is cached.
abbrev pub lagging : Weather
lagging = record {
  same_text = text_eq;
  first_look = 10;
  second_look = 11;
  stored_at = 12;
  redis_get = true;
  bloom_run = false;
  slave_dbs = record { reachable = true; links = [] } ∷ [];
  read_index = 0;
  master = record { reachable = true; links = stored ∷ [] };
  redis_set = success;
  jitter = 7;
}

abbrev pub fresh : Bool → ShortLinkService memory
fresh ready = record {
  l1_cache = new_l1_cache 1000 300;
  bloom = record { key = bytes "bloom"; size = 1000; seeds = 7 ∷ 12 ∷ [] };
  bloom_ready = ready;
  store = empty;
}

pub fresh-Holds : (P : Text → Text → Type 0) (ready : Bool) → Holds memory P (fresh ready)
fresh-Holds P ready = record {
  sound = new_l1_cache-Sound P 1000 300;
  kept = λ k v e. absurd (nothing v e);
}
  where
    nothing : (v : Text) → none ≡ some v → ⊥
    nothing v e = cc

redirect-Right_example :
    ((s' : ShortLinkService memory) × (a : Answer) × (redirect memory lagging none
          (bytes "aB")
          (fresh true)
        ≡ some (s', a))
      × Holds memory (Stored text_eq (stored ∷ [])) s'
      × Right text_eq (stored ∷ []) (bytes "aB") a)
    ⊎ ((chosen lagging ≡ none) × (redirect memory lagging none (bytes "aB") (fresh true) ≡ none))
unfolding get_read_db
redirect-Right_example =
    redirect-Right memory lagging (stored ∷ []) (bytes "aB") (fresh true) none only_stored
      (fresh-Holds (Stored text_eq (stored ∷ [])) true) (ground arith) no_other
  where
    same :
        {replica : Replica}
        → some (record { reachable = true; links = [] }) ≡ some replica
        → replica ≡ record { reachable = true; links = [] }
    same e = cc

    only_stored : (l : ShortLink) → Shows lagging l → Mem l (stored ∷ [])
    only_stored l (inl (replica, is, m)) =
        absurd (not-mem-nil (subst (λ (db : Replica). Mem l db.links) (same is) m))
    only_stored l (inr m) = m

    no_other : (a : Answer) → none ≡ some a → Right text_eq (stored ∷ []) (bytes "aB") a
    no_other a e = absurd (impossible e)
      where
        impossible : none ≡ some a → ⊥
        impossible e = cc

-- A collation that does not tell the two cases of a letter apart, on the codes of this test.
abbrev lower : Text → Text
lower [] = []
lower (c ∷ s) = (if ltb 64 c && ltb c 91 then c + 32 else c) ∷ lower s

-- The code "ab" is not stored, but the link "aB" answers.
redirect_finds_example :
    (s' : ShortLinkService memory) × (redirect memory
        (record lagging { same_text = λ s t. text_eq (lower s) (lower t) })
        none
        (bytes "ab")
        (fresh false)
      ≡ some (s', url (bytes "http://x")))
    × Holds memory (λ k v. k ≡ cache_key (bytes "ab") → v ≡ bytes "http://x") s'
unfolding text_eq take_link get_read_db
redirect_finds_example =
    redirect_finds memory (record lagging { same_text = λ s t. text_eq (lower s) (lower t) })
      (record { reachable = true; links = [] }) stored (bytes "ab") (fresh false) none (λ e. cc)
      refl (inr refl) refl
      (fresh-Holds (λ k v. k ≡ cache_key (bytes "ab") → v ≡ bytes "http://x") false) (ground arith)
      (λ e. cc) no_other
  where
    no_other : (a : Answer) → none ≡ some a → a ≡ url (bytes "http://x")
    no_other a e = absurd (impossible e)
      where
        impossible : none ≡ some a → ⊥
        impossible e = cc
