-- ===== src/Service/Entries.antt =====
-- Predicates on the entries of the local cache and of Redis.
use shortlink_system.Base.{Text}
use shortlink_system.Redis.{Redis}
use shortlink_system.Redis.Entries.{Kept}
use shortlink_system.L1Cache.Contents.{Sound}
use shortlink_system.Service.{ShortLinkService}

module _ (r : Redis) (P : Text → Text → Type 0) where
  -- Both caches hold only entries that satisfy `P`.
  pub record Holds (s : ShortLinkService r) : Type 0 where
    pub sound : Sound P s.l1_cache
    pub kept : Kept r P s.store
