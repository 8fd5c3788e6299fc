-- ===== src/Redis/Expiry.antt =====
-- Strings of Redis with the time at which they expire: GET, and SET with EX, at a reading of the
-- server's clock in seconds. From the expiry on the key reads as missing.
use shortlink_system.Base.{
  ℕ, ◌+◌, ◌≤◌, ◌≡◌, refl, Option, none, some, Text, text_eq, ltb, if◌then◌else◌,
}

pub record ExpiringRedis : Type 1 where
  pub Store : Type 0
  pub get : Store → Text → ℕ → Option Text
  pub set_ex : Store → Text → Text → ℕ → ℕ → Store
  pub get-set_ex :
      (s : Store) (k j v : Text) (ttl at now : ℕ)
      → at ≤ now
      → get (set_ex s k v ttl at) j now
        ≡ (if text_eq k j then (if ltb now (at + ttl) then some v else none) else get s j now)

-- A store in memory that meets the law.
abbrev pub expiring_memory : ExpiringRedis
expiring_memory = record {
  Store = Text → ℕ → Option Text;
  get = λ s k now. s k now;
  set_ex = λ s k v ttl at.
      λ j now. if text_eq k j then (if ltb now (at + ttl) then some v else none) else s j now;
  get-set_ex = λ s k j v ttl at now h. refl;
}
