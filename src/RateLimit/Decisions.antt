-- ===== src/RateLimit/Decisions.antt =====
-- What one request changes, on every path.
use shortlink_system.Base.{
  ℕ, ◌≡◌, ◌≤◌, refl, ◌∙◌, inl, inr, some, Text, Bool, true, false, text_eq, Option-cases, arith,
}
use shortlink_system.Base.Maps.{lookup, lookup-insert}
use shortlink_system.Redis.Expiry.{ExpiringRedis}
use shortlink_system.RateLimit.{
  Lua, RateLimiter, Call, answered, given_up, Request, Limits, bucket_ttl, limit_key, allow,
  limiter_of, fall_back, token_bucket, run_script, rate_limit_middleware,
}

limit_key-text_eq : (ip j : Text) → text_eq (limit_key ip) (limit_key j) ≡ text_eq ip j
unfolding text_eq
limit_key-text_eq ip j = refl

-- What the limits hold of an address, from `at` on.
pub record Same (r : ExpiringRedis) (rl : RateLimiter) (j : Text) (at : ℕ) (s s' : Limits r rl)
    : Type 0 where
  pub bucket : (t : ℕ) → at ≤ t → r.get s'.store (limit_key j) t ≡ r.get s.store (limit_key j) t
  pub limiter : lookup j s'.fallback.limiters ≡ lookup j s.fallback.limiters

module _ (lua : Lua) (r : ExpiringRedis) (rl : RateLimiter) (capacity fill_rate : ℕ) where
  run_script_other :
      (ip j : Text) (now at : ℕ) (s s' : r.Store) (allowed : Bool)
      → text_eq ip j ≡ false
      → run_script lua r (limit_key ip) capacity fill_rate now 1 at s ≡ some (s', allowed)
      → (t : ℕ) → at ≤ t
      → r.get s' (limit_key j) t ≡ r.get s (limit_key j) t
  unfolding run_script
  run_script_other ip j now at s s' allowed h e t le =
      let key_other : text_eq (limit_key ip) (limit_key j) ≡ false = limit_key-text_eq ip j ∙ h in
      elim (Option-cases (token_bucket lua capacity fill_rate now 1 (r.get s (limit_key ip) at))) [
        | inl bad ↦ absurd (ground (arith, e, bad))
        | inr ((val, allowed'), good) ↦
            let written : r.set_ex s (limit_key ip) val (bucket_ttl capacity fill_rate) at ≡ s' =
              ground (arith, e, good) in
            rw (← written) (
              ground (
                arith,
                r.get-set_ex s (limit_key ip) (limit_key j) val (bucket_ttl capacity fill_rate) at t
                    le,
                key_other,
              ))
      ]

  fall_back-limiter :
      (q : Request) (s : Limits r rl) (j : Text)
      → text_eq q.ip j ≡ false
      → lookup j (fall_back lua r rl q s).0.fallback.limiters ≡ lookup j s.fallback.limiters
  unfolding fall_back allow
  fall_back-limiter q s j h = ground (
    arith,
    h,
    lookup-insert q.ip j (rl.allow (limiter_of rl q.ip s.fallback) q.local_now).0
        s.fallback.limiters,
  )

  fall_back-Same :
      (q : Request) (s : Limits r rl) (store : r.Store) (j : Text)
      → text_eq q.ip j ≡ false
      → ((t : ℕ) → q.at ≤ t → r.get store (limit_key j) t ≡ r.get s.store (limit_key j) t)
      → Same r rl j q.at s (fall_back lua r rl q (record s { store = store })).0
  unfolding fall_back
  fall_back-Same q s store j h same = record {
    bucket = same;
    limiter = fall_back-limiter q (record s { store = store }) j h;
  }

  -- A request is let through or refused by what belongs to its own address: the bucket and the limiter
  -- of any other address stay as they are, whether Redis answers or not.
  pub rate_limit_middleware-Same :
      (q : Request) (s : Limits r rl) (j : Text)
      → text_eq q.ip j ≡ false
      → Same r rl j q.at s (rate_limit_middleware lua r rl capacity fill_rate q s).0
  unfolding rate_limit_middleware
  rate_limit_middleware-Same q s j h =
      elim (Option-cases
        (run_script lua r (limit_key q.ip) capacity fill_rate q.now 1 q.at s.store)) [
          | inl bad ↦
              simp (rate_limit_middleware, bad) (fall_back-Same q s s.store j h (λ t le. refl))
          | inr ((store, allowed), good) ↦
              let other = run_script_other q.ip j q.now q.at s.store store allowed h good in
              go store allowed good other q.call refl
        ]
    where
      go :
          (store : r.Store) (allowed : Bool)
          → run_script lua r (limit_key q.ip) capacity fill_rate q.now 1 q.at s.store
            ≡ some (store, allowed)
          → ((t : ℕ) → q.at ≤ t → r.get store (limit_key j) t ≡ r.get s.store (limit_key j) t)
          → (call : Call) → q.call ≡ call
          → Same r rl j q.at s (rate_limit_middleware lua r rl capacity fill_rate q s).0
      go store allowed e other answered f =
          simp (rate_limit_middleware, e, f) (record { bucket = other; limiter = refl })
      go store allowed e other (given_up true) f =
          simp (rate_limit_middleware, e, f) (fall_back-Same q s store j h other)
      go store allowed e other (given_up false) f =
          simp (rate_limit_middleware, e, f) (fall_back-Same q s s.store j h (λ t le. refl))
