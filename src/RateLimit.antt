-- ===== src/RateLimit.antt =====
-- internal/middleware/ratelimit.go: the token bucket in Redis, the limiters of the process that
-- stand in for it, and the middleware that asks them.
pub mod Bucket
pub mod Window
pub mod Decisions
use shortlink_system.Base.{
  ℕ, ◌+◌, ◌-◌, ◌*◌, ◌/◌, ◌^◌, ◌<◌, ◌≡◌, ◌≢◌, Option, none, some, List, [], ◌∷◌, ◌++◌, Text, bytes,
  Bool, true, false, ltb, leb, ◌==◌, if◌then◌else◌, All, text_eq,
}
use shortlink_system.Base.Maps.{lookup, insert}
use shortlink_system.Redis.Expiry.{ExpiringRedis}

-- How Lua writes a number and reads it. Its numbers are doubles, and `..` writes 14 digits.
pub record Lua : Type 0 where
  pub tostring : ℕ → Text
  pub tonumber : Text → Option ℕ
  pub tonumber-tostring : (n : ℕ) → n < 10 ^ 14 → tonumber (tostring n) ≡ some n
  pub no_bar : (n : ℕ) → All (λ c. c ≢ b'|') (tostring n)

-- `string.find(val, "|")`, with what stands in front of the bar and behind it.
unfoldable pub split_bar : Text → Option (Text × Text)
split_bar [] = none
split_bar (c ∷ val) =
    if c == b'|'
    then some ([], val)
    else (elim (split_bar val) [ none ↦ none | some (front, back) ↦ some (c ∷ front, back) ])

abbrev pub smaller : ℕ → ℕ → ℕ
smaller a b = if leb a b then a else b

-- `math.ceil(capacity / fill_rate) + 10`
abbrev pub bucket_ttl : ℕ → ℕ → ℕ
bucket_ttl capacity fill_rate = (capacity + fill_rate - 1) / fill_rate + 10

-- The tokens that are there at `now`: those of the bucket and those that were generated since.
unfoldable pub refill : ℕ → ℕ → ℕ → ℕ × ℕ → ℕ
refill capacity fill_rate now (tokens, last) = smaller capacity (tokens + (now - last) * fill_rate)

module _ (lua : Lua) where
  -- The tokens and the time that the value stands for. `none` is an error of the script: arithmetic
  -- on `nil`.
  unfoldable pub read_bucket : ℕ → ℕ → Option Text → Option (ℕ × ℕ)
  unfolding split_bar
  read_bucket capacity now none = some (capacity, now)
  read_bucket capacity now (some val) = elim (split_bar val) [
    | none ↦ some (capacity, now)
    | some (front, back) ↦ elim (lua.tonumber front) [
      | none ↦ none
      | some tokens ↦ elim (lua.tonumber back) [ none ↦ none | some last ↦ some (tokens, last) ]
    ]
  ]

  unfoldable pub write_bucket : ℕ → ℕ → Text
  write_bucket tokens now = lua.tostring tokens ++ b'|' ∷ lua.tostring now

  -- The script, with what GET returned: the value to set, and `allowed`.
  unfoldable pub token_bucket : ℕ → ℕ → ℕ → ℕ → Option Text → Option (Text × Bool)
  unfolding read_bucket write_bucket refill
  token_bucket capacity fill_rate now requested val = elim (read_bucket capacity now val) [
    | none ↦ none
    | some bucket ↦
        let tokens = refill capacity fill_rate now bucket in
        if leb requested tokens
        then some (write_bucket (tokens - requested) now, true)
        else some (write_bucket tokens now, false)
  ]

  -- The run on the server, whose clock reads `at`.
  unfoldable pub run_script :
      (r : ExpiringRedis) → Text → ℕ → ℕ → ℕ → ℕ → ℕ → r.Store → Option (r.Store × Bool)
  unfolding token_bucket
  run_script r key capacity fill_rate now requested at s =
      elim (token_bucket capacity fill_rate now requested (r.get s key at)) [
        | none ↦ none
        | some (val, allowed) ↦
            some (r.set_ex s key val (bucket_ttl capacity fill_rate) at, allowed)
      ]

-- `golang.org/x/time/rate`: a limiter of a rate and a burst, and one call of `Allow` at a reading of
-- the clock.
pub record RateLimiter : Type 1 where
  pub Limiter : Type 0
  pub new_limiter : ℕ → ℕ → Limiter
  pub allow : Limiter → ℕ → Limiter × Bool

pub record LocalFallbackLimiter (rl : RateLimiter) : Type 0 where
  pub limiters : List (Text × rl.Limiter)
  pub capacity : ℕ
  pub rate : ℕ

abbrev pub new_local_fallback_limiter : (rl : RateLimiter) → ℕ → ℕ → LocalFallbackLimiter rl
new_local_fallback_limiter rl fill_rate capacity = record {
  limiters = [];
  capacity = capacity;
  rate = fill_rate;
}

-- The limiter of an address is made at its first request.
unfoldable pub limiter_of : (rl : RateLimiter) → Text → LocalFallbackLimiter rl → rl.Limiter
unfolding lookup
limiter_of rl ip l = elim (lookup ip l.limiters) [
  | none ↦ rl.new_limiter l.rate l.capacity
  | some limiter ↦ limiter
]

unfoldable pub allow :
    (rl : RateLimiter) → Text → ℕ → LocalFallbackLimiter rl → LocalFallbackLimiter rl × Bool
unfolding limiter_of insert
allow rl ip now l =
    let (limiter, allowed) = rl.allow (limiter_of rl ip l) now in
    (record l { limiters = insert ip limiter l.limiters }, allowed)

-- What happens to the request: it goes on, or it is answered with 429, with the header `Retry-After`
-- or without it.
pub data Verdict : Type 0 where
  next : Verdict
  too_many : Bool → Verdict

-- How the call of Redis goes: it is answered in time, or it is given up, and the script may have run
-- all the same.
pub data Call : Type 0 where
  answered : Call
  given_up : Bool → Call

-- A request: the address, the seconds of the process, the clock of the server of Redis, the clock
-- of the local limiters, and the call.
pub record Request : Type 0 where
  pub ip : Text
  pub now : ℕ
  pub at : ℕ
  pub local_now : ℕ
  pub call : Call

abbrev pub limit_key : Text → Text
limit_key ip = bytes "rl:ip:" ++ ip

pub record Limits (r : ExpiringRedis) (rl : RateLimiter) : Type 0 where
  pub store : r.Store
  pub fallback : LocalFallbackLimiter rl

module _ (lua : Lua) (r : ExpiringRedis) (rl : RateLimiter) where
  -- The local limiter decides.
  unfoldable pub fall_back : Request → Limits r rl → Limits r rl × Verdict
  unfolding allow
  fall_back q s =
      let (fallback, allowed) = allow rl q.ip q.local_now s.fallback in
      (record s { fallback = fallback }, if allowed then next else too_many false)

  unfoldable pub rate_limit_middleware : ℕ → ℕ → Request → Limits r rl → Limits r rl × Verdict
  unfolding run_script fall_back
  rate_limit_middleware capacity fill_rate q s =
      elim (run_script lua r (limit_key q.ip) capacity fill_rate q.now 1 q.at s.store) [
        | none ↦ fall_back q s
        | some (store, allowed) ↦ elim q.call [
          | answered ↦ (record s { store = store }, if allowed then next else too_many true)
          | given_up ran ↦ fall_back q (record s { store = if ran then store else s.store })
        ]
      ]
