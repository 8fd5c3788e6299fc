-- ===== src/RateLimit/Window.antt =====
-- How many requests of one address pass in a span of time.
use shortlink_system.Base.{
  ℕ, suc, ◌+◌, ◌-◌, ◌*◌, ◌^◌, ◌<◌, ◌≤◌, ◌≡◌, refl, List, [], ◌∷◌, Text, Bool, true, false,
  if◌then◌else◌, ap, ◌∙◌, arith,
}
use native.Mathlib.Nat.{add-mul, le-mul_of_pos_right}
use shortlink_system.Redis.Expiry.{ExpiringRedis}
use shortlink_system.RateLimit.{
  Lua, RateLimiter, Verdict, next, too_many, answered, Request, Limits, limit_key,
  rate_limit_middleware, refill,
}
use shortlink_system.RateLimit.Bucket.{
  Bucket, take_tokens, take_tokens-time, Keeps, run_script-take_tokens,
}

-- A request that passes takes a token, and no more tokens come than the rate gives.
take_tokens_cost :
    (capacity fill_rate now : ℕ) (b : Bucket)
    → (take_tokens capacity fill_rate now 1 b).0.0
        + (if (take_tokens capacity fill_rate now 1 b).1 then 1 else 0)
      ≤ b.0 + (now - b.1) * fill_rate
unfolding take_tokens refill
take_tokens_cost capacity fill_rate now b = ground arith

-- A silence that generates a token lets the next request pass.
pub take_tokens-true :
    (capacity fill_rate now : ℕ) (b : Bucket)
    → 0 < capacity
    → 1 ≤ (now - b.1) * fill_rate
    → (take_tokens capacity fill_rate now 1 b).1 ≡ true
unfolding take_tokens refill
take_tokens-true capacity fill_rate now b h k = ground arith

spans :
    (start middle end rate : ℕ)
    → start ≤ middle
    → middle ≤ end
    → (end - start) * rate ≡ (middle - start) * rate + (end - middle) * rate
spans start middle end rate h k =
    let whole : end - start ≡ (middle - start) + (end - middle) = omega arith in
    ap (λ t. t * rate) whole ∙ add-mul (middle - start) (end - middle) rate

-- The requests come from the address and are answered by Redis. Both clocks go on, and that of the
-- server is not more than 10 seconds ahead of what passed for the process since the request before,
-- at `last` and `at`. The span ends at `end`.
abbrev pub InOrder : Text → ℕ → ℕ → ℕ → List Request → Type 0
InOrder ip at last end [] = last ≤ end
InOrder ip at last end (q ∷ qs) =
    (q.ip ≡ ip)
    × (q.call ≡ answered)
    × (at ≤ q.at)
    × (last ≤ q.now)
    × (q.now < 10 ^ 14)
    × (q.at ≤ at + (q.now - last) + 10)
    × InOrder ip q.at q.now end qs

InOrder-le :
    (ip : Text) (at last end : ℕ) (qs : List Request) → InOrder ip at last end qs → last ≤ end
InOrder-le ip at last end [] h = h
InOrder-le ip at last end (q ∷ qs) (_, _, _, later, _, _, order) =
    omega (arith, InOrder-le ip q.at q.now end qs order)

module _ (lua : Lua) (r : ExpiringRedis) (rl : RateLimiter) (capacity fill_rate : ℕ)
    (ip : Text) where
  -- One request after another through the middleware, and how many of them pass.
  unfoldable pub serve : List Request → Limits r rl → Limits r rl × ℕ
  serve [] s = (s, 0)
  serve (q ∷ qs) s =
      let (s', verdict) = rate_limit_middleware lua r rl capacity fill_rate q s in
      let (s'', n) = serve qs s' in (s'', elim verdict [ next ↦ suc n | too_many hint ↦ n ])

  abbrev after_verdict : List Request → Limits r rl × Verdict → ℕ
  after_verdict qs (s, verdict) = elim verdict [
    | next ↦ suc (serve qs s).1
    | too_many hint ↦ (serve qs s).1
  ]

  count :
      (q : Request) (qs : List Request) (s s' : Limits r rl) (allowed : Bool)
      → rate_limit_middleware lua r rl capacity fill_rate q s
        ≡ (s', if allowed then next else too_many true)
      → (serve (q ∷ qs) s).1 ≡ (if allowed then 1 else 0) + (serve qs s').1
  unfolding serve
  count q qs s s' true e = ap (after_verdict qs) e ∙ omega arith
  count q qs s s' false e = ap (after_verdict qs) e ∙ omega arith

  module _ (capacity_fits : capacity < 10 ^ 14) (filling : 0 < fill_rate) where
    middleware_lem :
        (q : Request) (s : Limits r rl) (at : ℕ) (b : Bucket)
        → Keeps lua r capacity fill_rate (limit_key ip) s.store at b
        → q.ip ≡ ip
        → q.call ≡ answered
        → at ≤ q.at
        → q.now < 10 ^ 14
        → q.at ≤ at + (q.now - b.1) + 10
        → (s' : Limits r rl) × (rate_limit_middleware lua r rl capacity fill_rate q s
            ≡ (s', if (take_tokens capacity fill_rate q.now 1 b).1 then next else too_many true))
          × Keeps lua r capacity fill_rate
              (limit_key ip)
              s'.store
              q.at
              (take_tokens capacity fill_rate q.now 1 b).0
    unfolding rate_limit_middleware
    middleware_lem q s at b h same ok le fits close =
        let (store, e, kept, _) =
          run_script-take_tokens lua r capacity fill_rate (limit_key ip) capacity_fits filling
            s.store at q.at q.now 1 b h le close fits in
        (record s { store = store }, simp (rate_limit_middleware, same, e, ok) refl, kept)

    -- A client that waits is let through: if Redis answers and the seconds since its last request
    -- generate a token, then the request passes, however many were refused before.
    pub middleware-next :
        (q : Request) (s : Limits r rl) (at : ℕ) (b : Bucket)
        → Keeps lua r capacity fill_rate (limit_key ip) s.store at b
        → q.ip ≡ ip
        → q.call ≡ answered
        → at ≤ q.at
        → q.now < 10 ^ 14
        → q.at ≤ at + (q.now - b.1) + 10
        → 0 < capacity
        → b.1 < q.now
        → (rate_limit_middleware lua r rl capacity fill_rate q s).1 ≡ next
    middleware-next q s at b h same ok le fits close some_room waited =
        let (s', e, _) = middleware_lem q s at b h same ok le fits close in
        ap (λ p. p.1) e
        ∙ rw (
            take_tokens-true capacity fill_rate q.now b some_room
              (omega (arith, le-mul_of_pos_right (q.now - b.1) filling)))

    -- Under a positive rate and numbers of at most 14 digits, requests of one address that come in a
    -- row and that Redis answers pass at most as often as its bucket holds tokens at the start, plus
    -- the rate for each second of the span, if both clocks go on and at each request that of the server
    -- is at most 10 seconds ahead of the time that the clock of the process has measured since the
    -- request before.
    pub serve_bound :
        (qs : List Request) (s : Limits r rl) (at end : ℕ) (b : Bucket)
        → Keeps lua r capacity fill_rate (limit_key ip) s.store at b
        → InOrder ip at b.1 end qs
        → (serve qs s).1 ≤ b.0 + (end - b.1) * fill_rate
    unfolding serve
    serve_bound [] s at end b h order = omega arith
    serve_bound (q ∷ qs) s at end b h (same, ok, le, later, fits, close, order) =
        let (s', e, kept) = middleware_lem q s at b h same ok le fits close in
        let b' = (take_tokens capacity fill_rate q.now 1 b).0 in
        let now = take_tokens-time capacity fill_rate q.now 1 b in
        let rest = serve_bound qs s' q.at end b' kept (rw now order) in
        omega (
          arith,
          count q qs s s' (take_tokens capacity fill_rate q.now 1 b).1 e,
          take_tokens_cost capacity fill_rate q.now b,
          spans b.1 q.now end fill_rate later (InOrder-le ip q.at q.now end qs order),
          rw now at rest,
        )
