-- ===== src/Tests/Limits.antt =====
-- Rate limits on a store in memory.
use shortlink_system.Base.{
  ℕ, ◌+◌, ◌-◌, ◌*◌, ◌≤◌, ◌≡◌, ◌≢◌, refl, none, some, [], ◌∷◌, Text, bytes, text_eq, true, false,
  ltb, if◌then◌else◌, All, All-replicate, length, length-replicate, replicate, inl, inr, ap, arith,
}
use shortlink_system.Redis.Expiry.{expiring_memory}
use shortlink_system.RateLimit.{
  Lua, RateLimiter, Request, answered, given_up, Limits, limit_key, new_local_fallback_limiter,
  rate_limit_middleware, run_script, token_bucket,
}
use shortlink_system.RateLimit.Bucket.{Keeps, take_tokens, run_script-take_tokens}
use shortlink_system.RateLimit.Window.{serve, serve_bound}
use shortlink_system.RateLimit.Decisions.{Same, rate_limit_middleware-Same}

no_bar_in_strokes : (n : ℕ) → All (λ (c : ℕ). c ≢ b'|') (replicate n b'1')
no_bar_in_strokes n = All-replicate (λ (c : ℕ). c ≢ b'|') n b'1' (omega arith)

-- Numbers in strokes, which meet the laws and can be computed with.
abbrev strokes : Lua
strokes = record {
  tostring = λ n. replicate n b'1';
  tonumber = λ s. some (length s);
  tonumber-tostring = λ n h. ap some (length-replicate n b'1');
  no_bar = no_bar_in_strokes;
}

-- Limiters that let their burst through.
abbrev bursts : RateLimiter
bursts = record {
  Limiter = ℕ;
  new_limiter = λ rate burst. burst;
  allow = λ l now. if ltb 0 l then (l - 1, true) else (l, false);
}

abbrev fresh : Limits expiring_memory bursts
fresh = record { store = λ k now. none; fallback = new_local_fallback_limiter bursts 2 3 }

fresh-Keeps : Keeps strokes expiring_memory 3 2 (limit_key (bytes "a")) fresh.store 5 (3, 5)
fresh-Keeps = record {
  tokens_fit = omega arith;
  time_fits = omega arith;
  shown = λ t h. inr (refl, inl refl);
}

abbrev request : ℕ → Request
request now = record { ip = bytes "a"; now = now; at = now; local_now = now; call = answered }

-- Three tokens, and two more after a second.
burst :
    (serve strokes expiring_memory bursts 3 2
      (bytes "a")
      (request 5 ∷ request 5 ∷ request 5 ∷ request 5 ∷ request 6 ∷ request 6 ∷ request 6 ∷ [])
      fresh).1
    ≡ 5
unfolding serve text_eq run_script rate_limit_middleware token_bucket
burst = refl

run_script-take_tokens_example :
    (s' : expiring_memory.Store) × (run_script strokes expiring_memory
        (limit_key (bytes "a"))
        3
        2
        7
        1
        8
        fresh.store
      ≡ some (s', (take_tokens 3 2 7 1 (3, 5)).1))
    × Keeps strokes expiring_memory 3 2 (limit_key (bytes "a")) s' 8 (take_tokens 3 2 7 1 (3, 5)).0
    × ((j : Text) (t : ℕ)
        → 8 ≤ t
        → text_eq (limit_key (bytes "a")) j ≡ false
        → expiring_memory.get s' j t ≡ expiring_memory.get fresh.store j t)
run_script-take_tokens_example =
    run_script-take_tokens strokes expiring_memory 3 2 (limit_key (bytes "a")) (omega arith)
      (omega arith) fresh.store 5 8 7 1 (3, 5) fresh-Keeps (omega arith) (omega arith) (omega arith)

serve_bound_example :
    (serve strokes expiring_memory bursts 3 2 (bytes "a") (request 5 ∷ request 6 ∷ []) fresh).1
    ≤ 3 + (7 - 5) * 2
serve_bound_example =
    serve_bound strokes expiring_memory bursts 3 2 (bytes "a") (omega arith) (omega arith)
      (request 5 ∷ request 6 ∷ []) fresh 5 7 (3, 5) fresh-Keeps
      (
        refl,
        refl,
        omega arith,
        omega arith,
        omega arith,
        omega arith,
        (refl, refl, omega arith, omega arith, omega arith, omega arith, omega arith),
      )

rate_limit_middleware-Same_example :
    Same expiring_memory bursts
      (bytes "b")
      6
      fresh
      (rate_limit_middleware strokes expiring_memory bursts 3 2
        (record (request 6) { call = given_up true })
        fresh).0
unfolding text_eq
rate_limit_middleware-Same_example =
    rate_limit_middleware-Same strokes expiring_memory bursts 3 2
      (record (request 6) { call = given_up true }) fresh (bytes "b") refl
