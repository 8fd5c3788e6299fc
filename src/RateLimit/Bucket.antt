-- ===== src/RateLimit/Bucket.antt =====
-- The script as a step of a bucket that never expires.
use shortlink_system.Base.{
  ℕ, ◌+◌, ◌-◌, ◌*◌, ◌/◌, ◌^◌, ◌<◌, ◌≤◌, ◌≡◌, ◌≢◌, refl, Option, none, some, [], ◌∷◌, ◌++◌, Text,
  Bool, true, false, ltb, leb, if◌then◌else◌, All, text_eq, text_eq_refl, Bool-cases, inl, inr, ◌⊎◌,
  arith,
}
use native.Mathlib.Nat.{div-add-mod', mod-lt, mul-le-mul_right}
use shortlink_system.Redis.Expiry.{ExpiringRedis}
use shortlink_system.RateLimit.{
  Lua, split_bar, bucket_ttl, read_bucket, write_bucket, refill, token_bucket, run_script,
}

split_bar-append :
    (front back : Text)
    → All (λ c. c ≢ b'|') front
    → split_bar (front ++ b'|' ∷ back) ≡ some (front, back)
unfolding split_bar
split_bar-append [] back h = refl
split_bar-append (c ∷ front) back (h, hs) = ground (arith, split_bar-append front back hs)

module _ (lua : Lua) where
  -- What the script writes it reads back, as long as the numbers have at most 14 digits.
  pub read-write :
      (capacity now tokens last : ℕ)
      → tokens < 10 ^ 14
      → last < 10 ^ 14
      → read_bucket lua capacity now (some (write_bucket lua tokens last)) ≡ some (tokens, last)
  unfolding read_bucket write_bucket
  read-write capacity now tokens last h k = rw (
    read_bucket,
    write_bucket,
    split_bar-append (lua.tostring tokens) (lua.tostring last) (lua.no_bar tokens),
    lua.tonumber-tostring tokens h,
    lua.tonumber-tostring last k,
  )

-- A bucket: its tokens and the time of its last request.
abbrev pub Bucket : Type 0
Bucket = ℕ × ℕ

-- The specification: the tokens that were generated are added, and one request takes its own if
-- they are enough.
unfoldable pub take_tokens : ℕ → ℕ → ℕ → ℕ → Bucket → Bucket × Bool
unfolding refill
take_tokens capacity fill_rate now requested b =
    let tokens = refill capacity fill_rate now b in
    if leb requested tokens then ((tokens - requested, now), true) else ((tokens, now), false)

-- Time enough for the life of the key to end is time enough to fill the bucket.
full_after :
    (capacity fill_rate elapsed : ℕ)
    → 0 < fill_rate
    → (capacity + fill_rate - 1) / fill_rate ≤ elapsed
    → capacity ≤ elapsed * fill_rate
full_after capacity fill_rate elapsed h k = omega (
  arith,
  div-add-mod' (capacity + fill_rate - 1) fill_rate,
  mod-lt (capacity + fill_rate - 1) h,
  mul-le-mul_right fill_rate k,
)

pub take_tokens-time :
    (capacity fill_rate now requested : ℕ) (b : Bucket)
    → (take_tokens capacity fill_rate now requested b).0.1 ≡ now
unfolding take_tokens
take_tokens-time capacity fill_rate now requested b = ground arith

take_tokens-le :
    (capacity fill_rate now requested : ℕ) (b : Bucket)
    → (take_tokens capacity fill_rate now requested b).0.0 ≤ capacity
unfolding take_tokens
take_tokens-le capacity fill_rate now requested b = ground arith

get_after :
    (r : ExpiringRedis) (s : r.Store) (key val : Text) (ttl at t : ℕ)
    → at ≤ t
    → (r.get (r.set_ex s key val ttl at) key t ≡ some val)
      ⊎ ((r.get (r.set_ex s key val ttl at) key t ≡ none) × (at + ttl ≤ t))
get_after r s key val ttl at t h = elim (Bool-cases (ltb t (at + ttl))) [
  | inl live ↦ inl (ground (arith, r.get-set_ex s key key val ttl at t h, text_eq_refl key, live))
  | inr over ↦
      inr (
        ground (arith, r.get-set_ex s key key val ttl at t h, text_eq_refl key, over),
        ground arith,
      )
]

-- The script depends on what it reads only through the tokens after the refill.
token_bucket_lem :
    (lua : Lua) (capacity fill_rate now requested : ℕ) (val : Option Text) (b b' : Bucket)
    → read_bucket lua capacity now val ≡ some b'
    → refill capacity fill_rate now b' ≡ refill capacity fill_rate now b
    → token_bucket lua capacity fill_rate now requested val
      ≡ some (
        write_bucket lua (take_tokens capacity fill_rate now requested b).0.0 now,
        (take_tokens capacity fill_rate now requested b).1,
      )
unfolding token_bucket take_tokens
token_bucket_lem lua capacity fill_rate now requested val b b' e f =
    elim (Bool-cases (leb requested (refill capacity fill_rate now b))) [
      | inl t ↦ simp (token_bucket, e, f, t) refl
      | inr t ↦ simp (token_bucket, e, f, t) refl
    ]

module _ (lua : Lua) (r : ExpiringRedis) where
  open r use {Store}

  module _ (capacity fill_rate : ℕ) (key : Text) where
    -- From `at` on GET shows the bucket, or nothing where it is full or its life is over.
    pub record Keeps (s : Store) (at : ℕ) (b : Bucket) : Type 0 where
      pub tokens_fit : b.0 ≤ capacity
      pub time_fits : b.1 < 10 ^ 14
      pub shown :
          (t : ℕ)
          → at ≤ t
          → (r.get s key t ≡ some (write_bucket lua b.0 b.1))
            ⊎ ((r.get s key t ≡ none)
                × ((b.0 ≡ capacity) ⊎ (at + bucket_ttl capacity fill_rate ≤ t)))

    module _ (capacity_fits : capacity < 10 ^ 14) (filling : 0 < fill_rate) where
      -- The bucket that is read, once it is refilled, is the one that is kept: where the key is gone, it
      -- is full.
      token_bucket-take_tokens :
          (s : Store) (at at' now requested : ℕ) (b : Bucket)
          → Keeps s at b
          → at ≤ at'
          → at' ≤ at + (now - b.1) + 10
          → token_bucket lua capacity fill_rate now requested (r.get s key at')
            ≡ some (
              write_bucket lua (take_tokens capacity fill_rate now requested b).0.0 now,
              (take_tokens capacity fill_rate now requested b).1,
            )
      unfolding read_bucket refill
      token_bucket-take_tokens s at at' now requested b h le close = elim (h.shown at' le) [
        | inl e ↦ rw e (
            token_bucket_lem lua capacity fill_rate now requested _ b b
              (read-write lua capacity now b.0 b.1 (omega arith) h.time_fits) refl)
        | inr (e, full) ↦ rw e (
            token_bucket_lem lua capacity fill_rate now requested _ b (capacity, now) refl
              (is_full full))
      ]
        where
          is_full :
              (b.0 ≡ capacity) ⊎ (at + bucket_ttl capacity fill_rate ≤ at')
              → refill capacity fill_rate now (capacity, now) ≡ refill capacity fill_rate now b
          is_full (inl same) = ground arith
          is_full (inr over) =
              ground (arith, full_after capacity fill_rate (now - b.1) filling (omega arith))

      -- A run of the script by the server's clock `at'` and the client's clock `now` does what the
      -- specification does with the bucket, and keeps what it leaves, under a positive rate and numbers
      -- of at most 14 digits, if the server's clock went on and is not more than 10 seconds ahead of
      -- what passed for the clients. That the key expires cannot be observed. Other keys are untouched.
      pub run_script-take_tokens :
          (s : Store) (at at' now requested : ℕ) (b : Bucket)
          → Keeps s at b
          → at ≤ at'
          → at' ≤ at + (now - b.1) + 10
          → now < 10 ^ 14
          → (s' : Store) × (run_script lua r key capacity fill_rate now requested at' s
              ≡ some (s', (take_tokens capacity fill_rate now requested b).1))
            × Keeps s' at' (take_tokens capacity fill_rate now requested b).0
            × ((j : Text) (t : ℕ) → at' ≤ t → text_eq key j ≡ false → r.get s' j t ≡ r.get s j t)
      unfolding run_script
      run_script-take_tokens s at at' now requested b h le close fits =
          let b' = (take_tokens capacity fill_rate now requested b).0 in
          let val = write_bucket lua b'.0 now in
          let ttl = bucket_ttl capacity fill_rate in
          (
            r.set_ex s key val ttl at',
            simp (run_script, token_bucket-take_tokens s at at' now requested b h le close) refl,
            record {
              tokens_fit = take_tokens-le capacity fill_rate now requested b;
              time_fits = rw (take_tokens-time capacity fill_rate now requested b) fits;
              shown = λ t later. elim (get_after r s key val ttl at' t later) [
                | inl live ↦ inl (rw (take_tokens-time capacity fill_rate now requested b) live)
                | inr (gone, over) ↦ inr (gone, inr over)
              ];
            },
            λ j t later other. ground (arith, r.get-set_ex s key j val ttl at' t later, other),
          )
