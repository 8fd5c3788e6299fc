-- ===== src/Service/Retries.antt =====
-- internal/service/shortlink.go: `withRetry` and `writeThrough`.
use shortlink_system.Base.{
  ℕ, zero, suc, ◌+◌, ◌<◌, ◌≤◌, ◌≡◌, refl, ap, ◌⊎◌, inl, inr, Bool, true, false, ◌&&◌, ltb,
  if◌then◌else◌, Bool-cases, arith,
}
use mathlib.Core.Path.{ap₂}

-- The error that is returned: none, that of the last attempt, or `ctx.Err()`.
pub data Retried : Type 0 where
  done : Retried
  exhausted : Retried
  context_error : Retried

module _ {ℓ} {S : Type ℓ} (fn : ℕ → S → S × Bool) (cancelled : ℕ → Bool) where
  -- `remaining` attempts are left and `i` were made. `cancelled i` says which way the `select` in
  -- front of attempt `i` goes.
  unfoldable pub retry_loop : ℕ → ℕ → Retried → S → S × Retried
  retry_loop zero i last_err s = (s, last_err)
  retry_loop (suc remaining) i last_err s =
      let (s', ok) = fn i s in
      let rest = retry_loop remaining (suc i) exhausted s' in
      if ltb 0 i && cancelled i then (s, context_error) else if ok then (s', done) else rest

  unfoldable pub with_retry : ℕ → S → S × Retried
  unfolding retry_loop
  with_retry max_attempts s = retry_loop max_attempts 0 done s

  -- The state after the first attempts, each of which has failed.
  abbrev pub after_failures : ℕ → S → S
  after_failures zero s = s
  after_failures (suc i) s = (fn i (after_failures i s)).0

  -- What a call that returns no error has done: attempt `i` succeeded, and the ones in front of it
  -- failed.
  pub record Succeeds (limit : ℕ) (s s' : S) : Type ℓ where
    pub attempt : ℕ
    pub in_time : attempt < limit
    pub succeeded : fn attempt (after_failures attempt s) ≡ (s', true)
    pub failed_before : (j : ℕ) → j < attempt → (fn j (after_failures j s)).1 ≡ false

  le_cases : (j i : ℕ) → j < suc i → (j < i) ⊎ (j ≡ i)
  le_cases j i h = elim (Bool-cases (ltb j i)) [
    | inl l ↦ inl (ground arith)
    | inr l ↦ inr (ground arith)
  ]

  retry_loop-Succeeds :
      (limit remaining i : ℕ) (last_err : Retried) (s s' : S)
      → i + remaining ≤ limit
      → (last_err ≡ exhausted) ⊎ (0 < remaining)
      → ((j : ℕ) → j < i → (fn j (after_failures j s)).1 ≡ false)
      → retry_loop remaining i last_err (after_failures i s) ≡ (s', done)
      → Succeeds limit s s'
  unfolding retry_loop
  retry_loop-Succeeds limit zero i last_err s s' _ (inl l) before e =
      absurd (not_done (ap {A = S × Retried} (λ x. x.1) e) l)
    where
      not_done : last_err ≡ done → last_err ≡ exhausted → ⊥
      not_done d l = cc
  retry_loop-Succeeds limit zero i last_err s s' _ (inr l) before e = elim l [ ]
  retry_loop-Succeeds limit (suc remaining) i last_err s s' bound l before e =
      let now = after_failures i s in
      elim (Bool-cases (ltb 0 i && cancelled i)) [
        | inl stop ↦ absurd (not_done (ground (arith, e, stop)))
        | inr go ↦ elim (Bool-cases (fn i now).1) [
          | inl ok ↦ record {
            attempt = i;
            in_time = omega arith;
            succeeded = ap₂ (λ x y. (x, y)) (ground (arith, e, go, ok)) ok;
            failed_before = before;
          }
          | inr bad ↦
              let later =
                retry_loop-Succeeds limit remaining (suc i) exhausted s s' (omega arith) (inl refl)
                  (before_next bad) (ground (arith, e, go, bad)) in
              record {
                attempt = later.attempt;
                in_time = omega (arith, later.in_time);
                succeeded = later.succeeded;
                failed_before = later.failed_before;
              }
        ]
      ]
    where
      not_done : context_error ≡ done → ⊥
      not_done d = cc

      before_next :
          (fn i (after_failures i s)).1 ≡ false
          → (j : ℕ) → j < suc i
          → (fn j (after_failures j s)).1 ≡ false
      before_next bad j h = elim (le_cases j i h) [
        | inl less ↦ before j less
        | inr same ↦ rw same bad
      ]

  -- With at least one attempt, no error is returned only after one of the first `max_attempts`
  -- attempts has succeeded, and then no further attempt is made.
  pub with_retry-Succeeds :
      (max_attempts : ℕ) (s s' : S)
      → 0 < max_attempts
      → with_retry max_attempts s ≡ (s', done)
      → Succeeds max_attempts s s'
  unfolding with_retry
  with_retry-Succeeds max_attempts s s' some_attempt e =
      retry_loop-Succeeds max_attempts max_attempts 0 done s s' (omega arith) (inr some_attempt)
        (λ j h. elim h [ ]) e

  module _ {κ} (I : S → Type κ) (step : (i : ℕ) (s : S) → I s → I (fn i s).0) where
    retry_loop_keeps :
        (remaining i : ℕ) (last_err : Retried) (s : S)
        → I s
        → I (retry_loop remaining i last_err s).0
    unfolding retry_loop
    retry_loop_keeps zero i last_err s h = h
    retry_loop_keeps (suc remaining) i last_err s h = elim (Bool-cases (ltb 0 i && cancelled i)) [
      | inl stop ↦ rw stop h
      | inr on ↦ elim (Bool-cases (fn i s).1) [
        | inl ok ↦ rw (on, ok) (step i s h)
        | inr bad ↦
            rw (on, bad) (retry_loop_keeps remaining (suc i) exhausted (fn i s).0 (step i s h))
      ]
    ]

    -- What every attempt keeps, the call keeps, however it ends.
    pub with_retry_keeps : (max_attempts : ℕ) (s : S) → I s → I (with_retry max_attempts s).0
    unfolding with_retry
    with_retry_keeps max_attempts s h = retry_loop_keeps max_attempts 0 done s h
