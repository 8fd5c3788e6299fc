-- ===== src/Api/Statuses.antt =====
-- Which status a redirect has.
use shortlink_system.Base.{
  ◌<◌, ◌≡◌, ◌≢◌, refl, ◌⊎◌, Option, some, List, Text, Bool, true, false, arith, none, inl, inr,
}
use mathlib.Core.List.{Mem}
use shortlink_system.Redis.{Redis}
use shortlink_system.Bloom.{contains}
use shortlink_system.Service.{
  ShortLink, broken, Weather, Answer, url, no_such_link, query_failed, query, chosen, Shows,
  ShortLinkService, cache_key,
}
use shortlink_system.Service.Entries.{Holds}
use shortlink_system.Service.Answers.{redirect-Settled}
use shortlink_system.Service.Redirects.{
  Found, Stored, Right, redirect-Right, contains_total, answers_no, Settled-Fine,
}
use shortlink_system.Api.{
  Response, json_error, redirection, redirect_response, redirect_handler, ready, not_ready,
  degraded, ready_check,
}

-- What a response may be: a redirection with 302 to the URL of a stored link, or an error 404.
abbrev pub Proper : (Text → Text → Bool) → List ShortLink → Text → Response → Type 0
Proper same links code (redirection status v) = (status ≡ 302) × Found same links code v
Proper same links code (json_error status) = status ≡ 404
Proper same links code _ = ⊥

redirect_response-Proper :
    (same : Text → Text → Bool) (links : List ShortLink) (code : Text) (a : Answer)
    → Right same links code a
    → Proper same links code (redirect_response a)
unfolding redirect_response
redirect_response-Proper same links code (url v) h = (refl, h)
redirect_response-Proper same links code no_such_link h = refl
redirect_response-Proper same links code query_failed h = refl

-- Under the conditions of `redirect-Right`, GET /:code does not panic, and it answers 302 with the
-- URL of a stored link under the code, or 404.
pub redirect_handler-Proper :
    (r : Redis) (w : Weather) (links : List ShortLink) (code : Text) (s : ShortLinkService r)
    (shared : Option Answer)
    → ((l : ShortLink) → Shows w l → Mem l links)
    → Holds r (Stored w.same_text links) s
    → 0 < s.bloom.size
    → ((a : Answer) → shared ≡ some a → Right w.same_text links code a)
    → ((s' : ShortLinkService r) × (response : Response) × (redirect_handler r w shared code s
          ≡ some (s', response))
        × Holds r (Stored w.same_text links) s'
        × Proper w.same_text links code response)
      ⊎ ((chosen w ≡ none) × (redirect_handler r w shared code s ≡ none))
unfolding redirect_handler
redirect_handler-Proper r w links code s shared tables h positive others =
    elim (redirect-Right r w links code s shared tables h positive others) [
      | inl (s', a, e, kept, right) ↦ inl (
        s',
        redirect_response a,
        simp (redirect_handler, e) refl,
        kept,
        redirect_response-Proper w.same_text links code a right,
      )
      | inr (no_slave, panics) ↦ inr (no_slave, simp (redirect_handler, panics) refl)
    ]

-- An outage reads as a missing link. If the query of the tables fails, no cache has an entry for the
-- code, the filter does not deny it and a shared result failed likewise, then GET /:code answers
-- 404, also for a code that is stored, and no cache gets an entry for it.
pub redirect_handler-outage :
    (r : Redis) (w : Weather) (code : Text) (s : ShortLinkService r) (shared : Option Answer)
    → query w code ≡ some broken
    → Holds r (λ k v. k ≢ cache_key code) s
    → 0 < s.bloom.size
    → (s.bloom_ready ≡ true → contains r s.bloom true s.store code ≡ some (some true))
    → ((a : Answer) → shared ≡ some a → a ≡ query_failed)
    → (s' : ShortLinkService r) × (redirect_handler r w shared code s ≡ some (s', json_error 404))
      × Holds r (λ k v. k ≢ cache_key code) s'
unfolding redirect_handler redirect_response
redirect_handler-outage r w code s shared down h positive filter others =
    let (b, e) = contains_total r s.bloom w.bloom_run s.store code positive in
    let (s', a, eq, kept, failed) =
      Settled-Fine r (λ k v. k ≢ cache_key code) (λ a. a ≡ query_failed) _
        (redirect-Settled r (λ k v. k ≢ cache_key code) (λ a. a ≡ query_failed) ⊥ w code
          (λ v p. absurd (p refl)) (λ l el. absurd (ground (arith, down, el)))
          (λ el. absurd (ground (arith, down, el))) (λ _. refl)
          (λ el. absurd (ground (arith, down, el))) s shared h
          (
            b,
            e,
            λ is_ready denies. absurd (
                answers_no r s.bloom w.bloom_run s.store code (filter is_ready)
                  (ground (arith, e, denies))),
          )
          others) in
    (s', simp (redirect_handler, eq, failed, redirect_response) refl, kept)

-- The probe: 503 exactly when the master is down, and `degraded` when only Redis is.
pub ready_check_cases :
    (master redis : Bool)
    → ((ready_check master redis).code ≡ 503 → master ≡ false)
      × (master ≡ false → (ready_check master redis).status ≡ not_ready)
      × (master ≡ true → redis ≡ false → (ready_check master redis).status ≡ degraded)
      × (master ≡ true → redis ≡ true → (ready_check master redis).status ≡ ready)
unfolding ready_check
ready_check_cases true true = ground arith
ready_check_cases true false = ground arith
ready_check_cases false true = ground arith
ready_check_cases false false = ground arith
