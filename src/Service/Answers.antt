-- ===== src/Service/Answers.antt =====
-- What a redirect answers, and what it leaves in the caches.
use shortlink_system.Base.{
  ℕ, ◌*◌, ◌≡◌, refl, Option, none, some, [], ◌∷◌, Text, Bool, true, false, text_eq, Bool-cases,
  Option-cases, ◌⊎◌, inl, inr, arith,
}
use shortlink_system.Redis.{Redis}
use shortlink_system.Redis.Pipelines.{set, exec}
use shortlink_system.Bloom.{contains}
use shortlink_system.L1Cache
use shortlink_system.L1Cache.Contents.{Sound, get-Sound, set-Sound}
use shortlink_system.Service.Entries.{Holds}
use shortlink_system.Redis.Entries.{exec-Kept}
use shortlink_system.Service.{
  ShortLink, Taken, row, not_found, broken, Weather, Answer, url, no_such_link, query_failed,
  answer, query, generate_jitter_expiration, ShortLinkService, Reply, remember, from_tables,
  from_bloom, from_redis, resolve_redirect, redirect, cache_key,
}

pub Taken-cases :
    (t : Taken) → ((link : ShortLink) × (t ≡ row link)) ⊎ ((t ≡ not_found) ⊎ (t ≡ broken))
Taken-cases (row link) = inl (link, refl)
Taken-cases not_found = inr (inl refl)
Taken-cases broken = inr (inr refl)

module _ (r : Redis) (P : Text → Text → Type 0) (A : Answer → Type 0) where
  -- The call returns, with an answer that satisfies `A`.
  abbrev pub Fine : Reply r → Type 0
  Fine reply =
      (s' : ShortLinkService r) × (a : Answer) × (reply ≡ some (s', a)) × Holds r P s' × A a

  -- The call returns so, or the choice of a slave panics.
  abbrev pub Settled : Type 0 → Reply r → Type 0
  Settled Unread reply = Fine reply ⊎ (Unread × (reply ≡ none))

  remember-Fine :
      (code : Text) (s : ShortLinkService r) (now : ℕ) (v : Text) (a : Answer)
      → Holds r P s
      → P (cache_key code) v
      → A a
      → Fine (remember r s now (cache_key code) v a)
  unfolding remember
  remember-Fine code s now v a h p shown =
      let (c, e, sound) = set-Sound P (cache_key code) h.sound now v p in
      (
        record s { l1_cache = c },
        a,
        ground (arith, e),
        record { sound = sound; kept = h.kept },
        shown,
      )

  module _ (Unread : Type 0) (w : Weather) (code : Text)
      (cached : (v : Text) → P (cache_key code) v → A (answer v))
      (rows : (link : ShortLink)
        → query w code ≡ some (row link)
        → P (cache_key code) link.long_url × A (url link.long_url))
      (missing : query w code ≡ some not_found → P (cache_key code) [])
      (failing : query w code ≡ some broken → A query_failed)
      (unread : query w code ≡ none → Unread) where
    remember-Settled :
        (s : ShortLinkService r) (now : ℕ) (v : Text) (a : Answer)
        → Holds r P s
        → P (cache_key code) v
        → A a
        → Settled Unread (remember r s now (cache_key code) v a)
    remember-Settled s now v a h p shown = inl (remember-Fine code s now v a h p shown)

    from_tables-Settled :
        (s : ShortLinkService r)
        → Holds r P s
        → Settled Unread (from_tables r w code (cache_key code) s)
    unfolding from_tables text_eq
    from_tables-Settled s h = elim (Option-cases (query w code)) [
      | inl e ↦ rw (from_tables, e) (inr (unread e, refl))
      | inr (taken, e) ↦ answered taken e
    ]
      where
        answered :
            (taken : Taken)
            → query w code ≡ some taken
            → Settled Unread (from_tables r w code (cache_key code) s)
        answered (row link) e =
            let (p, shown) = rows link e in
            rw (from_tables, e)
              (remember-Settled
                (record s {
                  store = exec r w.redis_set s.store (
                      set (cache_key code) link.long_url (generate_jitter_expiration w.jitter)
                      ∷ []);
                })
                w.stored_at link.long_url (url link.long_url)
                (record {
                  sound = h.sound;
                  kept = exec-Kept r P w.redis_set s.store _ h.kept (p, tt);
                })
                p shown)
        answered not_found e =
            let p = missing e in
            rw (from_tables, e)
              (remember-Settled
                (record s {
                  store = exec r w.redis_set s.store (set (cache_key code) [] (5 * 60) ∷ []);
                })
                w.stored_at [] no_such_link
                (record {
                  sound = h.sound;
                  kept = exec-Kept r P w.redis_set s.store _ h.kept (p, tt);
                })
                p (cached [] p))
        answered broken e = rw (from_tables, e) (inl (s, query_failed, refl, h, failing e))

    -- The filter does not panic, and answers no only where a negative entry is allowed.
    abbrev pub Filters : ShortLinkService r → Type 0
    Filters s =
        (b : Option Bool) × (contains r s.bloom w.bloom_run s.store code ≡ some b)
        × (s.bloom_ready ≡ true → b ≡ some false → P (cache_key code) [])

    from_bloom-Settled :
        (s : ShortLinkService r)
        → Holds r P s
        → Filters s
        → Settled Unread (from_bloom r w code (cache_key code) s)
    unfolding from_bloom text_eq
    from_bloom-Settled s h (b, e, denies) = elim (Bool-cases s.bloom_ready) [
      | inr shut ↦ simp (from_bloom, shut) (from_tables-Settled s h)
      | inl ready ↦ asked b e (denies ready) ready
    ]
      where
        asked :
            (b : Option Bool)
            → contains r s.bloom w.bloom_run s.store code ≡ some b
            → (b ≡ some false → P (cache_key code) [])
            → s.bloom_ready ≡ true
            → Settled Unread (from_bloom r w code (cache_key code) s)
        asked none e denies ready = simp (from_bloom, ready, e) (from_tables-Settled s h)
        asked (some true) e denies ready = simp (from_bloom, ready, e) (from_tables-Settled s h)
        asked (some false) e denies ready =
            simp (from_bloom, ready, e)
              (remember-Settled s w.stored_at [] no_such_link h (denies refl)
                (cached [] (denies refl)))

    from_redis-Settled :
        (s : ShortLinkService r)
        → Holds r P s
        → Filters s
        → Settled Unread (from_redis r w code (cache_key code) s)
    unfolding from_redis text_eq
    from_redis-Settled s h f = elim (Bool-cases w.redis_get) [
      | inr cut ↦ rw (from_redis, cut) (from_bloom-Settled s h f)
      | inl up ↦ elim (Option-cases (r.get s.store (cache_key code))) [
        | inl e ↦ rw (from_redis, up, e) (from_bloom-Settled s h f)
        | inr (v, e) ↦ found up v e
      ]
    ]
      where
        found :
            w.redis_get ≡ true
            → (v : Text) → r.get s.store (cache_key code) ≡ some v
            → Settled Unread (from_redis r w code (cache_key code) s)
        found up [] e =
            let p = h.kept (cache_key code) [] e in
            rw (from_redis, up, e)
              (remember-Settled s w.stored_at [] no_such_link h p (cached [] p))
        found up (c ∷ v) e =
            let p = h.kept (cache_key code) (c ∷ v) e in
            rw (from_redis, up, e)
              (remember-Settled s w.stored_at (c ∷ v) (url (c ∷ v)) h p (cached (c ∷ v) p))

    -- An entry of the local cache is the answer; else the call goes on with the cache after `Get`.
    local-Settled :
        (s : ShortLinkService r) (now : ℕ) (next : ShortLinkService r → Reply r)
        → Holds r P s
        → ((c : L1Cache.L1Cache) → Sound P c → Settled Unread (next (record s { l1_cache = c })))
        → Settled Unread (elim (L1Cache.get s.l1_cache now (cache_key code)) [
          | none ↦ none
          | some (c, some value) ↦ some (record s { l1_cache = c }, answer value)
          | some (c, none) ↦ next (record s { l1_cache = c })
        ])
    local-Settled s now next h go =
        let (c, o, e, sound, good) = get-Sound P (cache_key code) h.sound now in at c o e sound good
      where
        at :
            (c : L1Cache.L1Cache) (o : Option Text)
            → L1Cache.get s.l1_cache now (cache_key code) ≡ some (c, o)
            → Sound P c
            → ((v : Text) → o ≡ some v → P (cache_key code) v)
            → Settled Unread (elim (L1Cache.get s.l1_cache now (cache_key code)) [
              | none ↦ none
              | some (c, some value) ↦ some (record s { l1_cache = c }, answer value)
              | some (c, none) ↦ next (record s { l1_cache = c })
            ])
        at c none e sound good = rw e (go c sound)
        at c (some v) e sound good = rw e (
            inl (
              record s { l1_cache = c },
              answer v,
              refl,
              record { sound = sound; kept = h.kept },
              cached v (good v refl),
            ))

    resolve_redirect-Settled :
        (s : ShortLinkService r)
        → Holds r P s
        → Filters s
        → Settled Unread (resolve_redirect r w code (cache_key code) s)
    unfolding resolve_redirect
    resolve_redirect-Settled s h f =
        local-Settled s w.second_look (from_redis r w code (cache_key code)) h (λ c sound.
          from_redis-Settled (record s { l1_cache = c }) (record { sound = sound; kept = h.kept })
            f)

    -- A redirect does not panic, whatever the services answer, unless the choice of a slave does.
    pub redirect-Settled :
        (s : ShortLinkService r) (shared : Option Answer)
        → Holds r P s
        → Filters s
        → ((a : Answer) → shared ≡ some a → A a)
        → Settled Unread (redirect r w shared code s)
    unfolding redirect
    redirect-Settled s none h f others =
        local-Settled s w.first_look (resolve_redirect r w code (cache_key code)) h (λ c sound.
          resolve_redirect-Settled (record s { l1_cache = c })
            (record { sound = sound; kept = h.kept }) f)
    redirect-Settled s (some a) h f others =
        local-Settled s w.first_look (λ s'. some (s', a)) h
          (λ c sound. inl (
            record s { l1_cache = c },
            a,
            refl,
            record { sound = sound; kept = h.kept },
            others a refl,
          ))
