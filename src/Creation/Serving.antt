-- ===== src/Creation/Serving.antt =====
-- A redirect in the process that has created the link.
use shortlink_system.Base.{
  ℕ, ◌+◌, ◌<◌, ◌≡◌, ◌≢◌, refl, sym, ap, ◌∙◌, inl, inr, Option, none, some, [], ◌++◌, Text, text_eq,
  Bool, true, false, Bool-cases, ltb, if◌then◌else◌, arith,
}
use shortlink_system.Base62.{decode}
use shortlink_system.Base62.Alphabet.{IsAlphabet}
use shortlink_system.Cache.{CacheShard}
use shortlink_system.L1Cache
use shortlink_system.L1Cache.{L1Cache, get_shard}
use shortlink_system.L1Cache.Routing
use shortlink_system.Snowflake.Order.{IsValid}
use shortlink_system.L1Cache.Contents.{Sound, get-set_ttl}
use shortlink_system.Redis.{Redis}
use shortlink_system.Service.{
  ShortLink, Weather, Answer, url, ShortLinkService, redirect, cache_key,
}
use shortlink_system.Creation.{
  Reply, Conditions, Creator, Created, short_url, empty_url, database_error, create,
}
use shortlink_system.Creation.Commits.{extended}
use shortlink_system.Creation.Outcomes.{
  Recorded, unchanged, added, Anything, anything_goes, Coherent,
}
use shortlink_system.Creation.Transactions.{create-Returns}

module _ (r : Redis) where
  -- The part of the service that a redirect uses.
  abbrev pub serving : Bool → Creator r → ShortLinkService r
  serving ready s = record {
    l1_cache = s.l1_cache;
    bloom = s.bloom;
    bloom_ready = ready;
    store = s.store;
  }

  -- The answer to a code in any weather, while the time to live of its shard lasts after `now`.
  abbrev pub Serves : ℕ → L1Cache → Text → Text → Creator r → Type 0
  Serves now before code long_url s =
      (w : Weather) (shared : Option Answer) (ready : Bool) (shard : CacheShard)
      → get_shard before (cache_key code) ≡ some shard
      → ltb (now + shard.ttl) w.first_look ≡ false
      → (s' : ShortLinkService r) × (redirect r w shared code (serving ready s)
          ≡ some (s', url long_url))

  set-Serves :
      (now : ℕ) (c : L1Cache) (code long_url : Text) (s : Creator r)
      → Routing.IsValid c
      → text_eq long_url [] ≡ false
      → L1Cache.set c now (cache_key code) long_url ≡ some s.l1_cache
      → Serves now c code long_url s
  unfolding redirect
  set-Serves now c code long_url s v full e w shared ready shard at fresh =
      let (shard', c', c'', at', e', g) =
        get-set_ttl (cache_key code) long_url now w.first_look v in
      let same_shard : shard' ≡ shard = cc in
      let same_cache : c' ≡ s.l1_cache = cc in
      let hit : L1Cache.get s.l1_cache w.first_look (cache_key code) ≡ some (c'', some long_url) =
        ap (λ c. L1Cache.get c w.first_look (cache_key code)) (sym same_cache)
        ∙ g
        ∙ ap (λ o. some (c'', o)) (live shard' same_shard) in
      (record (serving ready s) { l1_cache = c'' }, simp (redirect, hit, full) refl)
    where
      live :
          (shard' : CacheShard)
          → shard' ≡ shard
          → (if ltb (now + shard'.ttl) w.first_look then none else some long_url) ≡ some long_url
      live shard' same = ground (arith, ap (λ (s : CacheShard). s.ttl) same, fresh)

  module _ (t : Conditions) (long_url : Text) (start : Creator r)
      (alphabet : IsAlphabet start.b62.alphabet) (positive : 0 < start.bloom.size)
      (local : Sound (λ k v. Unit) start.l1_cache) (index : Sound (λ k v. Unit) start.url_hash_l1)
      (worker : IsValid start.node) where
    wild : Coherent r Anything start
    wild = record { worker = worker; local = local; index = index; kept = λ k v e. tt }

    -- A new link is served at once. Under the conditions of `create-Returns`, if `Create` returns an
    -- address and the tables have changed, then the address ends in the code of the one link that was
    -- added, for this URL, and a redirect of that code that runs in this process directly on what the
    -- call left, before the entry of the local cache expires, answers the URL, whatever the other
    -- caches, the filter, the tables and concurrent calls say.
    pub redirect-create :
        (s' : Creator r) (u : Text)
        → create r t long_url start ≡ some (s', short_url u)
        → s'.tables ≢ start.tables
        → (link : ShortLink) × (s'.tables ≡ extended t link start.tables)
          × (link.long_url ≡ long_url)
          × (decode start.b62 link.short_code ≡ some link.id)
          × (u ≡ start.url_prefix ++ link.short_code)
          × Serves t.stored_at start.l1_cache link.short_code long_url s'
    unfolding create
    redirect-create s' u e changed =
        let (s, a, e', _, how) =
          create-Returns r Anything t long_url start alphabet positive
            (anything_goes r t long_url start) wild in
        let agree : ◌≡◌ {A = Reply r} (some (s, a)) (some (s', short_url u)) = sym e' ∙ e in
        go how (state_of agree) (answer_of agree)
      where
        state_of :
            {s : Creator r} {a : Created}
            → ◌≡◌ {A = Reply r} (some (s, a)) (some (s', short_url u))
            → s ≡ s'
        state_of e = cc

        answer_of :
            {s : Creator r} {a : Created}
            → ◌≡◌ {A = Reply r} (some (s, a)) (some (s', short_url u))
            → a ≡ short_url u
        answer_of e = cc

        clash : database_error ≡ short_url u → ⊥
        clash e = cc

        address_of : {v : Text} → short_url v ≡ short_url u → u ≡ v
        address_of e = cc

        refused : text_eq long_url [] ≡ true → empty_url ≡ short_url u
        refused blank =
            let early : create r t long_url start ≡ some (start, empty_url) =
              simp (create, blank) refl in
            answer_of {s = start} (sym early ∙ e)

        not_refused : empty_url ≡ short_url u → ⊥
        not_refused e = cc

        full : text_eq long_url [] ≡ false
        full = elim (Bool-cases (text_eq long_url [])) [
          | inl blank ↦ absurd (not_refused (refused blank))
          | inr f ↦ f
        ]

        go :
            {s : Creator r} {a : Created}
            → Recorded r Anything t long_url start s a
            → s ≡ s'
            → a ≡ short_url u
            → (link : ShortLink) × (s'.tables ≡ extended t link start.tables)
              × (link.long_url ≡ long_url)
              × (decode start.b62 link.short_code ≡ some link.id)
              × (u ≡ start.url_prefix ++ link.short_code)
              × Serves t.stored_at start.l1_cache link.short_code long_url s'
        go (unchanged still _) p q =
            absurd (changed (sym (ap (λ (s : Creator r). s.tables) p) ∙ still))
        go (added link same_url hash code free tables (inr lost)) p q =
            absurd (clash (sym lost ∙ q))
        go (added link same_url hash code free tables (inl (address, stored))) p q = (
          link,
          sym (ap (λ (s : Creator r). s.tables) p) ∙ tables,
          same_url,
          code,
          address_of (sym address ∙ q),
          set-Serves t.stored_at start.l1_cache link.short_code long_url s' local.valid full (
              ap (L1Cache.set start.l1_cache t.stored_at (cache_key link.short_code)) (sym same_url)
              ∙ stored
              ∙ ap (λ (s : Creator r). some s.l1_cache) p),
        )
