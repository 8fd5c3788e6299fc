-- ===== src/Service/WriteThrough.antt =====
-- internal/service/shortlink.go: `writeThrough`, the pipeline that brings a new link to Redis and to
-- the Bloom filter.
use shortlink_system.Base.{
  ◌<◌, ℕ, ◌≡◌, refl, sym, ap, ◌∙◌, Option, none, some, List, [], ◌∷◌, ◌++◌, map, Text, bytes, Bool,
  true, false, text_eq, text_eq_refl, apart, Option-cases, inl, inr, arith,
}
use mathlib.Core.Path.{subst}
use shortlink_system.Redis.{Redis}
use shortlink_system.Redis.Pipelines.{
  Command, Outcome, success, succeeded, success_only, set, set_bit, exec, apply, apply_all,
  apply_all-append,
}
use shortlink_system.Bloom.{RedisBloomFilter, queue_add, contains}
use shortlink_system.Bloom.Offsets.{offsets_of_lem}
use shortlink_system.Bloom.Membership.{run, queue_add_cases, contains-queue_add}
use shortlink_system.Service.{generate_jitter_expiration, cache_key}
use shortlink_system.Service.Retries.{
  Retried, done, with_retry, after_failures, with_retry-Succeeds,
}

abbrev pub url_hash_key : Text → Text
url_hash_key url_hash = bytes "urlhash:" ++ url_hash

pub url_hash_key_injective : (g h : Text) → url_hash_key g ≡ url_hash_key h → g ≡ h
url_hash_key_injective g h e = cc

keys_differ : (code h : Text) → text_eq (url_hash_key h) (cache_key code) ≡ false
unfolding text_eq
keys_differ code h = refl

pub keys_apart : (code h : Text) → cache_key code ≡ url_hash_key h → ⊥
keys_apart code h e = apart (url_hash_key h) (cache_key code) (keys_differ code h) (sym e)

-- The commands of the pipeline: the link, the reverse index, the bits of the filter. `none` is a
-- panic of the filter.
unfoldable pub sync_commands : RedisBloomFilter → Text → Text → Text → ℕ → Option (List Command)
sync_commands bf short_code long_url url_hash expiration = queue_add bf short_code (
    set (cache_key short_code) long_url expiration
    ∷ set (url_hash_key url_hash) short_code expiration
    ∷ [])

module _ (r : Redis) where
  open r use {Store}

  -- One run of the pipeline; `outcomes` says how each attempt goes.
  abbrev pub run_pipeline : (ℕ → Outcome) → List Command → ℕ → Store → Store × Bool
  run_pipeline outcomes pipe i s = (exec r (outcomes i) s pipe, succeeded (outcomes i))

  -- The store afterwards, with the error that is only logged.
  unfoldable pub write_through :
      (ℕ → Outcome)
      → (ℕ → Bool)
      → ℕ
      → RedisBloomFilter
      → Text
      → Text
      → Text
      → Store
      → Option (Store × Retried)
  unfolding sync_commands
  write_through outcomes cancelled jitter bf short_code long_url url_hash s =
      elim (sync_commands bf short_code long_url url_hash (generate_jitter_expiration jitter)) [
        | none ↦ none
        | some pipe ↦ some (with_retry (run_pipeline outcomes pipe) cancelled 3 s)
      ]

  -- Redis has the link, its reverse index, and the filter contains its code.
  pub record Synced (bf : RedisBloomFilter) (short_code long_url url_hash : Text) (s : Store)
      : Type 0 where
    pub forward : r.get s (cache_key short_code) ≡ some long_url
    pub reverse : r.get s (url_hash_key url_hash) ≡ some short_code
    pub member : contains r bf true s short_code ≡ some (some true)

  get-map-set_bit :
      (s : Store) (key j : Text) (os : List ℕ)
      → text_eq key j ≡ false
      → r.get (apply_all r s (map (set_bit key) os)) j ≡ r.get s j
  unfolding apply_all apply
  get-map-set_bit s key j [] h = refl
  get-map-set_bit s key j (o ∷ os) h =
      get-map-set_bit (r.set_bit s key o) key j os h ∙ r.get-set_bit s key j o h

  get_self : (s : Store) (k v : Text) (ttl : ℕ) → r.get (r.set s k v ttl) k ≡ some v
  get_self s k v ttl = ground (arith, r.get-set s k k v ttl, text_eq_refl k)

  get_other :
      (s : Store) (k j v : Text) (ttl : ℕ)
      → text_eq k j ≡ false
      → r.get (r.set s k v ttl) j ≡ r.get s j
  get_other s k j v ttl h = ground (arith, r.get-set s k j v ttl, h)

  pipe-Synced :
      (bf : RedisBloomFilter) (code long_url url_hash : Text) (ttl : ℕ) (pipe : List Command)
      (s : Store)
      → text_eq bf.key (cache_key code) ≡ false
      → text_eq bf.key (url_hash_key url_hash) ≡ false
      → sync_commands bf code long_url url_hash ttl ≡ some pipe
      → Synced bf code long_url url_hash (exec r success s pipe)
  unfolding exec sync_commands run
  pipe-Synced bf code long_url url_hash ttl pipe s h k e =
      let start = set (cache_key code) long_url ttl ∷ set (url_hash_key url_hash) code ttl ∷ [] in
      let (os, at, shape) = queue_add_cases r bf code start pipe e in
      let split : apply_all r s pipe ≡ apply_all r (apply_all r s start) (map (set_bit bf.key) os) =
        ap (apply_all r s) shape ∙ apply_all-append r s start (map (set_bit bf.key) os) in
      record {
        forward =
            ap (λ t. r.get t (cache_key code)) split
            ∙ get-map-set_bit (apply_all r s start) bf.key (cache_key code) os h
            ∙ get_other (r.set s (cache_key code) long_url ttl) (url_hash_key url_hash)
                (cache_key code) code ttl (keys_differ code url_hash)
            ∙ get_self s (cache_key code) long_url ttl;
        reverse =
            ap (λ t. r.get t (url_hash_key url_hash)) split
            ∙ get-map-set_bit (apply_all r s start) bf.key (url_hash_key url_hash) os k
            ∙ get_self (r.set s (cache_key code) long_url ttl) (url_hash_key url_hash) code ttl;
        member = contains-queue_add r bf code s start pipe [] e tt;
      }

  -- What is left when the retries end without an error, for keys that are not that of the filter.
  pub retries-Synced :
      (outcomes : ℕ → Outcome) (cancelled : ℕ → Bool) (bf : RedisBloomFilter)
      (code long_url url_hash : Text) (ttl : ℕ) (pipe : List Command) (s s' : Store)
      → text_eq bf.key (cache_key code) ≡ false
      → text_eq bf.key (url_hash_key url_hash) ≡ false
      → sync_commands bf code long_url url_hash ttl ≡ some pipe
      → with_retry (run_pipeline outcomes pipe) cancelled 3 s ≡ (s', done)
      → Synced bf code long_url url_hash s'
  retries-Synced outcomes cancelled bf code long_url url_hash ttl pipe s s' h k commands e =
      let won = with_retry-Succeeds (run_pipeline outcomes pipe) cancelled 3 s s' (omega arith) e in
      let before = after_failures (run_pipeline outcomes pipe) cancelled won.attempt s in
      let went =
        success_only (outcomes won.attempt) (ap {A = Store × Bool} (λ x. x.1) won.succeeded) in
      subst (Synced bf code long_url url_hash)
        (ap (λ o. exec r o before pipe) (sym went) ∙ ap {A = Store × Bool} (λ x. x.0) won.succeeded)
        (pipe-Synced bf code long_url url_hash ttl pipe before h k commands)

  -- If `writeThrough` ends without an error, then Redis answers the link and its reverse index and
  -- the filter contains the code, whichever attempts have failed in front.
  write_through-Synced :
      (outcomes : ℕ → Outcome) (cancelled : ℕ → Bool) (jitter : ℕ) (bf : RedisBloomFilter)
      (code long_url url_hash : Text) (s s' : Store)
      → text_eq bf.key (cache_key code) ≡ false
      → text_eq bf.key (url_hash_key url_hash) ≡ false
      → write_through outcomes cancelled jitter bf code long_url url_hash s ≡ some (s', done)
      → Synced bf code long_url url_hash s'
  unfolding write_through
  write_through-Synced outcomes cancelled jitter bf code long_url url_hash s s' h k e =
      elim (Option-cases
        (sync_commands bf code long_url url_hash (generate_jitter_expiration jitter))) [
          | inl bad ↦ absurd (ground (arith, e, bad))
          | inr (pipe, good) ↦
              retries-Synced outcomes cancelled bf code long_url url_hash
                (generate_jitter_expiration jitter) pipe s s' h k good (ground (arith, e, good))
        ]

  -- The filter has offsets for every text, so the pipeline is built and the call returns.
  pub write_through_total :
      (outcomes : ℕ → Outcome) (cancelled : ℕ → Bool) (jitter : ℕ) (bf : RedisBloomFilter)
      (code long_url url_hash : Text) (s : Store)
      → 0 < bf.size
      → (s' : Store) × (err : Retried) × (write_through outcomes cancelled jitter bf code long_url
            url_hash s
          ≡ some (s', err))
  unfolding write_through sync_commands queue_add
  write_through_total outcomes cancelled jitter bf code long_url url_hash s h =
      let (os, e, _, _) = offsets_of_lem bf.size code bf.seeds h in
      let pipe =
        (set (cache_key code) long_url (generate_jitter_expiration jitter)
          ∷ set (url_hash_key url_hash) code (generate_jitter_expiration jitter)
          ∷ [])
        ++ map (set_bit bf.key) os in
      let (s', err) = with_retry (run_pipeline outcomes pipe) cancelled 3 s in
      (s', err, simp (write_through, sync_commands, queue_add, e) refl)
