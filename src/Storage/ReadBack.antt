-- ===== src/Storage/ReadBack.antt =====
-- internal/repository/storage.go: what the batch of GET reads of a batch of SET.
use shortlink_system.Base.{
  ℕ, ◌≡◌, refl, ap, ◌∙◌, ◌⊎◌, inl, inr, Option, none, some, List, [], ◌∷◌, map, Text, text_eq,
  text_eq_iff, Bool, true, false, ◌||◌, if◌then◌else◌, All, Option-cases, arith,
}
use shortlink_system.Base.Maps.{lookup, insert, lookup-insert, lookup-nil}
use shortlink_system.Redis.{Redis}
use shortlink_system.Redis.Pipelines.{set, success, exec, apply_all, apply}
use shortlink_system.Storage.Batches.{
  value, missing, first_error, collect, batch_redis_set, get_command, batch_redis_get,
}

-- Each key stands once, as in a Go map.
abbrev pub Distinct : List (Text × Text) → Type 0
Distinct [] = Unit
Distinct ((k, v) ∷ pairs) = (lookup k pairs ≡ none) × Distinct pairs

abbrev among : Text → List Text → Bool
among k [] = false
among k (j ∷ js) = text_eq j k || among k js

abbrev or_else : Option Text → Option Text → Option Text
or_else none d = d
or_else (some v) d = some v

abbrev pub keys_of : List (Text × Text) → List Text
keys_of pairs = map (λ p. p.0) pairs

lookup_keys :
    (k : Text) (pairs : List (Text × Text)) (d : Option Text)
    → (if among k (keys_of pairs) then or_else (lookup k pairs) d else none) ≡ lookup k pairs
unfolding lookup
lookup_keys k [] d = refl
lookup_keys k ((j, v) ∷ pairs) d = ground (arith, lookup_keys k pairs d)

module _ (r : Redis) where
  open r use {Store}

  set_all_get :
      (pairs : List (Text × Text)) (ttl : ℕ) (s : Store) (k : Text)
      → Distinct pairs
      → r.get (apply_all r s (map (λ p. set p.0 p.1 ttl) pairs)) k
        ≡ or_else (lookup k pairs) (r.get s k)
  unfolding apply_all apply lookup
  set_all_get [] ttl s k d = refl
  set_all_get ((j, v) ∷ pairs) ttl s k (fresh, d) = ground (
    arith,
    set_all_get pairs ttl (r.set s j v ttl) k d,
    r.get-set s j k v ttl,
    text_eq_iff j k,
    fresh,
  )

  batch_redis_set_get :
      (pairs : List (Text × Text)) (ttl : ℕ) (s : Store) (k : Text)
      → Distinct pairs
      → r.get (batch_redis_set r success pairs ttl s).0 k ≡ or_else (lookup k pairs) (r.get s k)
  unfolding batch_redis_set exec lookup
  batch_redis_set_get [] ttl s k d = refl
  batch_redis_set_get (pair ∷ pairs) ttl s k d = set_all_get (pair ∷ pairs) ttl s k d

  get_command_cases :
      (answers : Text → Bool) (s : Store) (k : Text)
      → answers k ≡ true
      → ((get_command r answers s k ≡ missing) × (r.get s k ≡ none))
        ⊎ ((v : Text) × (get_command r answers s k ≡ value v) × (r.get s k ≡ some v))
  unfolding get_command
  get_command_cases answers s k h = elim (Option-cases (r.get s k)) [
    | inl e ↦ inl (ground (arith, e, h), e)
    | inr (v, e) ↦ inr (v, ground (arith, e, h), e)
  ]

  no_broken :
      (answers : Text → Bool) (s : Store) (keys : List Text)
      → All (λ k. answers k ≡ true) keys
      → (first_error (map (get_command r answers s) keys) ≡ none)
        ⊎ (first_error (map (get_command r answers s) keys) ≡ some false)
  unfolding first_error
  no_broken answers s [] h = inl refl
  no_broken answers s (k ∷ keys) (h, hs) = elim (get_command_cases answers s k h) [
    | inl (c, e) ↦ inr (rw c refl)
    | inr (v, c, e) ↦ rw c (no_broken answers s keys hs)
  ]

  collect_lem :
      (answers : Text → Bool) (s : Store) (k : Text) (keys : List Text) (m : List (Text × Text))
      → All (λ k. answers k ≡ true) keys
      → lookup k (collect keys (map (get_command r answers s) keys) m)
        ≡ (if among k keys then or_else (r.get s k) (lookup k m) else lookup k m)
  unfolding collect
  collect_lem answers s k [] m h = refl
  collect_lem answers s k (j ∷ keys) m (h, hs) = elim (get_command_cases answers s j h) [
    | inl (c, e) ↦ rw c (ground (arith, collect_lem answers s k keys m hs, text_eq_iff j k, e))
    | inr (v, c, e) ↦ rw c (
        ground (
          arith,
          collect_lem answers s k keys (insert j v m) hs,
          lookup-insert j k v m,
          text_eq_iff j k,
          e,
        ))
  ]

  -- If the server answers for every key, the batch of GET gives the map of the keys that are there.
  batch_redis_get-lookup :
      (answers : Text → Bool) (s : Store) (keys : List Text)
      → All (λ k. answers k ≡ true) keys
      → (results : List (Text × Text)) × (batch_redis_get r answers keys s ≡ some results)
        × ((k : Text) → lookup k results ≡ (if among k keys then r.get s k else none))
  unfolding batch_redis_get
  batch_redis_get-lookup answers s [] h = ([], refl, λ k. lookup-nil k)
  batch_redis_get-lookup answers s (key ∷ keys) h =
      let cmds = map (get_command r answers s) (key ∷ keys) in
      (
        collect (key ∷ keys) cmds [],
        ground (arith, no_broken answers s (key ∷ keys) h),
        λ k. ground (arith, collect_lem answers s k (key ∷ keys) [] h, lookup-nil {V = Text} k),
      )

  -- If the pipeline of SET succeeds and the server answers for the keys, then the batch of GET for the
  -- keys of a map gives the map back, whatever the server held.
  pub batch_redis_get-set :
      (pairs : List (Text × Text)) (ttl : ℕ) (s : Store) (answers : Text → Bool)
      → Distinct pairs
      → All (λ k. answers k ≡ true) (keys_of pairs)
      → (results : List (Text × Text)) × (batch_redis_get r answers
            (keys_of pairs)
            (batch_redis_set r success pairs ttl s).0
          ≡ some results)
        × ((k : Text) → lookup k results ≡ lookup k pairs)
  batch_redis_get-set pairs ttl s answers d h =
      let s' = (batch_redis_set r success pairs ttl s).0 in
      let (results, e, found) = batch_redis_get-lookup answers s' (keys_of pairs) h in
      (
        results,
        e,
        λ k.
            found k
            ∙ ap (λ v. if among k (keys_of pairs) then v else none)
                (batch_redis_set_get pairs ttl s k d)
            ∙ lookup_keys k pairs (r.get s k),
      )
