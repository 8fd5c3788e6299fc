-- ===== src/Bloom/Membership.antt =====
-- What `Contains` answers after `Add`.

use shortlink_system.Base.{
  ℕ, ◌≡◌, refl, some, Option-cases, inl, inr, List, [], ◌∷◌, ◌++◌, map, All, true, false,
  text_eq_refl, Text, arith,
}
use shortlink_system.Redis.{Redis}
use shortlink_system.Redis.Pipelines.{
  Command, set_bit, Outcome, success, apply, apply_all, exec, Spares, apply_all_bit, exec_bit,
  apply_all-append,
}
use shortlink_system.Bloom.{RedisBloomFilter, offsets, queue_add, contains_script, contains}

module _ (r : Redis) where
  open r use {Store}

  abbrev pub AllSet : Store → Text → List ℕ → Type 0
  AllSet s key = All (λ o. r.get_bit s key o ≡ true)

  pub map-set_bit-Spares : (key : Text) (os : List ℕ) → All (Spares r key) (map (set_bit key) os)
  map-set_bit-Spares key [] = tt
  map-set_bit-Spares key (o ∷ os) = (tt, map-set_bit-Spares key os)

  pub AllSet-map-set_bit :
      (s : Store) (key : Text) (os : List ℕ) → AllSet (apply_all r s (map (set_bit key) os)) key os
  unfolding apply_all
  AllSet-map-set_bit s key [] = tt
  AllSet-map-set_bit s key (o ∷ os) = (
    apply_all_bit r (apply r s (set_bit key o)) key o (map (set_bit key) os)
        (map-set_bit-Spares key os)
        (unfold apply in ground (arith, r.get_bit-set_bit s key key o o, text_eq_refl key)),
    AllSet-map-set_bit (apply r s (set_bit key o)) key os,
  )

  pub AllSet-exec :
      (o : Outcome) (s : Store) (key : Text) (os : List ℕ) (cs : List Command)
      → All (Spares r key) cs
      → AllSet s key os
      → AllSet (exec r o s cs) key os
  AllSet-exec o s key [] cs h a = tt
  AllSet-exec o s key (i ∷ os) cs h (a, as') =
      (exec_bit r o s key i cs h a, AllSet-exec o s key os cs h as')

  pub contains_script-one :
      (s : Store) (key : Text) (os : List ℕ) → AllSet s key os → contains_script r s key os ≡ 1
  unfolding contains_script
  contains_script-one s key [] a = refl
  contains_script-one s key (o ∷ os) (a, as') = rw a (contains_script-one s key os as')

  -- The store after more pipelines, each with its outcome.
  unfoldable pub run : Store → List (Outcome × List Command) → Store
  run s [] = s
  run s ((o, cs) ∷ later) = run (exec r o s cs) later

  AllSet-run :
      (s : Store) (key : Text) (os : List ℕ) (later : List (Outcome × List Command))
      → All (λ p. All (Spares r key) p.1) later
      → AllSet s key os
      → AllSet (run s later) key os
  unfolding run
  AllSet-run s key os [] h a = a
  AllSet-run s key os ((o, cs) ∷ later) (h, hs) a =
      AllSet-run (exec r o s cs) key os later hs (AllSet-exec o s key os cs h a)

  pub queue_add_cases :
      (bf : RedisBloomFilter) (str : Text) (pipe pipe' : List Command)
      → queue_add bf str pipe ≡ some pipe'
      → (os : List ℕ) × (offsets bf str ≡ some os) × (pipe' ≡ pipe ++ map (set_bit bf.key) os)
  unfolding queue_add
  queue_add_cases bf str pipe pipe' e = elim (Option-cases (offsets bf str)) [
    | inl bad ↦ absurd (ground (arith, bad))
    | inr (os, good) ↦ (os, good, ground (arith, good))
  ]

  -- No false negatives. Once a pipeline that ends with the commands of `QueueAdd` has succeeded,
  -- `Contains` answers true, whatever pipelines follow, failing or not, as long as none of them
  -- overwrites the key of the filter.
  pub contains-queue_add :
      (bf : RedisBloomFilter) (str : Text) (s : Store) (pipe pipe' : List Command)
      (later : List (Outcome × List Command))
      → queue_add bf str pipe ≡ some pipe'
      → All (λ p. All (Spares r bf.key) p.1) later
      → contains r bf true (run (exec r success s pipe') later) str ≡ some (some true)
  unfolding contains exec
  contains-queue_add bf str s pipe pipe' later e h =
      let (os, at, shape) = queue_add_cases bf str pipe pipe' e in
      let after : AllSet (apply_all r s pipe') bf.key os =
        rw (shape, apply_all-append r s pipe (map (set_bit bf.key) os))
          (AllSet-map-set_bit (apply_all r s pipe) bf.key os) in
      let one =
        contains_script-one (run (apply_all r s pipe') later) bf.key os
          (AllSet-run (apply_all r s pipe') bf.key os later h after) in
      ground (arith, at, one)

  contains_script-zero :
      (s : Store) (key : Text) (o : ℕ) (os : List ℕ)
      → r.get_bit s key o ≡ false
      → contains_script r s key (o ∷ os) ≡ 0
  unfolding contains_script
  contains_script-zero s key o os e = rw e
