-- ===== src/Redis/Entries.antt =====
-- Predicates on the strings of Redis.
use shortlink_system.Base.{
  ℕ, zero, suc, ◌≡◌, ◌∙◌, some, List, [], ◌∷◌, Text, text_eq, text_eq_iff, All, false, Bool-cases,
  inl, inr, arith,
}
use mathlib.Core.Path.{subst}
use shortlink_system.Redis.{Redis}
use shortlink_system.Redis.Pipelines.{
  Command, set, set_bit, Outcome, success, failure, exec, apply, apply_all, apply_first,
}

module _ (r : Redis) (P : Text → Text → Type 0) where
  open r use {Store}

  -- Every string of the store satisfies `P`.
  abbrev pub Kept : Store → Type 0
  Kept s = (k v : Text) → r.get s k ≡ some v → P k v

  -- What a command may write. A bitmap reads as any string.
  abbrev pub Allowed : Command → Type 0
  Allowed (set k v ttl) = P k v
  Allowed (set_bit k i) = (v : Text) → P k v

  set-Kept : (s : Store) (k v : Text) (ttl : ℕ) → Kept s → P k v → Kept (r.set s k v ttl)
  set-Kept s k v ttl h p j u e = elim (Bool-cases (text_eq k j)) [
    | inl same ↦
        let key : k ≡ j = (text_eq_iff k j).0 same in
        let value : v ≡ u = ground (arith, r.get-set s k j v ttl, same) in
        subst (P j) value (subst (λ i. P i v) key p)
    | inr other ↦ h j u (ground (arith, r.get-set s k j v ttl, other))
  ]

  set_bit-Kept :
      (s : Store) (k : Text) (i : ℕ) → Kept s → ((v : Text) → P k v) → Kept (r.set_bit s k i)
  set_bit-Kept s k i h p j u e = elim (Bool-cases (text_eq k j)) [
    | inl same ↦ subst (λ k. P k u) ((text_eq_iff k j).0 same) (p u)
    | inr other ↦ h j u (ground (arith, r.get-set_bit s k j i other, e))
  ]

  apply-Kept : (s : Store) (c : Command) → Kept s → Allowed c → Kept (apply r s c)
  unfolding apply
  apply-Kept s (set k v ttl) h p = set-Kept s k v ttl h p
  apply-Kept s (set_bit k i) h p = set_bit-Kept s k i h p

  -- A pipeline of allowed commands keeps the strings so, also if it fails on the way.
  pub exec-Kept :
      (o : Outcome) (s : Store) (cs : List Command) → Kept s → All Allowed cs → Kept (exec r o s cs)
  unfolding exec apply_all apply_first
  exec-Kept success s [] h p = h
  exec-Kept success s (c ∷ cs) h (p, ps) =
      exec-Kept success (apply r s c) cs (apply-Kept s c h p) ps
  exec-Kept (failure zero) s cs h p = h
  exec-Kept (failure (suc n)) s [] h p = h
  exec-Kept (failure (suc n)) s (c ∷ cs) h (p, ps) =
      exec-Kept (failure n) (apply r s c) cs (apply-Kept s c h p) ps

-- What leaves a string under a key as it is.
abbrev pub Fits : Text → Text → Command → Type 0
Fits k v (set j u ttl) = j ≡ k → u ≡ v
Fits k v (set_bit j i) = text_eq j k ≡ false

module _ (r : Redis) (k v : Text) where
  apply-Fits :
      (s : r.Store) (c : Command) → r.get s k ≡ some v → Fits k v c → r.get (apply r s c) k ≡ some v
  unfolding apply
  apply-Fits s (set j u ttl) e h = elim (Bool-cases (text_eq j k)) [
    | inl same ↦ ground (arith, r.get-set s j k u ttl, same, h ((text_eq_iff j k).0 same))
    | inr other ↦ ground (arith, r.get-set s j k u ttl, other, e)
  ]
  apply-Fits s (set_bit j i) e h = r.get-set_bit s j k i h ∙ e

  -- A pipeline of such commands leaves it, also if it fails on the way.
  pub exec-Fits :
      (o : Outcome) (s : r.Store) (cs : List Command)
      → r.get s k ≡ some v
      → All (Fits k v) cs
      → r.get (exec r o s cs) k ≡ some v
  unfolding exec apply_all apply_first
  exec-Fits success s [] e h = e
  exec-Fits success s (c ∷ cs) e (h, hs) =
      exec-Fits success (apply r s c) cs (apply-Fits s c e h) hs
  exec-Fits (failure zero) s cs e h = e
  exec-Fits (failure (suc n)) s [] e h = e
  exec-Fits (failure (suc n)) s (c ∷ cs) e (h, hs) =
      exec-Fits (failure n) (apply r s c) cs (apply-Fits s c e h) hs
