-- ===== src/Redis/Pipelines.antt =====
-- A pipeline is a list of commands. `Exec` may fail, and then it has applied the commands in front
-- of the failure.
use shortlink_system.Base.{
  ℕ, zero, suc, List, [], ◌∷◌, ◌++◌, Text, ◌≡◌, refl, ◌∙◌, Bool, true, false, text_eq, All, arith,
}
use shortlink_system.Redis.{Redis}

pub data Command : Type 0 where
  set : Text → Text → ℕ → Command
  set_bit : Text → ℕ → Command

module _ (r : Redis) where
  open r use {Store}

  unfoldable pub apply : Store → Command → Store
  apply s (set k v ttl) = r.set s k v ttl
  apply s (set_bit k i) = r.set_bit s k i

  unfoldable pub apply_all : Store → List Command → Store
  unfolding apply
  apply_all s [] = s
  apply_all s (c ∷ cs) = apply_all (apply s c) cs

  unfoldable pub apply_first : ℕ → Store → List Command → Store
  unfolding apply
  apply_first zero s cs = s
  apply_first (suc n) s [] = s
  apply_first (suc n) s (c ∷ cs) = apply_first n (apply s c) cs

-- How a call of `Exec` goes: it succeeds, or it fails after that many commands.
pub data Outcome : Type 0 where
  success : Outcome
  failure : ℕ → Outcome

abbrev pub succeeded : Outcome → Bool
succeeded success = true
succeeded (failure n) = false

pub success_only : (o : Outcome) → succeeded o ≡ true → o ≡ success
success_only success e = refl
success_only (failure n) e = cc

module _ (r : Redis) where
  open r use {Store}

  unfoldable pub exec : Outcome → Store → List Command → Store
  unfolding apply_all apply_first
  exec success s cs = apply_all r s cs
  exec (failure n) s cs = apply_first r n s cs

  pub apply_all-append :
      (s : Store) (cs ds : List Command)
      → apply_all r s (cs ++ ds) ≡ apply_all r (apply_all r s cs) ds
  unfolding apply_all
  apply_all-append s [] ds = refl
  apply_all-append s (c ∷ cs) ds = apply_all-append (apply r s c) cs ds

  -- What leaves the bits of a key alone, but for setting more of them.
  abbrev pub Spares : Text → Command → Type 0
  Spares key (set k v ttl) = text_eq k key ≡ false
  Spares key (set_bit k i) = Unit

  pub apply_bit :
      (s : Store) (key : Text) (n : ℕ) (c : Command)
      → Spares key c
      → r.get_bit s key n ≡ true
      → r.get_bit (apply r s c) key n ≡ true
  unfolding apply
  apply_bit s key n (set k v ttl) h e = r.get_bit-set s k key v ttl n h ∙ e
  apply_bit s key n (set_bit k i) h e = ground (arith, r.get_bit-set_bit s k key i n)

  pub apply_all_bit :
      (s : Store) (key : Text) (n : ℕ) (cs : List Command)
      → All (Spares key) cs
      → r.get_bit s key n ≡ true
      → r.get_bit (apply_all r s cs) key n ≡ true
  unfolding apply_all
  apply_all_bit s key n [] h e = e
  apply_all_bit s key n (c ∷ cs) (h, hs) e =
      apply_all_bit (apply r s c) key n cs hs (apply_bit s key n c h e)

  apply_first_bit :
      (i : ℕ) (s : Store) (key : Text) (n : ℕ) (cs : List Command)
      → All (Spares key) cs
      → r.get_bit s key n ≡ true
      → r.get_bit (apply_first r i s cs) key n ≡ true
  unfolding apply_first
  apply_first_bit zero s key n cs h e = e
  apply_first_bit (suc i) s key n [] h e = e
  apply_first_bit (suc i) s key n (c ∷ cs) (h, hs) e =
      apply_first_bit i (apply r s c) key n cs hs (apply_bit s key n c h e)

  -- A pipeline that spares the key keeps its bits, also if it fails on the way.
  pub exec_bit :
      (o : Outcome) (s : Store) (key : Text) (n : ℕ) (cs : List Command)
      → All (Spares key) cs
      → r.get_bit s key n ≡ true
      → r.get_bit (exec o s cs) key n ≡ true
  unfolding exec
  exec_bit success s key n cs h e = apply_all_bit s key n cs h e
  exec_bit (failure i) s key n cs h e = apply_first_bit i s key n cs h e
