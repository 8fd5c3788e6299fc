-- ===== src/Storage/Replicas.antt =====
-- Which slave a read gets, and when the choice panics.
use shortlink_system.Base.{
  ℕ, zero, suc, ◌+◌, ◌-◌, ◌%◌, ◌^◌, ◌<◌, ◌≤◌, ◌≡◌, ◌≢◌, ◌↔◌, refl, none, List, [], ◌∷◌, length,
  get_elem?, get_elem?-of_lt, arith, ltb, ◌==◌, true, false,
}
use native.Mathlib.Decide.{dec_lt}
use native.Mathlib.Nat.{mod-lt}
use shortlink_system.Storage.{int32_of, remainder, index, negate, next_index, get_read_db}

get_elem?-lt {ℓ} : {A : Type ℓ} (xs : List A) (i : ℕ) → i < length xs → get_elem? xs i ≢ none
get_elem?-lt xs i h e = let (x, found) = get_elem?-of_lt xs i h in cc

-- A remainder that is not positive is an index exactly when it is 0.
index-negate {ℓ} :
    {A : Type ℓ} (xs : List A) (n : ℕ) → 0 < length xs → (index xs (negate n) ≡ none) ↔ (n ≢ 0)
index-negate xs zero h = ((λ e. absurd (get_elem?-lt xs 0 h e)), (λ ne. absurd (ne refl)))
index-negate xs (suc n) h = ((λ e z. absurd (omega (arith, z))), (λ ne. refl))

index-remainder {ℓ} :
    {A : Type ℓ} (xs : List A) (bits : ℕ)
    → 0 < length xs
    → bits < 2 ^ 32
    → (index xs (remainder (int32_of bits) (length xs)) ≡ none)
      ↔ ((2 ^ 31 ≤ bits) × ((2 ^ 32 - bits) % length xs ≢ 0))
index-remainder xs bits h k = elim (dec_lt bits (2 ^ 31)) [
  | yes small ↦
      let test : ltb bits (2 ^ 31) ≡ true = ground arith in
      rw test (
        (λ e. absurd (get_elem?-lt xs (bits % length xs) (mod-lt bits h) e)),
        (λ p. absurd (omega (arith, p.0))),
      )
  | no large ↦
      let test : ltb bits (2 ^ 31) ≡ false = ground arith in
      let size : 2 ^ 32 - 1 - bits + 1 ≡ 2 ^ 32 - bits = omega arith in
      let (there, back) = index-negate xs ((2 ^ 32 - 1 - bits + 1) % length xs) h in
      rw test ((λ e. (omega arith, rw (← size) (there e))), (λ p. back (rw size p.1)))
]

-- With slaves, a read panics exactly when the counter has passed 2^31 and its negative value is not a
-- multiple of their number.
pub get_read_db-none_iff {ℓ} :
    {A : Type ℓ} (master_db : A) (slave_dbs : List A) (read_index : ℕ)
    → 0 < length slave_dbs
    → ((get_read_db master_db slave_dbs read_index).1 ≡ none) ↔ (
        (2 ^ 31 ≤ next_index read_index)
        × ((2 ^ 32 - next_index read_index) % length slave_dbs ≢ 0))
unfolding get_read_db
get_read_db-none_iff master_db [] read_index h = absurd (omega arith)
get_read_db-none_iff master_db (s ∷ ss) read_index h =
    let full : (suc (length ss) == 0) ≡ false = ground arith in
    rw full (index-remainder (s ∷ ss) (next_index read_index) h (omega arith))

-- Before the counter passes 2^31, the reads take the slaves in turn.
get_read_db-in_range {ℓ} :
    {A : Type ℓ} (master_db : A) (slave_dbs : List A) (read_index : ℕ)
    → 0 < length slave_dbs
    → read_index + 1 < 2 ^ 31
    → get_read_db master_db slave_dbs read_index
      ≡ (read_index + 1, get_elem? slave_dbs ((read_index + 1) % length slave_dbs))
unfolding get_read_db
get_read_db-in_range master_db [] read_index h k = absurd (omega arith)
get_read_db-in_range master_db (s ∷ ss) read_index h k =
    let small : next_index read_index ≡ read_index + 1 = omega arith in
    let test : ltb (read_index + 1) (2 ^ 31) ≡ true = ground arith in
    rw (small, test) (ground arith)
