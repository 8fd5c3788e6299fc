-- ===== src/Tests/Reads.antt =====
-- The choice of a slave.
use shortlink_system.Base.{ℕ, ◌-◌, ◌%◌, ◌^◌, ◌≤◌, ◌≡◌, ◌≢◌, ◌↔◌, refl, none, some, [], ◌∷◌, arith}
use shortlink_system.Storage.{next_index, get_read_db}
use shortlink_system.Storage.Replicas.{get_read_db-none_iff}

-- The slaves take turns, and the number of the master is 0 here.
in_turn : get_read_db {A = ℕ} 0 (1 ∷ 2 ∷ 3 ∷ []) 4 ≡ (5, some 3)
unfolding get_read_db
in_turn = refl

-- With three slaves the first counter that is negative panics.
overflow : get_read_db {A = ℕ} 0 (1 ∷ 2 ∷ 3 ∷ []) (2 ^ 31 - 1) ≡ (2 ^ 31, none)
unfolding get_read_db
overflow = refl

get_read_db-none_iff_example :
    ((get_read_db {A = ℕ} 0 (1 ∷ 2 ∷ 3 ∷ []) (2 ^ 31 - 1)).1 ≡ none)
    ↔ ((2 ^ 31 ≤ next_index (2 ^ 31 - 1)) × ((2 ^ 32 - next_index (2 ^ 31 - 1)) % 3 ≢ 0))
get_read_db-none_iff_example =
    get_read_db-none_iff {A = ℕ} 0 (1 ∷ 2 ∷ 3 ∷ []) (2 ^ 31 - 1) (omega arith)
