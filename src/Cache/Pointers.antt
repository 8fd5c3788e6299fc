-- ===== src/Cache/Pointers.antt =====
-- Laws of the list of pointers.
use shortlink_system.Base.{
  ℕ, zero, suc, ◌+◌, ◌≡◌, ◌≢◌, refl, some, List, [], ◌∷◌, length, map, true, false, arith, take,
}
use shortlink_system.Cache.{L1Entry, member, remove, back, write}

abbrev pub Distinct : List ℕ → Type 0
Distinct [] = Unit
Distinct (p ∷ ps) = (member p ps ≡ false) × Distinct ps

pub member-remove_ne : (p q : ℕ) (ps : List ℕ) → p ≢ q → member p (remove q ps) ≡ member p ps
member-remove_ne p q [] h = refl
member-remove_ne p q (x ∷ ps) h = ground (arith, member-remove_ne p q ps h)

pub member_of-remove : (p q : ℕ) (ps : List ℕ) → member p (remove q ps) ≡ true → member p ps ≡ true
member_of-remove p q [] h = h
member_of-remove p q (x ∷ ps) h = ground (arith, member_of-remove p q ps)

pub member-remove_self : (q : ℕ) (ps : List ℕ) → Distinct ps → member q (remove q ps) ≡ false
member-remove_self q [] d = refl
member-remove_self q (x ∷ ps) d = ground (arith, member-remove_self q ps)

pub Distinct-remove : (q : ℕ) (ps : List ℕ) → Distinct ps → Distinct (remove q ps)
Distinct-remove q [] d = tt
Distinct-remove q (x ∷ ps) d = ground (arith, Distinct-remove q ps, member_of-remove x q ps)

pub length-remove :
    (q : ℕ) (ps : List ℕ) → member q ps ≡ true → length (remove q ps) + 1 ≡ length ps
length-remove q [] h = cc
length-remove q (x ∷ ps) h = ground (arith, length-remove q ps)

pub back-member : (q : ℕ) (ps : List ℕ) → back ps ≡ some q → member q ps ≡ true
back-member q [] h = cc
back-member q (p ∷ []) h = ground arith
back-member q (p ∷ x ∷ ps) h = ground (arith, back-member q (x ∷ ps) h)

pub back-none : (p : ℕ) (ps : List ℕ) → (q : ℕ) × (back (p ∷ ps) ≡ some q)
back-none p [] = (p, refl)
back-none p (x ∷ ps) = back-none x ps

-- To remove the last pointer is to keep all but one.
pub remove-back :
    (q n : ℕ) (ps : List ℕ)
    → Distinct ps
    → back ps ≡ some q
    → length ps ≡ suc n
    → remove q ps ≡ take n ps
remove-back q n [] d h l = cc
remove-back q zero (p ∷ []) d h l = ground arith
remove-back q (suc n) (p ∷ []) d h l = absurd (omega arith)
remove-back q zero (p ∷ x ∷ ps) d h l = absurd (omega arith)
remove-back q (suc n) (p ∷ x ∷ ps) (a, d) h l =
    ground (arith, remove-back q n (x ∷ ps) d h, back-member q (x ∷ ps) h)

-- A write through a pointer that is not in the list does not show.
pub map-write :
    (heap : ℕ → L1Entry) (q : ℕ) (e : L1Entry) (ps : List ℕ)
    → member q ps ≡ false
    → map (write heap q e) ps ≡ map heap ps
map-write heap q e [] h = refl
map-write heap q e (p ∷ ps) h = ground (arith, map-write heap q e ps)
