-- ===== src/System/Unique.antt =====
-- A table that the unique indexes of short_links have kept: no two links have the same code or the
-- same hash in the collation.
use shortlink_system.Base.{
  ◌≡◌, refl, sym, ap, ◌∙◌, List, [], ◌∷◌, ◌++◌, Text, Bool, true, false, ◌||◌, inl, inr, All, arith,
  ◌==◌,
}
use mathlib.Core.Path.{subst}
use mathlib.Core.List.{Mem, not-mem-nil, eq-or-mem_of_mem-cons}
use mathlib.Core.Logic.{∥∥₁_elim}
use shortlink_system.Service.{ShortLink}
use shortlink_system.Creation.{clashes}

-- A collation compares by an equivalence.
pub record Collation (same : Text → Text → Bool) : Type 0 where
  pub same_refl : (s : Text) → same s s ≡ true
  pub same_sym : (s t : Text) → same s t ≡ same t s
  pub same_trans : (s t u : Text) → same s t ≡ true → same t u ≡ true → same s u ≡ true

abbrev pub Distinct : (Text → Text → Bool) → List ShortLink → Type 0
Distinct same [] = Unit
Distinct same (l ∷ links) = (clashes same l links ≡ false) × Distinct same links

-- Two links say the same, but for the identifier.
abbrev pub Agreement : ShortLink → ShortLink → Type 0
Agreement l m =
    (l.short_code ≡ m.short_code) × (l.long_url ≡ m.long_url) × (l.long_url_hash ≡ m.long_url_hash)

Agreement-prop : (l m : ShortLink) → IsProp (Agreement l m)
Agreement-prop l m = hlevel

pub not_both : {b : Bool} → b ≡ false → b ≡ true → ⊥
not_both e f = cc

module _ (same : Text → Text → Bool) (c : Collation same) where
  -- Two texts that are the same as a third.
  pub meet : (s t u : Text) → same s t ≡ true → same u t ≡ true → same s u ≡ true
  meet s t u h k = c.same_trans s t u h (c.same_sym t u ∙ k)

  clashes-append :
      (link l : ShortLink) (links : List ShortLink)
      → clashes same l links ≡ false
      → (link.id == l.id
          || same link.short_code l.short_code
          || same link.long_url_hash l.long_url_hash)
        ≡ false
      → clashes same l (links ++ link ∷ []) ≡ false
  unfolding clashes
  clashes-append link l [] h k = ground (arith, h, k)
  clashes-append link l (m ∷ links) h k = ground (arith, h, k, clashes-append link l links)

  pub Distinct-append :
      (link : ShortLink) (links : List ShortLink)
      → clashes same link links ≡ false
      → Distinct same links
      → Distinct same (links ++ link ∷ [])
  unfolding clashes
  Distinct-append link [] h d = (refl, tt)
  Distinct-append link (l ∷ links) h (k, d) = (
    clashes-append link l links k (
        ground (
          arith,
          h,
          c.same_sym l.short_code link.short_code,
          c.same_sym l.long_url_hash link.long_url_hash,
        )),
    Distinct-append link links (ground (arith, h)) d,
  )

  clashes-Mem :
      (m l : ShortLink) (links : List ShortLink)
      → clashes same l links ≡ false
      → Mem m links
      → (same m.short_code l.short_code || same m.long_url_hash l.long_url_hash) ≡ false
  unfolding clashes
  clashes-Mem m l [] h at = absurd (not-mem-nil at)
  clashes-Mem m l (x ∷ links) h at = ∥∥₁_elim (eq-or-mem_of_mem-cons at) (hlevel) (λ o. elim o [
    | inl e ↦ rw e (ground (arith, h))
    | inr later ↦ clashes-Mem m l links (ground (arith, h)) later
  ])

  -- Two links of such a table with the same code, or with the same hash, are one link.
  pub unique :
      (links : List ShortLink) (l m : ShortLink)
      → Distinct same links
      → Mem l links
      → Mem m links
      → (same l.short_code m.short_code || same l.long_url_hash m.long_url_hash) ≡ true
      → Agreement l m
  unique [] l m d at at' h = absurd (not-mem-nil at)
  unique (x ∷ links) l m (k, d) at at' h =
      ∥∥₁_elim (eq-or-mem_of_mem-cons at) (Agreement-prop l m) (λ o.
        ∥∥₁_elim (eq-or-mem_of_mem-cons at') (Agreement-prop l m) (λ o'. elim o [
          | inl e ↦ elim o' [
            | inl e' ↦
                let one : l ≡ m = e ∙ sym e' in
                (
                  ap (λ x. x.short_code) one,
                  ap (λ x. x.long_url) one,
                  ap (λ x. x.long_url_hash) one,
                )
            | inr deep' ↦ absurd (
                not_both (clashes-Mem m x links k deep') (
                  rw (← e) (
                    ground (
                      arith,
                      h,
                      c.same_sym l.short_code m.short_code,
                      c.same_sym l.long_url_hash m.long_url_hash,
                    ))))
          ]
          | inr deep ↦ elim o' [
            | inl e' ↦ absurd (not_both (clashes-Mem l x links k deep) (rw (← e') h))
            | inr deep' ↦ unique links l m d deep deep' h
          ]
        ]))

-- What holds of all elements holds of a member.
pub All-Mem {ℓ κ} :
    {A : Type ℓ} (Q : A → Type κ)
    → ((x : A) → IsProp (Q x))
    → (xs : List A) {x : A} → All Q xs
    → Mem x xs
    → Q x
All-Mem Q prop [] h at = absurd (not-mem-nil at)
All-Mem Q prop (y ∷ xs) {x} (h, hs) at =
    ∥∥₁_elim (eq-or-mem_of_mem-cons at) (prop x)
      (λ o. elim o [ inl e ↦ subst Q (sym e) h | inr later ↦ All-Mem Q prop xs hs later ])
