-- ===== src/System/Registry.antt =====
-- What the service promises: a registry that gives some codes a URL each.
use shortlink_system.Base.{
  ◌≡◌, refl, sym, ap, ◌∙◌, inl, inr, Option, none, some, List, [], ◌∷◌, ◌++◌, Text, Bool, true,
  false, Bool-cases, if◌then◌else◌, arith,
}
use mathlib.Core.Path.{subst}
use mathlib.Core.List.{mem-cons_self, not-mem-nil, eq-or-mem_of_mem-cons}
use mathlib.Core.Logic.{∥∥₁_elim}
use shortlink_system.Service.{ShortLink}
use shortlink_system.Service.Redirects.{Found}
use shortlink_system.Creation.{clashes}
use shortlink_system.System.Unique.{Collation, Distinct, not_both, unique}

-- The URL of a code, by the table.
unfoldable pub registry : (Text → Text → Bool) → List ShortLink → Text → Option Text
registry same [] code = none
registry same (link ∷ links) code =
    if same link.short_code code then some link.long_url else registry same links code

-- A step of the registry: nothing, or a code that had no URL gets one, under all its spellings.
pub data Registers (same : Text → Text → Bool) (g g' : Text → Option Text) : Type 0 where
  idle : ((code : Text) → g' code ≡ g code) → Registers same g g'
  registers :
      (code long_url : Text)
      → g code ≡ none
      → ((c : Text) → g' c ≡ (if same code c then some long_url else g c))
      → Registers same g g'

module _ (same : Text → Text → Bool) (c : Collation same) where
  -- A code that clashes with no link has no URL, however it is spelled.
  registry-none :
      (link : ShortLink) (links : List ShortLink) (code : Text)
      → clashes same link links ≡ false
      → same link.short_code code ≡ true
      → registry same links code ≡ none
  unfolding registry clashes
  registry-none link [] code free h = refl
  registry-none link (l ∷ links) code free h = ground (
    arith,
    free,
    h,
    registry-none link links code,
    c.same_trans l.short_code code link.short_code,
    c.same_sym link.short_code code,
  )

  registry-append :
      (link : ShortLink) (links : List ShortLink) (code : Text)
      → clashes same link links ≡ false
      → registry same (links ++ link ∷ []) code
        ≡ (if same link.short_code code then some link.long_url else registry same links code)
  unfolding registry clashes
  registry-append link [] code free = refl
  registry-append link (l ∷ links) code free = ground (
    arith,
    free,
    registry-append link links code,
    c.same_trans l.short_code code link.short_code,
    c.same_sym link.short_code code,
  )

  -- A link that no unique index keeps out is a step of the registry.
  pub append-Registers :
      (link : ShortLink) (links : List ShortLink)
      → clashes same link links ≡ false
      → Registers same (registry same links) (registry same (links ++ link ∷ []))
  append-Registers link links free =
      registers link.short_code link.long_url
        (registry-none link links link.short_code free (c.same_refl link.short_code))
        (λ code. registry-append link links code free)

  -- What a redirect finds is what the registry says.
  pub Found-registry :
      (links : List ShortLink) (code v : Text)
      → Distinct same links
      → Found same links code v
      → registry same links code ≡ some v
  unfolding registry
  Found-registry [] code v d (link, at, p, e) = absurd (not-mem-nil at)
  Found-registry (x ∷ links) code v (k, d) (link, at, p, e) =
      elim (Bool-cases (same x.short_code code)) [
        | inl hit ↦
            let one : same x.short_code link.short_code ≡ true =
              c.same_trans x.short_code code link.short_code hit
                (c.same_sym code link.short_code ∙ p) in
            let (_, agree, _) =
              unique same c (x ∷ links) x link (k, d) mem-cons_self at (ground (arith, one)) in
            rw hit (ap some (agree ∙ sym e))
        | inr miss ↦ ∥∥₁_elim (eq-or-mem_of_mem-cons at) (hlevel) (λ o. elim o [
          | inl here ↦ absurd (not_both miss (subst (λ l. same l.short_code code ≡ true) here p))
          | inr later ↦ rw miss (Found-registry links code v d (link, later, p, e))
        ])
      ]
