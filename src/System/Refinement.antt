-- ===== src/System/Refinement.antt =====
-- The service is a registry of codes.
use shortlink_system.Base.{ℕ, ◌≡◌, refl, sym, ap, Option, some, Text, get_elem?, All-get_elem?}
use mathlib.Core.Path.{subst}
use shortlink_system.Redis.{Redis}
use shortlink_system.Service.{url}
use shortlink_system.Service.Redirects.{Right}
use shortlink_system.Creation.{Tables}
use shortlink_system.Creation.Outcomes.{Recorded, unchanged, added}
use shortlink_system.Delivery.Arrival.{Faithful}
use shortlink_system.System.{
  Deployment, World, in_deployment, creator, Step, starts, ends, creates, redirects, rebuilds,
  publishes, works, delivers, expires, Reach,
}
use shortlink_system.System.Unique.{Collation}
use shortlink_system.System.Entries.{Truthful}
use shortlink_system.System.Creates.{create-Coherent}
use shortlink_system.System.Pods.{Held-Coherent}
use shortlink_system.System.Invariant.{Invariant, Step-Invariant, Reach-Invariant}
use shortlink_system.System.Registry.{registry, Registers, idle, append-Registers, Found-registry}

module _ (r : Redis) (d : Deployment) where
  -- The URL of a code in a world.
  abbrev pub url_of : World r d → Text → Option Text
  url_of w = registry d.same_text w.tables.links

  module _ (same : Collation d.same_text) (faithful : Faithful d.json) where
    Step-Registers :
        (w w' : World r d)
        → Invariant r d w
        → Step r d w w'
        → Registers d.same_text (url_of w) (url_of w')
    Step-Registers w w' inv (starts i h s e) = idle (λ code. refl)
    Step-Registers w w' inv (ends i) = idle (λ code. refl)
    Step-Registers w w' inv (creates i p t long_url s a at e) =
        go
          (create-Coherent r d same w p t long_url s a
            (Held-Coherent r d w p (inv.held i p at) inv.kept) e).1
      where
        go :
            Recorded r (Truthful d.same_text) (in_deployment r d t) long_url (creator r d w p) s a
            → Registers d.same_text (url_of w) (registry d.same_text s.tables.links)
        go (unchanged still _) =
            idle (λ code. ap (λ (T : Tables). registry d.same_text T.links code) still)
        go (added link _ _ _ free new _) =
            subst (λ (T : Tables). Registers d.same_text (url_of w) (registry d.same_text T.links))
              (sym new) (append-Registers d.same_text same link w.tables.links free)
    Step-Registers w w' inv (redirects i p t shared code s a at stored others e) =
        idle (λ code. refl)
    Step-Registers w w' inv (rebuilds i p rounds fuel s how at e) = idle (λ code. refl)
    Step-Registers w w' inv (publishes n m accepted p at e) = idle (λ code. refl)
    Step-Registers w w' inv (works round worker) = idle (λ code. refl)
    Step-Registers w w' inv (delivers i p t n body c how at queued e) = idle (λ code. refl)
    Step-Registers w w' inv (expires store fewer) = idle (λ code. refl)

    -- The service refines a registry of codes. For a collation that is an equivalence and an encoder
    -- that the decoder undoes, every step from a world that can be reached leaves the URLs of all codes
    -- as they are, or gives a URL to one code that had none, under all its spellings; and every URL that
    -- a redirect has answered so far is the one that the registry has for its code.
    pub World_refines :
        (w w' : World r d)
        → Reach r d w
        → Step r d w w'
        → Registers d.same_text (url_of w) (url_of w')
          × ((n : ℕ) (code v : Text)
              → get_elem? w'.redirects n ≡ some (code, url v)
              → url_of w' code ≡ some v)
    World_refines w w' reach step =
        let inv = Reach-Invariant r d same faithful w reach in
        let inv' = Step-Invariant r d same faithful w w' step inv in
        (
          Step-Registers w w' inv step,
          λ n code v e.
              Found-registry d.same_text same w'.tables.links code v inv'.ledger.distinct (
                All-get_elem? (λ x. Right d.same_text w'.tables.links x.0 x.1) w'.redirects n
                  inv'.ledger.right e),
        )
