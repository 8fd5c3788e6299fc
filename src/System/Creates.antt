-- ===== src/System/Creates.antt =====
-- A call of `Create` on a pod: the entries of the caches stay true, and the tables and the answers
-- stay in step.
use shortlink_system.Base.{
  ◌<◌, ◌≡◌, refl, sym, ap, ◌∙◌, inl, inr, some, [], ◌∷◌, ◌++◌, Text, true, ◌⊎◌, arith,
}
use mathlib.Core.Path.{subst}
use mathlib.Core.Option.{some-injective}
use mathlib.Core.List.{mem-cons_self, mem-append_right}
use shortlink_system.Base62.{new_base62}
use shortlink_system.Base62.Alphabet.{default_alphabet-IsAlphabet}
use shortlink_system.Bloom.{new_redis_bloom}
use shortlink_system.Redis.{Redis}
use shortlink_system.Service.{ShortLink}
use shortlink_system.Creation.{
  Conditions, Creator, Created, short_url, empty_url, lookup_failed, clock_error, database_error,
  unfinished, Reply, create,
}
use shortlink_system.Creation.Outcomes.{Coherent, Rules, Recorded, unchanged, added, Returns, Known}
use shortlink_system.Creation.Transactions.{create-Returns}
use shortlink_system.System.{Deployment, World, Pod, creator, in_deployment, filter}
use shortlink_system.System.Unique.{Collation}
use shortlink_system.System.Entries.{
  Truthful, Truthful-filter, Truthful-forward, Truthful-reverse, Truthful-grows, find_cases,
}
use shortlink_system.System.Ledger.{Addressed, Ledger, Ledger-extended, with_create}

pub filter_positive : 0 < filter.size
unfolding new_redis_bloom
filter_positive = omega arith

module _ (r : Redis) (d : Deployment) (c : Collation d.same_text) (w : World r d) (p : Pod)
    (t : Conditions) (long_url : Text) where
  -- The entries that a call writes are true.
  pub create-Rules : Rules r (Truthful d.same_text) (in_deployment r d t) long_url (creator r d w p)
  create-Rules = record {
    grows = Truthful-grows d.same_text w.tables.links;
    free = Truthful-filter d.same_text w.tables.links;
    known = λ existing e.
        let (at, same) = find_cases d.same_text (d.md5_hex long_url) w.tables.links existing e in
        Truthful-reverse d.same_text w.tables.links existing (d.md5_hex long_url) at same;
    forward = λ link e.
        Truthful-forward d.same_text (w.tables.links ++ link ∷ []) link link.short_code
          (mem-append_right w.tables.links mem-cons_self) (c.same_refl link.short_code);
    reverse = λ link e h.
        Truthful-reverse d.same_text (w.tables.links ++ link ∷ []) link (d.md5_hex long_url)
          (mem-append_right w.tables.links mem-cons_self)
          (subst (λ x. d.same_text link.long_url_hash x ≡ true) h (c.same_refl link.long_url_hash));
  }

  abbrev Happens : Creator r → Created → Type 0
  Happens = Recorded r (Truthful d.same_text) (in_deployment r d t) long_url (creator r d w p)

  -- What the call is known to return is what it returns.
  returned :
      (reply : Reply r) (s : Creator r) (a : Created)
      → Returns r (Truthful d.same_text) (in_deployment r d t) long_url (creator r d w p) reply
      → reply ≡ some (s, a)
      → Coherent r (Truthful d.same_text) s × Happens s a
  returned reply s a (s', a', e, right, how) f =
      let one : ◌≡◌ {A = Creator r × Created} (s', a') (s, a) = some-injective _ _ (sym e ∙ f) in
      subst (λ (x : Creator r × Created). Coherent r (Truthful d.same_text) x.0 × Happens x.0 x.1)
        one (right, how)

  pub create-Coherent :
      (s : Creator r) (a : Created)
      → Coherent r (Truthful d.same_text) (creator r d w p)
      → create r (in_deployment r d t) long_url (creator r d w p) ≡ some (s, a)
      → Coherent r (Truthful d.same_text) s × Happens s a
  unfolding new_base62
  create-Coherent s a right e =
      returned (create r (in_deployment r d t) long_url (creator r d w p)) s a
        (create-Returns r (Truthful d.same_text) (in_deployment r d t) long_url (creator r d w p)
          default_alphabet-IsAlphabet filter_positive create-Rules right)
        e

  -- What was true stays true.
  pub Recorded-grows :
      (s : Creator r) (a : Created)
      → Happens s a
      → (k v : Text) → Truthful d.same_text w.tables.links k v
      → Truthful d.same_text s.tables.links k v
  Recorded-grows s a (unchanged e _) k v h = subst (λ T. Truthful d.same_text T.links k v) (sym e) h
  Recorded-grows s a (added link _ _ _ _ e _) k v h =
      subst (λ T. Truthful d.same_text T.links k v) (sym e)
        (Truthful-grows d.same_text w.tables.links link k v h)

  Known-Addressed :
      (a : Created)
      → Known r
          (Truthful d.same_text)
          (in_deployment r d t)
          long_url
          (creator r d w p)
          w.tables.links
          a
      → Addressed d w.tables.links long_url a
  Known-Addressed (short_url u) (code, e, (stored, filed)) =
      (code, e, filed (d.md5_hex long_url) refl)
  Known-Addressed empty_url h = tt
  Known-Addressed lookup_failed h = tt
  Known-Addressed clock_error h = tt
  Known-Addressed database_error h = tt
  Known-Addressed unfinished h = tt

  -- The answer for a new link.
  new-Addressed :
      (link : ShortLink) (a : Created)
      → link.long_url_hash ≡ d.md5_hex long_url
      → ((a ≡ short_url (d.url_prefix ++ link.short_code)) ⊎ (a ≡ database_error))
      → Addressed d (w.tables.links ++ link ∷ []) long_url a
  new-Addressed link a hash (inl e) =
      subst (Addressed d (w.tables.links ++ link ∷ []) long_url) (sym e) (
        link.short_code,
        refl,
        (
          link,
          mem-append_right w.tables.links mem-cons_self,
          subst (λ x. d.same_text link.long_url_hash x ≡ true) hash
              (c.same_refl link.long_url_hash),
          refl,
        ),
      )
  new-Addressed link a hash (inr e) =
      subst (Addressed d (w.tables.links ++ link ∷ []) long_url) (sym e) tt

  pub Recorded-Ledger :
      (s : Creator r) (a : Created)
      → Happens s a
      → Ledger d w.tables w.queue w.redirects w.creates
      → Ledger d s.tables w.queue w.redirects ((long_url, a) ∷ w.creates)
  Recorded-Ledger s a (unchanged e known) h =
      subst (λ T. Ledger d T w.queue w.redirects ((long_url, a) ∷ w.creates)) (sym e)
        (with_create d h long_url a (Known-Addressed a known))
  Recorded-Ledger s a (added link url hash _ free e how) h =
      subst (λ T. Ledger d T w.queue w.redirects ((long_url, a) ∷ w.creates)) (sym e)
        (with_create d
          (Ledger-extended d c (in_deployment r d t) link w.tables w.queue w.redirects w.creates
            free (hash ∙ ap d.md5_hex (sym url)) h)
          long_url a
          (new-Addressed link a hash
            (elim how [ inl (answer, _) ↦ inl answer | inr lost ↦ inr lost ])))
