-- ===== src/System/Safety.antt =====
-- What the answers of the service have in common, over all pods and all time.
use shortlink_system.Base.{
  ℕ, ◌≡◌, ◌≢◌, sym, ap, ◌∙◌, some, [], ◌∷◌, ◌++◌, Text, true, false, get_elem?, All-get_elem?,
  arith,
}
use mathlib.Core.Path.{subst}
use shortlink_system.Redis.{Redis}
use shortlink_system.Service.{url}
use shortlink_system.Service.Redirects.{Found, Right}
use shortlink_system.Creation.{short_url}
use shortlink_system.Delivery.Arrival.{Faithful}
use shortlink_system.System.{Deployment, World, Reach}
use shortlink_system.System.Unique.{Collation, unique, All-Mem, meet}
use shortlink_system.System.Ledger.{Addressed, Ledger}
use shortlink_system.System.Invariant.{Reach-Invariant}

append_cancel : (xs ys zs : Text) → xs ++ ys ≡ xs ++ zs → ys ≡ zs
append_cancel [] ys zs e = e
append_cancel (x ∷ xs) ys zs e = append_cancel xs ys zs (cc)

module _ (r : Redis) (d : Deployment) (c : Collation d.same_text) (faithful : Faithful d.json)
    (w : World r d) (reach : Reach r d w) where
  ledger : Ledger d w.tables w.queue w.redirects w.creates
  ledger = (Reach-Invariant r d c faithful w reach).ledger

  found :
      (n : ℕ) (code v : Text)
      → get_elem? w.redirects n ≡ some (code, url v)
      → Found d.same_text w.tables.links code v
  found n code v e =
      All-get_elem? (λ x. Right d.same_text w.tables.links x.0 x.1) w.redirects n ledger.right e

  address :
      (n : ℕ) (long_url u : Text)
      → get_elem? w.creates n ≡ some (long_url, short_url u)
      → Addressed d w.tables.links long_url (short_url u)
  address n long_url u e =
      All-get_elem? (λ x. Addressed d w.tables.links x.0 x.1) w.creates n ledger.addressed e

  -- `Create` is idempotent. For a collation that is an equivalence and an encoder that the decoder
  -- undoes, in every world that can be reached, two calls of `Create` that have answered an address,
  -- for URLs whose digests are the same text, on whichever pods, have answered the same address.
  pub creates_agree :
      (m n : ℕ) (long_url long_url' u u' : Text)
      → get_elem? w.creates m ≡ some (long_url, short_url u)
      → get_elem? w.creates n ≡ some (long_url', short_url u')
      → d.same_text (d.md5_hex long_url) (d.md5_hex long_url') ≡ true
      → u ≡ u'
  creates_agree m n long_url long_url' u u' e f h =
      let (code, is_u, (l, at, p, is_code)) = address m long_url u e in
      let (code', is_u', (l', at', p', is_code')) = address n long_url' u' f in
      let one : d.same_text l.long_url_hash l'.long_url_hash ≡ true =
        meet d.same_text c l.long_url_hash (d.md5_hex long_url') l'.long_url_hash
          (c.same_trans l.long_url_hash (d.md5_hex long_url) (d.md5_hex long_url') p h) p' in
      let (agree, _, _) =
        unique d.same_text c w.tables.links l l' ledger.distinct at at' (ground (arith, one)) in
      is_u ∙ ap (◌++◌ d.url_prefix) (is_code ∙ agree ∙ sym is_code') ∙ sym is_u'

  -- No address is given to two URLs. Under the same conditions, two calls of `Create` that have
  -- answered an address for URLs whose digests are different texts have answered different addresses.
  pub creates_differ :
      (m n : ℕ) (long_url long_url' u u' : Text)
      → get_elem? w.creates m ≡ some (long_url, short_url u)
      → get_elem? w.creates n ≡ some (long_url', short_url u')
      → d.same_text (d.md5_hex long_url) (d.md5_hex long_url') ≡ false
      → u ≢ u'
  creates_differ m n long_url long_url' u u' e f h one_address =
      let (code, is_u, (l, at, p, is_code)) = address m long_url u e in
      let (code', is_u', (l', at', p', is_code')) = address n long_url' u' f in
      let codes : code ≡ code' =
        append_cancel d.url_prefix code code' (sym is_u ∙ one_address ∙ is_u') in
      let same_code : l.short_code ≡ l'.short_code = sym is_code ∙ codes ∙ is_code' in
      let one : d.same_text l.short_code l'.short_code ≡ true =
        subst (λ x. d.same_text l.short_code x ≡ true) same_code (c.same_refl l.short_code) in
      let (_, _, agree) =
        unique d.same_text c w.tables.links l l' ledger.distinct at at' (ground (arith, one)) in
      let both : d.same_text (d.md5_hex long_url) (d.md5_hex long_url') ≡ true =
        c.same_trans (d.md5_hex long_url) l.long_url_hash (d.md5_hex long_url')
          (c.same_sym (d.md5_hex long_url) l.long_url_hash ∙ p)
          (subst (λ x. d.same_text x (d.md5_hex long_url') ≡ true) (sym agree) p') in
      ground (arith, h, both)

  -- An address leads back to its URL. Under the same conditions, if `Create` has answered the prefix
  -- and a code for a URL, and a redirect of that code has answered a URL, then the two URLs have the
  -- same digest.
  pub creates-redirects :
      (m n : ℕ) (long_url code code' v : Text)
      → get_elem? w.creates m ≡ some (long_url, short_url (d.url_prefix ++ code))
      → get_elem? w.redirects n ≡ some (code', url v)
      → d.same_text code code' ≡ true
      → d.same_text (d.md5_hex v) (d.md5_hex long_url) ≡ true
  creates-redirects m n long_url code code' v e f h =
      let (code'', is_u, (l, at, p, is_code)) = address m long_url (d.url_prefix ++ code) e in
      let (l', at', p', is_url) = found n code' v f in
      let same_code : code ≡ l.short_code = append_cancel d.url_prefix code code'' is_u ∙ is_code in
      let one : d.same_text l.short_code l'.short_code ≡ true =
        meet d.same_text c l.short_code code' l'.short_code
          (subst (λ x. d.same_text x code' ≡ true) same_code h) p' in
      let (_, agree, _) =
        unique d.same_text c w.tables.links l l' ledger.distinct at at' (ground (arith, one)) in
      let hash : l.long_url_hash ≡ d.md5_hex v =
        All-Mem (λ l. l.long_url_hash ≡ d.md5_hex l.long_url) (λ l. hlevel) w.tables.links
          ledger.hashed at
        ∙ ap d.md5_hex (agree ∙ sym is_url) in
      subst (λ x. d.same_text x (d.md5_hex long_url) ≡ true) hash p

  -- A short link is for ever. Under the same conditions, two redirects that have answered a URL for one
  -- code, up to the collation, on whichever pods and however long apart, have answered the same URL.
  pub redirects_agree :
      (m n : ℕ) (code code' v v' : Text)
      → get_elem? w.redirects m ≡ some (code, url v)
      → get_elem? w.redirects n ≡ some (code', url v')
      → d.same_text code code' ≡ true
      → v ≡ v'
  redirects_agree m n code code' v v' e f h =
      let (l, at, p, is_url) = found m code v e in
      let (l', at', p', is_url') = found n code' v' f in
      let one : d.same_text l.short_code l'.short_code ≡ true =
        meet d.same_text c l.short_code code' l'.short_code
          (c.same_trans l.short_code code code' p h) p' in
      let (_, agree, _) =
        unique d.same_text c w.tables.links l l' ledger.distinct at at' (ground (arith, one)) in
      is_url ∙ agree ∙ sym is_url'
