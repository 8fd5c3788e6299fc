-- ===== src/System/Entries.antt =====
-- What the entries of all caches of the service say.
use shortlink_system.Base.{
  ◌≡◌, refl, sym, inl, inr, some, List, [], ◌∷◌, ◌++◌, Text, Bool, true, false, text_eq, apart,
  Bool-cases, arith,
}
use mathlib.Core.Path.{subst}
use mathlib.Core.List.{Mem, mem-cons_self, mem-cons_of_mem, mem-append_left}
use shortlink_system.Service.{ShortLink, Answer, url, no_such_link, query_failed, cache_key}
use shortlink_system.Service.WriteThrough.{url_hash_key, url_hash_key_injective, keys_apart}
use shortlink_system.Service.Redirects.{Found, Stored, Right, cache_key_injective}
use shortlink_system.Creation.{find_by_long_url_hash_from_master}
use shortlink_system.System.{filter}
use shortlink_system.Bloom.{new_redis_bloom}

-- The key of the filter is none of those of the strings.
pub filter_not_cache : (code : Text) → text_eq filter.key (cache_key code) ≡ false
unfolding text_eq new_redis_bloom
filter_not_cache code = refl

pub filter_not_index : (h : Text) → text_eq filter.key (url_hash_key h) ≡ false
unfolding text_eq new_redis_bloom
filter_not_index h = refl

-- The code of a link whose hash is the same text as this one.
abbrev pub Coded : (Text → Text → Bool) → List ShortLink → Text → Text → Type 0
Coded same links h v =
    (link : ShortLink) × Mem link links × (same link.long_url_hash h ≡ true) × (v ≡ link.short_code)

-- An entry under the key of a hash is the code of a link with that hash.
abbrev pub Filed : (Text → Text → Bool) → List ShortLink → Text → Text → Type 0
Filed same links key v = (h : Text) → key ≡ url_hash_key h → Coded same links h v

abbrev pub Truthful : (Text → Text → Bool) → List ShortLink → Text → Text → Type 0
Truthful same links key v = Stored same links key v × Filed same links key v

module _ (same : Text → Text → Bool) (links : List ShortLink) where
  pub Truthful-filter : (v : Text) → Truthful same links filter.key v
  Truthful-filter v = (
    λ c e. absurd (apart filter.key (cache_key c) (filter_not_cache c) e),
    λ h e. absurd (apart filter.key (url_hash_key h) (filter_not_index h) e),
  )

  pub Truthful-empty : (code : Text) → Truthful same links (cache_key code) []
  Truthful-empty code = (λ c e. inl refl, λ h e. absurd (keys_apart code h e))

  pub Truthful-forward :
      (link : ShortLink) (code : Text)
      → Mem link links
      → same link.short_code code ≡ true
      → Truthful same links (cache_key code) link.long_url
  Truthful-forward link code at e = (
    λ c k. inr (
      link,
      at,
      subst (λ x. same link.short_code x ≡ true) (cache_key_injective code c k) e,
      refl,
    ),
    λ h k. absurd (keys_apart code h k),
  )

  pub Truthful-reverse :
      (link : ShortLink) (h : Text)
      → Mem link links
      → same link.long_url_hash h ≡ true
      → Truthful same links (url_hash_key h) link.short_code
  Truthful-reverse link h at e = (
    λ c k. absurd (keys_apart c h (sym k)),
    λ g k. (
      link,
      at,
      subst (λ x. same link.long_url_hash x ≡ true) (url_hash_key_injective h g k) e,
      refl,
    ),
  )

  Found-grows :
      (link : ShortLink) (c v : Text) → Found same links c v → Found same (links ++ link ∷ []) c v
  Found-grows link c v (l, at, e, f) = (l, mem-append_left (link ∷ []) at, e, f)

  -- An entry stays true when a link is added.
  pub Truthful-grows :
      (link : ShortLink) (k v : Text)
      → Truthful same links k v
      → Truthful same (links ++ link ∷ []) k v
  Truthful-grows link k v (stored, filed) = (
    λ c e. elim (stored c e) [
      | inl empty ↦ inl empty
      | inr found ↦ inr (Found-grows link c v found)
    ],
    λ h e. let (l, at, f, g) = filed h e in (l, mem-append_left (link ∷ []) at, f, g),
  )

  pub Right-grows :
      (link : ShortLink) (code : Text) (a : Answer)
      → Right same links code a
      → Right same (links ++ link ∷ []) code a
  Right-grows link code (url v) h = Found-grows link code v h
  Right-grows link code no_such_link h = tt
  Right-grows link code query_failed h = tt

pub find_cases :
    (same : Text → Text → Bool) (h : Text) (links : List ShortLink) (link : ShortLink)
    → find_by_long_url_hash_from_master same h links ≡ some link
    → Mem link links × (same link.long_url_hash h ≡ true)
unfolding find_by_long_url_hash_from_master
find_cases same h [] link e = absurd (ground (arith, e))
find_cases same h (l ∷ links) link e = elim (Bool-cases (same l.long_url_hash h)) [
  | inl t ↦
      let one : l ≡ link = ground (arith, e, t) in
      (subst (λ k. Mem k (l ∷ links)) one mem-cons_self, rw (← one) t)
  | inr f ↦
      let (member, eq) = find_cases same h links link (ground (arith, e, f)) in
      (mem-cons_of_mem l member, eq)
]
