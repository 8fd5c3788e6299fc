-- ===== src/Service/Redirects.antt =====
-- Which URL a redirect answers.
use shortlink_system.Base.{
  ◌<◌, ◌≡◌, ◌≢◌, refl, ◌⊎◌, inl, inr, Option, none, some, List, [], ◌∷◌, Text, Bool, true, false,
  sym, ap, ◌∙◌, text_eq, Bool-cases, Option-cases, if◌then◌else◌, ◌==◌, arith,
}
use mathlib.Core.Path.{subst}
use mathlib.Core.List.{Mem, mem-cons_self, mem-cons_of_mem}
use shortlink_system.Redis.{Redis}
use shortlink_system.Bloom.{RedisBloomFilter, offsets, contains_script, contains}
use shortlink_system.Bloom.Offsets.{offsets_of_lem}
use shortlink_system.Service.{
  ShortLink, row, not_found, Replica, Weather, Answer, url, no_such_link, query_failed, answer,
  first_link, take_link, Taken, chosen, Shows, confirm, query, ShortLinkService, Reply, redirect,
  cache_key,
}
use shortlink_system.Service.Answers.{Taken-cases, Fine, Settled, redirect-Settled}
use shortlink_system.Service.Entries.{Holds}

pub cache_key_injective : (c d : Text) → cache_key c ≡ cache_key d → c ≡ d
cache_key_injective c d e = cc

row_injective : {k l : ShortLink} → row k ≡ row l → k ≡ l
row_injective e = cc

first_link_cases :
    (same : Text → Text → Bool) (code : Text) (links : List ShortLink) (link : ShortLink)
    → first_link same code links ≡ row link
    → Mem link links × (same link.short_code code ≡ true)
unfolding first_link
first_link_cases same code [] link e = absurd (ground arith)
first_link_cases same code (l ∷ links) link e = elim (Bool-cases (same l.short_code code)) [
  | inl t ↦
      let same_row : l ≡ link = row_injective (ground (arith, t)) in
      (subst (λ k. Mem k (l ∷ links)) same_row mem-cons_self, rw (← same_row) t)
  | inr f ↦
      let (member, eq) = first_link_cases same code links link (ground (arith, f)) in
      (mem-cons_of_mem l member, eq)
]

pub contains_total :
    (r : Redis) (bf : RedisBloomFilter) (up : Bool) (s : r.Store) (code : Text)
    → 0 < bf.size
    → (b : Option Bool) × (contains r bf up s code ≡ some b)
unfolding contains
contains_total r bf up s code h =
    let (os, e, _, _) = offsets_of_lem bf.size code bf.seeds h in
    (if up then some (contains_script r s bf.key os == 1) else none, ground (arith, e))

take_link_cases :
    (same : Text → Text → Bool) (db : Replica) (code : Text) (link : ShortLink)
    → take_link same db code ≡ row link
    → Mem link db.links × (same link.short_code code ≡ true)
unfolding take_link
take_link_cases same db code link e = elim (Bool-cases db.reachable) [
  | inl t ↦ first_link_cases same code db.links link (ground (arith, t))
  | inr f ↦ absurd (ground (arith, f))
]

confirm_cases :
    (w : Weather) (replica : Replica) (code : Text) (link : ShortLink)
    → confirm w code (take_link w.same_text replica code) ≡ row link
    → (Mem link replica.links ⊎ Mem link w.master.links) × (w.same_text link.short_code code ≡ true)
unfolding confirm
confirm_cases w replica code link e = elim (Taken-cases (take_link w.same_text replica code)) [
  | inl (l, at) ↦
      let same_row : l ≡ link = row_injective (ground (arith, at)) in
      let (member, same) = take_link_cases w.same_text replica code link (rw (← same_row) at) in
      (inl member, same)
  | inr (inl at) ↦
      let (member, same) = take_link_cases w.same_text w.master code link (ground (arith, at)) in
      (inr member, same)
  | inr (inr at) ↦ absurd (ground (arith, at))
]

pub query_cases :
    (w : Weather) (code : Text) (link : ShortLink)
    → query w code ≡ some (row link)
    → Shows w link × (w.same_text link.short_code code ≡ true)
unfolding query
query_cases w code link e = elim (Option-cases (chosen w)) [
  | inl bad ↦ absurd (none_ne (rw (query, bad) at e))
  | inr (replica, good) ↦
      let (place, same) =
        confirm_cases w replica code link (taken_injective (rw (query, good) at e)) in
      (shown replica good place, same)
]
  where
    shown :
        (replica : Replica)
        → chosen w ≡ some replica
        → Mem link replica.links ⊎ Mem link w.master.links
        → Shows w link
    shown replica good (inl member) = inl (replica, good, member)
    shown replica good (inr member) = inr member

    none_ne : none ≡ some (row link) → ⊥
    none_ne e = cc

    taken_injective : {t u : Taken} → some t ≡ some u → t ≡ u
    taken_injective e = cc

-- Only the choice of a slave panics.
pub query-none : (w : Weather) (code : Text) → query w code ≡ none → chosen w ≡ none
unfolding query
query-none w code e = elim (Option-cases (chosen w)) [
  | inl bad ↦ bad
  | inr (replica, good) ↦ absurd (ground (arith, good))
]

-- The URL of a link whose code is the same text as this one.
abbrev pub Found : (Text → Text → Bool) → List ShortLink → Text → Text → Type 0
Found same links code v =
    (link : ShortLink) × Mem link links × (same link.short_code code ≡ true) × (v ≡ link.long_url)

-- An entry under the key of a code is empty or the URL of a link with that code.
abbrev pub Stored : (Text → Text → Bool) → List ShortLink → Text → Text → Type 0
Stored same links key v = (c : Text) → key ≡ cache_key c → (v ≡ []) ⊎ Found same links c v

abbrev pub Right : (Text → Text → Bool) → List ShortLink → Text → Answer → Type 0
Right same links code (url v) = Found same links code v
Right same links code no_such_link = Unit
Right same links code query_failed = Unit

pub answered :
    (same : Text → Text → Bool) (links : List ShortLink) (code v : Text)
    → Stored same links (cache_key code) v
    → Right same links code (answer v)
unfolding text_eq
answered same links code [] p = tt
answered same links code (c ∷ v) p = elim (p code refl) [
  | inl e ↦ absurd (nonempty e)
  | inr found ↦ found
]
  where
    nonempty : c ∷ v ≡ [] → ⊥
    nonempty e = cc

-- If the filter has a positive size, the tables show only stored links, the caches hold only URLs of
-- stored links or empty entries, and so does a result that is shared, then a redirect returns and
-- keeps the caches so, and a URL that it returns is that of a stored link whose code is the same text
-- as the one asked for in the collation of the column; or `GetReadDB` panics, and the redirect too.
pub redirect-Right :
    (r : Redis) (w : Weather) (links : List ShortLink) (code : Text) (s : ShortLinkService r)
    (shared : Option Answer)
    → ((l : ShortLink) → Shows w l → Mem l links)
    → Holds r (Stored w.same_text links) s
    → 0 < s.bloom.size
    → ((a : Answer) → shared ≡ some a → Right w.same_text links code a)
    → ((s' : ShortLinkService r) × (a : Answer) × (redirect r w shared code s ≡ some (s', a))
        × Holds r (Stored w.same_text links) s'
        × Right w.same_text links code a)
      ⊎ ((chosen w ≡ none) × (redirect r w shared code s ≡ none))
unfolding text_eq
redirect-Right r w links code s shared tables h positive others =
    let (b, e) = contains_total r s.bloom w.bloom_run s.store code positive in
    redirect-Settled r (Stored w.same_text links) (Right w.same_text links code) (chosen w ≡ none) w
      code (answered w.same_text links code) rows (λ _ c _. inl refl) (λ _. tt) (query-none w code)
      s shared h (b, e, λ _ _ c _. inl refl) others
  where
    rows :
        (link : ShortLink)
        → query w code ≡ some (row link)
        → Stored w.same_text links (cache_key code) link.long_url
          × Found w.same_text links code link.long_url
    rows link e =
        let (place, same) = query_cases w code link e in
        let member = tables link place in
        (
          λ c k. inr (link, member, rw (← cache_key_injective code c k) same, refl),
          (link, member, same, refl),
        )

query_finds :
    (w : Weather) (replica : Replica) (code : Text) (link : ShortLink)
    → chosen w ≡ some replica
    → (take_link w.same_text replica code ≡ row link)
      ⊎ (take_link w.same_text replica code ≡ not_found)
    → take_link w.same_text w.master code ≡ row link
    → query w code ≡ some (row link)
unfolding query confirm
query_finds w replica code link c (inl e) m = rw (query, c, confirm, e) refl
query_finds w replica code link c (inr e) m = rw (query, c, confirm, e) (ap some m)

-- A call that cannot panic returns.
pub Settled-Fine :
    (r : Redis) (P : Text → Text → Type 0) (A : Answer → Type 0) (reply : Reply r)
    → Settled r P A ⊥ reply
    → Fine r P A reply
Settled-Fine r P A reply (inl fine) = fine
Settled-Fine r P A reply (inr (never, _)) = absurd never

pub answers_no :
    (r : Redis) (bf : RedisBloomFilter) (up : Bool) (s : r.Store) (code : Text)
    → contains r bf true s code ≡ some (some true)
    → contains r bf up s code ≡ some (some false)
    → ⊥
unfolding contains
answers_no r bf true s code says denies = ground (arith, says, denies)
answers_no r bf false s code says denies = elim (Option-cases (offsets bf code)) [
  | inl bad ↦ ground (arith, bad)
  | inr (os, good) ↦ ground (arith, good)
]

-- A stored link with a URL is found. If `GetReadDB` chooses a database, which answers and has the
-- link or misses it, the master answers and has it, the caches hold under the key nothing but its URL, a shared result is that URL,
-- and the filter has a positive size and, once it is in use, contains the code, then every redirect
-- of the code answers the URL, whether Redis and the filter can be reached or not.
pub redirect_finds :
    (r : Redis) (w : Weather) (replica : Replica) (link : ShortLink) (code : Text)
    (s : ShortLinkService r) (shared : Option Answer)
    → link.long_url ≢ []
    → chosen w ≡ some replica
    → (take_link w.same_text replica code ≡ row link)
      ⊎ (take_link w.same_text replica code ≡ not_found)
    → take_link w.same_text w.master code ≡ row link
    → Holds r (λ k v. k ≡ cache_key code → v ≡ link.long_url) s
    → 0 < s.bloom.size
    → (s.bloom_ready ≡ true → contains r s.bloom true s.store code ≡ some (some true))
    → ((a : Answer) → shared ≡ some a → a ≡ url link.long_url)
    → (s' : ShortLinkService r) × (redirect r w shared code s ≡ some (s', url link.long_url))
      × Holds r (λ k v. k ≡ cache_key code → v ≡ link.long_url) s'
unfolding text_eq
redirect_finds r w replica link code s shared nonempty choice has master h positive filter others =
    let at = query_finds w replica code link choice has master in
    let (b, e) = contains_total r s.bloom w.bloom_run s.store code positive in
    let (s', a, eq, kept, is_url) =
      Settled-Fine r (λ k v. k ≡ cache_key code → v ≡ link.long_url) (λ a. a ≡ url link.long_url) _
        (redirect-Settled r (λ k v. k ≡ cache_key code → v ≡ link.long_url)
          (λ a. a ≡ url link.long_url) ⊥ w code cached
          (λ l el.
            let same_row : l ≡ link = row_injective (ground (arith, at, el)) in
            (λ _. ap (λ k. k.long_url) same_row, ap (λ k. url k.long_url) same_row))
          (λ el. absurd (ground (arith, at, el))) (λ el. absurd (ground (arith, at, el)))
          (λ el. absurd (ground (arith, at, el))) s shared h
          (
            b,
            e,
            λ ready denies. absurd (
                answers_no r s.bloom w.bloom_run s.store code (filter ready)
                  (ground (arith, e, denies))),
          )
          others) in
    (s', eq ∙ ap (λ x. some (s', x)) is_url, kept)
  where
    cached :
        (v : Text)
        → (cache_key code ≡ cache_key code → v ≡ link.long_url)
        → answer v ≡ url link.long_url
    cached [] p = absurd (nonempty (sym (p refl)))
    cached (c ∷ v) p = ap url (p refl)
