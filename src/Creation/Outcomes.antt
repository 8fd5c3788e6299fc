-- ===== src/Creation/Outcomes.antt =====
-- What a call of `Create` leaves behind.
use shortlink_system.Base.{◌≡◌, ◌⊎◌, some, List, [], ◌∷◌, ◌++◌, Text, false}
use shortlink_system.Base62.{decode}
use shortlink_system.Snowflake.Order.{IsValid}
use shortlink_system.L1Cache
use shortlink_system.L1Cache.Contents.{Sound}
use shortlink_system.Redis.{Redis}
use shortlink_system.Redis.Entries.{Kept}
use shortlink_system.Service.{ShortLink, cache_key}
use shortlink_system.Service.WriteThrough.{url_hash_key}
use shortlink_system.Creation.{
  Conditions, Creator, Created, short_url, database_error, Reply, clashes,
  find_by_long_url_hash_from_master,
}
use shortlink_system.Creation.Commits.{extended}

-- What an entry of the caches says, by the links of the table.
abbrev pub Meaning : Type 1
Meaning = List ShortLink → Text → Text → Type 0

module _ (r : Redis) (P : Meaning) where
  -- The node is valid, and all entries of the caches are right by the table.
  pub record Coherent (s : Creator r) : Type 0 where
    pub worker : IsValid s.node
    pub local : Sound (P s.tables.links) s.l1_cache
    pub index : Sound (P s.tables.links) s.url_hash_l1
    pub kept : Kept r (P s.tables.links) s.store

  module _ (t : Conditions) (long_url : Text) (start : Creator r) where
    -- What makes the entries right that a call writes: entries stay right when a link is added, the
    -- key of the filter may hold any string, and those of the reverse index and of the link are right
    -- for the row that the lookup finds and for a new one.
    pub record Rules : Type 0 where
      pub grows :
          (link : ShortLink) (k v : Text)
          → P start.tables.links k v
          → P (start.tables.links ++ link ∷ []) k v
      pub free : (v : Text) → P start.tables.links start.bloom.key v
      pub known :
          (existing : ShortLink)
          → find_by_long_url_hash_from_master t.same_text (t.md5_hex long_url) start.tables.links
            ≡ some existing
          → P start.tables.links (url_hash_key (t.md5_hex long_url)) existing.short_code
      pub forward :
          (link : ShortLink)
          → link.long_url ≡ long_url
          → P (start.tables.links ++ link ∷ []) (cache_key link.short_code) link.long_url
      pub reverse :
          (link : ShortLink)
          → link.long_url ≡ long_url
          → link.long_url_hash ≡ t.md5_hex long_url
          → P (start.tables.links ++ link ∷ []) (url_hash_key (t.md5_hex long_url)) link.short_code

    -- An address ends in a code that is a right entry of the reverse index.
    abbrev pub Known : List ShortLink → Created → Type 0
    Known links (short_url u) =
        (code : Text) × (u ≡ start.url_prefix ++ code)
        × P links (url_hash_key (t.md5_hex long_url)) code
    Known links _ = Unit

    -- The tables are as before, or they have one more link for the URL, which no unique index keeps out,
    -- under a code that decodes to its identifier, with its message; a returned address is then that of
    -- the new link, which the local cache has.
    pub data Recorded : Creator r → Created → Type 0 where
      unchanged :
          {s : Creator r} {a : Created}
          → s.tables ≡ start.tables
          → Known start.tables.links a
          → Recorded s a
      added :
          {s : Creator r} {a : Created} (link : ShortLink)
          → link.long_url ≡ long_url
          → link.long_url_hash ≡ t.md5_hex long_url
          → decode start.b62 link.short_code ≡ some link.id
          → clashes t.same_text link start.tables.links ≡ false
          → s.tables ≡ extended t link start.tables
          → ((a ≡ short_url (start.url_prefix ++ link.short_code))
              × (L1Cache.set start.l1_cache t.stored_at (cache_key link.short_code) link.long_url
                  ≡ some s.l1_cache))
            ⊎ (a ≡ database_error)
          → Recorded s a

    -- The call returns, the entries are right by the tables that it leaves, and so is the address.
    abbrev pub Returns : Reply r → Type 0
    Returns reply =
        (s : Creator r) × (a : Created) × (reply ≡ some (s, a)) × Coherent s × Recorded s a

-- Nothing is asked of the entries.
abbrev pub Anything : Meaning
Anything links k v = Unit

abbrev pub anything_goes :
    (r : Redis) (t : Conditions) (long_url : Text) (start : Creator r)
    → Rules r Anything t long_url start
anything_goes r t long_url start = record {
  grows = λ link k v p. tt;
  free = λ v. tt;
  known = λ existing e. tt;
  forward = λ link e. tt;
  reverse = λ link e h. tt;
}
