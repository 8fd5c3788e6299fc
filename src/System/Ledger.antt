-- ===== src/System/Ledger.antt =====
-- What the tables, the queue and the answers so far have to do with each other.
use shortlink_system.Base.{
  ◌≡◌, refl, List, ◌∷◌, [], ◌++◌, some, Text, false, All, All-map, All-append,
}
use mathlib.Core.List.{Mem, mem-cons_self, mem-append_left, mem-append_right}
use shortlink_system.Outbox.{OutboxMessage}
use shortlink_system.Service.{ShortLink, Answer}
use shortlink_system.Service.Redirects.{Right}
use shortlink_system.Creation.{
  Tables, Created, short_url, empty_url, lookup_failed, clock_error, database_error, unfinished,
  Conditions, clashes,
}
use shortlink_system.Creation.Commits.{extended}
use shortlink_system.Consumer.{CacheUpdateMessage}
use shortlink_system.Delivery.{message_of}
use shortlink_system.System.{Deployment}
use shortlink_system.System.Unique.{Collation, Distinct, Distinct-append}
use shortlink_system.System.Entries.{Coded, Right-grows}

-- A message says what a link of the table says.
abbrev pub Told : List ShortLink → CacheUpdateMessage → Type 0
Told links msg =
    (link : ShortLink) × Mem link links
    × (link.short_code ≡ msg.short_code)
    × (link.long_url ≡ msg.long_url)
    × (link.long_url_hash ≡ msg.url_hash)

abbrev pub Backed : List ShortLink → OutboxMessage → Type 0
Backed links m = Told links (message_of m)

Told-grows :
    (links : List ShortLink) (link : ShortLink) (msg : CacheUpdateMessage)
    → Told links msg
    → Told (links ++ link ∷ []) msg
Told-grows links link msg (l, at, e, f, g) = (l, mem-append_left (link ∷ []) at, e, f, g)

module _ (d : Deployment) where
  -- What the decoder reads from a body.
  abbrev pub Carries : List ShortLink → Text → Type 0
  Carries links body =
      (msg : CacheUpdateMessage) → d.json.unmarshal body ≡ some msg → Told links msg

  -- An address of a URL ends in the code of a link with the hash of the URL.
  abbrev pub Addressed : List ShortLink → Text → Created → Type 0
  Addressed links long_url (short_url u) =
      (code : Text) × (u ≡ d.url_prefix ++ code) × Coded d.same_text links (d.md5_hex long_url) code
  Addressed links long_url _ = Unit

  pub record Ledger (tables : Tables) (queue : List Text) (redirects : List (Text × Answer))
      (creates : List (Text × Created)) : Type 0 where
    pub distinct : Distinct d.same_text tables.links
    pub hashed : All (λ l. l.long_url_hash ≡ d.md5_hex l.long_url) tables.links
    pub backed : All (Backed tables.links) tables.outbox
    pub carried : All (Carries tables.links) queue
    pub right : All (λ x. Right d.same_text tables.links x.0 x.1) redirects
    pub addressed : All (λ x. Addressed tables.links x.0 x.1) creates

  Addressed-grows :
      (links : List ShortLink) (link : ShortLink) (long_url : Text) (a : Created)
      → Addressed links long_url a
      → Addressed (links ++ link ∷ []) long_url a
  Addressed-grows links link long_url (short_url u) (code, e, (l, at, f, g)) =
      (code, e, (l, mem-append_left (link ∷ []) at, f, g))
  Addressed-grows links link long_url empty_url h = tt
  Addressed-grows links link long_url lookup_failed h = tt
  Addressed-grows links link long_url clock_error h = tt
  Addressed-grows links link long_url database_error h = tt
  Addressed-grows links link long_url unfinished h = tt

  -- A transaction that no unique index stands against.
  pub Ledger-extended :
      (c : Collation d.same_text) (t : Conditions) (link : ShortLink) (tables : Tables)
      (queue : List Text) (redirects : List (Text × Answer)) (creates : List (Text × Created))
      → clashes d.same_text link tables.links ≡ false
      → link.long_url_hash ≡ d.md5_hex link.long_url
      → Ledger tables queue redirects creates
      → Ledger (extended t link tables) queue redirects creates
  Ledger-extended c t link tables queue redirects creates free hash h = record {
    distinct = Distinct-append d.same_text c link tables.links free h.distinct;
    hashed = All-append _ tables.links (link ∷ []) h.hashed (hash, tt);
    backed =
        All-append (Backed (tables.links ++ link ∷ [])) tables.outbox _
          (All-map {P = Backed tables.links} {Q = Backed (tables.links ++ link ∷ [])} tables.outbox
            (λ m. Told-grows tables.links link (message_of m)) h.backed)
          ((link, mem-append_right tables.links mem-cons_self, refl, refl, refl), tt);
    carried =
        All-map {P = Carries tables.links} {Q = Carries (tables.links ++ link ∷ [])} queue
          (λ body k msg e. Told-grows tables.links link msg (k msg e)) h.carried;
    right = All-map redirects (λ x. Right-grows d.same_text tables.links link x.0 x.1) h.right;
    addressed = All-map creates (λ x. Addressed-grows tables.links link x.0 x.1) h.addressed;
  }

  module _ {tables : Tables} {queue : List Text} {redirects : List (Text × Answer)}
      {creates : List (Text × Created)} (h : Ledger tables queue redirects creates) where
    pub with_redirect :
        (code : Text) (a : Answer)
        → Right d.same_text tables.links code a
        → Ledger tables queue ((code, a) ∷ redirects) creates
    with_redirect code a p = record {
      distinct = h.distinct;
      hashed = h.hashed;
      backed = h.backed;
      carried = h.carried;
      right = (p, h.right);
      addressed = h.addressed;
    }

    pub with_create :
        (long_url : Text) (a : Created)
        → Addressed tables.links long_url a
        → Ledger tables queue redirects ((long_url, a) ∷ creates)
    with_create long_url a p = record {
      distinct = h.distinct;
      hashed = h.hashed;
      backed = h.backed;
      carried = h.carried;
      right = h.right;
      addressed = (p, h.addressed);
    }

    pub with_body :
        (body : Text)
        → Carries tables.links body
        → Ledger tables (queue ++ body ∷ []) redirects creates
    with_body body p = record {
      distinct = h.distinct;
      hashed = h.hashed;
      backed = h.backed;
      carried = All-append (Carries tables.links) queue (body ∷ []) h.carried (p, tt);
      right = h.right;
      addressed = h.addressed;
    }

    pub with_outbox :
        (outbox : List OutboxMessage)
        → All (Backed tables.links) outbox
        → Ledger (record tables { outbox = outbox }) queue redirects creates
    with_outbox outbox p = record {
      distinct = h.distinct;
      hashed = h.hashed;
      backed = p;
      carried = h.carried;
      right = h.right;
      addressed = h.addressed;
    }
