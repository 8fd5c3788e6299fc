-- ===== src/Creation/NewLinks.antt =====
-- The part of `Create` that makes a new link.
use shortlink_system.Base.{◌<◌, ◌≡◌, refl, sym, inl, inr, some, [], ◌∷◌, ◌++◌, Text, false}
use shortlink_system.Base62.{decode}
use shortlink_system.Base62.Alphabet.{IsAlphabet}
use shortlink_system.Base62.RoundTrip.{decode-encode}
use shortlink_system.Snowflake.{Node, Generated, issued, severe, waiting, generate}
use shortlink_system.Snowflake.Order.{IsValid, node_of, generate-IsValid}
use shortlink_system.Snowflake.Bounds.{generate-lt}
use shortlink_system.L1Cache.{L1Cache}
use shortlink_system.L1Cache.Contents.{Sound, Sound-map, set-Sound}
use shortlink_system.Redis.{Redis}
use shortlink_system.Redis.Entries.{Kept}
use mathlib.Core.Path.{subst}
use shortlink_system.Service.{ShortLink, cache_key}
use shortlink_system.Service.WriteThrough.{url_hash_key, write_through_total}
use shortlink_system.Service.Pipelines.{write_through-Kept}
use shortlink_system.Creation.Commits.{extended, transact_cases}
use shortlink_system.Creation.Outcomes.{Meaning, Coherent, Rules, unchanged, added, Returns}
use shortlink_system.Creation.{
  Conditions, Creator, short_url, clock_error, database_error, unfinished, Reply, clashes,
  after_commit, create_link,
}

module _ (r : Redis) (P : Meaning) (t : Conditions) (long_url : Text) (start : Creator r) where
  abbrev key : Text
  key = url_hash_key (t.md5_hex long_url)

  abbrev Ends : Reply r → Type 0
  Ends = Returns r P t long_url start

  -- What a call changes on the way to the tables.
  abbrev state : L1Cache → r.Store → Creator r
  state c store = record start { url_hash_l1 = c; store = store }

  module _ (alphabet : IsAlphabet start.b62.alphabet) (positive : 0 < start.bloom.size)
      (rules : Rules r P t long_url start) (right : Coherent r P start) where
    abbrev In : L1Cache → Type 0
    In c = Sound (P start.tables.links) c

    -- The start, with what the call has done to the node, the index and Redis.
    pub still :
        (n : Node) (c : L1Cache) (store : r.Store)
        → IsValid n
        → In c
        → Kept r (P start.tables.links) store
        → Coherent r P (record start { node = n; url_hash_l1 = c; store = store })
    still n c store v h k = record { worker = v; local = right.local; index = h; kept = k }

    -- The state after the transaction, with its entries.
    abbrev extend : Node → L1Cache → ShortLink → Creator r
    extend n c link = record start {
      url_hash_l1 = c;
      node = n;
      tables = extended t link start.tables;
    }

    extend-Coherent :
        (n : Node) (c : L1Cache) (link : ShortLink)
        → IsValid n
        → In c
        → Coherent r P (extend n c link)
    extend-Coherent n c link v h = record {
      worker = v;
      local =
          Sound-map (P start.tables.links) (P (start.tables.links ++ link ∷ [])) (rules.grows link)
            right.local;
      index =
          Sound-map (P start.tables.links) (P (start.tables.links ++ link ∷ [])) (rules.grows link)
            h;
      kept = λ k v e. rules.grows link k v (right.kept k v e);
    }

    after_commit-Returns :
        (link : ShortLink) (n : Node) (c : L1Cache)
        → IsValid n
        → In c
        → link.long_url ≡ long_url
        → link.long_url_hash ≡ t.md5_hex long_url
        → decode start.b62 link.short_code ≡ some link.id
        → clashes t.same_text link start.tables.links ≡ false
        → Ends (after_commit r t link key (extend n c link))
    unfolding after_commit
    after_commit-Returns link n c v h url hash code free =
        let Q = P (start.tables.links ++ link ∷ []) in
        let here = extend-Coherent n c link v h in
        let forward = rules.forward link url in
        let reverse = rules.reverse link url hash in
        let (l1, e, local) =
          set-Sound Q (cache_key link.short_code) here.local t.stored_at link.long_url forward in
        let (l2, f, index) = set-Sound Q key here.index t.indexed_at link.short_code reverse in
        let (store, logged, g) =
          write_through_total r t.outcomes t.cancelled t.jitter start.bloom link.short_code
            link.long_url link.long_url_hash start.store positive in
        (
          record (extend n c link) { url_hash_l1 = l2; l1_cache = l1; store = store },
          short_url (start.url_prefix ++ link.short_code),
          simp (after_commit, e, f, g) refl,
          record {
            worker = v;
            local = local;
            index = index;
            kept =
                write_through-Kept r Q start.bloom
                  (λ u. rules.grows link start.bloom.key u (rules.free u)) link.short_code
                  link.long_url link.long_url_hash forward
                  (subst (λ u. Q (url_hash_key u) link.short_code) (sym hash) reverse) t.outcomes
                  t.cancelled t.jitter start.store store logged g here.kept;
          },
          added link url hash code free refl (inl (refl, e)),
        )

    pub create_link-Returns :
        (c : L1Cache)
        → In c
        → Ends (create_link r t long_url (t.md5_hex long_url) key (state c start.store))
    unfolding create_link
    create_link-Returns c h =
        go (generate start.node t.clock) refl (generate-IsValid start.node t.clock right.worker)
      where
        go :
            (g : Generated)
            → generate start.node t.clock ≡ g
            → IsValid (node_of (generate start.node t.clock))
            → Ends (create_link r t long_url (t.md5_hex long_url) key (state c start.store))
        go (severe n clock) e v = (
          record start { url_hash_l1 = c; node = n },
          clock_error,
          simp (create_link, e) refl,
          still n c start.store (subst (λ g. IsValid (node_of g)) e v) h right.kept,
          unchanged refl tt,
        )
        go (waiting n) e v = (
          record start { url_hash_l1 = c; node = n },
          unfinished,
          simp (create_link, e) refl,
          still n c start.store (subst (λ g. IsValid (node_of g)) e v) h right.kept,
          unchanged refl tt,
        )
        go (issued id n clock) e v =
            let w : IsValid n = subst (λ g. IsValid (node_of g)) e v in
            let (code, f, back) =
              decode-encode start.b62 id alphabet (generate-lt start.node t.clock right.worker e) in
            let link : ShortLink = record {
              id = id;
              short_code = code;
              long_url = long_url;
              long_url_hash = t.md5_hex long_url;
            } in
            elim (transact_cases t link start.tables) [
              | inl (both, free) ↦
                  simp (create_link, e, f, both)
                    (after_commit-Returns link n c w h refl refl back free)
              | inr (inl (lost, free)) ↦ (
                extend n c link,
                database_error,
                simp (create_link, e, f, lost) refl,
                extend-Coherent n c link w h,
                added link refl refl back free refl (inr refl),
              )
              | inr (inr neither) ↦ (
                record start { url_hash_l1 = c; node = n },
                database_error,
                simp (create_link, e, f, neither) refl,
                still n c start.store w h right.kept,
                unchanged refl tt,
              )
            ]
