-- ===== src/Creation/Transactions.antt =====
-- A call of `Create` on every way through it.
use shortlink_system.Base.{
  ◌<◌, ◌≡◌, refl, inl, inr, Option, none, some, [], ◌∷◌, ◌++◌, Text, text_eq, false, Bool-cases,
  Option-cases,
}
use shortlink_system.Base62.Alphabet.{IsAlphabet}
use shortlink_system.L1Cache
use shortlink_system.L1Cache.{L1Cache}
use shortlink_system.L1Cache.Contents.{Sound, get-Sound, set-Sound}
use shortlink_system.Redis.{Redis}
use shortlink_system.Redis.Pipelines.{set, exec}
use shortlink_system.Redis.Entries.{Kept, exec-Kept}
use shortlink_system.Service.{generate_jitter_expiration}
use shortlink_system.Service.WriteThrough.{url_hash_key}
use shortlink_system.Creation.Outcomes.{Meaning, Coherent, Rules, unchanged, Returns}
use shortlink_system.Creation.{
  Conditions, Creator, short_url, empty_url, lookup_failed, Reply,
  find_by_long_url_hash_from_master, answer_code, from_master, from_index, create,
}
use shortlink_system.Creation.NewLinks.{still, create_link-Returns}

module _ (r : Redis) (P : Meaning) (t : Conditions) (long_url : Text) (start : Creator r)
    (alphabet : IsAlphabet start.b62.alphabet) (positive : 0 < start.bloom.size)
    (rules : Rules r P t long_url start) (right : Coherent r P start) where
  abbrev key : Text
  key = url_hash_key (t.md5_hex long_url)

  abbrev Ends : Reply r → Type 0
  Ends = Returns r P t long_url start

  abbrev In : L1Cache → Type 0
  In c = Sound (P start.tables.links) c

  -- What a call changes on the way to the tables.
  abbrev state : L1Cache → r.Store → Creator r
  state c store = record start { url_hash_l1 = c; store = store }

  answer_code-Returns :
      (code : Text) (c : L1Cache) (store : r.Store)
      → P start.tables.links key code
      → In c
      → Kept r (P start.tables.links) store
      → Ends (answer_code r t key code (state c store))
  unfolding answer_code
  answer_code-Returns code c store p h k =
      let (c', f, sound) = set-Sound (P start.tables.links) key h t.stored_at code p in
      (
        state c' store,
        short_url (start.url_prefix ++ code),
        simp (answer_code, f) refl,
        still r P t long_url start alphabet positive rules right start.node c' store right.worker
            sound k,
        unchanged refl (code, refl, p),
      )

  from_master-Returns :
      (c : L1Cache)
      → In c
      → Ends (from_master r t long_url (t.md5_hex long_url) key (state c start.store))
  unfolding from_master
  from_master-Returns c h = elim (Bool-cases t.find) [
    | inr down ↦ (
      state c start.store,
      lookup_failed,
      simp (from_master, down) refl,
      still r P t long_url start alphabet positive rules right start.node c start.store right.worker
          h right.kept,
      unchanged refl tt,
    )
    | inl up ↦
        elim (Option-cases
          (find_by_long_url_hash_from_master t.same_text (t.md5_hex long_url) start.tables.links)) [
            | inl new ↦
                simp (from_master, up, new)
                  (create_link-Returns r P t long_url start alphabet positive rules right c h)
            | inr (existing, old) ↦
                let p = rules.known existing old in
                simp (from_master, up, old)
                  (answer_code-Returns existing.short_code c
                    (exec r t.redis_set start.store
                      (set key existing.short_code (generate_jitter_expiration t.jitter) ∷ []))
                    p h
                    (exec-Kept r (P start.tables.links) t.redis_set start.store _ right.kept
                      (p, tt)))
          ]
  ]

  from_index-Returns :
      (c : L1Cache)
      → In c
      → Ends (from_index r t long_url (t.md5_hex long_url) key (state c start.store))
  unfolding from_index
  from_index-Returns c h = elim (Bool-cases t.redis_get) [
    | inr cut ↦ simp (from_index, cut) (from_master-Returns c h)
    | inl up ↦ elim (Option-cases (r.get start.store key)) [
      | inl e ↦ simp (from_index, up, e) (from_master-Returns c h)
      | inr (code, e) ↦ elim (Bool-cases (text_eq code [])) [
        | inl blank ↦ simp (from_index, up, e, blank) (from_master-Returns c h)
        | inr full ↦
            simp (from_index, up, e, full)
              (answer_code-Returns code c start.store (right.kept key code e) h right.kept)
      ]
    ]
  ]

  -- If the dictionary is an alphabet, the filter has a positive size, the node is valid, all entries
  -- of the caches are right by the table in the sense of `P`, and so are the entries that a call
  -- writes, then `Create` returns without a panic, and it leaves the entries right. It leaves both
  -- tables as they are, and then an address that it answers ends in a code that is a right entry of
  -- the reverse index; or it adds one link for the URL, which no unique index keeps out, with its
  -- outbox message, and then it answers the address of the new link, or the error of a commit that
  -- was carried out all the same.
  pub create-Returns : Ends (create r t long_url start)
  unfolding create
  create-Returns =
      let (c, o, e, sound, good) = get-Sound (P start.tables.links) key right.index t.looked_at in
      elim (Bool-cases (text_eq long_url [])) [
        | inl blank ↦ (start, empty_url, simp (create, blank) refl, right, unchanged refl tt)
        | inr full ↦ go full c o e sound good
      ]
    where
      go :
          text_eq long_url [] ≡ false
          → (c : L1Cache) (o : Option Text)
          → L1Cache.get start.url_hash_l1 t.looked_at key ≡ some (c, o)
          → In c
          → ((v : Text) → o ≡ some v → P start.tables.links key v)
          → Ends (create r t long_url start)
      go full c none e sound good = simp (create, full, e) (from_index-Returns c sound)
      go full c (some code) e sound good = elim (Bool-cases (text_eq code [])) [
        | inl blank ↦ simp (create, full, e, blank) (from_index-Returns c sound)
        | inr known ↦ (
          state c start.store,
          short_url (start.url_prefix ++ code),
          simp (create, full, e, known) refl,
          still r P t long_url start alphabet positive rules right start.node c start.store
              right.worker sound right.kept,
          unchanged refl (code, refl, good code refl),
        )
      ]
