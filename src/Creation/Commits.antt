-- ===== src/Creation/Commits.antt =====
-- internal/service/shortlink.go: the transaction of `Create`.
use shortlink_system.Base.{
  ◌≡◌, refl, ◌⊎◌, inl, inr, [], ◌∷◌, ◌++◌, true, false, Bool-cases, ◌||◌, not, arith,
}
use shortlink_system.Service.{ShortLink}
use shortlink_system.Creation.{Conditions, Tables, clashes, outbox_message, transact}

-- The tables with one more link and its message.
abbrev pub extended : Conditions → ShortLink → Tables → Tables
extended t link tables = record {
  links = tables.links ++ link ∷ [];
  outbox = tables.outbox ++ outbox_message t link ∷ [];
}

-- A transaction writes both rows or none, and both if it returns no error. It writes them only if no
-- unique index stands against the link.
pub transact_cases :
    (t : Conditions) (link : ShortLink) (tables : Tables)
    → ((transact t link tables ≡ (extended t link tables, true))
        × (clashes t.same_text link tables.links ≡ false))
      ⊎ (((transact t link tables ≡ (extended t link tables, false))
            × (clashes t.same_text link tables.links ≡ false))
          ⊎ (transact t link tables ≡ (tables, false)))
unfolding transact
transact_cases t link tables = elim (Bool-cases t.begins) [
  | inr f ↦ inr (inr (simp (transact, f) refl))
  | inl b ↦ elim (Bool-cases (clashes t.same_text link tables.links || not t.inserts)) [
    | inl c ↦ inr (inr (simp (transact, b, c) refl))
    | inr c ↦ elim (Bool-cases t.inserts_outbox) [
      | inr o ↦ inr (inr (simp (transact, b, c, o) refl))
      | inl o ↦ elim (Bool-cases t.commits) [
        | inl d ↦ inl (simp (transact, b, c, o, d) refl, ground (arith, c))
        | inr d ↦ elim (Bool-cases t.carried_out) [
          | inl w ↦ inr (inl (simp (transact, b, c, o, d, w) refl, ground (arith, c)))
          | inr w ↦ inr (inr (simp (transact, b, c, o, d, w) refl))
        ]
      ]
    ]
  ]
]
