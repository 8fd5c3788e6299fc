-- ===== src/Config/Items.antt =====
-- The items of a list in the environment.
use mathlib.Core.List.{append-nil, append_assoc}
use shortlink_system.Base.{
  ℕ, ◌≡◌, ◌≢◌, refl, sym, ap, ◌∙◌, List, [], ◌∷◌, ◌++◌, Text, text_eq, text_eq_iff, false,
  Bool-cases, inl, inr, All, ◌==◌, arith,
}
use shortlink_system.Config.Blanks.{
  All-imp, All-append, trim_space-Blank, trim_space_idem, All-trim_space,
}
use shortlink_system.Config.{trim_space, split_from, split, keep_non_empty, split_non_empty}

abbrev NoComma : Text → Type 0
NoComma = All (λ (c : ℕ). c ≢ b',')

-- `strings.Join(items, ",")`
abbrev pub join : List Text → Text
join [] = []
join (item ∷ []) = item
join (item ∷ next ∷ items) = item ++ b',' ∷ join (next ∷ items)

-- What an item of the result looks like.
pub record IsItem (item : Text) : Type 0 where
  pub some_text : item ≢ []
  pub trimmed : trim_space item ≡ item
  pub no_comma : NoComma item

split_from-item : (front item : Text) → NoComma item → split_from front item ≡ (front ++ item) ∷ []
unfolding split_from
split_from-item front [] h = ap (λ s. s ∷ []) (sym (append-nil front))
split_from-item front (c ∷ item) (h, hs) =
    ground (arith, split_from-item (front ++ c ∷ []) item hs, append_assoc front (c ∷ []) item)

split_from-comma :
    (front item rest : Text)
    → NoComma item
    → split_from front (item ++ b',' ∷ rest) ≡ (front ++ item) ∷ split_from [] rest
unfolding split_from
split_from-comma front [] rest h = ap (λ s. s ∷ split_from [] rest) (sym (append-nil front))
split_from-comma front (c ∷ item) rest (h, hs) =
    ground
      (arith, split_from-comma (front ++ c ∷ []) item rest hs, append_assoc front (c ∷ []) item)

split-join :
    (item : Text) (items : List Text)
    → All IsItem (item ∷ items)
    → split (join (item ∷ items)) ≡ item ∷ items
unfolding split
split-join item [] (h, hs) = split_from-item [] item h.no_comma
split-join item (next ∷ items) (h, hs) =
    split_from-comma [] item (join (next ∷ items)) h.no_comma
    ∙ ap (◌∷◌ item) (split-join next items hs)

text_eq-nil : (s : Text) → s ≢ [] → text_eq s [] ≡ false
unfolding text_eq
text_eq-nil [] h = absurd (h refl)
text_eq-nil (c ∷ s) h = refl

keep_non_empty-items : (items : List Text) → All IsItem items → keep_non_empty items ≡ items
unfolding keep_non_empty
keep_non_empty-items [] h = refl
keep_non_empty-items (item ∷ items) (h, hs) =
    rw (keep_non_empty, h.trimmed, text_eq-nil item h.some_text)
      (ap (◌∷◌ item) (keep_non_empty-items items hs))

-- A value that is trimmed to nothing holds no comma, so the test in front of the loop decides
-- nothing that the loop would not.
blank_value : (value : Text) → trim_space value ≡ [] → split value ≡ value ∷ []
unfolding split
blank_value value h =
    split_from-item [] value (All-imp (λ c e. ground arith) value (trim_space-Blank value h))

-- A list that is joined with commas is read back, if no item is empty, has blanks at its ends or
-- holds a comma.
pub split_non_empty-join :
    (items : List Text) → All IsItem items → split_non_empty (join items) ≡ items
unfolding split_non_empty
split_non_empty-join [] h = refl
split_non_empty-join (item ∷ items) (h, hs) =
    elim (Bool-cases (text_eq (trim_space (join (item ∷ items))) [])) [
      | inl blank ↦
          let nothing = (text_eq_iff (trim_space (join (item ∷ items))) []).0 blank in
          let same : join (item ∷ items) ∷ [] ≡ item ∷ items =
            sym (blank_value (join (item ∷ items)) nothing) ∙ split-join item items (h, hs) in
          absurd (h.some_text (sym h.trimmed ∙ ap trim_space (sym (head_of same)) ∙ nothing))
      | inr full ↦
          rw (split_non_empty, full)
            (ap keep_non_empty (split-join item items (h, hs))
              ∙ keep_non_empty-items (item ∷ items) (h, hs))
    ]
  where
    head_of : {a b : Text} {xs ys : List Text} → a ∷ xs ≡ b ∷ ys → a ≡ b
    head_of e = cc

split_from-NoComma : (front s : Text) → NoComma front → All NoComma (split_from front s)
unfolding split_from
split_from-NoComma front [] h = (h, tt)
split_from-NoComma front (c ∷ s) h = elim (Bool-cases (c == b',')) [
  | inl comma ↦ simp comma (h, split_from-NoComma [] s tt)
  | inr other ↦ simp other (
      split_from-NoComma (front ++ c ∷ []) s
        (All-append (λ (c : ℕ). c ≢ b',') front (c ∷ []) h (ground arith, tt)))
]

keep_non_empty-IsItem : (items : List Text) → All NoComma items → All IsItem (keep_non_empty items)
unfolding keep_non_empty
keep_non_empty-IsItem [] h = tt
keep_non_empty-IsItem (item ∷ items) (h, hs) = elim (Bool-cases (text_eq (trim_space item) [])) [
  | inl blank ↦ simp blank (keep_non_empty-IsItem items hs)
  | inr full ↦ simp full (
    record {
      some_text = λ e. ground (arith, e, full, text_eq_iff (trim_space item) []);
      trimmed = trim_space_idem item;
      no_comma = All-trim_space (λ (c : ℕ). c ≢ b',') item h;
    },
    keep_non_empty-IsItem items hs,
  )
]

-- What is read is a list of items: none is empty, has blanks at its ends or holds a comma.
pub split_non_empty-IsItem : (value : Text) → All IsItem (split_non_empty value)
unfolding split_non_empty split
split_non_empty-IsItem value = elim (Bool-cases (text_eq (trim_space value) [])) [
  | inl blank ↦ simp blank tt
  | inr full ↦
      simp full (keep_non_empty-IsItem (split_from [] value) (split_from-NoComma [] value tt))
]
