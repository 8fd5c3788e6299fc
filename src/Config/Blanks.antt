-- ===== src/Config/Blanks.antt =====
-- `strings.TrimSpace` on ASCII.
use mathlib.Core.List.{reverse, append-nil, reverse-append, reverse-reverse, reverse-cons}
use shortlink_system.Base.{
  ℕ, ◌≡◌, refl, sym, ap, ◌∙◌, List, [], ◌∷◌, ◌++◌, Text, true, false, Bool-cases, inl, inr, All,
}
use mathlib.Core.Path.{subst}
use shortlink_system.Config.{is_space, trim_left, trim_space}

pub All-imp {ℓ κ μ} :
    {A : Type ℓ} {P : A → Type κ} {Q : A → Type μ} (f : (x : A) → P x → Q x) (xs : List A)
    → All P xs
    → All Q xs
All-imp f [] h = tt
All-imp f (x ∷ xs) (h, hs) = (f x h, All-imp f xs hs)

module _ {ℓ κ} {A : Type ℓ} (P : A → Type κ) where
  pub All-append : (xs ys : List A) → All P xs → All P ys → All P (xs ++ ys)
  All-append [] ys h k = k
  All-append (x ∷ xs) ys (h, hs) k = (h, All-append xs ys hs k)

  All-suffix : (xs ys : List A) → All P (xs ++ ys) → All P ys
  All-suffix [] ys h = h
  All-suffix (x ∷ xs) ys (h, hs) = All-suffix xs ys hs

  All-reverse : (xs : List A) → All P xs → All P (reverse xs)
  All-reverse [] h = tt
  All-reverse (x ∷ xs) (h, hs) =
      rw (reverse-cons x xs) (All-append (reverse xs) (x ∷ []) (All-reverse xs hs) (h, tt))

abbrev pub Blank : Text → Type 0
Blank = All (λ (c : ℕ). is_space c ≡ true)

-- Empty, or a character that is not a blank in front.
abbrev Starts : Text → Type 0
Starts [] = Unit
Starts (c ∷ s) = is_space c ≡ false

trim_left-Starts : (s : Text) → Starts (trim_left s)
unfolding trim_left
trim_left-Starts [] = tt
trim_left-Starts (c ∷ s) = elim (Bool-cases (is_space c)) [
  | inl t ↦ simp t (trim_left-Starts s)
  | inr t ↦ simp t refl
]

trim_left_of_Starts : (s : Text) → Starts s → trim_left s ≡ s
unfolding trim_left
trim_left_of_Starts [] h = refl
trim_left_of_Starts (c ∷ s) h = rw h

Starts-front : (s rest : Text) → Starts (s ++ rest) → Starts s
Starts-front [] rest h = tt
Starts-front (c ∷ s) rest h = h

-- What is cut off is blank.
trim_left_cut : (s : Text) → (front : Text) × (s ≡ front ++ trim_left s) × Blank front
unfolding trim_left
trim_left_cut [] = ([], refl, tt)
trim_left_cut (c ∷ s) = elim (Bool-cases (is_space c)) [
  | inl t ↦
      let (front, e, blank) = trim_left_cut s in (c ∷ front, simp t (ap (◌∷◌ c) e), (t, blank))
  | inr t ↦ ([], simp t refl, tt)
]

reverse_eq_nil : (s : Text) → reverse s ≡ [] → s ≡ []
reverse_eq_nil s e = sym (reverse-reverse s) ∙ ap reverse e

trim_left-Blank : (s : Text) → trim_left s ≡ [] → Blank s
trim_left-Blank s e =
    let (front, cut, blank) = trim_left_cut s in
    subst Blank (sym (cut ∙ ap (◌++◌ front) e ∙ append-nil front)) blank

pub trim_space-Blank : (s : Text) → trim_space s ≡ [] → Blank s
unfolding trim_space
trim_space-Blank s e =
    let (front, cut, blank) = trim_left_cut s in
    let back = trim_left-Blank (reverse (trim_left s)) (reverse_eq_nil _ e) in
    let rest : Blank (trim_left s) =
      subst Blank (reverse-reverse (trim_left s)) (All-reverse _ (reverse (trim_left s)) back) in
    subst Blank (sym cut) (All-append _ front (trim_left s) blank rest)

-- Trimming once is enough.
pub trim_space_idem : (s : Text) → trim_space (trim_space s) ≡ trim_space s
unfolding trim_space
trim_space_idem s =
    let u = trim_left s in
    let t = trim_left (reverse u) in
    let (back, cut, _) = trim_left_cut (reverse u) in
    let shape : u ≡ reverse t ++ reverse back =
      sym (reverse-reverse u) ∙ ap reverse cut ∙ reverse-append back t in
    let starts =
      Starts-front (reverse t) (reverse back) (subst Starts shape (trim_left-Starts s)) in
    ap (λ v. reverse (trim_left (reverse v))) (trim_left_of_Starts (reverse t) starts)
    ∙ ap (λ v. reverse (trim_left v)) (reverse-reverse t)
    ∙ ap reverse (trim_left_of_Starts t (trim_left-Starts (reverse u)))

-- Trimming adds nothing.
pub All-trim_space {κ} : (P : ℕ → Type κ) (s : Text) → All P s → All P (trim_space s)
unfolding trim_space
All-trim_space P s h =
    let (front, cut, _) = trim_left_cut s in
    let (back, cut', _) = trim_left_cut (reverse (trim_left s)) in
    let middle = All-suffix P front (trim_left s) (subst (All P) cut h) in
    All-reverse P _ (
      All-suffix P back (trim_left (reverse (trim_left s)))
        (subst (All P) cut' (All-reverse P (trim_left s) middle)))
