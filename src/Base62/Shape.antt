-- ===== src/Base62/Shape.antt =====
-- How long a short code is.
use shortlink_system.Base.{
  ℕ, zero, suc, ◌+◌, ◌/◌, ◌%◌, ◌^◌, ◌<◌, ◌≤◌, ◌≡◌, refl, ◌↔◌, none, some, Option-cases, inl, inr,
  [], ◌∷◌, length, get_elem?, Text, arith,
}
use shortlink_system.Base62.{Base62, buf_size, encode_loop, encode}
use native.Mathlib.Nat.{pow-suc}

-- One round of the loop on a number that is not 0.
encode_loop_round :
    (al : Text) (idx n : ℕ) (out s : Text)
    → encode_loop al (suc idx) (suc n) out ≡ some s
    → (c : ℕ) × (encode_loop al idx (suc n / 62) (c ∷ out) ≡ some s)
unfolding encode_loop
encode_loop_round al idx n out s e = elim (Option-cases (get_elem? al (suc n % 62))) [
  | inl miss ↦ absurd (ground (arith, e, miss))
  | inr (c, at) ↦ (c, ground (arith, e, at))
]

encode_loop-stop : (al : Text) (idx : ℕ) (out : Text) → encode_loop al idx 0 out ≡ some out
unfolding encode_loop
encode_loop-stop al zero out = refl
encode_loop-stop al (suc idx) out = refl

encode_loop-zero : (al : Text) (n : ℕ) (out : Text) → encode_loop al 0 (suc n) out ≡ none
unfolding encode_loop
encode_loop-zero al n out = ground arith

one-le-pow : (k : ℕ) → 0 < 62 ^ k
one-le-pow zero = omega arith
one-le-pow (suc k) = omega (arith, one-le-pow k, pow-suc 62 k)

-- The loop writes at most `k` bytes exactly when the number has at most `k` digits.
encode_loop-length :
    (al : Text) (idx num k : ℕ) (out s : Text)
    → encode_loop al idx num out ≡ some s
    → (length out ≤ length s) × ((length s ≤ k + length out) ↔ (num < 62 ^ k))
encode_loop-length al idx zero k out s e =
    let d : some out ≡ some s = cc (encode_loop-stop al idx out) in ground (arith, d, one-le-pow k)
encode_loop-length al zero (suc n) k out s e = cc (encode_loop-zero al n out)
encode_loop-length al (suc idx) (suc n) zero out s e =
    let (c, e') = encode_loop_round al idx n out s e in
    let (longer, _) = encode_loop-length al idx (suc n / 62) zero (c ∷ out) s e' in
    (omega arith, ((λ h. absurd (omega arith)), (λ h. absurd (omega arith))))
encode_loop-length al (suc idx) (suc n) (suc k) out s e =
    let (c, e') = encode_loop_round al idx n out s e in
    let (longer, iff) = encode_loop-length al idx (suc n / 62) k (c ∷ out) s e' in
    (
      omega arith,
      (
        (λ h. omega (arith, pow-suc 62 k, iff.0 (omega arith))),
        (λ h. let q : suc n / 62 < 62 ^ k = omega (arith, pow-suc 62 k) in omega (arith, iff.1 q)),
      ),
    )

encode-suc : (b : Base62) (n : ℕ) → encode b (suc n) ≡ encode_loop b.alphabet buf_size (suc n) []
unfolding encode
encode-suc b n = ground arith

encode-zero-length : (b : Base62) (s : Text) → encode b 0 ≡ some s → length s ≡ 1
unfolding encode
encode-zero-length b s e = ground arith

-- For a positive `k`, a code has at most `k` bytes exactly when its number is below 62 ^ k; no
-- code is empty.
pub length-encode :
    (b : Base62) (num k : ℕ) {s : Text}
    → encode b num ≡ some s
    → 0 < k
    → (0 < length s) × ((length s ≤ k) ↔ (num < 62 ^ k))
length-encode b zero zero e h = elim h [ ]
length-encode b zero (suc k) {s} e h = ground (arith, encode-zero-length b s e, one-le-pow (suc k))
length-encode b (suc n) k {s} e h =
    let e' : encode_loop b.alphabet buf_size (suc n) [] ≡ some s = cc (encode-suc b n) in
    let (_, iff) = encode_loop-length b.alphabet buf_size (suc n) k [] s e' in
    let (_, none_short) = encode_loop-length b.alphabet buf_size (suc n) 0 [] s e' in
    (positive s none_short.0, ((λ q. iff.0 (omega arith)), (λ q. omega (arith, iff.1 q))))
  where
    positive : (s : Text) → (length s ≤ 0 → suc n < 1) → 0 < length s
    positive [] f = absurd (omega (arith, f (omega arith)))
    positive (c ∷ s) f = omega arith
