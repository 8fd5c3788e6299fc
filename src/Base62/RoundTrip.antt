-- ===== src/Base62/RoundTrip.antt =====
-- Decoding what was encoded, and encoding what was decoded.
use shortlink_system.Base.{
  ℕ, zero, suc, ◌+◌, ◌*◌, ◌/◌, ◌%◌, ◌^◌, ◌<◌, ◌≡◌, refl, ap, ◌∙◌, some, [], ◌∷◌, get_elem?,
  get_elem?-of_lt, Text, arith,
}
use native.Mathlib.Nat.{pow-suc}
use shortlink_system.Base62.{Base62, buf_size, encode_loop, encode, index_byte, decode_loop, decode}
use shortlink_system.Base62.Alphabet.{IsAlphabet, index_byte-get_elem?}

module _ {al : Text} (a : IsAlphabet al) where
  -- The byte for a digit.
  pub digit_byte :
      (d : ℕ) → d < 62 → (c : ℕ) × (get_elem? al d ≡ some c) × (index_byte al c ≡ some d)
  digit_byte d h =
      let (c, e) = get_elem?-of_lt al d (omega (arith, a.len)) in
      (c, e, index_byte-get_elem? al d c a.differ e)

  decode_loop_digit :
      (num c : ℕ) (out : Text)
      → num < 2 ^ 64
      → index_byte al c ≡ some (num % 62)
      → decode_loop al (num / 62) (c ∷ out) ≡ decode_loop al num out
  unfolding decode_loop
  decode_loop_digit num c out h found =
      let e : (num / 62 * 62 % 2 ^ 64 + num % 62) % 2 ^ 64 ≡ num = omega arith in
      rw (found, decode_loop) (ap (λ n. decode_loop al n out) e)

  encode_loop_digit :
      (idx n c : ℕ) (out : Text)
      → get_elem? al (suc n % 62) ≡ some c
      → encode_loop al (suc idx) (suc n) out ≡ encode_loop al idx (suc n / 62) (c ∷ out)
  unfolding encode_loop
  encode_loop_digit idx n c out at = ground arith

  div-pow : (idx num : ℕ) → num < 62 ^ suc idx → num / 62 < 62 ^ idx
  div-pow idx num h = omega (arith, pow-suc 62 idx)

  -- The loop ends without a panic when the buffer is long enough, and decoding its result
  -- continues as decoding from the number would.
  pub encode_loop-decode :
      (idx num : ℕ) (out : Text)
      → num < 62 ^ idx
      → num < 2 ^ 64
      → (s : Text) × (encode_loop al idx num out ≡ some s)
        × (decode_loop al 0 s ≡ decode_loop al num out)
  encode_loop-decode zero num out h k =
      let z : num ≡ 0 = omega arith in (out, unfold encode_loop in rw z, rw z)
  encode_loop-decode (suc idx) zero out h k = (out, unfold encode_loop in refl, refl)
  encode_loop-decode (suc idx) (suc n) out h k =
      let (c, at, found) = digit_byte (suc n % 62) (omega arith) in
      let (s, e, d) =
        encode_loop-decode idx (suc n / 62) (c ∷ out) (div-pow idx (suc n) h) (omega arith) in
      (s, encode_loop_digit idx n c out at ∙ e, d ∙ decode_loop_digit (suc n) c out k found)

  fits : (num : ℕ) → num < 2 ^ 64 → num < 62 ^ 11
  fits num h = omega arith

-- Over a dictionary of 62 different bytes every uint64 is encoded without a panic, and decoding
-- the code gives the number back.
pub decode-encode :
    (b : Base62) (num : ℕ)
    → IsAlphabet b.alphabet
    → num < 2 ^ 64
    → (s : Text) × (encode b num ≡ some s) × (decode b s ≡ some num)
unfolding encode decode
decode-encode b zero a h =
    let (c, at, found) = digit_byte a 0 (omega arith) in
    (c ∷ [], rw at, decode_loop_digit a 0 c [] h found)
decode-encode b (suc n) a h =
    let (s, e, d) = encode_loop-decode a buf_size (suc n) [] (fits a (suc n) h) h in
    (s, ground (arith, e), d)

-- Different identifiers have different short codes.
pub encode_injective :
    (b : Base62) (m n : ℕ)
    → IsAlphabet b.alphabet
    → m < 2 ^ 64
    → n < 2 ^ 64
    → encode b m ≡ encode b n
    → m ≡ n
encode_injective b m n a hm hn e =
    let (s, em, dm) = decode-encode b m a hm in
    let (t, en, dn) = decode-encode b n a hn in cc (em, en, dm, dn)
