-- ===== src/Base62/Alphabet.antt =====
-- Dictionaries whose bytes differ, and `strings.IndexByte` in them.
use shortlink_system.Base.{
  ℕ, zero, suc, ◌<◌, ◌≡◌, refl, ◌≢◌, some, [], ◌∷◌, length, get_elem?, Text, Bool, true, false,
  ◌&&◌, ◌==◌, if◌then◌else◌, arith,
}
use shortlink_system.Base62.{index_byte, default_alphabet}

pub absent : ℕ → Text → Bool
absent c [] = true
absent c (d ∷ s) = if d == c then false else absent c s

pub distinct : Text → Bool
unfolding absent
distinct [] = true
distinct (c ∷ s) = absent c s && distinct s

-- A dictionary of 62 bytes, all different.
pub record IsAlphabet (s : Text) : Type 0 where
  pub len : length s ≡ 62
  pub differ : distinct s ≡ true

pub default_alphabet-IsAlphabet : IsAlphabet default_alphabet
unfolding distinct
default_alphabet-IsAlphabet = record { len = refl; differ = refl }

absent-get_elem? : (c : ℕ) (s : Text) (i : ℕ) → absent c s ≡ true → get_elem? s i ≢ some c
unfolding absent
absent-get_elem? c [] i h e = cc
absent-get_elem? c (d ∷ s) zero h e = ground arith
absent-get_elem? c (d ∷ s) (suc i) h e = absent-get_elem? c s i (ground arith) e

-- In such a dictionary the byte at `i` is found at `i`.
pub index_byte-get_elem? :
    (s : Text) (i c : ℕ) → distinct s ≡ true → get_elem? s i ≡ some c → index_byte s c ≡ some i
unfolding distinct index_byte
index_byte-get_elem? [] i c h e = cc
index_byte-get_elem? (d ∷ s) zero c h e = ground arith
index_byte-get_elem? (d ∷ s) (suc i) c h e =
    ground (arith, absent-get_elem? d s i, index_byte-get_elem? s i c)

-- What is found at `i` stands at `i`.
pub get_elem?-index_byte : (s : Text) (c i : ℕ) → index_byte s c ≡ some i → get_elem? s i ≡ some c
unfolding index_byte
get_elem?-index_byte [] c i e = cc
get_elem?-index_byte (d ∷ s) c zero e = ground arith
get_elem?-index_byte (d ∷ s) c (suc i) e = ground (arith, get_elem?-index_byte s c i)

pub index_byte-lt : (s : Text) (c i : ℕ) → index_byte s c ≡ some i → i < length s
unfolding index_byte
index_byte-lt [] c i e = cc
index_byte-lt (d ∷ s) c zero e = omega arith
index_byte-lt (d ∷ s) c (suc i) e = ground (arith, index_byte-lt s c i)
