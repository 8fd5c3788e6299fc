-- ===== src/Base62.antt =====
-- pkg/base62/base62.go: the codec between uint64 identifiers and short codes.
pub mod Alphabet
pub mod RoundTrip
pub mod Codes
pub mod Shape
pub mod Reading
use shortlink_system.Base.{
  ℕ, zero, suc, ◌+◌, ◌*◌, ◌/◌, ◌%◌, ◌^◌, Option, none, some, List, [], ◌∷◌, length, get_elem?, Text,
  bytes, ◌==◌, if◌then◌else◌,
}

abbrev pub default_alphabet : Text
default_alphabet = bytes "vPh7zQwE9oA4cK8sY2mD6gU1lX5rN3tB0iJfFkOqHjuyxWnCZbVMIaLdTReSGp"

abbrev pub base : ℕ
base = 62

abbrev pub u64_mod : ℕ
u64_mod = 2 ^ 64

pub record Base62 : Type 0 where
  pub alphabet : Text

-- The variadic argument is the list of the dictionaries that were passed.
unfoldable pub new_base62 : List Text → Base62
new_base62 [] = record { alphabet = default_alphabet }
new_base62 (custom ∷ _) = record {
  alphabet = if length custom == 62 then custom else default_alphabet;
}

-- `none` is a panic: an index out of the alphabet, or `idx--` below 0. `out` is `buf[idx:]`.
unfoldable pub encode_loop : Text → ℕ → ℕ → Text → Option Text
encode_loop alphabet zero num out = if num == 0 then some out else none
encode_loop alphabet (suc idx) num out =
    let next : Option Text = elim (get_elem? alphabet (num % base)) [
      | none ↦ none
      | some c ↦ encode_loop alphabet idx (num / base) (c ∷ out)
    ] in
    if num == 0 then some out else next

abbrev pub buf_size : ℕ
buf_size = 11

unfoldable pub encode : Base62 → ℕ → Option Text
unfolding encode_loop
encode b num =
    if num == 0
    then (elim (get_elem? b.alphabet 0) [ none ↦ none | some c ↦ some (c ∷ []) ])
    else encode_loop b.alphabet buf_size num []

-- `strings.IndexByte`; `none` is -1.
unfoldable pub index_byte : Text → ℕ → Option ℕ
index_byte [] c = none
index_byte (d ∷ s) c =
    if d == c then some 0 else (elim (index_byte s c) [ none ↦ none | some i ↦ some (suc i) ])

-- `none` is the error "invalid base62 character". The sum wraps at 64 bits.
unfoldable pub decode_loop : Text → ℕ → Text → Option ℕ
decode_loop alphabet num [] = some num
decode_loop alphabet num (c ∷ str) = elim (index_byte alphabet c) [
  | none ↦ none
  | some index ↦ decode_loop alphabet ((num * base % u64_mod + index) % u64_mod) str
]

unfoldable pub decode : Base62 → Text → Option ℕ
unfolding decode_loop index_byte
decode b str = decode_loop b.alphabet 0 str
