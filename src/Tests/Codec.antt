-- ===== src/Tests/Codec.antt =====
-- Base62 on concrete numbers and codes.
use shortlink_system.Base.{
  ℕ, ◌<◌, ◌≤◌, ◌^◌, ◌%◌, ◌≡◌, ◌↔◌, refl, none, some, Text, bytes, length, arith, ◌∷◌, [],
}
use mathlib.Core.Option
use shortlink_system.Base62.{Base62, default_alphabet, new_base62, encode, decode}
use shortlink_system.Base62.Alphabet.{default_alphabet-IsAlphabet}
use shortlink_system.Base62.RoundTrip.{decode-encode}
use shortlink_system.Base62.Shape.{length-encode}
use shortlink_system.Base62.Reading.{digits, value, decode-value}

abbrev codec : Base62
codec = record { alphabet = default_alphabet }

abbrev id : ℕ
id = 123_456_789_012_345

runs :
    (encode codec 0 ≡ some (bytes "v"))
    × (encode codec 62 ≡ some (bytes "Pv"))
    × (decode codec (bytes "Pv") ≡ some 62)
    × (decode codec (bytes "P-") ≡ none)
    × (new_base62 (bytes "abc" ∷ []) ≡ codec)
unfolding encode decode new_base62
runs = (refl, refl, refl, refl, refl)

longest : encode codec 0xffff_ffff_ffff_ffff ≡ some (bytes "gGu2FPwA2Js")
unfolding encode
longest = refl

decode-encode_example : (s : Text) × (encode codec id ≡ some s) × (decode codec s ≡ some id)
decode-encode_example = decode-encode codec id default_alphabet-IsAlphabet (omega arith)

two_bytes : encode codec 62 ≡ some (bytes "Pv")
unfolding encode
two_bytes = refl

length-encode_example : (0 < length (bytes "Pv")) × ((length (bytes "Pv") ≤ 2) ↔ (62 < 62 ^ 2))
length-encode_example = length-encode codec 62 2 two_bytes (omega arith)

decode-value_example :
    decode codec (bytes "Pv")
    ≡ Option.map (λ ds. value 0 ds % 2 ^ 64) (digits default_alphabet (bytes "Pv"))
decode-value_example = decode-value codec (bytes "Pv")
