-- ===== src/Base62/Codes.antt =====
-- pkg/base62/base62.go: the type of the short codes.
use native.Mathlib.Bridge.{le_prop}
use mathlib.Core.Equiv.{Iso, IsEquiv, iso_to_equiv}
use mathlib.Core.HLevel.{Σ_prop_path}
use mathlib.Core.Path.{subst}
use mathlib.Core.Option.{some-injective}
use shortlink_system.Base.{ℕ, ◌^◌, ◌<◌, ◌≡◌, refl, sym, ◌∙◌, some, Text}
use shortlink_system.Base62.{Base62, encode, decode}
use shortlink_system.Base62.Alphabet.{IsAlphabet}
use shortlink_system.Base62.RoundTrip.{decode-encode, encode_injective}

abbrev pub Uint64 : Type 0
Uint64 = (n : ℕ) × (n < 2 ^ 64)

-- A text that `Encode` gives for a uint64.
abbrev pub IsCode : Base62 → Text → Type 0
IsCode b s = (n : ℕ) × ((n < 2 ^ 64) × (encode b n ≡ some s))

abbrev pub ShortCode : Base62 → Type 0
ShortCode b = (s : Text) × IsCode b s

module _ (b : Base62) (a : IsAlphabet b.alphabet) where
  IsCode-prop : (s : Text) → IsProp (IsCode b s)
  IsCode-prop s (m, (h, e)) (n, (k, f)) =
      Σ_prop_path {B = λ n. (n < 2 ^ 64) × (encode b n ≡ some s)} (λ n. hlevel le_prop)
        (encode_injective b m n a h k (e ∙ sym f))

  -- `Encode` as a function between the two types.
  abbrev pub code_of : Uint64 → ShortCode b
  code_of (n, h) = let (s, e, _) = decode-encode b n a h in (s, (n, (h, e)))

  code_of_iso : Iso Uint64 (ShortCode b)
  code_of_iso = record {
    fun = code_of;
    inv = λ c. (c.1.0, c.1.1.0);
    rinv = λ c.
        let (s, e, _) = decode-encode b c.1.0 a c.1.1.0 in
        Σ_prop_path {B = IsCode b} IsCode-prop (some-injective _ _ (sym e ∙ c.1.1.1));
    linv = λ n. refl;
  }

  decode_code : (c : ShortCode b) → decode b c.0 ≡ some c.1.0
  decode_code (s, (n, (h, e))) =
      let (s', f, back) = decode-encode b n a h in
      subst (λ t. decode b t ≡ some n) (some-injective _ _ (sym f ∙ e)) back

  -- Over a dictionary of 62 different bytes the short codes are a subtype of the texts, `Encode` is an
  -- equivalence between it and the type of the uint64, and `Decode` is its inverse.
  pub code_of-IsEquiv :
      ((s : Text) → IsProp (IsCode b s))
      × IsEquiv code_of
      × ((c : ShortCode b) → decode b c.0 ≡ some c.1.0)
  unfolding code_of_iso
  code_of-IsEquiv = (IsCode-prop, (iso_to_equiv code_of_iso).1, decode_code)
