-- ===== src/Base62/Reading.antt =====
-- What `Decode` reads, over any dictionary.
use mathlib.Core.Option
use shortlink_system.Base.{
  ℕ, ◌∙◌, ◌+◌, ◌*◌, ◌%◌, ◌^◌, ◌≡◌, refl, sym, ap, Option, none, some, Option-cases, inl, inr, List,
  [], ◌∷◌, Text, arith,
}
use shortlink_system.Base62.{Base62, base, u64_mod, index_byte, decode_loop, decode}

-- The positions of the bytes in the dictionary, if each has one.
abbrev pub digits : Text → Text → Option (List ℕ)
digits al [] = some []
digits al (c ∷ s) = elim (index_byte al c) [
  | none ↦ none
  | some d ↦ Option.map (λ ds. d ∷ ds) (digits al s)
]

-- The number that a list of digits stands for, behind `n`, with no bound.
abbrev pub value : ℕ → List ℕ → ℕ
value n [] = n
value n (d ∷ ds) = value (n * 62 + d) ds

value-mod :
    (ds : List ℕ) (m n : ℕ) → m % 2 ^ 64 ≡ n % 2 ^ 64 → value m ds % 2 ^ 64 ≡ value n ds % 2 ^ 64
value-mod [] m n h = h
value-mod (d ∷ ds) m n h = value-mod ds (m * 62 + d) (n * 62 + d) (omega arith)

same_value :
    (num d next : ℕ)
    → next % 2 ^ 64 ≡ (num * 62 + d) % 2 ^ 64
    → (o : Option (List ℕ))
    → ◌≡◌ {A = Option ℕ}
        (Option.map (λ ds. value next ds % 2 ^ 64) o)
        (Option.map (λ ds. value num ds % 2 ^ 64) (Option.map (λ ds. d ∷ ds) o))
same_value num d next h none = refl
same_value num d next h (some ds) = ap some (value-mod ds next (num * 62 + d) h)

decode_loop-value :
    (al : Text) (s : Text) (num : ℕ)
    → num % 2 ^ 64 ≡ num
    → decode_loop al num s ≡ Option.map (λ ds. value num ds % 2 ^ 64) (digits al s)
unfolding decode_loop
decode_loop-value al [] num h = ap some (sym h)
decode_loop-value al (c ∷ s) num h = elim (Option-cases (index_byte al c)) [
  | inl miss ↦ ground (arith, miss)
  | inr (d, found) ↦
      let next = (num * base % u64_mod + d) % u64_mod in
      rw (found, digits, decode_loop)
        (decode_loop-value al s next (omega arith)
          ∙ same_value num d next (omega arith) (digits al s))
]

-- `Decode` fails exactly when a byte is not in the dictionary; otherwise it returns the number
-- that the digits stand for, reduced modulo 2 ^ 64.
pub decode-value :
    (b : Base62) (s : Text)
    → decode b s ≡ Option.map (λ ds. value 0 ds % 2 ^ 64) (digits b.alphabet s)
unfolding decode
decode-value b s = decode_loop-value b.alphabet s 0 refl
