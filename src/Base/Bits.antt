-- ===== src/Base/Bits.antt =====
-- `|` and `&` as arithmetic, where a shift or a mask keeps the digits apart.
use Prim.Native.Nat.{
  ℕ, zero, suc, ◌+◌, ◌-◌, ◌*◌, ◌/◌, ◌%◌, ◌^◌, ◌≤◌, ◌<◌, min, max, bit_and, bit_or, digits, bitwise,
  bit_and-bitwise, bit_or-bitwise,
}
use mathlib.Core.Path.{◌≡◌, refl, ap, ◌∙◌, sym, ap₂}
use native.Mathlib.Nat.{pow-suc, div-add-mod', mod-lt, one-le-pow}
use native.Mathlib.Omega.{arith}

module _ (z : ℕ → ℕ) (f : ℕ → ℕ → ℕ) where
  -- With no digit left the count of rounds does not matter.
  no_digit : (i b : ℕ) → digits z f i 0 b ≡ z b
  no_digit zero b = refl
  no_digit (suc i) b = refl

  -- Any two counts that reach the first number agree.
  same_rounds : (i j a b : ℕ) → a ≤ i → a ≤ j → digits z f i a b ≡ digits z f j a b
  same_rounds i j zero b h k = no_digit i b ∙ sym (no_digit j b)
  same_rounds zero j (suc a) b h k = absurd (omega arith)
  same_rounds (suc i) zero (suc a) b h k = absurd (omega arith)
  same_rounds (suc i) (suc j) (suc a) b h k =
      ap (λ t. t * 2 + f (suc a % 2) (b % 2))
        (same_rounds i j (suc a / 2) (b / 2) (omega arith) (omega arith))

  lowest_digit :
      (a b : ℕ) → 0 < a → bitwise z f a b ≡ bitwise z f (a / 2) (b / 2) * 2 + f (a % 2) (b % 2)
  lowest_digit zero b h = absurd (omega arith)
  lowest_digit (suc a) b h =
      ap (λ t. t * 2 + f (suc a % 2) (b % 2))
        (same_rounds a (suc a / 2) (suc a / 2) (b / 2) (omega arith) (omega arith))

or_digit : (a b : ℕ) → bit_or a b ≡ bit_or (a / 2) (b / 2) * 2 + max (a % 2) (b % 2)
or_digit zero b = rw (bit_or-bitwise 0 b, bit_or-bitwise 0 (b / 2)) (omega arith)
or_digit (suc a) b =
    rw (bit_or-bitwise (suc a) b, bit_or-bitwise (suc a / 2) (b / 2))
      (lowest_digit (λ t. t) max (suc a) b (omega arith))

and_digit : (a b : ℕ) → bit_and a b ≡ bit_and (a / 2) (b / 2) * 2 + min (a % 2) (b % 2)
and_digit zero b = rw (bit_and-bitwise 0 b, bit_and-bitwise 0 (b / 2)) (omega arith)
and_digit (suc a) b =
    rw (bit_and-bitwise (suc a) b, bit_and-bitwise (suc a / 2) (b / 2))
      (lowest_digit (λ t. 0) min (suc a) b (omega arith))

or_zero : (i a : ℕ) → a ≤ i → bit_or a 0 ≡ a
or_zero i zero h = refl
or_zero zero (suc a) h = absurd (omega arith)
or_zero (suc i) (suc a) h = omega (arith, or_digit (suc a) 0, or_zero i (suc a / 2) (omega arith))

and_zero : (i a : ℕ) → a ≤ i → bit_and a 0 ≡ 0
and_zero i zero h = refl
and_zero zero (suc a) h = absurd (omega arith)
and_zero (suc i) (suc a) h =
    omega (arith, and_digit (suc a) 0, and_zero i (suc a / 2) (omega arith))

double_shift : (a k : ℕ) → a * 2 ^ suc k ≡ 2 * (a * 2 ^ k)
double_shift a k = omega (arith, ap (λ t. a * t) (pow-suc 2 k))

-- `a << k | b` is a sum when `b` fits in `k` bits.
pub bit_or_shift : (k a b : ℕ) → b < 2 ^ k → bit_or (a * 2 ^ k) b ≡ a * 2 ^ k + b
bit_or_shift zero a b h =
    let e : b ≡ 0 = omega arith in
    let f : a * 2 ^ 0 ≡ a = omega arith in rw (e, f) (omega (arith, or_zero a a (omega arith)))
bit_or_shift (suc k) a b h = omega (
  arith,
  or_digit (a * 2 ^ suc k) b,
  double_shift a k,
  pow-suc 2 k,
  ap (λ t. bit_or t (b / 2)) half,
  bit_or_shift k a (b / 2) (omega (arith, pow-suc 2 k)),
)
  where
    half : a * 2 ^ suc k / 2 ≡ a * 2 ^ k
    half = omega (arith, double_shift a k)

and_low : (k q r : ℕ) → r < 2 ^ k → bit_and (q * 2 ^ k + r) (2 ^ k - 1) ≡ r
and_low zero q r h = omega (arith, and_zero (q * 2 ^ 0 + r) (q * 2 ^ 0 + r) (omega arith))
and_low (suc k) q r h = omega (
  arith,
  and_digit (q * 2 ^ suc k + r) (2 ^ suc k - 1),
  double_shift q k,
  pow-suc 2 k,
  ap₂ bit_and upper mask,
  and_low k q (r / 2) (omega (arith, pow-suc 2 k)),
)
  where
    upper : (q * 2 ^ suc k + r) / 2 ≡ q * 2 ^ k + r / 2
    upper = omega (arith, double_shift q k)

    mask : (2 ^ suc k - 1) / 2 ≡ 2 ^ k - 1
    mask = omega (arith, pow-suc 2 k)

-- `a & (1 << k - 1)` is the remainder by `1 << k`.
pub bit_and_mask : (k a : ℕ) → bit_and a (2 ^ k - 1) ≡ a % 2 ^ k
bit_and_mask k a =
    ap (λ t. bit_and t (2 ^ k - 1)) (sym (div-add-mod' a (2 ^ k)))
    ∙ and_low k (a / 2 ^ k) (a % 2 ^ k) (mod-lt a (one-le-pow k 2 (omega arith)))
