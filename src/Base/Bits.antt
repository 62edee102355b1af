-- ===== src/Base/Bits.antt =====
-- Shifts and masks on machine words: `&` with a mask of low bits, `& !1`, `|` of disjoint fields.
use Prim.Native.Nat.{ℕ, zero, suc, ◌+◌, ◌-◌, ◌*◌, ◌/◌, ◌%◌, ◌^◌, ◌≤◌, ◌<◌, min, max}
use Prim.Native.Nat.{bit_and, bit_or, digits, bit_and-bitwise, bit_or-bitwise}
use mathlib.Core.Path.{◌≡◌, refl, ap, sym, ◌∙◌, subst}
use mathlib.Core.Logic.{◌⊎◌, inl, inr}
use native.Mathlib.Nat.{pow-suc, one-le-pow}
use native.Mathlib.Omega.{arith}

infixl 75 ◌<<<◌ ◌>>>◌
abbrev pub ◌<<<◌ : ℕ → ℕ → ℕ
x <<< k = x * 2 ^ k

abbrev pub ◌>>>◌ : ℕ → ℕ → ℕ
x >>> k = x / 2 ^ k

le-cases : (a n : ℕ) → a ≤ suc n → (a ≤ n) ⊎ (a ≡ suc n)
le-cases zero n h = inl (omega arith)
le-cases (suc a) zero h = inr (omega arith)
le-cases (suc a) (suc n) h = elim (le-cases a n (omega arith)) [
  | inl e ↦ inl (omega arith)
  | inr e ↦ inr (omega arith)
]

-- An operation on binary digits, by the recursion that the native operations stand for: `f` acts on
-- a pair of digits, and `z` on what is left of the second number when the first has run out.
module _ (op : ℕ → ℕ → ℕ) (z : ℕ → ℕ) (f : ℕ → ℕ → ℕ)
    (by_digits : (a b : ℕ) → op a b ≡ digits z f a a b)
    (z-step : (b : ℕ) → z b ≡ z (b / 2) * 2 + f 0 (b % 2)) where
  -- A count that covers the first number may grow by one.
  spare_digit : (n a b : ℕ) → a ≤ n → digits z f (suc n) a b ≡ digits z f n a b
  spare_digit zero zero b h = refl
  spare_digit (suc n) zero b h = refl
  spare_digit zero (suc a) b h = absurd (omega arith)
  spare_digit (suc n) (suc a) b h =
      ap (λ high. high * 2 + f (suc a % 2) (b % 2))
        (spare_digit n (suc a / 2) (b / 2) (omega arith))

  trimmed : (n a b : ℕ) → a ≤ n → digits z f n a b ≡ op a b
  trimmed zero zero b h = sym (by_digits zero b)
  trimmed zero (suc a) b h = absurd (omega arith)
  trimmed (suc n) a b h = elim (le-cases a n h) [
    | inl below ↦ spare_digit n a b below ∙ trimmed n a b below
    | inr last ↦ subst (λ c. digits z f c a b ≡ op a b) last (sym (by_digits a b))
  ]

  digit_step : (x y : ℕ) → op x y ≡ op (x / 2) (y / 2) * 2 + f (x % 2) (y % 2)
  digit_step zero b =
      by_digits zero b
      ∙ z-step b
      ∙ ap (λ high. high * 2 + f 0 (b % 2)) (sym (by_digits zero (b / 2)))
  digit_step (suc a) b =
      by_digits (suc a) b
      ∙ ap (λ high. high * 2 + f (suc a % 2) (b % 2)) (trimmed a (suc a / 2) (b / 2) (omega arith))

pub bit_and_halves : (x y : ℕ) → bit_and x y ≡ bit_and (x / 2) (y / 2) * 2 + min (x % 2) (y % 2)
bit_and_halves = digit_step bit_and (λ _. 0) min bit_and-bitwise (λ b. omega arith)

pub bit_or_halves : (x y : ℕ) → bit_or x y ≡ bit_or (x / 2) (y / 2) * 2 + max (x % 2) (y % 2)
bit_or_halves = digit_step bit_or (λ y. y) max bit_or-bitwise (λ b. omega arith)

-- Strong induction along halving, for statements on all first numbers up to a bound.
halving : (P : ℕ → Type 0) → P 0 → ((a : ℕ) → P (suc a / 2) → P (suc a)) → (n a : ℕ) → a ≤ n → P a
halving P start next n zero h = start
halving P start next zero (suc a) h = absurd (omega arith)
halving P start next (suc n) (suc a) h = next a (halving P start next n (suc a / 2) (omega arith))

pub bit_and-zero : (a : ℕ) → bit_and a 0 ≡ 0
bit_and-zero a =
    halving (λ n. bit_and n 0 ≡ 0) refl (λ n ih. omega (arith, bit_and_halves (suc n) 0)) a a
      (omega arith)

pub bit_or-zero : (a : ℕ) → bit_or a 0 ≡ a
bit_or-zero a =
    halving (λ n. bit_or n 0 ≡ n) refl (λ n ih. omega (arith, bit_or_halves (suc n) 0)) a a
      (omega arith)

double_pow : (q k : ℕ) → q * 2 ^ suc k ≡ 2 * (q * 2 ^ k)
double_pow q k = omega (arith, ap (λ (t : ℕ). q * t) (pow-suc 2 k))

-- `(q << k) | r` is a sum where `r` fits `k` bits.
pub bit_or_fields : (k q r : ℕ) → r < 2 ^ k → bit_or (q * 2 ^ k) r ≡ q * 2 ^ k + r
bit_or_fields zero q r h = ground (arith, bit_or-zero q)
bit_or_fields (suc k) q r h = ground (
  arith,
  pow-suc 2 k,
  double_pow q k,
  bit_or_halves (q * 2 ^ suc k) r,
  bit_or_fields k q (r / 2) (omega (arith, pow-suc 2 k)),
)

-- A mask of `k` ones keeps the remainder by `2 ^ k`.
pub bit_and_low : (k q r : ℕ) → r < 2 ^ k → bit_and (q * 2 ^ k + r) (2 ^ k - 1) ≡ r
bit_and_low zero q r h = ground (arith, bit_and-zero q)
bit_and_low (suc k) q r h = ground (
  arith,
  pow-suc 2 k,
  double_pow q k,
  bit_and_halves (q * 2 ^ suc k + r) (2 ^ suc k - 1),
  bit_and_low k q (r / 2) (omega (arith, pow-suc 2 k)),
)

pub bit_and_mask : (k a : ℕ) → bit_and a (2 ^ k - 1) ≡ a % 2 ^ k
bit_and_mask k a = ground (arith, one-le-pow k 2, bit_and_low k (a / 2 ^ k) (a % 2 ^ k))

-- `i & !1` on a 64-bit word.
pub clear_low_bit : (i : ℕ) → i < 2 ^ 64 → bit_and i (2 ^ 64 - 2) ≡ i / 2 * 2
clear_low_bit i h = omega (arith, bit_and_halves i (2 ^ 64 - 2), bit_and_mask 63 (i / 2))

-- `|` above the low `k` bits, where the second number has none.
pub bit_or-shifted :
    (k q r p : ℕ) → r < 2 ^ k → bit_or (q * 2 ^ k + r) (p * 2 ^ k) ≡ bit_or q p * 2 ^ k + r
bit_or-shifted zero q zero p h = ground arith
bit_or-shifted zero q (suc r) p h = absurd (omega arith)
bit_or-shifted (suc k) q r p h = ground (
  arith,
  pow-suc 2 k,
  double_pow q k,
  double_pow p k,
  double_pow (bit_or q p) k,
  bit_or_halves (q * 2 ^ suc k + r) (p * 2 ^ suc k),
  bit_or-shifted k q (r / 2) p (omega (arith, pow-suc 2 k)),
)
