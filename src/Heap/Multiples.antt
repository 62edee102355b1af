-- ===== src/Heap/Multiples.antt =====
-- Multiples of powers of two, for the alignment of blocks.
use titanium.Base.{ℕ, suc, ◌-◌, ◌*◌, ◌^◌, ◌≤◌, ◌≡◌, sym, ap, ◌∙◌, inl, inr}
use titanium.Base.{List, [], ◌∷◌, arith, Bool-cases, leb}
use titanium.Base.{leb→le, leb→gt}
use native.Mathlib.Nat.{two-pow-succ, one-le-pow, pow-le-pow_right, mul_assoc}
use titanium.Base.Powers.{pow_add}

abbrev pub Multiple : ℕ → ℕ → Type 0
Multiple p n = (q : ℕ) × (p ≡ q * n)

pub Multiple-zero : (n : ℕ) → Multiple 0 n
Multiple-zero n = (0, omega arith)

pub pow-le_inverse : (k i : ℕ) → 2 ^ k ≤ 2 ^ i → k ≤ i
pow-le_inverse k i h = elim (Bool-cases (leb k i)) [
  | inl e ↦ leb→le k i e
  | inr e ↦ absurd (
      omega (
        arith,
        two-pow-succ i,
        pow-le-pow_right {n = 2} (omega arith) {i = suc i} {j = k} (leb→gt k i e),
        one-le-pow i 2 (omega arith),
      ))
]

pub Multiple-power : (p i k : ℕ) → k ≤ i → Multiple p (2 ^ i) → Multiple p (2 ^ k)
Multiple-power p i k h (q, e) = (
  q * 2 ^ (i - k),
  e
      ∙ ap (λ n. q * n) (ap (λ j. 2 ^ j) (omega arith) ∙ sym (pow_add (i - k) k))
      ∙ sym (mul_assoc q (2 ^ (i - k)) (2 ^ k)),
)

abbrev pub Multiples : List ℕ → ℕ → Type 0
Multiples [] n = Unit
Multiples (x ∷ xs) n = Multiple x n × Multiples xs n
