-- ===== src/Base/Powers.antt =====
-- The bit queries of Rust's unsigned integers that the kernel calls.
use titanium.Base.{ℕ, zero, suc, ◌+◌, ◌-◌, ◌*◌, ◌/◌, ◌%◌, ◌^◌, ◌≤◌, ◌<◌, ◌≡◌, arith}
use titanium.Base.{
  true, false, Option, none, some, leb, ◌==◌, if◌then◌else◌, pow-suc, Bool-cases, inl, inr,
}
use titanium.Base.{leb→le, le_refl, subst, sym, ap, ==_iff}
use native.Mathlib.Nat.{add-zero, div-eq_of_lt-le}
use titanium.Base.Bits.{◌<<<◌, ◌>>>◌}

pub pow_add : (l k : ℕ) → 2 ^ l * 2 ^ k ≡ 2 ^ (l + k)
pow_add l zero = ground arith
pow_add l (suc k) =
    let up : 2 ^ (l + suc k) ≡ 2 ^ suc (l + k) = ap (λ e. 2 ^ e) (omega arith) in
    let twice : 2 ^ l * 2 ^ suc k ≡ 2 ^ l * 2 ^ k * 2 =
      omega (arith, ap (λ (t : ℕ). 2 ^ l * t) (pow-suc 2 k)) in
    omega (arith, twice, pow_add l k, pow-suc 2 (l + k))

-- The exponent of `n.next_power_of_two()`, which `lowest_one` reads off: the least `k` with
-- `n <= 2 ^ k`. Rounds are left for 64 bits.
unfoldable pub ceil_log2_from : ℕ → ℕ → ℕ → ℕ
ceil_log2_from zero k n = k
ceil_log2_from (suc left) k n = elim (leb n (2 ^ k)) [
  | true ↦ k
  | false ↦ ceil_log2_from left (suc k) n
]

unfoldable pub ceil_log2 : ℕ → ℕ
unfolding ceil_log2_from
ceil_log2 n = ceil_log2_from 63 0 n

-- `highest_one`: the place of the highest set bit, `none` for 0.
unfoldable pub highest_from : ℕ → ℕ → Option ℕ
highest_from zero n = none
highest_from (suc k) n = elim (leb (2 ^ k) n) [ true ↦ some k | false ↦ highest_from k n ]

unfoldable pub highest_one : ℕ → Option ℕ
unfolding highest_from
highest_one n = highest_from 64 n

-- `x & !(1 << k)`
unfoldable pub clear_bit : ℕ → ℕ → ℕ
clear_bit x k = if (x >>> k) % 2 == 1 then x - 1 <<< k else x

ceil_log2_from_lem :
    (left k n : ℕ)
    → n ≤ 2 ^ (k + left)
    → (n ≤ 2 ^ ceil_log2_from left k n)
      × (k ≤ ceil_log2_from left k n)
      × ((j : ℕ) → k ≤ j → n ≤ 2 ^ j → ceil_log2_from left k n ≤ j)
unfolding ceil_log2_from
ceil_log2_from_lem zero k n h = (subst (λ t. n ≤ 2 ^ t) (add-zero k) h, le_refl k, λ j p q. p)
ceil_log2_from_lem (suc left) k n h = elim (Bool-cases (leb n (2 ^ k))) [
  | inl e ↦ rw (e, ceil_log2_from) (leb→le _ _ e, le_refl k, λ j p q. p)
  | inr e ↦
      let r = ceil_log2_from_lem left (suc k) n (subst (λ t. n ≤ 2 ^ t) (omega arith) h) in
      let step : ceil_log2_from (suc left) k n ≡ ceil_log2_from left (suc k) n = ground (arith) in
      subst (λ t. (n ≤ 2 ^ t) × (k ≤ t) × ((j : ℕ) → k ≤ j → n ≤ 2 ^ j → t ≤ j)) (sym step)
        (
          r.0,
          omega arith,
          λ j p q. elim (Bool-cases (k == j)) [
            | inl same ↦ absurd (ground (arith, ap (λ t. 2 ^ t) ((==_iff k j).0 same)))
            | inr other ↦ r.2 j (ground arith) q
          ],
        )
]

-- The exponent is enough, and the least that is.
pub ceil_log2_lem :
    (n : ℕ) → n ≤ 2 ^ 63 → (n ≤ 2 ^ ceil_log2 n) × ((j : ℕ) → n ≤ 2 ^ j → ceil_log2 n ≤ j)
unfolding ceil_log2
ceil_log2_lem n h = let r = ceil_log2_from_lem 63 0 n h in (r.0, λ j q. r.2 j (omega arith) q)

abbrev pub IsHighest : ℕ → Option ℕ → Type 0
IsHighest n none = n ≡ 0
IsHighest n (some k) = (2 ^ k ≤ n) × (n < 2 ^ suc k)

highest_from_lem : (k n : ℕ) → n < 2 ^ k → IsHighest n (highest_from k n)
unfolding highest_from
highest_from_lem zero n h = omega arith
highest_from_lem (suc k) n h = elim (Bool-cases (leb (2 ^ k) n)) [
  | inl e ↦ rw (e, highest_from) (leb→le _ _ e, h)
  | inr e ↦
      let step : highest_from (suc k) n ≡ highest_from k n = ground (arith) in
      subst (IsHighest n) (sym step) (highest_from_lem k n (ground arith))
]

pub highest_one_lem : (n : ℕ) → n < 2 ^ 64 → IsHighest n (highest_one n)
unfolding highest_one
highest_one_lem n h = highest_from_lem 64 n h

-- Clearing the highest bit takes it off.
pub clear_bit-highest : (n k : ℕ) → 2 ^ k ≤ n → n < 2 ^ suc k → clear_bit n k ≡ n - 2 ^ k
unfolding clear_bit
clear_bit-highest n k lo hi =
    let one : n / 2 ^ k ≡ 1 =
      div-eq_of_lt-le {k = 1} (2 ^ k) {m = n} (omega arith) (omega (arith, pow-suc 2 k)) in
    rw one (omega arith)
