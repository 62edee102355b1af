-- ===== src/Util/Masks.antt =====
-- Masks on machine words: a range of bits as `((1 << width) - 1) << lsb`, its complement, and a word
-- put together from two others along a mask.
use titanium.Base.{ℕ, zero, suc, ◌+◌, ◌-◌, ◌*◌, ◌/◌, ◌%◌, ◌^◌, ◌<◌, ◌≡◌, refl, sym, ap, ◌∙◌}
use titanium.Base.{bit_and, bit_or, arith, min, pow-suc}
use native.Mathlib.Nat.{div-div-eq-div-mul, pow-succ'}
use titanium.Base.Powers.{pow_add}
use titanium.Base.Bits.{bit_and_halves, bit_or_halves, bit_and-zero}

pub double_pow : (q k : ℕ) → q * 2 ^ suc k ≡ q * 2 ^ k * 2
double_pow q k = omega (arith, ap (λ (t : ℕ). q * t) (pow-suc 2 k))

-- The half and the last digit of a conjunction.
bit_and-half : (a b : ℕ) → bit_and a b / 2 ≡ bit_and (a / 2) (b / 2)
bit_and-half a b = omega (arith, bit_and_halves a b)

bit_and-last : (a b : ℕ) → bit_and a b % 2 ≡ min (a % 2) (b % 2)
bit_and-last a b = omega (arith, bit_and_halves a b)

-- A mask that is shifted up picks from the number shifted down.
pub bit_and-shifted : (k a m : ℕ) → bit_and a (m * 2 ^ k) ≡ bit_and (a / 2 ^ k) m * 2 ^ k
bit_and-shifted zero a m = ground arith
bit_and-shifted (suc k) a m =
    let same : m * 2 ^ suc k / 2 ≡ m * 2 ^ k = omega (arith, double_pow m k) in
    let even : m * 2 ^ suc k % 2 ≡ 0 = omega (arith, double_pow m k) in
    let down : a / 2 / 2 ^ k ≡ a / 2 ^ suc k =
      div-div-eq-div-mul a 2 (2 ^ k) ∙ ap (λ d. a / d) (sym (pow-succ' 2 k)) in
    let step : bit_and (a / 2) (m * 2 ^ suc k / 2) ≡ bit_and (a / 2 ^ suc k) m * 2 ^ k =
      ap (bit_and (a / 2)) same
      ∙ bit_and-shifted k (a / 2) m
      ∙ ap (λ b. bit_and b m * 2 ^ k) down in
    omega (arith, bit_and_halves a (m * 2 ^ suc k), double_pow (bit_and (a / 2 ^ suc k) m) k)

-- The digits of a word under `mask` come from `y`, the others from `x`.
pub merge_lem :
    (w x y mask : ℕ)
    → x < 2 ^ w
    → mask < 2 ^ w
    → bit_or (bit_and x (2 ^ w - 1 - mask)) (bit_and y mask) + bit_and x mask ≡ x + bit_and y mask
merge_lem zero zero y zero hx hm = ground (arith, bit_and-zero y)
merge_lem zero (suc x) y mask hx hm = absurd (omega arith)
merge_lem zero zero y (suc mask) hx hm = absurd (omega arith)
merge_lem (suc w) x y mask hx hm =
    let half : 2 ^ suc w ≡ 2 ^ w * 2 = pow-suc 2 w in
    let rest : (2 ^ suc w - 1 - mask) / 2 ≡ 2 ^ w - 1 - mask / 2 = omega arith in
    let last : (2 ^ suc w - 1 - mask) % 2 ≡ 1 - mask % 2 = omega arith in
    let ih = merge_lem w (x / 2) (y / 2) (mask / 2) (omega arith) (omega arith) in
    let other = 2 ^ suc w - 1 - mask in
    let halves : bit_or (bit_and x other / 2) (bit_and y mask / 2)
        ≡ bit_or (bit_and (x / 2) (2 ^ w - 1 - mask / 2)) (bit_and (y / 2) (mask / 2)) =
      rw (bit_and-half x other, bit_and-half y mask, rest) refl in
    omega (
      arith,
      bit_or_halves (bit_and x other) (bit_and y mask),
      bit_and_halves x mask,
      bit_and_halves y mask,
      bit_and-last x other,
      bit_and-last y mask,
    )

pub shifted_lt : (k n a : ℕ) → a < 2 ^ n → a * 2 ^ k < 2 ^ (n + k)
shifted_lt zero n a h = ground arith
shifted_lt (suc k) n a h =
    let up : 2 ^ (n + suc k) ≡ 2 ^ suc (n + k) = ap (λ e. 2 ^ e) (omega arith) in
    omega (arith, shifted_lt k n a h, double_pow a k, pow-suc 2 (n + k))

-- A shift by `l` and then by `k`, where `l + k` is `n`.
pub shifted_twice : (x l k n : ℕ) → l + k ≡ n → x / 2 ^ l / 2 ^ k ≡ x / 2 ^ n
shifted_twice x l k n e =
    div-div-eq-div-mul x (2 ^ l) (2 ^ k) ∙ ap (λ d. x / d) (pow_add l k ∙ ap (λ i. 2 ^ i) e)
