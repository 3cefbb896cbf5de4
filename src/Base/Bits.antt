-- ===== src/Base/Bits.antt =====
-- Masks and disjoint fields of machine words, as arithmetic at every width.
use Prim.Native.Nat.{
  ℕ, zero, suc, ◌+◌, ◌-◌, ◌*◌, ◌/◌, ◌%◌, ◌^◌, ◌≤◌, ◌<◌, min, max, bit_and, bit_or, digits, bitwise,
  bit_and-bitwise, bit_or-bitwise,
}
use mathlib.Core.Path.{◌≡◌, refl, sym, ap, ◌∙◌}
use native.Mathlib.Omega.{arith}
use native.Mathlib.Nat.{pow-suc, one-le-pow, div-add-mod, div-div-eq-div-mul, mod-eq_of_lt}

-- The fuel of the digit recursion does not matter once it covers the first number.
module _ (last : ℕ → ℕ) (digit : ℕ → ℕ → ℕ) where
  digits_enough : (p q a b : ℕ) → a ≤ p → a ≤ q → digits last digit p a b ≡ digits last digit q a b
  digits_enough zero zero a b hp hq = refl
  digits_enough zero (suc q) zero b hp hq = refl
  digits_enough zero (suc q) (suc a) b hp hq = absurd (omega arith)
  digits_enough (suc p) zero zero b hp hq = refl
  digits_enough (suc p) zero (suc a) b hp hq = absurd (omega arith)
  digits_enough (suc p) (suc q) zero b hp hq = refl
  digits_enough (suc p) (suc q) (suc a) b hp hq =
      omega (arith, digits_enough p q (suc a / 2) (b / 2) (omega arith) (omega arith))

  bitwise_halves :
      (a b : ℕ)
      → bitwise last digit (suc a) b
        ≡ bitwise last digit (suc a / 2) (b / 2) * 2 + digit (suc a % 2) (b % 2)
  bitwise_halves a b =
      omega (arith, digits_enough a (suc a / 2) (suc a / 2) (b / 2) (omega arith) (omega arith))

pub bit_and_halves : (a b : ℕ) → bit_and a b ≡ bit_and (a / 2) (b / 2) * 2 + min (a % 2) (b % 2)
bit_and_halves zero b = simp bit_and-bitwise (omega arith)
bit_and_halves (suc a) b = simp bit_and-bitwise (bitwise_halves (λ y. 0) min a b)

pub bit_or_halves : (a b : ℕ) → bit_or a b ≡ bit_or (a / 2) (b / 2) * 2 + max (a % 2) (b % 2)
bit_or_halves zero b = simp bit_or-bitwise (omega arith)
bit_or_halves (suc a) b = simp bit_or-bitwise (bitwise_halves (λ y. y) max a b)

bit_and-zero_below : (n a : ℕ) → a ≤ n → bit_and a 0 ≡ 0
bit_and-zero_below n zero h = refl
bit_and-zero_below zero (suc a) h = absurd (omega arith)
bit_and-zero_below (suc n) (suc a) h =
    omega (arith, bit_and_halves (suc a) 0, bit_and-zero_below n (suc a / 2) (omega arith))

pub bit_and-zero : (a : ℕ) → bit_and a 0 ≡ 0
bit_and-zero a = bit_and-zero_below a a (omega arith)

bit_or-zero_below : (n a : ℕ) → a ≤ n → bit_or a 0 ≡ a
bit_or-zero_below n zero h = refl
bit_or-zero_below zero (suc a) h = absurd (omega arith)
bit_or-zero_below (suc n) (suc a) h =
    omega (arith, bit_or_halves (suc a) 0, bit_or-zero_below n (suc a / 2) (omega arith))

zero-bit_or : (b : ℕ) → bit_or 0 b ≡ b
zero-bit_or b = bit_or-bitwise 0 b

pub bit_or-zero : (a : ℕ) → bit_or a 0 ≡ a
bit_or-zero a = bit_or-zero_below a a (omega arith)

times_power : (q k : ℕ) → q * 2 ^ suc k ≡ 2 * (q * 2 ^ k)
times_power q k = omega (arith, ap (λ (t : ℕ). q * t) (pow-suc 2 k))

div_double : (a m : ℕ) → 0 < m → a / (2 * m) ≡ a / 2 / m
div_double a m h = sym (div-div-eq-div-mul a 2 m)

mod_double : (a m : ℕ) → 0 < m → a % (2 * m) ≡ a / 2 % m * 2 + a % 2
mod_double a m h =
    omega (
      arith,
      div-add-mod a (2 * m),
      div-add-mod (a / 2) m,
      ap (λ (t : ℕ). m * t) (div_double a m h),
    )

bit_and_even : (a m : ℕ) → bit_and a (2 * m) ≡ bit_and (a / 2) m * 2
bit_and_even a m =
    let half : 2 * m / 2 ≡ m = omega arith in
    let bit : 2 * m % 2 ≡ 0 = omega arith in bit_and_halves a (2 * m) ∙ rw (half, bit) (omega arith)

bit_and_odd : (a m : ℕ) → bit_and a (2 * m + 1) ≡ bit_and (a / 2) m * 2 + a % 2
bit_and_odd a m =
    let half : (2 * m + 1) / 2 ≡ m = omega arith in
    let bit : (2 * m + 1) % 2 ≡ 1 = omega arith in
    bit_and_halves a (2 * m + 1) ∙ rw (half, bit) (omega arith)

pub two_power : (k : ℕ) → 2 ^ suc k ≡ 2 * 2 ^ k
two_power k = omega (arith, pow-suc 2 k)

pub power_pos : (k : ℕ) → 0 < 2 ^ k
power_pos k = one-le-pow k 2 (omega arith)

-- `a & (2^k - 1)` is the remainder.
pub bit_and_low : (k a : ℕ) → bit_and a (2 ^ k - 1) ≡ a % 2 ^ k
bit_and_low zero a = bit_and-zero a ∙ omega arith
bit_and_low (suc k) a =
    let mask : 2 ^ suc k - 1 ≡ 2 * (2 ^ k - 1) + 1 = omega (arith, two_power k, power_pos k) in
    rw (mask, two_power k, bit_and_odd a (2 ^ k - 1), bit_and_low k (a / 2))
      (sym (mod_double a (2 ^ k) (power_pos k)))

-- `r | (q << k)` is a sum when `r` fits in `k` bits.
pub bit_or_fields : (k r q : ℕ) → r < 2 ^ k → bit_or r (q * 2 ^ k) ≡ r + q * 2 ^ k
bit_or_fields zero r q h =
    let none_left : r ≡ 0 = omega arith in rw none_left (omega (arith, zero-bit_or (q * 1)))
bit_or_fields (suc k) r q h =
    let half : q * 2 ^ suc k / 2 ≡ q * 2 ^ k = omega (arith, times_power q k) in
    let bit : q * 2 ^ suc k % 2 ≡ 0 = omega (arith, times_power q k) in
    bit_or_halves r (q * 2 ^ suc k)
    ∙ rw (half, bit, bit_or_fields k (r / 2) q (omega (arith, two_power k)))
        (omega (arith, times_power q k))

-- `a & !(2^k - 1)` in a word of `d + k` bits clears the low `k` bits.
pub bit_and_high :
    (k d a : ℕ) → a < 2 ^ d * 2 ^ k → bit_and a (2 ^ d * 2 ^ k - 2 ^ k) ≡ a / 2 ^ k * 2 ^ k
bit_and_high zero d a h =
    let word : 2 ^ d * 2 ^ 0 - 2 ^ 0 ≡ 2 ^ d - 1 = omega arith in
    rw (word, bit_and_low d a, mod-eq_of_lt {n = a} {m = 2 ^ d} (omega arith)) (omega arith)
bit_and_high (suc k) d a h =
    let t : 2 ^ d * 2 ^ suc k ≡ 2 * (2 ^ d * 2 ^ k) = times_power (2 ^ d) k in
    let mask : 2 ^ d * 2 ^ suc k - 2 ^ suc k ≡ 2 * (2 ^ d * 2 ^ k - 2 ^ k) =
      omega (arith, t, two_power k) in
    let ih : bit_and (a / 2) (2 ^ d * 2 ^ k - 2 ^ k) ≡ a / 2 / 2 ^ k * 2 ^ k =
      bit_and_high k d (a / 2) (omega (arith, t)) in
    rw
      (
        mask,
        bit_and_even a (2 ^ d * 2 ^ k - 2 ^ k),
        ih,
        two_power k,
        div_double a (2 ^ k) (power_pos k),
      )
      (omega arith)

-- Two numbers of `k` bits have an `or` of `k` bits.
pub bit_or-lt : (k a b : ℕ) → a < 2 ^ k → b < 2 ^ k → bit_or a b < 2 ^ k
bit_or-lt zero a b ha hb =
    let first : a ≡ 0 = omega arith in rw first (omega (arith, zero-bit_or b))
bit_or-lt (suc k) a b ha hb = omega (
  arith,
  bit_or_halves a b,
  two_power k,
  bit_or-lt k (a / 2) (b / 2) (omega (arith, two_power k)) (omega (arith, two_power k)),
)

-- The bit that a mask lacks is not in a conjunction with it.
pub bit_and-cleared : (k a m : ℕ) → m / 2 ^ k % 2 ≡ 0 → bit_and (bit_and a m) (2 ^ k) ≡ 0
bit_and-cleared zero a m h = bit_and_low 1 (bit_and a m) ∙ omega (arith, bit_and_halves a m)
bit_and-cleared (suc k) a m h =
    let half : bit_and a m / 2 ≡ bit_and (a / 2) (m / 2) = omega (arith, bit_and_halves a m) in
    let even : 2 ^ suc k % 2 ≡ 0 = omega (arith, two_power k) in
    let lower : 2 ^ suc k / 2 ≡ 2 ^ k = omega (arith, two_power k) in
    let step = bit_and_halves (bit_and a m) (2 ^ suc k) in
    let deeper =
      bit_and-cleared k (a / 2) (m / 2) (rw (div-div-eq-div-mul m 2 (2 ^ k), ← two_power k) h) in
    omega (arith, (rw (half, lower, even, deeper) at step))

-- The bit that a disjunction sets is in it.
pub bit_and-set : (k a : ℕ) → bit_and (bit_or a (2 ^ k)) (2 ^ k) ≡ 2 ^ k
bit_and-set zero a = bit_and_low 1 (bit_or a 1) ∙ omega (arith, bit_or_halves a 1)
bit_and-set (suc k) a =
    let even : 2 ^ suc k % 2 ≡ 0 = omega (arith, two_power k) in
    let lower : 2 ^ suc k / 2 ≡ 2 ^ k = omega (arith, two_power k) in
    let half : bit_or a (2 ^ suc k) / 2 ≡ bit_or (a / 2) (2 ^ k) =
      omega (arith, rw (lower, even) at (bit_or_halves a (2 ^ suc k))) in
    let step = bit_and_halves (bit_or a (2 ^ suc k)) (2 ^ suc k) in
    omega (arith, two_power k, (rw (half, lower, even, bit_and-set k (a / 2)) at step))
