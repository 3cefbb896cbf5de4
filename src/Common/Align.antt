-- ===== src/Common/Align.antt =====
-- crates/common/src/lib.rs: rounding to a power of two, by masks, against division.
use emulator_ios_for_android.Base.{
  ℕ, ◌+◌, ◌-◌, ◌*◌, ◌/◌, ◌%◌, ◌^◌, ◌≤◌, ◌<◌, ◌≡◌, refl, arith, bit_and,
}
use emulator_ios_for_android.Base.Bits.{bit_and_high, power_pos}
use native.Mathlib.Nat.{mod-lt, div-add-mod', mul-mod_left}
use emulator_ios_for_android.Common.Addr.{
  u64_mod, IsU64, wrapping_add, wrapping_sub, not_u64, wrapping_add-lt, wrapping_add_small,
}

-- iOS on arm64 uses 16 KiB pages.
abbrev pub page_size : ℕ
page_size = 0x4000

unfoldable pub align_up : ℕ → ℕ → ℕ
align_up value align =
    bit_and (wrapping_add value (wrapping_sub align 1)) (not_u64 (wrapping_sub align 1))

unfoldable pub align_down : ℕ → ℕ → ℕ
align_down value align = bit_and value (not_u64 (wrapping_sub align 1))

le_times : (p q m : ℕ) → 0 < p → p * q ≡ m → q ≤ m
le_times p q m h e = grind arith

align_mask :
    (k d : ℕ) → 2 ^ d * 2 ^ k ≡ u64_mod → not_u64 (wrapping_sub (2 ^ k) 1) ≡ u64_mod - 2 ^ k
unfolding not_u64 wrapping_sub
align_mask k d e = omega (arith, le_times (2 ^ d) (2 ^ k) u64_mod (power_pos d) e, power_pos k)

minus_one : (k : ℕ) → 2 ^ k ≤ u64_mod → wrapping_sub (2 ^ k) 1 ≡ 2 ^ k - 1
unfolding wrapping_sub
minus_one k h = omega (arith, power_pos k)

-- The mask of an alignment `2 ^ k` clears the low `k` bits of a word.
pub align_down_pow :
    (k d v : ℕ) → 2 ^ d * 2 ^ k ≡ u64_mod → IsU64 v → align_down v (2 ^ k) ≡ v / 2 ^ k * 2 ^ k
unfolding align_down
align_down_pow k d v e h = rw (align_mask k d e, ← e) (bit_and_high k d v (rw e h))

-- Rounding up adds the mask first, and wraps where the sum leaves the word.
pub align_up_pow :
    (k d v : ℕ)
    → 2 ^ d * 2 ^ k ≡ u64_mod
    → align_up v (2 ^ k) ≡ wrapping_add v (2 ^ k - 1) / 2 ^ k * 2 ^ k
unfolding align_up
align_up_pow k d v e =
    let fits : 2 ^ k ≤ u64_mod = le_times (2 ^ d) (2 ^ k) u64_mod (power_pos d) e in
    rw (align_mask k d e, minus_one k fits)
      (rw (← e) (bit_and_high k d _ (rw e (wrapping_add-lt v (2 ^ k - 1)))))

pub align_up_page : (v : ℕ) → align_up v page_size ≡ wrapping_add v 0x3fff / 0x4000 * 0x4000
align_up_page v = align_up_pow 14 50 v refl

round_down_bounds : (x m : ℕ) → 0 < m → (x / m * m % m ≡ 0) × (x < x / m * m + m) × (x / m * m ≤ x)
round_down_bounds x m h = (
  mul-mod_left (x / m) m,
  omega (arith, div-add-mod' x m, mod-lt x h),
  omega (arith, div-add-mod' x m),
)

-- Where nothing wraps, the result is the least multiple of `2 ^ k` that is not below `v`.
pub align_up_least :
    (k d v : ℕ)
    → 2 ^ d * 2 ^ k ≡ u64_mod
    → v + (2 ^ k - 1) < u64_mod
    → (align_up v (2 ^ k) % 2 ^ k ≡ 0) × (v ≤ align_up v (2 ^ k)) × (align_up v (2 ^ k) < v + 2 ^ k)
align_up_least k d v e h =
    let (multiple, above, below) = round_down_bounds (v + (2 ^ k - 1)) (2 ^ k) (power_pos k) in
    rw (align_up_pow k d v e, wrapping_add_small v (2 ^ k - 1) h)
      (multiple, omega (arith, power_pos k), omega (arith, power_pos k))
