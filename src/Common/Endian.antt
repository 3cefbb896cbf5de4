-- ===== src/Common/Endian.antt =====
-- `to_le_bytes`, `from_le_bytes`, `from_be_bytes` of Rust's integers, for any number of bytes.
use emulator_ios_for_android.Base.{
  ℕ, zero, suc, ◌+◌, ◌*◌, ◌/◌, ◌%◌, ◌^◌, ◌<◌, ◌≡◌, refl, arith, List, [], ◌∷◌, length, All, ap,
}
use emulator_ios_for_android.Common.Addr.{IsByte}
use native.Mathlib.Nat.{pow-suc}

unfoldable pub to_le : ℕ → ℕ → List ℕ
to_le zero v = []
to_le (suc n) v = (v % 256) ∷ to_le n (v / 256)

unfoldable pub from_le : List ℕ → ℕ
from_le [] = 0
from_le (b ∷ bs) = b + 256 * from_le bs

from_be_onto : ℕ → List ℕ → ℕ
from_be_onto acc [] = acc
from_be_onto acc (b ∷ bs) = from_be_onto (acc * 256 + b) bs

unfoldable pub from_be : List ℕ → ℕ
unfolding from_be_onto
from_be bs = from_be_onto 0 bs

pub from_le-to_le : (n v : ℕ) → v < 256 ^ n → from_le (to_le n v) ≡ v
unfolding from_le to_le
from_le-to_le zero v h = omega arith
from_le-to_le (suc n) v h = omega (arith, from_le-to_le n (v / 256) (omega (arith, pow-suc 256 n)))

pub length-to_le : (n v : ℕ) → length (to_le n v) ≡ n
unfolding to_le
length-to_le zero v = refl
length-to_le (suc n) v = ap suc (length-to_le n (v / 256))

pub from_le-lt : (bs : List ℕ) → All IsByte bs → from_le bs < 256 ^ length bs
unfolding from_le
from_le-lt [] h = omega arith
from_le-lt (b ∷ bs) h = omega (arith, from_le-lt bs h.1, pow-suc 256 (length bs))

from_be_onto-lt :
    (acc n : ℕ) (bs : List ℕ)
    → All IsByte bs
    → acc < 256 ^ n
    → from_be_onto acc bs < 256 ^ (n + length bs)
unfolding from_be_onto
from_be_onto-lt acc n [] h small = let e : n + length {A = ℕ} [] ≡ n = omega arith in rw e small
from_be_onto-lt acc n (b ∷ bs) h small =
    let e : n + length (b ∷ bs) ≡ suc n + length bs = omega arith in
    rw e (from_be_onto-lt (acc * 256 + b) (suc n) bs h.1 (omega (arith, small, h.0, pow-suc 256 n)))

pub from_be-lt : (bs : List ℕ) → All IsByte bs → from_be bs < 256 ^ length bs
unfolding from_be
from_be-lt bs h =
    let e : 0 + length bs ≡ length bs = omega arith in
    rw e at (from_be_onto-lt 0 0 bs h (omega arith))
