-- ===== src/Common/Addr.antt =====
-- crates/common/src/guest.rs: guest addresses, with the wrap-around of `u64`.
use emulator_ios_for_android.Base.{
  ℕ, ◌+◌, ◌-◌, ◌%◌, ◌^◌, ◌<◌, ◌≡◌, arith, Option, none, some, Bool, ltb, ◌==◌, if◌then◌else◌,
}

-- One more than the largest `u64`.
abbrev pub u64_mod : ℕ
u64_mod = 2 ^ 64

abbrev pub IsU64 : ℕ → Type 0
IsU64 v = v < u64_mod

abbrev pub IsByte : ℕ → Type 0
IsByte b = b < 256

-- `GuestAddr(u64)`; the wrapper is dropped.
abbrev pub GuestAddr : Type 0
GuestAddr = ℕ

unfoldable pub wrapping_add : ℕ → ℕ → ℕ
wrapping_add a b = (a + b) % u64_mod

unfoldable pub wrapping_sub : ℕ → ℕ → ℕ
wrapping_sub a b = (a + u64_mod - b) % u64_mod

unfoldable pub checked_add : ℕ → ℕ → Option ℕ
checked_add a b = if ltb (a + b) u64_mod then some (a + b) else none

unfoldable pub checked_sub : ℕ → ℕ → Option ℕ
checked_sub a b = if ltb a b then none else some (a - b)

-- Bitwise complement of a `u64`.
unfoldable pub not_u64 : ℕ → ℕ
not_u64 a = u64_mod - 1 - a

unfoldable pub is_null : GuestAddr → Bool
is_null a = a == 0

pub wrapping_add_small : (a b : ℕ) → a + b < u64_mod → wrapping_add a b ≡ a + b
unfolding wrapping_add
wrapping_add_small a b h = omega arith

pub wrapping_sub-wrapping_add :
    (a b : ℕ) → IsU64 a → IsU64 b → wrapping_sub (wrapping_add a b) b ≡ a
unfolding wrapping_add wrapping_sub
wrapping_sub-wrapping_add a b ha hb = omega arith

pub wrapping_add-lt : (a b : ℕ) → wrapping_add a b < u64_mod
unfolding wrapping_add
wrapping_add-lt a b = omega arith
