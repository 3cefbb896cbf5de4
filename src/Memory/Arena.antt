-- ===== src/Memory/Arena.antt =====
-- The bump allocator: each block is aligned, inside the arena and above every earlier one.
use emulator_ios_for_android.Base.{ℕ, ◌+◌, ◌*◌, ◌%◌, ◌^◌, ◌≤◌, ◌<◌, ◌≡◌, arith, max}
use emulator_ios_for_android.Common.Result.{ok}
use emulator_ios_for_android.Common.Addr.{u64_mod, checked_add}
use emulator_ios_for_android.Common.Align.{align_up_least}
use emulator_ios_for_android.Memory.Allocator.{BumpAllocator, alloc}
use emulator_ios_for_android.Base.Bits.{power_pos}

-- The cursor stands inside the arena, and rounding up to 0x1000 at its end does not wrap.
pub record IsArena (a : BumpAllocator) : Type 0 where
  pub above_base : a.base ≤ a.cursor
  pub below_limit : a.cursor ≤ a.limit
  pub limit_fits : a.limit + 0x1000 < u64_mod

-- In an arena whose limit lies more than 0x1000 below 2 ^ 64, a block aligned to `2 ^ k`, at most 0x1000,
-- that is allocated starts on the alignment at or above the old cursor, has room for the size,
-- ends at the new cursor and inside the arena.
pub alloc_block :
    (self self' : BumpAllocator) (k d size addr : ℕ)
    → 2 ^ d * 2 ^ k ≡ u64_mod
    → 2 ^ k ≤ 0x1000
    → IsArena self
    → alloc self size (2 ^ k) ≡ ok (addr, self')
    → (addr % 2 ^ k ≡ 0)
      × (self.cursor ≤ addr)
      × (addr + max size 1 ≡ self'.cursor)
      × IsArena self'
      × (self'.base ≡ self.base)
      × (self'.limit ≡ self.limit)
unfolding alloc checked_add
alloc_block self self' k d size addr e small v h =
    let positive : max (2 ^ k) 1 ≡ 2 ^ k = omega (arith, power_pos k) in
    let h' = rw positive at h in
    let above = v.above_base in
    let below = v.below_limit in
    let limit = v.limit_fits in ground (arith, align_up_least k d self.cursor e (omega arith))
