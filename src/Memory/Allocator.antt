-- ===== src/Memory/Allocator.antt =====
-- crates/memory/src/allocator.rs: the bump allocator behind the guest's `malloc`.
use emulator_ios_for_android.Base.{ℕ, max, leb}
use emulator_ios_for_android.Common.Result.{memory, EmuResult, ok, ◌>>=◌, ◌>>◌, guard, ok_or}
use emulator_ios_for_android.Common.Addr.{GuestAddr, wrapping_add, wrapping_sub, checked_add}
use emulator_ios_for_android.Common.Align.{align_up}

pub record BumpAllocator : Type 0 where
  pub base : GuestAddr
  pub limit : GuestAddr
  pub cursor : ℕ

unfoldable pub new_allocator : GuestAddr → ℕ → BumpAllocator
new_allocator base size = record { base = base; limit = wrapping_add base size; cursor = base }

-- `BumpAllocator::alloc`: the address handed out, and the allocator after it.
unfoldable pub alloc : BumpAllocator → ℕ → ℕ → EmuResult (GuestAddr × BumpAllocator)
unfolding checked_add
alloc self size align = do
  let start = align_up self.cursor (max align 1)
  end ← ok_or (checked_add start (max size 1)) (memory start "heap alloc overflow")
  guard (leb end self.limit) (memory end "heap exhausted")
  ok (start, record self { cursor = end })

unfoldable pub used : BumpAllocator → ℕ
used self = wrapping_sub self.cursor self.base
