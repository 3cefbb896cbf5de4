-- ===== src/Kernel/Mach.antt =====
-- crates/core/src/syscall/mach.rs: the Mach traps.
use emulator_ios_for_android.Base.{
  ℕ, ◌+◌, ◌≤◌, ◌≡◌, refl, arith, max, ◌||◌, Option, none, some, ◌==◌, if◌then◌else◌,
}
use emulator_ios_for_android.Common.Result.{Result, ok, err}
use emulator_ios_for_android.Common.Protection.{prot_rw}
use emulator_ios_for_android.Memory.Guest.{GuestMemory, mmap_anon}
use emulator_ios_for_android.Common.Addr.{IsU64}
use emulator_ios_for_android.Memory.Mapping.{IsValid, IsRoundable, page_ceil, mmap_anon-Maps}
use emulator_ios_for_android.Memory.Typed.{read_u64, write_u64, read_u64-write_u64}
use emulator_ios_for_android.Kernel.Cpu.{CpuContext, arg}

abbrev pub kern_success : ℕ
kern_success = 0

abbrev pub kern_no_space : ℕ
kern_no_space = 3

abbrev pub kern_invalid_address : ℕ
kern_invalid_address = 4

-- The value of a trap and the memory behind it.
abbrev pub Trapped : Type 0
Trapped = Result ℕ ℕ × GuestMemory

-- `vm_allocate`. The memory stays allocated when the address cannot be written back.
unfoldable pub vm_allocate : CpuContext → GuestMemory → Trapped
unfolding mmap_anon arg write_u64
vm_allocate cpu mem = elim (mmap_anon mem (arg cpu 2) prot_rw) [
  | err e ↦ (ok kern_no_space, mem)
  | ok (base, mem') ↦ elim (write_u64 mem' (arg cpu 1) base) [
    | err e ↦ (ok kern_invalid_address, mem')
    | ok mem'' ↦ (ok kern_success, mem'')
  ]
]

-- `handle`: none for a trap that is not implemented.
unfoldable pub handle : ℕ → CpuContext → GuestMemory → Option Trapped
unfolding vm_allocate
handle number cpu mem =
    if number == 28
    then some (ok 0x103, mem)
    else if number == 29
    then some (ok 0x203, mem)
    else if number == 27
    then some (ok 0x303, mem)
    else if number == 26
    then some (ok 0x403, mem)
    else if (number == 31) || (number == 32)
    then some (ok kern_success, mem)
    else if (number == 33) || (number == 36)
    then some (ok kern_success, mem)
    else if number == 10
    then some (vm_allocate cpu mem)
    else if number == 12
    then some (ok kern_success, mem)
    else none

-- A `vm_allocate` of a size that can be rounded, in a memory that can be mapped and with an out
-- pointer to a readable and writable word behind the mapping: the trap succeeds, the word holds
-- the base of the mapping, and the mapping lies below the old cursor.
pub vm_allocate-success :
    (cpu : CpuContext) (mem mem' mem'' : GuestMemory) (base old : ℕ)
    → IsValid mem
    → IsRoundable (max (arg cpu 2) 1)
    → IsU64 (arg cpu 1)
    → mmap_anon mem (arg cpu 2) prot_rw ≡ ok (base, mem')
    → read_u64 mem' (arg cpu 1) ≡ ok old
    → write_u64 mem' (arg cpu 1) base ≡ ok mem''
    → (handle 10 cpu mem ≡ some (ok kern_success, mem''))
      × (read_u64 mem'' (arg cpu 1) ≡ ok base)
      × (base + arg cpu 2 ≤ mem.mmap_cursor)
unfolding handle vm_allocate
vm_allocate-success cpu mem mem' mem'' base old v h u mapped readable written =
    let (ends, cursor, (valid, shows)) =
      mmap_anon-Maps mem mem' (arg cpu 2) base prot_rw v h mapped in
    let (large, page) = page_ceil (max (arg cpu 2) 1) h in
    let fits = v.cursor_fits in
    let small : IsU64 base = omega arith in
    (
      rw (vm_allocate, mapped, written) refl,
      read_u64-write_u64 mem' mem'' (arg cpu 1) base old valid u small readable written,
      omega arith,
    )
