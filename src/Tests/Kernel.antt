-- ===== src/Tests/Kernel.antt =====
-- crates/core on a small machine.
use emulator_ios_for_android.Base.{
  ℕ, ◌+◌, ◌≤◌, ◌≡◌, refl, arith, true, false, ◌||◌, [], ◌∷◌, replicate, some, leb, ◌==◌,
  if◌then◌else◌, bit_and,
}
use emulator_ios_for_android.Common.Result.{ok, err}
use emulator_ios_for_android.Common.Addr.{
  wrapping_add, wrapping_sub, not_u64, checked_add, checked_sub,
}
use emulator_ios_for_android.Common.Align.{align_up, align_down}
use emulator_ios_for_android.Common.Endian.{to_le, from_le}
use emulator_ios_for_android.Common.Protection.{prot_rw, contains}
use emulator_ios_for_android.Common.Utf8.{Text}
use emulator_ios_for_android.Dyld.Linker.{same_name, find_forward}
use emulator_ios_for_android.Memory.Region.{
  Region, anonymous, new_zeroed, size, end_addr, range, subslice, overwrite,
}
use emulator_ios_for_android.Memory.RegionMap.{last_below, insert, replace}
use emulator_ios_for_android.Memory.Guest.{
  mmap_name, GuestMemory, mmap_top, mmap_anon, map_region, check_free, read, write, region_for,
}
use emulator_ios_for_android.Memory.Mapping.{IsValid}
use emulator_ios_for_android.Memory.Typed.{read_uint, read_u64, write_u64}
use emulator_ios_for_android.Kernel.Fd.{
  FdTable, stdin, stdout, stderr, file, get, insert as insert_fd, contains as contains_fd,
}
use emulator_ios_for_android.Kernel.FdLaws.{insert-lowest}
use emulator_ios_for_android.Kernel.Cpu.{
  CpuContext, arg, set_syscall_result, observed, HasRegisters, observed-set_syscall_result,
  register,
}
use emulator_ios_for_android.Kernel.Mach.{handle, kern_success, vm_allocate-success}
use emulator_ios_for_android.Kernel.StubBinder.{
  Machine, IsBindable, find_lazy, dyld_stub_binder, dyld_stub_binder-binds,
}

abbrev region_name : Text
region_name = b'r' ∷ []

abbrev table : FdTable ℕ ℕ
table = record { slots = (3, file 7) ∷ (0, stdin) ∷ (1, stdout) ∷ (2, stderr) ∷ []; next = 4 }

insert-lowest_example :
    (contains_fd table (insert_fd (file 8) table).0 ≡ false)
    × (3 ≤ (insert_fd (file 8) table).0)
    × ((contains_fd table 3 || leb (insert_fd (file 8) table).0 3) ≡ true)
    × (get (insert_fd (file 8) table).1.slots 3
        ≡ (if (insert_fd (file 8) table).0 == 3 then some (file 8) else get table.slots 3))
insert-lowest_example = insert-lowest (file 8) table 3 (omega arith)

-- x1 is a pointer, x2 a size.
abbrev cpu : CpuContext
cpu = record {
  x = 0 ∷ 0x4000 ∷ 1 ∷ replicate 26 0;
  fp = 0;
  lr = 0x1234;
  sp = 0x4000;
  pc = 0;
  nzcv = 0;
  tpidrro_el0 = 0;
}

cpu-HasRegisters : HasRegisters cpu
unfolding HasRegisters
cpu-HasRegisters = (0, 0x4000 ∷ 1 ∷ replicate 26 0, refl)

observed-set_syscall_result_example : observed (set_syscall_result (err 2) cpu) ≡ err 2
observed-set_syscall_result_example = observed-set_syscall_result (err 2) cpu cpu-HasRegisters

abbrev words : Region
words = record {
  base = 0x4000;
  prot = prot_rw;
  kind = anonymous;
  name = region_name;
  bytes = 5 ∷ 0 ∷ 0 ∷ 0 ∷ 0 ∷ 0 ∷ 0 ∷ 0 ∷ [];
}

abbrev mem : GuestMemory
mem = record {
  regions = (0x4000, words) ∷ [];
  mmap_cursor = mmap_top;
  heap_arena = record { base = 0x10000; limit = 0x20000; cursor = 0x10000 };
}

mem-IsValid : IsValid mem
mem-IsValid = record {
  spread = (omega arith, (refl, omega arith, omega arith), tt);
  cursor_page = refl;
  cursor_fits = omega arith;
}

abbrev at_top : ℕ
at_top = 0x1_FFFF_C000

abbrev anon : GuestMemory
anon = record mem {
  regions = insert at_top (new_zeroed at_top 0x4000 prot_rw anonymous mmap_name) mem.regions;
  mmap_cursor = at_top;
}

anon_run : mmap_anon mem 1 prot_rw ≡ ok (at_top, anon)
unfolding mmap_anon checked_sub align_down map_region align_up wrapping_add wrapping_sub not_u64
    check_free checked_add last_below end_addr size
anon_run = refl

read_anon : read_u64 anon 0x4000 ≡ ok 5
unfolding read_u64 read_uint read region_for last_below subslice range wrapping_sub checked_add
    contains from_le insert new_zeroed
read_anon = refl

abbrev noted : GuestMemory
noted = record anon {
  regions =
      replace 0x4000 (record words { bytes = 0 ∷ 0xc0 ∷ 0xff ∷ 0xff ∷ 1 ∷ 0 ∷ 0 ∷ 0 ∷ [] })
        anon.regions;
}

write_anon : write_u64 anon 0x4000 at_top ≡ ok noted
unfolding write_u64 to_le write region_for last_below overwrite range wrapping_sub checked_add
    contains replace insert new_zeroed
write_anon = refl

arguments : (arg cpu 1 ≡ 0x4000) × (arg cpu 2 ≡ 1)
unfolding arg register
arguments = (refl, refl)

vm_allocate-success_example :
    (handle 10 cpu mem ≡ some (ok kern_success, noted))
    × (read_u64 noted (arg cpu 1) ≡ ok at_top)
    × (at_top + arg cpu 2 ≤ mem.mmap_cursor)
vm_allocate-success_example =
    vm_allocate-success cpu mem anon noted at_top 5 mem-IsValid (rw arguments.1 (omega arith))
      (rw arguments.0 (omega arith)) (rw arguments.1 anon_run) (rw arguments.0 read_anon)
      (rw arguments.0 write_anon)

abbrev symbol : Text
symbol = b'o' ∷ b'p' ∷ b'e' ∷ b'n' ∷ []

abbrev machine : Machine
machine = record {
  cpu = cpu;
  mem = mem;
  symbol_stubs = (symbol, 0x5_0000_0000) ∷ [];
  lazy_binds = (5, (symbol, 0x4000)) ∷ [];
}

read_top : read_u64 mem 0x4000 ≡ ok 5
unfolding read_u64 read_uint read region_for last_below subslice range wrapping_sub checked_add
    contains from_le
read_top = refl

abbrev bound_memory : GuestMemory
bound_memory = record mem {
  regions = (0x4000, record words { bytes = 0 ∷ 0 ∷ 0 ∷ 0 ∷ 5 ∷ 0 ∷ 0 ∷ 0 ∷ [] }) ∷ [];
}

write_slot : write_u64 mem 0x4000 0x5_0000_0000 ≡ ok bound_memory
unfolding write_u64 to_le write region_for last_below overwrite range wrapping_sub checked_add
    contains replace
write_slot = refl

lazy_entry : find_lazy machine.lazy_binds (bit_and 5 0xffff_ffff) ≡ some (symbol, 0x4000)
unfolding find_lazy
lazy_entry = refl

stub_entry : find_forward machine.symbol_stubs symbol ≡ some 0x5_0000_0000
unfolding find_forward same_name
stub_entry = refl

machine-IsBindable : IsBindable machine symbol 0x4000 0x5_0000_0000
machine-IsBindable = record {
  pushed = 5;
  old = 5;
  patched = bound_memory;
  valid = mem-IsValid;
  on_stack = read_top;
  entry = lazy_entry;
  stub = stub_entry;
  slot = omega arith;
  target = omega arith;
  readable = read_top;
  writable = write_slot;
}

dyld_stub_binder-binds_example :
    ((dyld_stub_binder machine).cpu.pc ≡ 0x5_0000_0000)
    × (read_u64 (dyld_stub_binder machine).mem 0x4000 ≡ ok 0x5_0000_0000)
    × ((dyld_stub_binder machine).cpu.sp ≡ wrapping_add machine.cpu.sp 16)
    × ((dyld_stub_binder machine).cpu.x ≡ machine.cpu.x)
    × ((dyld_stub_binder machine).cpu.lr ≡ machine.cpu.lr)
dyld_stub_binder-binds_example =
    dyld_stub_binder-binds machine symbol 0x4000 0x5_0000_0000 machine-IsBindable
