-- ===== src/Kernel/StubBinder.antt =====
-- crates/core/src/machine.rs: the lazy binder `dyld_stub_binder`, on the fields of `Machine` that
-- it reads. The hash maps are association lists; `commit_to_native` does nothing on the host.
use emulator_ios_for_android.Base.{
  ℕ, ◌≡◌, refl, List, [], ◌∷◌, Option, none, some, ◌==◌, if◌then◌else◌, bit_and, ◌∙◌,
}
use emulator_ios_for_android.Common.Result.{ok, err}
use emulator_ios_for_android.Common.Addr.{IsU64, GuestAddr, wrapping_add}
use emulator_ios_for_android.Common.Utf8.{Text}
use emulator_ios_for_android.Dyld.Linker.{find_forward}
use emulator_ios_for_android.Memory.Guest.{GuestMemory}
use emulator_ios_for_android.Memory.Mapping.{IsValid}
use emulator_ios_for_android.Memory.Typed.{read_u64, write_u64, read_u64-write_u64}
use emulator_ios_for_android.Kernel.Cpu.{CpuContext}

-- The fields of `Machine` that the binder uses.
pub record Machine : Type 0 where
  pub cpu : CpuContext
  pub mem : GuestMemory
  pub symbol_stubs : List (Text × ℕ)
  pub lazy_binds : List (ℕ × (Text × GuestAddr))

unfoldable pub find_lazy : List (ℕ × (Text × GuestAddr)) → ℕ → Option (Text × GuestAddr)
find_lazy [] offset = none
find_lazy ((k, entry) ∷ binds) offset = if k == offset then some entry else find_lazy binds offset

-- `self.cpu.pc = self.cpu.lr`.
unfoldable pub return_to_caller : Machine → Machine
return_to_caller m = record m { cpu = record m.cpu { pc = m.cpu.lr } }

-- The slot is patched if it can be written, the frame of `__stub_helper` is popped, and the stub
-- is next.
unfoldable pub bind_and_jump : GuestAddr → ℕ → Machine → Machine
unfolding wrapping_add write_u64
bind_and_jump la_ptr resolved m =
    let mem' : GuestMemory = elim (write_u64 m.mem la_ptr resolved) [
      | ok patched ↦ patched
      | err e ↦ m.mem
    ] in
    record m { mem = mem'; cpu = record m.cpu { sp = wrapping_add m.cpu.sp 16; pc = resolved } }

unfoldable pub dyld_stub_binder : Machine → Machine
unfolding find_lazy read_u64 find_forward return_to_caller bind_and_jump
dyld_stub_binder m = elim (read_u64 m.mem m.cpu.sp) [
  | err e ↦ return_to_caller m
  | ok v ↦ elim (find_lazy m.lazy_binds (bit_and v 0xffff_ffff)) [
    | none ↦ return_to_caller m
    | some (symbol, la_ptr) ↦ elim (find_forward m.symbol_stubs symbol) [
      | none ↦ return_to_caller m
      | some resolved ↦ bind_and_jump la_ptr resolved m
    ]
  ]
]

-- What the binder is given: the offset that the helper pushed, an entry for it, a stub for its
-- symbol, and a slot that can be read and written.
pub record IsBindable (m : Machine) (symbol : Text) (la_ptr resolved : ℕ) : Type 0 where
  pub pushed : ℕ
  pub old : ℕ
  pub patched : GuestMemory
  pub valid : IsValid m.mem
  pub on_stack : read_u64 m.mem m.cpu.sp ≡ ok pushed
  pub entry : find_lazy m.lazy_binds (bit_and pushed 0xffff_ffff) ≡ some (symbol, la_ptr)
  pub stub : find_forward m.symbol_stubs symbol ≡ some resolved
  pub slot : IsU64 la_ptr
  pub target : IsU64 resolved
  pub readable : read_u64 m.mem la_ptr ≡ ok old
  pub writable : write_u64 m.mem la_ptr resolved ≡ ok patched

-- A lazy call whose offset, symbol and slot are in order ends at the stub of its symbol: the slot
-- then holds the stub's address, the two words are popped, and every argument register and the
-- return address are as they were.
pub dyld_stub_binder-binds :
    (m : Machine) (symbol : Text) (la_ptr resolved : ℕ)
    → IsBindable m symbol la_ptr resolved
    → ((dyld_stub_binder m).cpu.pc ≡ resolved)
      × (read_u64 (dyld_stub_binder m).mem la_ptr ≡ ok resolved)
      × ((dyld_stub_binder m).cpu.sp ≡ wrapping_add m.cpu.sp 16)
      × ((dyld_stub_binder m).cpu.x ≡ m.cpu.x)
      × ((dyld_stub_binder m).cpu.lr ≡ m.cpu.lr)
unfolding dyld_stub_binder bind_and_jump
dyld_stub_binder-binds m symbol la_ptr resolved b =
    let run : dyld_stub_binder m ≡ bind_and_jump la_ptr resolved m =
      rw (dyld_stub_binder, b.on_stack, b.entry, b.stub) refl in
    let next : bind_and_jump la_ptr resolved m ≡ record m {
      mem = b.patched;
      cpu = record m.cpu { sp = wrapping_add m.cpu.sp 16; pc = resolved };
    } =
      rw (bind_and_jump, b.writable) refl in
    let back =
      read_u64-write_u64 m.mem b.patched la_ptr resolved b.old b.valid b.slot b.target b.readable
        b.writable in
    rw (run ∙ next) (refl, back, refl, refl, refl)
