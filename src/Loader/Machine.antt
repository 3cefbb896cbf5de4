-- ===== src/Loader/Machine.antt =====
-- crates/core/src/machine.rs: `Machine::load` on the host.
use emulator_ios_for_android.Base.{ℕ, Bool, ◌&&◌, none, List, [], ◌∷◌, ◌++◌, ltb, leb}
use emulator_ios_for_android.Common.Result.{EmuResult, ok, ◌>>=◌}
use emulator_ios_for_android.Common.Addr.{GuestAddr}
use emulator_ios_for_android.Common.Utf8.{Text}
use emulator_ios_for_android.Memory.Guest.{new_memory}
use emulator_ios_for_android.Vfs.Sandbox.{Sandbox, bundle_ios_path}
use emulator_ios_for_android.Kernel.Cpu.{CpuContext, entry}
use emulator_ios_for_android.Kernel.Fd.{default_table}
use emulator_ios_for_android.Kernel.Run.{Process}
use emulator_ios_for_android.Macho.Parse.{parse}
use emulator_ios_for_android.Loader.Layout.{LayoutConfig}
use emulator_ios_for_android.Loader.Process.{build_process}

pub record MachineConfig : Type 0 where
  pub heap_base : GuestAddr
  pub heap_size : ℕ
  pub stack_top : GuestAddr
  pub stack_size : ℕ
  pub trampoline_base : GuestAddr
  pub slide : ℕ

abbrev pub default_config : MachineConfig
default_config = record {
  heap_base = 0x1_2000_0000;
  heap_size = 0x400_0000;
  stack_top = 0x1_c000_0000;
  stack_size = 0x80_0000;
  trampoline_base = 0x5_0000_0000;
  slide = 0;
}

-- A machine: the process that the run loop works on, and what it starts from.
pub record Loaded (H F D W : Type 0) : Type 0 where
  pub process : Process H F D W
  pub tramp_range : ℕ × ℕ
  pub init_funcs : List GuestAddr
  pub entry : GuestAddr
  pub arg_regs : ℕ × ℕ × ℕ × ℕ
  pub sp : ℕ

-- "/Executable".
abbrev pub executable : Text
executable = b'/' ∷ b'E' ∷ b'x' ∷ b'e' ∷ b'c' ∷ b'u' ∷ b't' ∷ b'a' ∷ b'b' ∷ b'l' ∷ b'e' ∷ []

unfoldable pub layout_config : MachineConfig → Sandbox → LayoutConfig
unfolding bundle_ios_path
layout_config cfg vfs = record {
  slide = cfg.slide;
  stack_top = cfg.stack_top;
  stack_size = cfg.stack_size;
  trampoline_base = cfg.trampoline_base;
  trampoline_stride = 16;
  argv0 = bundle_ios_path vfs ++ executable;
}

-- The registers at the entry point.
unfoldable pub entry_state : GuestAddr → ℕ → ℕ × ℕ × ℕ × ℕ → CpuContext
unfolding entry
entry_state pc sp (a, b, c, d) = entry pc sp a b c d

module _ {H F D W : Type 0} where
  unfoldable pub load : MachineConfig → List ℕ → Sandbox → H → W → EmuResult (Loaded H F D W)
  unfolding build_process layout_config entry_state default_table
  load cfg bytes vfs host world = do
    img ← parse bytes
    mem ← new_memory cfg.heap_base cfg.heap_size
    (p, mem) ← build_process img bytes mem (layout_config cfg vfs)
    ok (record {
      process = record {
        ctx = record {
          cpu = entry_state p.entry p.sp p.arg_regs;
          mem = mem;
          vfs = vfs;
          fds = default_table;
          exit = none;
          host = host;
        };
        dispatcher = record { serviced = 0; stubbed = 0 };
        world = world;
        trampolines = p.trampolines;
        symbol_stubs = p.symbol_stubs;
        lazy_binds = p.lazy_binds;
      };
      tramp_range = (p.trampoline_base, p.trampoline_end);
      init_funcs = p.init_funcs;
      entry = p.entry;
      arg_regs = p.arg_regs;
      sp = p.sp;
    })

  unfoldable pub is_trampoline : Loaded H F D W → GuestAddr → Bool
  is_trampoline m addr = leb m.tramp_range.0 addr && ltb addr m.tramp_range.1

  unfoldable pub reset_to_entry : Loaded H F D W → Loaded H F D W
  unfolding entry_state
  reset_to_entry m = record m {
    process = record m.process {
      ctx = record m.process.ctx { cpu = entry_state m.entry m.sp m.arg_regs };
    };
  }
