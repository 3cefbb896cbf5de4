-- ===== src/Loader/Process.antt =====
-- crates/core/src/loader.rs: `build_process`.
use emulator_ios_for_android.Base.{ℕ, List, if◌then◌else◌}
use emulator_ios_for_android.Common.Result.{EmuResult, dyld, ok, err, ◌>>=◌}
use emulator_ios_for_android.Dyld.Linker.{new_resolver, used}
use emulator_ios_for_android.Memory.Guest.{GuestMemory}
use emulator_ios_for_android.Kernel.Cpu.{entry}
use emulator_ios_for_android.Macho.Image.{MachOImage, is_encrypted}
use emulator_ios_for_android.Loader.Layout.{LayoutConfig, ProcessImage, resolve_entry}
use emulator_ios_for_android.Loader.Segments.{
  map_segments, rebase_image, restore_protections, init_funcs,
}
use emulator_ios_for_android.Loader.Binds.{bind_image, lazy_table}
use emulator_ios_for_android.Loader.Stubs.{publish_stubs}
use emulator_ios_for_android.Loader.Stack.{map_stack}

-- `build_process`; the memory that it leaves comes with the process.
unfoldable pub build_process :
    MachOImage → List ℕ → GuestMemory → LayoutConfig → EmuResult (ProcessImage × GuestMemory)
unfolding is_encrypted map_segments rebase_image bind_image new_resolver used publish_stubs
    restore_protections init_funcs map_stack resolve_entry lazy_table
build_process img bytes mem cfg =
    if is_encrypted img
    then err (dyld "executable is FairPlay-encrypted; supply a decrypted binary")
    else do
      (bases, mem) ← map_segments cfg.slide bytes img.segments mem
      mem ← rebase_image cfg.slide bytes bases img mem
      (mem, r) ←
          bind_image bytes bases img (mem, new_resolver cfg.trampoline_base cfg.trampoline_stride)
      (trampoline_end, mem) ← publish_stubs cfg.trampoline_base (used r) mem
      mem ← restore_protections img.segments bases mem
      let funcs = init_funcs cfg.slide mem img.segments
      (sp, arg_regs, mem) ← map_stack mem cfg
      entry ← resolve_entry img cfg.slide
      lazy_binds ← lazy_table bytes bases img
      ok (
        record {
          entry = entry;
          sp = sp;
          arg_regs = arg_regs;
          trampolines = r.reverse;
          trampoline_base = cfg.trampoline_base;
          trampoline_end = trampoline_end;
          init_funcs = funcs;
          symbol_stubs = r.forward;
          lazy_binds = lazy_binds;
        },
        mem,
      )
