-- ===== src/Tests/Run.antt =====
-- The run loop of crates/core on a script that exits.
use emulator_ios_for_android.Base.{ℕ, ◌≡◌, refl, some, arith, [], ◌∷◌, replicate, false, ◌++◌, none}
use emulator_ios_for_android.Common.Result.{ok, err}
use emulator_ios_for_android.Common.Utf8.{Text}
use emulator_ios_for_android.Memory.Guest.{GuestMemory, mmap_top}
use emulator_ios_for_android.Vfs.Sandbox.{Sandbox}
use emulator_ios_for_android.Kernel.Cpu.{CpuContext}
use emulator_ios_for_android.Kernel.Unix.{Host, not_found}
use emulator_ios_for_android.Kernel.Run.{
  syscall, trampoline_call, exited, Dispatch, unhandled, Process, resume_script, run,
  service_syscall, service_trampoline,
}
use emulator_ios_for_android.Kernel.RunStops.{idle, served_call, by_syscall, run-Stops}

-- A host without files, whose state is not used.
abbrev host : Host ℕ ℕ
host = record {
  read_file = λ f n h. (err not_found, h);
  write_all = λ f bytes h. (err not_found, h);
  seek = λ f pos h. (err not_found, h);
  open_file = λ opts path h. (err not_found, h);
  exists = λ path h. false;
  clock = λ h. none;
}

abbrev no_library :
    ℕ → Text → CpuContext → GuestMemory → Sandbox → Dispatch × (ℕ × (CpuContext × GuestMemory))
no_library world symbol cpu mem vfs = (unhandled, (world, (cpu, mem)))

-- x16 selects `exit`.
abbrev process : Process ℕ ℕ ℕ ℕ
process = record {
  ctx = record {
    cpu = record {
      x = replicate 16 0 ++ (1 ∷ replicate 12 0);
      fp = 0;
      lr = 0;
      sp = 0;
      pc = 0;
      nzcv = 0;
      tpidrro_el0 = 0;
    };
    mem = record {
      regions = [];
      mmap_cursor = mmap_top;
      heap_arena = record { base = 0; limit = 0; cursor = 0 };
    };
    vfs = record {
      host_root = [];
      ios_prefix = [];
      uuid = [];
      layout = record {
        bundle_dir = [];
        documents = [];
        library = [];
        caches = [];
        preferences = [];
        tmp = [];
      };
      system_root = [];
    };
    fds = record { slots = []; next = 3 };
    exit = none;
    host = 0;
  };
  dispatcher = record { serviced = 0; stubbed = 0 };
  world = 0;
  trampolines = [];
  symbol_stubs = [];
  lazy_binds = [];
}

-- A call through an unknown trampoline, which returns to the caller.
abbrev called : Process ℕ ℕ ℕ ℕ
called = service_trampoline host no_library 5 process

exit_code : (service_syscall host no_library called).ctx.exit ≡ some 0
unfolding service_syscall service_trampoline
exit_code = refl

run-Stops_example :
    run host no_library resume_script 2 (trampoline_call 5 ∷ syscall 128 ∷ exited 7 ∷ []) process
    ≡ (ok 0, service_syscall host no_library called)
run-Stops_example =
    run-Stops host no_library process called (trampoline_call 5 ∷ []) (exited 7 ∷ []) (syscall 128)
      (ok 0, service_syscall host no_library called) 2 (served_call idle) (by_syscall exit_code)
      (omega arith)
