-- ===== src/Kernel/RunStops.antt =====
-- crates/core/src/machine.rs: how `run` ends, by the steps it takes on a script of events.
use emulator_ios_for_android.Base.{
  ℕ, zero, suc, ◌<◌, ◌≡◌, refl, arith, String, List, [], ◌∷◌, ◌++◌, ◌∙◌, length, Option, none, some,
}
use emulator_ios_for_android.Common.Result.{EmuResult, memory, ok, err}
use emulator_ios_for_android.Common.Addr.{GuestAddr}
use emulator_ios_for_android.Common.Utf8.{Text}
use emulator_ios_for_android.Memory.Guest.{GuestMemory}
use emulator_ios_for_android.Vfs.Sandbox.{Sandbox}
use emulator_ios_for_android.Kernel.Cpu.{CpuContext}
use emulator_ios_for_android.Kernel.Unix.{Host}
use emulator_ios_for_android.Kernel.Run.{
  ExecEvent, syscall, breakpoint, trampoline_call, exited, fault, Dispatch, Process, resume_script,
  run, service_syscall, service_trampoline,
}

module _ {H F D W : Type 0} (host : Host H F)
    (call : W
      → Text
      → CpuContext
      → GuestMemory
      → Sandbox
      → Dispatch × (W × (CpuContext × GuestMemory))) where
  -- The events that the machine serves and goes on from: system calls that leave no exit code, and
  -- calls through trampolines.
  pub data Serves : Process H F D W → List ExecEvent → Process H F D W → Type 0 where
    idle : {p : Process H F D W} → Serves p [] p
    served_syscall :
        {p q : Process H F D W} {imm : ℕ} {events : List ExecEvent}
        → (service_syscall host call p).ctx.exit ≡ none
        → Serves (service_syscall host call p) events q
        → Serves p (syscall imm ∷ events) q
    served_call :
        {p q : Process H F D W} {addr : GuestAddr} {events : List ExecEvent}
        → Serves (service_trampoline host call addr p) events q
        → Serves p (trampoline_call addr ∷ events) q

  -- The event that ends a run, and what the run gives: an exit code from a system call or from the
  -- executor, 133 for a breakpoint, and a memory error for a fault.
  pub data Stops (p : Process H F D W) : ExecEvent → EmuResult ℕ × Process H F D W → Type 0 where
    by_syscall :
        {imm code : ℕ}
        → (service_syscall host call p).ctx.exit ≡ some code
        → Stops p (syscall imm) (ok code, service_syscall host call p)
    by_exit : {code : ℕ} → Stops p (exited code) (ok code, p)
    by_breakpoint : {imm : ℕ} → Stops p (breakpoint imm) (ok 133, p)
    by_fault :
        {pc : GuestAddr} {reason : String} → Stops p (fault pc reason) (err (memory pc reason), p)

  with_code :
      (o : Option ℕ) (code : ℕ) (q : Process H F D W) (r : EmuResult ℕ × Process H F D W)
      → o ≡ some code
      → (elim o as (λ _. EmuResult ℕ × Process H F D W) [ some code ↦ (ok code, q) | none ↦ r ])
        ≡ (ok code, q)
  with_code none code q r e = cc
  with_code (some c) code q r e = cc

  without_code :
      (o : Option ℕ) (q : Process H F D W) (r : EmuResult ℕ × Process H F D W)
      → o ≡ none
      → (elim o as (λ _. EmuResult ℕ × Process H F D W) [ some code ↦ (ok code, q) | none ↦ r ]) ≡ r
  without_code none q r e = refl
  without_code (some c) q r e = cc

  run-last :
      (p : Process H F D W) (last : ExecEvent) (more : List ExecEvent)
      (r : EmuResult ℕ × Process H F D W) (fuel : ℕ)
      → Stops p last r
      → run host call resume_script (suc fuel) (last ∷ more) p ≡ r
  unfolding run resume_script
  run-last p _ more _ fuel (by_syscall {code = code} e) =
      with_code (service_syscall host call p).ctx.exit code (service_syscall host call p)
        (run host call resume_script fuel more (service_syscall host call p)) e
  run-last p _ more _ fuel by_exit = refl
  run-last p _ more _ fuel by_breakpoint = refl
  run-last p _ more _ fuel by_fault = refl

  -- When the machine serves the first events of a script and the next one ends the run, then with one
  -- more turn than the served events, or any number above, `run` gives what that event says, with the
  -- process that serving left, and does not look at the rest of the script.
  pub run-Stops :
      (p q : Process H F D W) (events more : List ExecEvent) (last : ExecEvent)
      (r : EmuResult ℕ × Process H F D W) (fuel : ℕ)
      → Serves p events q
      → Stops q last r
      → length events < fuel
      → run host call resume_script fuel (events ++ (last ∷ more)) p ≡ r
  unfolding run resume_script
  run-Stops p q events more last r zero s e h = absurd (omega arith)
  run-Stops p _ _ more last r (suc fuel) idle e h = run-last p last more r fuel e
  run-Stops p q _ more last r (suc fuel) (served_syscall {events = events} x s) e h =
      without_code (service_syscall host call p).ctx.exit (service_syscall host call p)
        (run host call resume_script fuel (events ++ (last ∷ more)) (service_syscall host call p)) x
      ∙ run-Stops (service_syscall host call p) q events more last r fuel s e (omega arith)
  run-Stops p q _ more last r (suc fuel) (served_call {addr = addr} {events = events} s) e h =
      run-Stops (service_trampoline host call addr p) q events more last r fuel s e (omega arith)
