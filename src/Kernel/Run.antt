-- ===== src/Kernel/Run.antt =====
-- crates/core/src/machine.rs, the dispatcher of crates/core/src/syscall/mod.rs and the scripted
-- executor of crates/core/src/cpu.rs: the loop that services what the guest asks for. The
-- environment of library calls (`W`), the executor (`X`) and the host are parameters.
use emulator_ios_for_android.Base.{
  ℕ, zero, suc, String, Bool, true, false, List, [], ◌∷◌, none, some, if◌then◌else◌,
}
use emulator_ios_for_android.Common.Result.{
  EmuError, memory, internal, EmuResult, ok, err, SyscallClass, unix, mach, mach_dep, diag,
}
use emulator_ios_for_android.Common.Addr.{GuestAddr, wrapping_add}
use emulator_ios_for_android.Common.Utf8.{Text}
use emulator_ios_for_android.Dyld.Linker.{same_name, find_reverse}
use emulator_ios_for_android.Memory.Guest.{GuestMemory}
use emulator_ios_for_android.Vfs.Sandbox.{Sandbox}
use emulator_ios_for_android.Kernel.Cpu.{CpuContext, register, set_ret, set_syscall_result}
use emulator_ios_for_android.Kernel.Decode.{decode}
use emulator_ios_for_android.Kernel.Mach.{handle}
use emulator_ios_for_android.Kernel.Unix.{Host, SyscallCtx, Handled, unix_handle, enosys}
use emulator_ios_for_android.Kernel.StubBinder.{dyld_stub_binder}

pub data ExecEvent : Type 0 where
  syscall breakpoint : ℕ → ExecEvent
  trampoline_call : GuestAddr → ExecEvent
  exited : ℕ → ExecEvent
  fault : GuestAddr → String → ExecEvent

-- `Dispatch`.
pub data Dispatch : Type 0 where
  handled unhandled : Dispatch

pub record SyscallDispatcher : Type 0 where
  pub serviced : ℕ
  pub stubbed : ℕ

-- `Machine`: the context of system calls holds its registers, memory, sandbox, descriptors and
-- exit code.
pub record Process (H F D W : Type 0) : Type 0 where
  pub ctx : SyscallCtx H F D
  pub dispatcher : SyscallDispatcher
  pub world : W
  pub trampolines : List (ℕ × Text)
  pub symbol_stubs : List (Text × ℕ)
  pub lazy_binds : List (ℕ × (Text × GuestAddr))

-- `dyld_stub_binder`
abbrev pub binder_name : Text
binder_name =
    b'd' ∷ b'y' ∷ b'l' ∷ b'd' ∷ b'_' ∷ b's' ∷ b't' ∷ b'u' ∷ b'b' ∷ b'_' ∷ b'b' ∷ b'i' ∷ b'n' ∷ b'd'
    ∷ b'e' ∷ b'r' ∷ []

-- `count += 1`.
unfoldable pub count_up : ℕ → ℕ
unfolding wrapping_add
count_up n = wrapping_add n 1

-- `ScriptedExecutor::resume`.
unfoldable pub resume_script :
    List ExecEvent → CpuContext → ExecEvent × (List ExecEvent × CpuContext)
resume_script [] cpu = (fault cpu.pc "script exhausted", ([], cpu))
resume_script (event ∷ events) cpu = (event, (events, cpu))

-- The fuel running out, which a loop without end would show as.
abbrev pub out_of_fuel : EmuError
out_of_fuel = internal "out of fuel"

module _ {H F D : Type 0} (api : Host H F) where
  -- The result of a system call, the context behind it, and whether it was stubbed.
  unfoldable pub route : SyscallClass → ℕ → SyscallCtx H F D → Handled H F D × Bool
  unfolding unix_handle handle
  route unix number ctx = elim (unix_handle api number ctx) [
    | some done ↦ (done, false)
    | none ↦ ((err enosys, ctx), true)
  ]
  route mach number ctx = elim (handle number ctx.cpu ctx.mem) [
    | some (r, mem') ↦ ((r, record ctx { mem = mem' }), false)
    | none ↦ ((ok 0, ctx), true)
  ]
  route mach_dep number ctx = ((ok 0, ctx), true)
  route diag number ctx = ((ok 0, ctx), true)

  unfoldable pub dispatch :
      SyscallDispatcher → SyscallCtx H F D → SyscallDispatcher × SyscallCtx H F D
  unfolding decode register route set_syscall_result count_up
  dispatch d ctx =
      let (class, number) = decode (register ctx.cpu.x 16) in
      let ((result, ctx'), stub) = route class number ctx in
      (
        record {
          serviced = count_up d.serviced;
          stubbed = if stub then count_up d.stubbed else d.stubbed;
        },
        record ctx' { cpu = set_syscall_result result ctx'.cpu },
      )

  module _ {W : Type 0}
      (call : W
        → Text
        → CpuContext
        → GuestMemory
        → Sandbox
        → Dispatch × (W × (CpuContext × GuestMemory))) where
    unfoldable pub service_syscall : Process H F D W → Process H F D W
    unfolding dispatch
    service_syscall p =
        let (d, ctx') = dispatch p.dispatcher p.ctx in record p { dispatcher = d; ctx = ctx' }

    -- `pc = lr`.
    unfoldable pub resume_caller : Process H F D W → Process H F D W
    resume_caller p = record p {
      ctx = record (p.ctx) { cpu = record (p.ctx.cpu) { pc = p.ctx.cpu.lr } };
    }

    unfoldable pub bind_lazily : Process H F D W → Process H F D W
    unfolding dyld_stub_binder
    bind_lazily p =
        let m = dyld_stub_binder (record {
          cpu = p.ctx.cpu;
          mem = p.ctx.mem;
          symbol_stubs = p.symbol_stubs;
          lazy_binds = p.lazy_binds;
        }) in
        record p { ctx = record (p.ctx) { cpu = m.cpu; mem = m.mem } }

    -- A library call: a call that the environment does not handle returns 0.
    unfoldable pub call_library : Text → Process H F D W → Process H F D W
    unfolding set_ret resume_caller
    call_library symbol p =
        let (outcome, (world', (cpu', mem'))) = call p.world symbol p.ctx.cpu p.ctx.mem p.ctx.vfs in
        let cpu'' : CpuContext = elim outcome [ handled ↦ cpu' | unhandled ↦ set_ret 0 cpu' ] in
        resume_caller
          (record p { world = world'; ctx = record (p.ctx) { cpu = cpu''; mem = mem' } })

    unfoldable pub service_trampoline : GuestAddr → Process H F D W → Process H F D W
    unfolding find_reverse resume_caller same_name bind_lazily call_library
    service_trampoline addr p = elim (find_reverse p.trampolines addr) [
      | none ↦ resume_caller p
      | some symbol ↦ if same_name symbol binder_name then bind_lazily p else call_library symbol p
    ]

    module _ {X : Type 0} (resume : X → CpuContext → ExecEvent × (X × CpuContext)) where
      -- `run`: the exit code, with the executor and the process behind it.
      unfoldable pub run : ℕ → X → Process H F D W → EmuResult ℕ × Process H F D W
      unfolding service_syscall service_trampoline
      run zero exec p = (err out_of_fuel, p)
      run (suc fuel) exec p =
          let (event, (exec', cpu')) = resume exec p.ctx.cpu in
          let p' = record p { ctx = record (p.ctx) { cpu = cpu' } } in
          elim event [
            | syscall imm ↦
                let q = service_syscall p' in
                elim q.ctx.exit [ some code ↦ (ok code, q) | none ↦ run fuel exec' q ]
            | trampoline_call addr ↦ run fuel exec' (service_trampoline addr p')
            | exited code ↦ (ok code, p')
            | breakpoint imm ↦ (ok 133, p')
            | fault pc reason ↦ (err (memory pc reason), p')
          ]
