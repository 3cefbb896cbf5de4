-- ===== src/Kernel/Cpu.antt =====
-- crates/core/src/cpu.rs: the register file and the result of a system call.
use emulator_ios_for_android.Base.{
  ℕ, zero, suc, ◌^◌, ◌≡◌, refl, List, [], ◌∷◌, replicate, ◌==◌, if◌then◌else◌, bit_and, bit_or,
}
use emulator_ios_for_android.Base.Bits.{bit_and-cleared, bit_and-set}
use emulator_ios_for_android.Common.Result.{Result, ok, err}
use emulator_ios_for_android.Common.Addr.{not_u64}

-- `x` holds the registers x0 to x28.
pub record CpuContext : Type 0 where
  pub x : List ℕ
  pub fp : ℕ
  pub lr : ℕ
  pub sp : ℕ
  pub pc : ℕ
  pub nzcv : ℕ
  pub tpidrro_el0 : ℕ

unfoldable pub entry : ℕ → ℕ → ℕ → ℕ → ℕ → ℕ → CpuContext
entry pc sp a b c d = record {
  x = a ∷ b ∷ c ∷ d ∷ replicate 25 0;
  fp = 0;
  lr = 0;
  sp = sp;
  pc = pc;
  nzcv = 0;
  tpidrro_el0 = 0;
}

-- `x[n]`; the code's array has 29 registers, and every call is with an `n` below that.
unfoldable pub register : List ℕ → ℕ → ℕ
register [] n = 0
register (v ∷ vs) zero = v
register (v ∷ vs) (suc n) = register vs n

unfoldable pub set_register : List ℕ → ℕ → ℕ → List ℕ
set_register [] n v = []
set_register (w ∷ ws) zero v = v ∷ ws
set_register (w ∷ ws) (suc n) v = w ∷ set_register ws n v

-- `arg`.
unfoldable pub arg : CpuContext → ℕ → ℕ
unfolding register
arg cpu n = register cpu.x n

unfoldable pub set_ret : ℕ → CpuContext → CpuContext
unfolding set_register
set_ret v cpu = record cpu { x = set_register cpu.x 0 v }

abbrev pub carry : ℕ
carry = 2 ^ 29

unfoldable pub set_syscall_result : Result ℕ ℕ → CpuContext → CpuContext
unfolding set_ret not_u64
set_syscall_result (ok v) cpu = record (set_ret v cpu) { nzcv = bit_and cpu.nzcv (not_u64 carry) }
set_syscall_result (err errno) cpu = record (set_ret errno cpu) { nzcv = bit_or cpu.nzcv carry }

-- How the guest's stub reads a result: the carry flag tells an error from a value.
unfoldable pub observed : CpuContext → Result ℕ ℕ
unfolding arg
observed cpu = if bit_and cpu.nzcv carry == 0 then ok (arg cpu 0) else err (arg cpu 0)

unfoldable pub HasRegisters : CpuContext → Type 0
HasRegisters cpu = (v : ℕ) × (vs : List ℕ) × (cpu.x ≡ v ∷ vs)

-- The guest observes the result that was set, value or error number, whatever the flags were.
pub observed-set_syscall_result :
    (r : Result ℕ ℕ) (cpu : CpuContext) → HasRegisters cpu → observed (set_syscall_result r cpu) ≡ r
unfolding observed set_syscall_result arg set_ret HasRegisters register set_register
observed-set_syscall_result (ok v) cpu (w, ws, e) =
    rw (e, bit_and-cleared 29 cpu.nzcv (not_u64 carry) refl) refl
observed-set_syscall_result (err errno) cpu (w, ws, e) = rw (e, bit_and-set 29 cpu.nzcv) refl
