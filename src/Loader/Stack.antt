-- ===== src/Loader/Stack.antt =====
-- crates/core/src/loader.rs, step 6 of `build_process`: the initial stack.
use emulator_ios_for_android.Base.{ℕ, [], ◌∷◌, length, bit_and}
use emulator_ios_for_android.Common.Result.{EmuResult, ok, ◌>>=◌}
use emulator_ios_for_android.Common.Addr.{GuestAddr, wrapping_add, wrapping_sub, not_u64}
use emulator_ios_for_android.Common.Protection.{prot_rw}
use emulator_ios_for_android.Common.Utf8.{Text}
use emulator_ios_for_android.Memory.Region.{stack}
use emulator_ios_for_android.Memory.Guest.{GuestMemory, map_region, write}
use emulator_ios_for_android.Memory.Typed.{write_u64}
use emulator_ios_for_android.Loader.Layout.{LayoutConfig}

-- `a & !0xf`.
unfoldable pub align_16 : ℕ → ℕ
unfolding not_u64
align_16 a = bit_and a (not_u64 0xf)

-- The addresses that `build_stack` computes, from the top of the stack and the length of the path.
unfoldable pub str_addr : GuestAddr → ℕ → GuestAddr
unfolding align_16 wrapping_sub
str_addr stack_top len = align_16 (wrapping_sub (wrapping_sub (wrapping_sub stack_top 16) len) 1)

unfoldable pub apple_addr : GuestAddr → GuestAddr
unfolding align_16 wrapping_sub
apple_addr top = align_16 (wrapping_sub top 16)

unfoldable pub envp_addr : GuestAddr → GuestAddr
unfolding align_16 wrapping_sub
envp_addr apple = align_16 (wrapping_sub apple 8)

unfoldable pub argv_addr : GuestAddr → GuestAddr
unfolding align_16 wrapping_sub
argv_addr envp = align_16 (wrapping_sub envp 16)

-- The stack pointer, the argument registers and the memory.
unfoldable pub build_stack :
    GuestMemory → LayoutConfig → EmuResult (GuestAddr × (ℕ × ℕ × ℕ × ℕ) × GuestMemory)
unfolding str_addr apple_addr envp_addr argv_addr align_16 wrapping_add write_u64
build_stack mem cfg = do
  let str = str_addr cfg.stack_top (length cfg.argv0)
  mem ← write mem str cfg.argv0
  mem ← write mem (wrapping_add str (length cfg.argv0)) (0 ∷ [])
  let apple = apple_addr str
  mem ← write_u64 mem apple str
  mem ← write_u64 mem (wrapping_add apple 8) 0
  let envp = envp_addr apple
  mem ← write_u64 mem envp 0
  let argv = argv_addr envp
  mem ← write_u64 mem argv str
  mem ← write_u64 mem (wrapping_add argv 8) 0
  ok (align_16 argv, (1, argv, envp, apple), mem)

-- "stack".
abbrev pub stack_name : Text
stack_name = b's' ∷ b't' ∷ b'a' ∷ b'c' ∷ b'k' ∷ []

-- The stack is mapped, then filled; `commit_to_native` does nothing on the host.
unfoldable pub map_stack :
    GuestMemory → LayoutConfig → EmuResult (GuestAddr × (ℕ × ℕ × ℕ × ℕ) × GuestMemory)
unfolding build_stack wrapping_sub
map_stack mem cfg = do
  mem ←
      map_region mem (wrapping_sub cfg.stack_top cfg.stack_size) cfg.stack_size prot_rw stack
        stack_name
  build_stack mem cfg
