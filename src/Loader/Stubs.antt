-- ===== src/Loader/Stubs.antt =====
-- crates/core/src/loader.rs, step 3 of `build_process`: the trampoline page. The loop writes a word
-- for each four bytes.
use emulator_ios_for_android.Base.{ℕ, zero, suc, ◌+◌, ◌/◌, max, [], ◌∷◌}
use emulator_ios_for_android.Common.Result.{EmuResult, ok, ◌>>=◌}
use emulator_ios_for_android.Common.Addr.{GuestAddr, wrapping_add}
use emulator_ios_for_android.Common.Align.{page_size, align_up}
use emulator_ios_for_android.Common.Protection.{prot_rw, prot_rx}
use emulator_ios_for_android.Common.Utf8.{Text}
use emulator_ios_for_android.Memory.Region.{segment}
use emulator_ios_for_android.Memory.Guest.{GuestMemory, map_region, protect}
use emulator_ios_for_android.Memory.Typed.{write_u32}

abbrev pub aarch64_brk0 : ℕ
aarch64_brk0 = 0xd420_0000

-- "__stubs".
abbrev pub stubs_name : Text
stubs_name = b'_' ∷ b'_' ∷ b's' ∷ b't' ∷ b'u' ∷ b'b' ∷ b's' ∷ []

unfoldable pub tramp_bytes : ℕ → ℕ
tramp_bytes used = align_up (max used page_size) page_size

unfoldable pub fill_brk : ℕ → GuestAddr → ℕ → GuestMemory → EmuResult GuestMemory
unfolding wrapping_add write_u32
fill_brk zero base off mem = ok mem
fill_brk (suc n) base off mem = do
  mem ← write_u32 mem (wrapping_add base off) aarch64_brk0
  fill_brk n base (off + 4) mem

-- The page's end comes with the memory.
unfoldable pub publish_stubs : GuestAddr → ℕ → GuestMemory → EmuResult (GuestAddr × GuestMemory)
unfolding tramp_bytes fill_brk wrapping_add
publish_stubs base used mem = do
  mem ← map_region mem base (tramp_bytes used) prot_rw segment stubs_name
  mem ← fill_brk ((tramp_bytes used + 3) / 4) base 0 mem
  mem ← protect mem base prot_rx
  ok (wrapping_add base (tramp_bytes used), mem)
