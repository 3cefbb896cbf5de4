-- ===== src/Macho/Reader.antt =====
-- crates/loader/src/macho/reader.rs: the bounds-checked reader. A method that takes `&mut self`
-- returns the reader that it leaves.
use emulator_ios_for_android.Base.{
  ℕ, ◌+◌, ◌-◌, List, [], ◌∷◌, length, take, drop, get_elem?, ltb, ◌==◌, if◌then◌else◌,
}
use emulator_ios_for_android.Common.Result.{EmuResult, mach_o, internal, ok, err, ok_or, ◌>>=◌}
use emulator_ios_for_android.Common.Addr.{checked_add}
use emulator_ios_for_android.Common.Endian.{from_le, from_be}
use emulator_ios_for_android.Common.Utf8.{Text, from_utf8_lossy}

pub record Reader : Type 0 where
  pub bytes : List ℕ
  pub pos : ℕ

-- A value read, and the reader behind it.
abbrev pub Read {ℓ} : Type ℓ → Type ℓ
Read A = EmuResult (A × Reader)

unfoldable pub new : List ℕ → Reader
new bytes = record { bytes = bytes; pos = 0 }

unfoldable pub at : List ℕ → ℕ → EmuResult Reader
at bytes off =
    if ltb (length bytes) off
    then err (mach_o "offset past end")
    else ok (record { bytes = bytes; pos = off })

unfoldable pub seek : Reader → ℕ → EmuResult Reader
seek r off =
    if ltb (length r.bytes) off then err (mach_o "seek past end") else ok (record r { pos = off })

unfoldable pub skip : Reader → ℕ → EmuResult Reader
unfolding seek checked_add
skip r n = do end ← ok_or (checked_add r.pos n) (mach_o "skip overflow"); seek r end

unfoldable pub remaining : Reader → ℕ
remaining r = length r.bytes - r.pos

-- `take`.
unfoldable pub take_bytes : Reader → ℕ → Read (List ℕ)
unfolding checked_add
take_bytes r n = do
  end ← ok_or (checked_add r.pos n) (mach_o "read overflow")
  if ltb (length r.bytes) end
      then err (mach_o "truncated")
      else ok (take n (drop r.pos r.bytes), record r { pos = end })

-- `u8`, `u16_le`, `u32_le`, `u64_le`, `u32_be`, `u64_be`.
unfoldable pub read_u8 : Reader → Read ℕ
unfolding take_bytes
read_u8 r = do
  (s, r') ← take_bytes r 1
  b ← ok_or (get_elem? s 0) (internal "index out of bounds")
  ok (b, r')

unfoldable pub u16_le : Reader → Read ℕ
unfolding take_bytes from_le
u16_le r = do (s, r') ← take_bytes r 2; ok (from_le s, r')

unfoldable pub u32_le : Reader → Read ℕ
unfolding take_bytes from_le
u32_le r = do (s, r') ← take_bytes r 4; ok (from_le s, r')

unfoldable pub u64_le : Reader → Read ℕ
unfolding take_bytes from_le
u64_le r = do (s, r') ← take_bytes r 8; ok (from_le s, r')

unfoldable pub u32_be : Reader → Read ℕ
unfolding take_bytes from_be
u32_be r = do (s, r') ← take_bytes r 4; ok (from_be s, r')

unfoldable pub u64_be : Reader → Read ℕ
unfolding take_bytes from_be
u64_be r = do (s, r') ← take_bytes r 8; ok (from_be s, r')

-- The bytes before the first NUL, all of them when there is none.
unfoldable pub until_nul : List ℕ → List ℕ
until_nul [] = []
until_nul (b ∷ bs) = let rest = until_nul bs in if b == 0 then [] else b ∷ rest

unfoldable pub fixed_str : Reader → ℕ → Read Text
unfolding take_bytes until_nul from_utf8_lossy
fixed_str r n = do (raw, r') ← take_bytes r n; ok (from_utf8_lossy (until_nul raw), r')

unfoldable pub read_bytes : Reader → ℕ → Read (List ℕ)
unfolding take_bytes
read_bytes r n = take_bytes r n

unfoldable pub peek_u32_le : Reader → EmuResult ℕ
unfolding from_le
peek_u32_le r =
    if ltb (length r.bytes) (r.pos + 4)
    then err (mach_o "peek past end")
    else ok (from_le (take 4 (drop r.pos r.bytes)))
