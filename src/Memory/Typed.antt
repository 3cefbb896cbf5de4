-- ===== src/Memory/Typed.antt =====
-- The typed accessors of crates/memory/src/lib.rs, and C strings.
use emulator_ios_for_android.Base.{
  ℕ, zero, suc, ◌+◌, ◌^◌, ◌<◌, ◌≡◌, refl, arith, List, [], ◌∷◌, length, ap, ◌∙◌, true, false, ◌==◌,
  ◌≢◌, some, get_elem?, ◌-◌, ==_iff, ◌⊎◌, inl, inr, Bool-cases,
}
use mathlib.Core.Path.{subst}
use emulator_ios_for_android.Common.Result.{EmuResult, ok, ◌>>=◌, >>=-eq-ok, ok-injective}
use emulator_ios_for_android.Common.Addr.{
  u64_mod, IsU64, GuestAddr, wrapping_add, wrapping_add_small,
}
use emulator_ios_for_android.Common.Endian.{to_le, from_le, from_le-to_le, length-to_le}
use emulator_ios_for_android.Common.Utf8.{Text, from_utf8_lossy}
use emulator_ios_for_android.Memory.Guest.{GuestMemory, read, write}
use emulator_ios_for_android.Memory.Bytes.{byte_at}
use emulator_ios_for_android.Memory.Mapping.{IsValid}
use emulator_ios_for_android.Memory.ReadWrite.{read-byte_at, read-write}

-- `read_u8`, `read_u32` and `read_u64` at the widths 1, 4 and 8.
unfoldable pub read_uint : ℕ → GuestMemory → GuestAddr → EmuResult ℕ
read_uint width mem addr = do b ← read mem addr width; ok (from_le b)

unfoldable pub read_u8 : GuestMemory → GuestAddr → EmuResult ℕ
unfolding read_uint
read_u8 = read_uint 1

unfoldable pub read_u32 : GuestMemory → GuestAddr → EmuResult ℕ
unfolding read_uint
read_u32 = read_uint 4

unfoldable pub read_u64 : GuestMemory → GuestAddr → EmuResult ℕ
unfolding read_uint
read_u64 = read_uint 8

unfoldable pub write_u32 : GuestMemory → GuestAddr → ℕ → EmuResult GuestMemory
write_u32 mem addr v = write mem addr (to_le 4 v)

unfoldable pub write_u64 : GuestMemory → GuestAddr → ℕ → EmuResult GuestMemory
write_u64 mem addr v = write mem addr (to_le 8 v)

-- The loop of `read_cstr`: `max` bytes at most, up to the first zero.
unfoldable pub cstr_bytes : ℕ → GuestMemory → GuestAddr → EmuResult (List ℕ)
cstr_bytes zero mem cur = ok []
cstr_bytes (suc max) mem cur = do
  b ← read_u8 mem cur
  elim (b == 0) [
    | true ↦ ok []
    | false ↦ do out ← cstr_bytes max mem (wrapping_add cur 1); ok (b ∷ out)
  ]

unfoldable pub read_cstr : GuestMemory → GuestAddr → ℕ → EmuResult Text
unfolding cstr_bytes
read_cstr mem addr max = do out ← cstr_bytes max mem addr; ok (from_utf8_lossy out)

read_uint-write :
    (width : ℕ) (mem mem' : GuestMemory) (addr v old : ℕ)
    → IsValid mem
    → IsU64 addr
    → v < 256 ^ width
    → read_uint width mem addr ≡ ok old
    → write mem addr (to_le width v) ≡ ok mem'
    → read_uint width mem' addr ≡ ok v
unfolding read_uint
read_uint-write width mem mem' addr v old valid u small readable written =
    let (bs, got, _) = >>=-eq-ok (read mem addr width) _ readable in
    let len : length (to_le width v) ≡ width = length-to_le width v in
    let back : read mem' addr width ≡ ok (to_le width v) =
      rw len at (read-write mem mem' addr (to_le width v) bs valid u (rw len got) written) in
    rw (back, from_le-to_le width v small)

-- A word that is written where a word can be read is read back.
pub read_u64-write_u64 :
    (mem mem' : GuestMemory) (addr v old : ℕ)
    → IsValid mem
    → IsU64 addr
    → IsU64 v
    → read_u64 mem addr ≡ ok old
    → write_u64 mem addr v ≡ ok mem'
    → read_u64 mem' addr ≡ ok v
unfolding read_u64 write_u64
read_u64-write_u64 mem mem' addr v old valid u small readable written =
    read_uint-write 8 mem mem' addr v old valid u small readable written

pub read_u32-write_u32 :
    (mem mem' : GuestMemory) (addr v old : ℕ)
    → IsValid mem
    → IsU64 addr
    → v < 2 ^ 32
    → read_u32 mem addr ≡ ok old
    → write_u32 mem addr v ≡ ok mem'
    → read_u32 mem' addr ≡ ok v
unfolding read_u32 write_u32
read_u32-write_u32 mem mem' addr v old valid u small readable written =
    read_uint-write 4 mem mem' addr v old valid u small readable written

one_byte : (bs : List ℕ) → length bs ≡ 1 → get_elem? bs 0 ≡ some (from_le bs)
unfolding from_le
one_byte [] h = absurd (omega arith)
one_byte (b ∷ []) h = ap some (omega arith)
one_byte (b ∷ (c ∷ bs)) h = absurd (omega arith)

read_u8-byte_at :
    (mem : GuestMemory) (addr b : ℕ)
    → IsValid mem
    → IsU64 addr
    → read_u8 mem addr ≡ ok b
    → byte_at mem.regions addr ≡ some b
unfolding read_u8
read_u8-byte_at mem addr b v u h =
    let (bs, got, same) = >>=-eq-ok (read mem addr 1) (λ bs. ok (from_le bs)) h in
    let (len, view) = read-byte_at mem addr 1 bs 0 v u got (omega arith) in
    let at : addr ≡ addr + 0 = omega arith in
    ap (byte_at mem.regions) at ∙ view ∙ one_byte bs len ∙ ap some (ok-injective same)

-- What a scan of `max` bytes from `addr` on has found.
abbrev pub IsCstr : GuestMemory → ℕ → ℕ → List ℕ → Type 0
IsCstr mem addr max [] = (max ≡ 0) ⊎ (byte_at mem.regions addr ≡ some 0)
IsCstr mem addr max (b ∷ out) =
    (0 < max) × (b ≢ 0) × (byte_at mem.regions addr ≡ some b) × IsCstr mem (addr + 1) (max - 1) out

-- The loop of `read_cstr` yields the non-zero bytes from `addr` on, at most `max`, and stops short
-- of `max` only at a zero byte.
pub cstr_bytes-IsCstr :
    (max : ℕ) (mem : GuestMemory) (addr : ℕ) (out : List ℕ)
    → IsValid mem
    → addr + max < u64_mod
    → cstr_bytes max mem addr ≡ ok out
    → IsCstr mem addr max out
unfolding cstr_bytes
cstr_bytes-IsCstr zero mem addr out v fits h = subst (IsCstr mem addr 0) (ok-injective h) (inl refl)
cstr_bytes-IsCstr (suc max) mem addr out v fits h =
    let (b, got, rest) = >>=-eq-ok (read_u8 mem addr) _ h in
    let here : byte_at mem.regions addr ≡ some b = read_u8-byte_at mem addr b v (omega arith) got in
    elim (Bool-cases (b == 0)) [
      | inl end ↦
          let zero_byte : b ≡ 0 = (==_iff b 0).0 end in
          subst (IsCstr mem addr (suc max)) (ok-injective (rw end at rest))
            (inr (rw (← zero_byte) here))
      | inr more ↦
          let (tail, scanned, result) =
            >>=-eq-ok (cstr_bytes max mem (wrapping_add addr 1)) (λ t. ok (b ∷ t))
              (rw more at rest) in
          let next : wrapping_add addr 1 ≡ addr + 1 = wrapping_add_small addr 1 (omega arith) in
          let ih : IsCstr mem (addr + 1) max tail =
            cstr_bytes-IsCstr max mem (addr + 1) tail v (omega arith) (rw next at scanned) in
          let room : max ≡ suc max - 1 = omega arith in
          subst (IsCstr mem addr (suc max)) (ok-injective result) (
            omega arith,
            (λ e. ground arith),
            here,
            subst (λ n. IsCstr mem (addr + 1) n tail) room ih,
          )
    ]
