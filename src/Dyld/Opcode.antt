-- ===== src/Dyld/Opcode.antt =====
-- A byte of an opcode stream: the high half is the opcode, the low half the immediate.
use emulator_ios_for_android.Base.{
  ℕ, ◌+◌, ◌*◌, ◌/◌, ◌%◌, ◌^◌, ◌<◌, ◌≡◌, refl, arith, String, List, [], ◌∷◌, length, bit_and, Bool,
  true, false, inl, inr, ltb, Bool-cases,
}
use emulator_ios_for_android.Base.Bits.{bit_and_low, bit_and_high, bit_or-lt}
use emulator_ios_for_android.Common.Result.{EmuError, dyld, capacity_overflow, ok, err}
use emulator_ios_for_android.Common.Addr.{u64_mod}
use emulator_ios_for_android.Dyld.Leb.{uleb_loop, uleb_group, shl64, Parsed}

pub opcode_half : (b : ℕ) → b < 256 → bit_and b 0xf0 ≡ b / 16 * 16
opcode_half b h = bit_and_high 4 4 b h

pub immediate_half : (b : ℕ) → bit_and b 0x0f ≡ b % 16
immediate_half b = bit_and_low 4 b

pub immediate-lt : (b : ℕ) → bit_and b 0x0f < 16
immediate-lt b = omega (arith, immediate_half b)

-- A fault of the stream, or the panic of a `Vec` that it would grow too far.
abbrev pub is_dyld : EmuError → Bool
is_dyld (dyld m) = true
is_dyld capacity_overflow = true
is_dyld _ = false

-- What a reader of `n` bytes returns: fewer bytes are left, or the stream was at fault.
abbrev pub Reads {ℓ} : {A : Type ℓ} → ℕ → Parsed A → Type 0
Reads n (ok (a, rest)) = length rest < n
Reads n (err e) = is_dyld e ≡ true

shl64-lt : (x shift : ℕ) → shl64 x shift < u64_mod
unfolding shl64
shl64-lt x shift = omega arith

uleb_group-lt : (b result shift : ℕ) → result < u64_mod → uleb_group b result shift < u64_mod
unfolding uleb_group
uleb_group-lt b result shift h = elim (Bool-cases (ltb shift 64)) [
  | inl low ↦
      rw low
        (bit_or-lt 64 result (shl64 (bit_and b 0x7f) shift) h (shl64-lt (bit_and b 0x7f) shift))
  | inr high ↦ rw high h
]

-- Every number read is a `u64`.
abbrev pub ReadsU64 : ℕ → Parsed ℕ → Type 0
ReadsU64 n (ok (v, rest)) = (v < u64_mod) × (length rest < n)
ReadsU64 n (err e) = is_dyld e ≡ true

pub uleb_loop-ReadsU64 :
    (message : String) (buf : List ℕ) (result shift : ℕ)
    → result < u64_mod
    → ReadsU64 (length buf) (uleb_loop message buf result shift)
unfolding uleb_loop
uleb_loop-ReadsU64 message [] result shift h = refl
uleb_loop-ReadsU64 message (b ∷ bs) result shift h = ground (
  arith,
  uleb_group-lt b result shift,
  uleb_loop-ReadsU64 message bs (uleb_group b result shift) ((shift + 7) % 2 ^ 32),
)
