-- ===== src/Kernel/Decode.antt =====
-- crates/core/src/syscall/mod.rs: `decode`, the class and number in x16.
use emulator_ios_for_android.Base.{
  ℕ, ◌+◌, ◌-◌, ◌*◌, ◌/◌, ◌%◌, ◌^◌, ◌<◌, ◌≡◌, refl, arith, true, false, ◌==◌, leb, if◌then◌else◌,
  bit_and, ◌∙◌, ap, Bool-cases, ==_iff, inl, inr,
}
use emulator_ios_for_android.Base.Bits.{bit_and_low, bit_and_high}
use emulator_ios_for_android.Common.Result.{SyscallClass, unix, mach, mach_dep, diag}
use emulator_ios_for_android.Common.Addr.{u64_mod}

abbrev pub class_mask : ℕ
class_mask = 0xff00_0000

abbrev pub number_mask : ℕ
number_mask = 0x00ff_ffff

unfoldable pub class_of : ℕ → SyscallClass
class_of c =
    if c == 1
    then mach
    else if c == 2
    then unix
    else if c == 3
    then mach_dep
    else if c == 4
    then diag
    else unix

-- `x16` is negative as an `i64` when its top bit is set.
unfoldable pub decode : ℕ → SyscallClass × ℕ
unfolding class_of
decode x16 =
    let raw = x16 % 2 ^ 32 in
    if leb (2 ^ 63) x16
    then (mach, (u64_mod - x16) % 2 ^ 32)
    else if bit_and raw class_mask == 0
    then (unix, raw)
    else (class_of (bit_and raw class_mask / 2 ^ 24), bit_and raw number_mask)

-- A negated trap number is a Mach trap.
pub decode-mach : (n : ℕ) → 0 < n → n < 2 ^ 32 → decode (u64_mod - n) ≡ (mach, n)
unfolding decode
decode-mach n p h =
    let negative : leb (2 ^ 63) (u64_mod - n) ≡ true = ground arith in
    let back : (u64_mod - (u64_mod - n)) % 2 ^ 32 ≡ n = omega arith in rw (negative, back) refl

-- A selector with a class byte and a number below 2 ^ 24, whatever stands above the low 32 bits.
pub decode-class :
    (c n high : ℕ)
    → c < 256
    → n < 2 ^ 24
    → high < 2 ^ 31
    → decode (high * 2 ^ 32 + c * 2 ^ 24 + n) ≡ ((if c == 0 then unix else class_of c), n)
unfolding decode
decode-class c n high hc hn hh =
    let positive : leb (2 ^ 63) (high * 2 ^ 32 + c * 2 ^ 24 + n) ≡ false = ground arith in
    let low : (high * 2 ^ 32 + c * 2 ^ 24 + n) % 2 ^ 32 ≡ c * 2 ^ 24 + n = omega arith in
    let top : bit_and (c * 2 ^ 24 + n) class_mask ≡ c * 2 ^ 24 =
      bit_and_high 24 8 (c * 2 ^ 24 + n) (omega arith) ∙ omega arith in
    let bottom : bit_and (c * 2 ^ 24 + n) number_mask ≡ n =
      bit_and_low 24 (c * 2 ^ 24 + n) ∙ omega arith in
    let class : c * 2 ^ 24 / 2 ^ 24 ≡ c = omega arith in
    elim (Bool-cases (c == 0)) [
      | inl plain ↦
          let none_set : (c * 2 ^ 24 == 0) ≡ true = ground arith in
          rw (positive, low, top, none_set, plain)
            (ap (λ t. (unix, t)) (omega (arith, (==_iff c 0).0 plain)))
      | inr marked ↦
          let some_set : (c * 2 ^ 24 == 0) ≡ false = ground arith in
          rw (positive, low, top, some_set, bottom, class, marked) refl
    ]
