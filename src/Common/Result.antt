-- ===== src/Common/Result.antt =====
-- crates/common/src/error.rs: the error type of every fallible call, and the `?` operator.
use emulator_ios_for_android.Base.{ℕ, String, Bool, true, false, ◌≡◌, refl, Option, none, some}

-- `SyscallClass`: which system-call interface a number belongs to.
pub data SyscallClass : Type 0 where
  unix mach mach_dep diag : SyscallClass

-- `EmuError`. A message that the code formats keeps its fixed words and drops the numbers that it
-- prints. `io` carries the kind of the host's error. `capacity_overflow` is not an error of the code,
-- which panics there: a `Vec` holds at most `isize::MAX` bytes.
pub data EmuError : Type 0 where
  mach_o : String → EmuError
  dyld : String → EmuError
  memory : ℕ → String → EmuError
  unsupported_syscall : SyscallClass → ℕ → EmuError
  vfs : String → EmuError
  plist : String → EmuError
  archive : String → EmuError
  objc : String → EmuError
  io : String → EmuError
  internal : String → EmuError
  capacity_overflow : EmuError

-- Rust's `Result<A, E>`.
pub data Result {ℓ} (E : Type 0) (A : Type ℓ) : Type ℓ where
  ok : A → Result E A
  err : E → Result E A

abbrev pub EmuResult {ℓ} : Type ℓ → Type ℓ
EmuResult A = Result EmuError A

-- `Option::ok_or`.
abbrev pub ok_or {ℓ} : {E : Type 0} {A : Type ℓ} → Option A → E → Result E A
ok_or none e = err e
ok_or (some a) e = ok a

abbrev pub is_ok {ℓ} : {E : Type 0} {A : Type ℓ} → Result E A → Bool
is_ok (err e) = false
is_ok (ok a) = true

-- An early return with an error unless a test holds.
abbrev pub guard : {E : Type 0} → Bool → E → Result E (Unit {0})
guard false failure = err failure
guard true failure = ok tt

infixl 5 ◌>>◌
infixl 5 ◌>>=◌
-- The `?` operator.
abbrev pub ◌>>=◌ {ℓ κ} :
    {E : Type 0} {A : Type ℓ} {B : Type κ} → Result E A → (A → Result E B) → Result E B
err failure >>= next = err failure
ok value >>= next = next value

abbrev pub ◌>>◌ {ℓ κ} :
    {E : Type 0} {A : Type ℓ} {B : Type κ} → Result E A → Result E B → Result E B
first >> second = first >>= λ _. second

-- A successful `?` had a successful first part.
pub >>=-eq-ok {ℓ κ} :
    {E : Type 0} {A : Type ℓ} {B : Type κ} (first : Result E A) (next : A → Result E B) {value : B}
    → (first >>= next) ≡ ok value
    → (found : A) × (first ≡ ok found) × (next found ≡ ok value)
>>=-eq-ok (err failure) next h = cc
>>=-eq-ok (ok found) next h = (found, refl, cc)

pub ok-injective {ℓ} :
    {E : Type 0} {A : Type ℓ} {a b : A} → ◌≡◌ {A = Result E A} (ok a) (ok b) → a ≡ b
ok-injective h = cc
