-- ===== src/Macho/Bounds.antt =====
-- crates/loader/src/macho/reader.rs: every read stays in the buffer, gives a number of its type,
-- or fails with a Mach-O error.
use emulator_ios_for_android.Base.{
  ℕ, zero, suc, ◌+◌, ◌^◌, ◌≤◌, ◌<◌, ◌≡◌, refl, arith, String, List, [], ◌∷◌, length, take, drop,
  ltb, ltb→ge, All, length-take, length-drop, Bool-cases, inl, inr,
}
use emulator_ios_for_android.Common.Result.{EmuError, mach_o, ok, ok_or, ◌>>=◌}
use emulator_ios_for_android.Common.Outcome.{Outcome, gives, fails, Outcome-bind, Outcome-if}
use emulator_ios_for_android.Common.Addr.{IsByte, IsU64, u64_mod, checked_add}
use emulator_ios_for_android.Common.Endian.{from_le, from_be, from_le-lt, from_be-lt}
use emulator_ios_for_android.Common.Utf8.{Text}
use emulator_ios_for_android.Macho.Reader.{
  Reader, new, at, seek, skip, take_bytes, u32_le, u64_le, u32_be, u64_be, fixed_str, read_bytes,
}

pub data IsMachO : EmuError → Type 0 where
  is_mach_o : {message : String} → IsMachO (mach_o message)

abbrev pub IsU32 : ℕ → Type 0
IsU32 v = v < 2 ^ 32

-- The buffer is bytes, and the cursor is in it.
unfoldable pub IsReader : Reader → Type 0
IsReader r = All IsByte r.bytes × (r.pos ≤ length r.bytes)

-- A value with a property, and a good reader.
abbrev pub Both {ℓ} : {A : Type ℓ} → (A → Type 0) → A × Reader → Type 0
Both P (v, r) = P v × IsReader r

All-take : (n : ℕ) (bs : List ℕ) → All IsByte bs → All IsByte (take n bs)
All-take zero bs h = tt
All-take (suc n) [] h = tt
All-take (suc n) (b ∷ bs) h = (h.0, All-take n bs h.1)

All-drop : (n : ℕ) (bs : List ℕ) → All IsByte bs → All IsByte (drop n bs)
All-drop zero bs h = h
All-drop (suc n) [] h = tt
All-drop (suc n) (b ∷ bs) h = All-drop n bs h.1

-- Exactly the bytes asked for.
abbrev pub IsRun : ℕ → List ℕ → Type 0
IsRun n s = All IsByte s × (length s ≡ n)

pub new-IsReader : (bytes : List ℕ) → All IsByte bytes → IsReader (new bytes)
unfolding IsReader new
new-IsReader bytes h = (h, omega arith)

pub at-Outcome :
    (bytes : List ℕ) (off : ℕ) → All IsByte bytes → Outcome IsMachO IsReader (at bytes off)
unfolding at IsReader
at-Outcome bytes off h =
    Outcome-if (ltb (length bytes) off) (λ e. fails is_mach_o) (λ e. gives (h, ltb→ge _ _ e))

pub seek-Outcome : (r : Reader) (off : ℕ) → IsReader r → Outcome IsMachO IsReader (seek r off)
unfolding seek IsReader
seek-Outcome r off h =
    Outcome-if (ltb (length r.bytes) off) (λ e. fails is_mach_o) (λ e. gives (h.0, ltb→ge _ _ e))

pub checked-Outcome :
    (a b : ℕ) (m : String)
    → Outcome IsMachO (λ end. end ≡ a + b) (ok_or (checked_add a b) (mach_o m))
unfolding checked_add
checked-Outcome a b m = elim (Bool-cases (ltb (a + b) u64_mod)) [
  | inl e ↦ rw e (gives refl)
  | inr e ↦ rw e (fails is_mach_o)
]

pub skip-Outcome : (r : Reader) (n : ℕ) → IsReader r → Outcome IsMachO IsReader (skip r n)
unfolding skip
skip-Outcome r n h = Outcome-bind (checked-Outcome r.pos n _) (λ end e. seek-Outcome r end h)

pub take_bytes-Outcome :
    (r : Reader) (n : ℕ) → IsReader r → Outcome IsMachO (Both (IsRun n)) (take_bytes r n)
unfolding take_bytes IsReader
take_bytes-Outcome r n h = Outcome-bind (checked-Outcome r.pos n _) (λ end e.
    Outcome-if (ltb (length r.bytes) end) (λ t. fails is_mach_o)
      (λ t.
        let inside = ltb→ge (length r.bytes) end t in
        gives (
          (
            (All-take n _ (All-drop r.pos r.bytes h.0)),
            omega (arith, inside, e, length-take n (drop r.pos r.bytes), length-drop r.pos r.bytes),
          ),
          (h.0, inside),
        )))

module _ (r : Reader) (h : IsReader r) where
  number :
      (n bound : ℕ) (f : List ℕ → ℕ)
      → ((s : List ℕ) → IsRun n s → f s < bound)
      → Outcome IsMachO (Both (λ v. v < bound)) (take_bytes r n >>= λ (s, r'). ok (f s, r'))
  number n bound f small =
      Outcome-bind (take_bytes-Outcome r n h) (λ (s, r') (run, g). gives (small s run, g))

  pub u32_le-Outcome : Outcome IsMachO (Both IsU32) (u32_le r)
  unfolding u32_le
  u32_le-Outcome = number 4 _ from_le (λ s run. (rw run.1 at (from_le-lt s run.0)))

  pub u64_le-Outcome : Outcome IsMachO (Both IsU64) (u64_le r)
  unfolding u64_le
  u64_le-Outcome = number 8 _ from_le (λ s run. (rw run.1 at (from_le-lt s run.0)))

  pub u32_be-Outcome : Outcome IsMachO (Both IsU32) (u32_be r)
  unfolding u32_be
  u32_be-Outcome = number 4 _ from_be (λ s run. (rw run.1 at (from_be-lt s run.0)))

  pub u64_be-Outcome : Outcome IsMachO (Both IsU64) (u64_be r)
  unfolding u64_be
  u64_be-Outcome = number 8 _ from_be (λ s run. (rw run.1 at (from_be-lt s run.0)))

  pub fixed_str-Outcome : (n : ℕ) → Outcome IsMachO (Both (λ (t : Text). Unit)) (fixed_str r n)
  unfolding fixed_str
  fixed_str-Outcome n = Outcome-bind (take_bytes-Outcome r n h) (λ (s, r') (run, g). gives (tt, g))

  pub read_bytes-Outcome : (n : ℕ) → Outcome IsMachO (Both (IsRun n)) (read_bytes r n)
  unfolding read_bytes
  read_bytes-Outcome n = take_bytes-Outcome r n h
