-- ===== src/Common/Outcome.antt =====
-- What a fallible computation gives: a value with a property, or an error of a kind.
use emulator_ios_for_android.Base.{◌≡◌, refl, Bool, true, false, if◌then◌else◌}
use emulator_ios_for_android.Common.Result.{Result, EmuError, EmuResult, ok, err, ◌>>=◌}

pub data Outcome {ℓ} {E : Type 0} {A : Type ℓ} (F : E → Type 0) (P : A → Type 0)
    : Result E A → Type ℓ where
  gives : {a : A} → P a → Outcome F P (ok a)
  fails : {e : E} → F e → Outcome F P (err e)

module _ {ℓ} {E : Type 0} {A : Type ℓ} {F : E → Type 0} {P : A → Type 0} where
  -- The `?` operator keeps the kind of the errors.
  pub Outcome-bind {κ} :
      {B : Type κ} {Q : B → Type 0} {r : Result E A} {k : A → Result E B}
      → Outcome F P r
      → ((a : A) → P a → Outcome F Q (k a))
      → Outcome F Q (r >>= k)
  Outcome-bind (gives {a} h) f = f a h
  Outcome-bind (fails h) f = fails h

  pub Outcome-if :
      (b : Bool) {x y : Result E A}
      → (b ≡ true → Outcome F P x)
      → (b ≡ false → Outcome F P y)
      → Outcome F P (if b then x else y)
  Outcome-if true h k = h refl
  Outcome-if false h k = k refl

-- Any error at all.
abbrev pub AnyError : EmuError → Type 0
AnyError e = Unit

-- What holds of every value that a computation gives.
pub Outcome-of {ℓ} :
    {A : Type ℓ} {P : A → Type 0} (r : EmuResult A)
    → ((a : A) → r ≡ ok a → P a)
    → Outcome AnyError P r
Outcome-of (ok a) f = gives (f a refl)
Outcome-of (err e) f = fails tt

pub Outcome-weaken :
    {E A : Type 0} {F : E → Type 0} {P Q : A → Type 0} {r : Result E A}
    → Outcome F P r
    → ((a : A) → P a → Q a)
    → Outcome F Q r
Outcome-weaken (gives {a} h) f = gives (f a h)
Outcome-weaken (fails h) f = fails h

pub Outcome-elim :
    {E A : Type 0} {F : E → Type 0} {P : A → Type 0} (b : Bool) {x y : Result E A}
    → (b ≡ true → Outcome F P x)
    → (b ≡ false → Outcome F P y)
    → Outcome F P (elim b [ true ↦ x | false ↦ y ])
Outcome-elim true h k = h refl
Outcome-elim false h k = k refl

pub Outcome-both :
    {E A : Type 0} {F : E → Type 0} {P Q : A → Type 0} {r : Result E A}
    → Outcome F P r
    → Outcome F Q r
    → Outcome F (λ a. P a × Q a) r
Outcome-both (gives h) (gives k) = gives (h, k)
Outcome-both (fails h) k = fails h
