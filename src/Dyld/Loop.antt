-- ===== src/Dyld/Loop.antt =====
-- The loop `while p < stream.len()` that the three opcode parsers share: one byte is taken, and
-- `step` sees it with the bytes behind it. Each round takes a byte at least, so the length of the
-- stream is enough fuel.
use emulator_ios_for_android.Base.{
  ℕ, zero, suc, ◌≤◌, ◌<◌, ◌≡◌, refl, arith, String, List, [], ◌∷◌, length, Bool, true, false,
  if◌then◌else◌,
}
use emulator_ios_for_android.Common.Result.{
  EmuError, EmuResult, dyld, internal, capacity_overflow, ok, err, ◌>>=◌,
}
use emulator_ios_for_android.Common.Addr.{u64_mod}
use emulator_ios_for_android.Dyld.Leb.{Parsed, uleb_loop}
use emulator_ios_for_android.Dyld.Opcode.{Reads, ReadsU64, is_dyld, uleb_loop-ReadsU64}

-- The fuel running out, which the code cannot do.
abbrev pub out_of_fuel : EmuError
out_of_fuel = internal "out of fuel"

module _ {S : Type 0} (step : ℕ → List ℕ → S → Parsed S) where
  unfoldable pub opcode_loop : ℕ → List ℕ → S → EmuResult S
  opcode_loop fuel [] s = ok s
  opcode_loop zero (byte ∷ rest) s = err out_of_fuel
  opcode_loop (suc fuel) (byte ∷ rest) s = do
    (s', rest') ← step byte rest s
    opcode_loop fuel rest' s'

  pub opcode_loop-done : (fuel : ℕ) (s : S) → opcode_loop fuel [] s ≡ ok s
  unfolding opcode_loop
  opcode_loop-done zero s = refl
  opcode_loop-done (suc fuel) s = refl

module _ {S : Type 0} (IsGood : S → Type 0) where
  -- What a round gives: a good state with no more bytes left, or a fault of the stream.
  unfoldable pub StepsWithin : ℕ → Parsed S → Type 0
  StepsWithin n (ok (s, rest)) = IsGood s × (length rest ≤ n)
  StepsWithin n (err e) = is_dyld e ≡ true

  pub steps :
      (n : ℕ) (s : S) (rest : List ℕ) → IsGood s → length rest ≤ n → StepsWithin n (ok (s, rest))
  unfolding StepsWithin
  steps n s rest h m = (h, m)

  pub fault : (n : ℕ) (m : String) → StepsWithin n (err (dyld m))
  unfolding StepsWithin
  fault n m = refl

  shrink : (n m : ℕ) (r : Parsed S) → n ≤ m → StepsWithin n r → StepsWithin m r
  unfolding StepsWithin
  shrink n m (ok (s, rest)) le h = (h.0, omega (arith, h.1))
  shrink n m (err e) le h = h

  pub if_within :
      (n : ℕ) (b : Bool) (x y : Parsed S)
      → StepsWithin n x
      → StepsWithin n y
      → StepsWithin n (if b then x else y)
  if_within n true x y h k = h
  if_within n false x y h k = k

  after_read :
      {A : Type 0}
      → (n : ℕ) (r : Parsed A) (k : A × List ℕ → Parsed S) → Reads n r
      → ((v : A) (rest : List ℕ) → length rest < n → StepsWithin n (k (v, rest)))
      → StepsWithin n (r >>= k)
  unfolding StepsWithin
  after_read n (ok (v, rest)) k h f = f v rest h
  after_read n (err e) k h f = h

  -- An opcode that reads one operand, of any kind.
  pub one_read :
      {A : Type 0}
      → (n : ℕ) (r : Parsed A) (f : A → S) → Reads n r
      → ((v : A) → IsGood (f v))
      → StepsWithin n (r >>= λ (v, rest'). ok (f v, rest'))
  one_read n r f h good =
      after_read n r _ h (λ v rest' m. steps n (f v) rest' (good v) (omega (arith, m)))

  after_uleb :
      (n : ℕ) (r : Parsed ℕ) (k : ℕ × List ℕ → Parsed S)
      → ReadsU64 n r
      → ((v : ℕ) (rest : List ℕ) → v < u64_mod → length rest < n → StepsWithin n (k (v, rest)))
      → StepsWithin n (r >>= k)
  unfolding StepsWithin
  after_uleb n (ok (v, rest)) k h f = f v rest h.0 h.1
  after_uleb n (err e) k h f = h

  module _ (message : String) where
    reader-ReadsU64 : (buf : List ℕ) → ReadsU64 (length buf) (uleb_loop message buf 0 0)
    reader-ReadsU64 buf = uleb_loop-ReadsU64 message buf 0 0 (omega arith)

    -- An opcode that reads one number, which is a `u64`.
    pub reads_uleb :
        (rest : List ℕ) (f : ℕ → S)
        → ((v : ℕ) → v < u64_mod → IsGood (f v))
        → StepsWithin (length rest) (uleb_loop message rest 0 0 >>= λ (v, rest'). ok (f v, rest'))
    reads_uleb rest f h =
        after_uleb (length rest) (uleb_loop message rest 0 0) _ (reader-ReadsU64 rest)
          (λ v rest' b m. steps (length rest) (f v) rest' (h v b) (omega (arith, m)))

    -- An opcode that reads two numbers.
    pub reads_ulebs :
        (rest : List ℕ) (f : ℕ → ℕ → S)
        → ((v w : ℕ) → v < u64_mod → w < u64_mod → IsGood (f v w))
        → StepsWithin (length rest) (
            uleb_loop message rest 0 0 >>= λ (v, rest').
            uleb_loop message rest' 0 0 >>= λ (w, rest''). ok (f v w, rest''))
    reads_ulebs rest f h =
        after_uleb (length rest) (uleb_loop message rest 0 0) _ (reader-ReadsU64 rest)
          (λ v rest' b m.
            shrink (length rest') (length rest) _ (omega (arith, m))
              (reads_uleb rest' (f v) (λ w c. h v w b c)))

  limited :
      (n : ℕ) (b : Bool) (t : S) (rest : List ℕ)
      → IsGood t
      → length rest ≤ n
      → StepsWithin n ((if b then err capacity_overflow else ok t) >>= λ t. ok (t, rest))
  unfolding StepsWithin
  limited n true t rest h le = refl
  limited n false t rest h le = (h, le)

  -- An opcode that reads how often it is repeated, and may be refused for that.
  module _ (message : String) where
    pub limited_uleb :
        (rest : List ℕ) (full : ℕ → Bool) (f : ℕ → S)
        → ((v : ℕ) → IsGood (f v))
        → StepsWithin (length rest) (
            uleb_loop message rest 0 0 >>= λ (v, rest').
            (if full v then err capacity_overflow else ok (f v)) >>= λ t. ok (t, rest'))
    limited_uleb rest full f h =
        after_uleb (length rest) (uleb_loop message rest 0 0) _ (reader-ReadsU64 message rest)
          (λ v rest' b m. limited (length rest) (full v) (f v) rest' (h v) (omega (arith, m)))

    pub limited_ulebs :
        (rest : List ℕ) (full : ℕ → ℕ → Bool) (f : ℕ → ℕ → S)
        → ((v w : ℕ) → IsGood (f v w))
        → StepsWithin (length rest) (
            uleb_loop message rest 0 0 >>= λ (v, rest').
            uleb_loop message rest' 0 0 >>= λ (w, rest'').
            (if full v w then err capacity_overflow else ok (f v w)) >>= λ t. ok (t, rest''))
    limited_ulebs rest full f h =
        after_uleb (length rest) (uleb_loop message rest 0 0) _ (reader-ReadsU64 message rest)
          (λ v rest' b m.
            shrink (length rest') (length rest) _ (omega (arith, m))
              (limited_uleb rest' (full v) (f v) (h v)))

  -- What the loop gives: a good state, or a fault of the stream.
  unfoldable pub Ends : EmuResult S → Type 0
  Ends (ok s) = IsGood s
  Ends (err e) = is_dyld e ≡ true

  module _ (step : ℕ → List ℕ → S → Parsed S)
      (step-good : (byte : ℕ) (rest : List ℕ) (s : S)
        → IsGood s
        → StepsWithin (length rest) (step byte rest s)) where
    loop_from :
        (fuel n : ℕ) (r : Parsed S)
        → StepsWithin n r
        → n ≤ fuel
        → ((rest : List ℕ) (s : S)
            → length rest ≤ fuel
            → IsGood s
            → Ends (opcode_loop step fuel rest s))
        → Ends (r >>= λ (s, rest). opcode_loop step fuel rest s)
    unfolding StepsWithin Ends
    loop_from fuel n (ok (s, rest)) h le f = f rest s (omega (arith, h.1)) h.0
    loop_from fuel n (err e) h le f = h

    pub opcode_loop-Ends :
        (fuel : ℕ) (stream : List ℕ) (s : S)
        → length stream ≤ fuel
        → IsGood s
        → Ends (opcode_loop step fuel stream s)
    unfolding opcode_loop Ends
    opcode_loop-Ends zero [] s le h = h
    opcode_loop-Ends (suc fuel) [] s le h = h
    opcode_loop-Ends zero (byte ∷ rest) s le h = absurd (omega arith)
    opcode_loop-Ends (suc fuel) (byte ∷ rest) s le h =
        loop_from fuel (length rest) (step byte rest s) (step-good byte rest s h) (omega arith)
          (opcode_loop-Ends fuel)
