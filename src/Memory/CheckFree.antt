-- ===== src/Memory/CheckFree.antt =====
-- `check_free` looks at one region; under the invariant that decides about all of them.
use emulator_ios_for_android.Base.{
  ℕ, ◌+◌, ◌≤◌, ◌<◌, ◌≡◌, ◌↔◌, arith, none, some, [], ◌∷◌, All, Option-cases, inl, inr,
}
use mathlib.Core.Path.{subst}
use emulator_ios_for_android.Common.Result.{ok}
use emulator_ios_for_android.Common.Addr.{u64_mod, wrapping_add}
use emulator_ios_for_android.Memory.Region.{Region, end_addr}
use emulator_ios_for_android.Memory.RegionMap.{RegionMap, last_below}
use emulator_ios_for_android.Memory.Guest.{check_free}
use emulator_ios_for_android.Memory.Spread.{span_end, IsEntry, IsSpread, last_below-IsEntry}
use emulator_ios_for_android.Memory.Update.{IsApart}

pub above-IsApart :
    (lo base end : ℕ) (m : RegionMap) → IsSpread lo m → end ≤ lo → All (IsApart base end) m
above-IsApart lo base end [] s h = tt
above-IsApart lo base end (f ∷ m) s h =
    (inr (omega arith), above-IsApart (span_end f) base end m s.2 (omega arith))

none-IsApart :
    (lo base end : ℕ) (m : RegionMap)
    → IsSpread lo m
    → last_below end m ≡ none
    → All (IsApart base end) m
unfolding last_below
none-IsApart lo base end [] s h = tt
none-IsApart lo base end (f ∷ m) s h =
    ground (arith, above-IsApart lo base end (f ∷ m) s, above-IsApart f.0 base end (f ∷ m))

last-IsApart :
    (lo base end : ℕ) (m : RegionMap) (e : ℕ × Region)
    → IsSpread lo m
    → last_below end m ≡ some e
    → span_end e ≤ base
    → All (IsApart base end) m
unfolding last_below
last-IsApart lo base end [] e s h le = cc
last-IsApart lo base end (f ∷ m) e s h le = elim (Option-cases (last_below end m)) [
  | inl e0 ↦ ground (arith, none-IsApart (span_end f) base end m s.2 e0)
  | inr (g, e1) ↦ ground (
    arith,
    last_below-IsEntry (span_end f) end m s.2 e1,
    last-IsApart (span_end f) base end m g s.2 e1,
  )
]

All-last_below {κ} :
    (P : ℕ × Region → Type κ) (end : ℕ) (m : RegionMap) (e : ℕ × Region)
    → All P m
    → last_below end m ≡ some e
    → P e
unfolding last_below
All-last_below P end [] e h l = cc
All-last_below P end (f ∷ m) e h l = elim (Option-cases (last_below end m)) [
  | inl e0 ↦ let q : f ≡ e = ground arith in subst P q h.0
  | inr (g, e1) ↦ let q : g ≡ e = ground arith in subst P q (All-last_below P end m g h.1 e1)
]

pub end_addr-entry : (e : ℕ × Region) → IsEntry e → end_addr e.1 ≡ span_end e
unfolding end_addr wrapping_add
end_addr-entry e v = omega arith

-- `check_free` succeeds exactly when the new span ends inside the address space and meets no
-- region at all.
pub check_free_iff :
    (m : RegionMap) (base size : ℕ)
    → IsSpread 0 m
    → (check_free m base size ≡ ok tt)
      ↔ ((base + size < u64_mod) × All (IsApart base (base + size)) m)
unfolding check_free
check_free_iff m base size s = elim (Option-cases (last_below (base + size) m)) [
  | inl e0 ↦ (λ h. ground (arith, none-IsApart 0 base (base + size) m s e0), λ h. ground arith)
  | inr (e, e1) ↦
      let v : IsEntry e = (last_below-IsEntry 0 (base + size) m s e1).2 in
      (
        λ h. ground (
          arith,
          end_addr-entry e v,
          last_below-IsEntry 0 (base + size) m s e1,
          last-IsApart 0 base (base + size) m e s e1,
        ),
        λ h. ground (
          arith,
          end_addr-entry e v,
          All-last_below (IsApart base (base + size)) (base + size) m e h.1 e1,
        ),
      )
]
