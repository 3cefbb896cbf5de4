-- ===== src/Memory/Spread.antt =====
-- The invariant of the region map, and what its lookups find under it.
use emulator_ios_for_android.Base.{
  ℕ, suc, ◌+◌, ◌≤◌, ◌<◌, ◌≡◌, refl, arith, ◌&&◌, Bool, Option, none, some, [], ◌∷◌, length, ltb,
  leb, if◌then◌else◌, Option-cases, ◌⊎◌, inl, inr,
}
use emulator_ios_for_android.Common.Addr.{u64_mod}
use emulator_ios_for_android.Memory.Region.{Region}
use emulator_ios_for_android.Memory.RegionMap.{RegionMap, last_below}

-- The end of a region as a plain number.
abbrev pub span_end : ℕ × Region → ℕ
span_end e = e.0 + length e.1.bytes

-- An entry stands under its region's base, is not empty, and ends inside the address space.
abbrev pub IsEntry : ℕ × Region → Type 0
IsEntry e = (e.0 ≡ e.1.base) × (0 < length e.1.bytes) × (span_end e < u64_mod)

-- From `lo` on, the regions ascend and do not overlap.
abbrev pub IsSpread : ℕ → RegionMap → Type 0
IsSpread lo [] = Unit
IsSpread lo (e ∷ m) = (lo ≤ e.0) × IsEntry e × IsSpread (span_end e) m

abbrev pub covers : ℕ × Region → ℕ → Bool
covers e a = leb e.0 a && ltb a (span_end e)

-- The specification of a lookup: search all entries in order.
unfoldable pub find_covering : RegionMap → ℕ → Option (ℕ × Region)
find_covering [] a = none
find_covering (e ∷ m) a = if covers e a then some e else find_covering m a

pub IsSpread-lower : (lo lo' : ℕ) (m : RegionMap) → lo' ≤ lo → IsSpread lo m → IsSpread lo' m
IsSpread-lower lo lo' [] h s = tt
IsSpread-lower lo lo' (e ∷ m) h s = (omega arith, s.1, s.2)

pub last_below-IsEntry :
    (lo end : ℕ) (m : RegionMap) {e : ℕ × Region}
    → IsSpread lo m
    → last_below end m ≡ some e
    → (lo ≤ e.0) × (e.0 < end) × IsEntry e
unfolding last_below
last_below-IsEntry lo end [] s h = cc
last_below-IsEntry lo end (f ∷ m) s h = elim (Option-cases (last_below end m)) [
  | inl e0 ↦ ground arith
  | inr (g, e1) ↦ ground (arith, last_below-IsEntry (span_end f) end m s.2 e1)
]

pub find_covering-below :
    (lo a : ℕ) (m : RegionMap) → IsSpread lo m → a < lo → find_covering m a ≡ none
unfolding find_covering
find_covering-below lo a [] s lt = refl
find_covering-below lo a (f ∷ m) s lt = ground (arith, find_covering-below (span_end f) a m s.2)

pub last_below-none_above :
    (lo end a : ℕ) (m : RegionMap)
    → IsSpread lo m
    → last_below end m ≡ none
    → a < end
    → find_covering m a ≡ none
unfolding last_below find_covering
last_below-none_above lo end a [] s h lt = refl
last_below-none_above lo end a (f ∷ m) s h lt =
    ground (arith, find_covering-below (span_end f) a m s.2)

-- If the last entry at or below `a` does not reach `a`, no entry does.
pub last_below-find :
    (lo a : ℕ) (m : RegionMap) {e : ℕ × Region}
    → IsSpread lo m
    → last_below (suc a) m ≡ some e
    → find_covering m a ≡ (if ltb a (span_end e) then some e else none)
unfolding last_below find_covering
last_below-find lo a [] s h = cc
last_below-find lo a (f ∷ m) s h = elim (Option-cases (last_below (suc a) m)) [
  | inl e0 ↦ ground (arith, last_below-none_above (span_end f) (suc a) a m s.2 e0)
  | inr (g, e1) ↦ ground (
    arith,
    last_below-find (span_end f) a m s.2 e1,
    last_below-IsEntry (span_end f) (suc a) m s.2 e1,
  )
]

-- Every lookup by address finds the entry that covers it, or none does.
pub last_below-find_cases :
    (a : ℕ) (m : RegionMap)
    → IsSpread 0 m
    → ((last_below (suc a) m ≡ none) × (find_covering m a ≡ none))
      ⊎ ((e : ℕ × Region) × (last_below (suc a) m ≡ some e)
          × (e.0 ≤ a)
          × IsEntry e
          × (find_covering m a ≡ (if ltb a (span_end e) then some e else none)))
last_below-find_cases a m s = elim (Option-cases (last_below (suc a) m)) [
  | inl e0 ↦ inl (e0, last_below-none_above 0 (suc a) a m s e0 (omega arith))
  | inr (e, e1) ↦ inr (
    e,
    e1,
    omega (arith, last_below-IsEntry 0 (suc a) m s e1),
    (last_below-IsEntry 0 (suc a) m s e1).2,
    last_below-find 0 a m s e1,
  )
]
