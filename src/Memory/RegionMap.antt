-- ===== src/Memory/RegionMap.antt =====
-- The `BTreeMap<u64, Region>` of crates/memory/src/lib.rs, as an association list in ascending
-- order of its keys, with the three operations that the code uses.
use emulator_ios_for_android.Base.{ℕ, Option, none, some, List, [], ◌∷◌, ltb, ◌==◌, if◌then◌else◌}
use emulator_ios_for_android.Memory.Region.{Region}
use mathlib.Core.Option.{get_or}

abbrev pub RegionMap : Type 0
RegionMap = List (ℕ × Region)

-- `range(..end).next_back()`: the last entry whose key is below `end`.
unfoldable pub last_below : ℕ → RegionMap → Option (ℕ × Region)
last_below end [] = none
last_below end (e ∷ m) = if ltb e.0 end then some (get_or (last_below end m) e) else none

-- `insert`: an entry under the same key is replaced.
unfoldable pub insert : ℕ → Region → RegionMap → RegionMap
insert k r [] = (k, r) ∷ []
insert k r (e ∷ m) =
    if ltb k e.0 then (k, r) ∷ (e ∷ m) else if k == e.0 then (k, r) ∷ m else e ∷ insert k r m

-- A write through `get_mut` or `range_mut`: the entry at a key gets a new region.
unfoldable pub replace : ℕ → Region → RegionMap → RegionMap
replace k r [] = []
replace k r (e ∷ m) = if k == e.0 then (k, r) ∷ m else e ∷ replace k r m
