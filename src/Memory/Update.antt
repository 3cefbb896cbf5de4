-- ===== src/Memory/Update.antt =====
-- The region map after an insertion or a replacement: the invariant, and every lookup.
use emulator_ios_for_android.Base.{
  ℕ, ◌+◌, ◌≤◌, ◌<◌, ◌≡◌, refl, arith, some, [], ◌∷◌, length, All, if◌then◌else◌, ◌⊎◌,
}
use emulator_ios_for_android.Memory.Region.{Region}
use emulator_ios_for_android.Memory.RegionMap.{RegionMap, insert, replace}
use emulator_ios_for_android.Memory.Spread.{
  span_end, IsEntry, IsSpread, covers, find_covering, find_covering-below,
}

-- `[lo, hi)` meets no address of the entry.
abbrev pub IsApart : ℕ → ℕ → ℕ × Region → Type 0
IsApart lo hi e = (span_end e ≤ lo) ⊎ (hi ≤ e.0)

pub insert-IsSpread :
    (lo k : ℕ) (r : Region) (m : RegionMap)
    → IsSpread lo m
    → lo ≤ k
    → IsEntry (k, r)
    → All (IsApart k (k + length r.bytes)) m
    → IsSpread lo (insert k r m)
unfolding insert
insert-IsSpread lo k r [] s h v d = (h, v, tt)
insert-IsSpread lo k r (e ∷ m) s h v d = ground (arith, insert-IsSpread (span_end e) k r m s.2)

pub find_covering-insert :
    (lo k : ℕ) (r : Region) (m : RegionMap) (a : ℕ)
    → IsSpread lo m
    → IsEntry (k, r)
    → All (IsApart k (k + length r.bytes)) m
    → find_covering (insert k r m) a ≡ (if covers (k, r) a then some (k, r) else find_covering m a)
unfolding insert find_covering
find_covering-insert lo k r [] a s v d = refl
find_covering-insert lo k r (e ∷ m) a s v d =
    ground (arith, find_covering-insert (span_end e) k r m a s.2 v d.1)

-- The entry at a key that some lookup found.
pub found_key :
    (lo a : ℕ) (m : RegionMap) (e : ℕ × Region)
    → IsSpread lo m
    → find_covering m a ≡ some e
    → (lo ≤ e.0) × IsEntry e × (e.0 ≤ a) × (a < span_end e)
unfolding find_covering
found_key lo a [] e s h = cc
found_key lo a (f ∷ m) e s h = ground (arith, found_key (span_end f) a m e s.2)

pub replace-IsSpread :
    (lo a : ℕ) (m : RegionMap) (e : ℕ × Region) (r' : Region)
    → IsSpread lo m
    → find_covering m a ≡ some e
    → r'.base ≡ e.1.base
    → length r'.bytes ≡ length e.1.bytes
    → IsSpread lo (replace e.0 r' m)
unfolding replace find_covering
replace-IsSpread lo a [] e r' s h b l = cc
replace-IsSpread lo a (f ∷ m) e r' s h b l =
    ground (arith, found_key (span_end f) a m e s.2, replace-IsSpread (span_end f) a m e r' s.2)

pub find_covering-replace :
    (lo a : ℕ) (m : RegionMap) (e : ℕ × Region) (r' : Region) (b : ℕ)
    → IsSpread lo m
    → find_covering m a ≡ some e
    → length r'.bytes ≡ length e.1.bytes
    → find_covering (replace e.0 r' m) b
      ≡ (if covers e b then some (e.0, r') else find_covering m b)
unfolding replace find_covering
find_covering-replace lo a [] e r' b s h l = cc
find_covering-replace lo a (f ∷ m) e r' b s h l = ground (
  arith,
  found_key (span_end f) a m e s.2,
  find_covering-below (span_end f) b m s.2,
  find_covering-replace (span_end f) a m e r' b s.2,
)
