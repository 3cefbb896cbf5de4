-- ===== src/Memory/Bytes.antt =====
-- The abstract view of guest memory, a partial map from addresses to bytes, under the insertion
-- and the replacement of a region.
use emulator_ios_for_android.Base.{
  ℕ, ◌+◌, ◌-◌, ◌≡◌, arith, ◌&&◌, Bool, Option, none, some, length, All, ltb, leb, if◌then◌else◌,
  get_elem?,
}
use emulator_ios_for_android.Common.Result.{ok}
use emulator_ios_for_android.Memory.Region.{Region}
use emulator_ios_for_android.Memory.RegionMap.{RegionMap, insert, replace}
use emulator_ios_for_android.Memory.Guest.{check_free}
use emulator_ios_for_android.Memory.Spread.{IsEntry, IsSpread, find_covering, covers}
use emulator_ios_for_android.Memory.CheckFree.{check_free_iff}
use emulator_ios_for_android.Memory.Update.{
  IsApart, insert-IsSpread, find_covering-insert, replace-IsSpread, find_covering-replace,
}

abbrev pub byte_in : Option (ℕ × Region) → ℕ → Option ℕ
byte_in none a = none
byte_in (some e) a = get_elem? e.1.bytes (a - e.0)

-- The byte at an address, or nothing where no region covers it.
unfoldable pub byte_at : RegionMap → ℕ → Option ℕ
byte_at m a = byte_in (find_covering m a) a

abbrev pub is_within : ℕ → ℕ → ℕ → Bool
is_within lo size a = leb lo a && ltb a (lo + size)

module _ (m : RegionMap) (k : ℕ) (r : Region) (s : IsSpread 0 m) (v : IsEntry (k, r)) where
  -- A region that `check_free` admits keeps the invariant, and shows its own bytes.
  pub insert_free :
      check_free m k (length r.bytes) ≡ ok tt
      → IsSpread 0 (insert k r m)
        × ((a : ℕ)
            → byte_at (insert k r m) a
              ≡ (if is_within k (length r.bytes) a then get_elem? r.bytes (a - k) else byte_at m a))
  unfolding byte_at
  insert_free h =
      let apart : All (IsApart k (k + length r.bytes)) m =
        ((check_free_iff m k (length r.bytes) s).0 h).1 in
      (
        insert-IsSpread 0 k r m s (omega arith) v apart,
        λ a. ground (arith, find_covering-insert 0 k r m a s v apart),
      )

module _ (m : RegionMap) (at : ℕ) (e : ℕ × Region) (r' : Region) (s : IsSpread 0 m)
    (found : find_covering m at ≡ some e) (same_base : r'.base ≡ e.1.base)
    (same_length : length r'.bytes ≡ length e.1.bytes) where
  -- A region that is replaced by one of its place and size shows the new bytes there.
  pub replace_found :
      IsSpread 0 (replace e.0 r' m)
      × ((a : ℕ)
          → byte_at (replace e.0 r' m) a
            ≡ (if covers e a then get_elem? r'.bytes (a - e.0) else byte_at m a))
  unfolding byte_at
  replace_found = (
    replace-IsSpread 0 at m e r' s found same_base same_length,
    λ a. ground (arith, find_covering-replace 0 at m e r' a s found same_length),
  )
