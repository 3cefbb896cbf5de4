-- ===== src/Memory/Wrap.antt =====
-- A size within a page of 2^64 wraps to zero when it is rounded up.
use emulator_ios_for_android.Base.{
  ℕ, ◌+◌, ◌≤◌, ◌<◌, ◌≡◌, refl, arith, true, none, some, [], ◌∷◌, length, All, ◌∙◌, max,
}
use emulator_ios_for_android.Common.Utf8.{Text}
use emulator_ios_for_android.Common.Result.{ok}
use emulator_ios_for_android.Common.Addr.{u64_mod, wrapping_add}
use emulator_ios_for_android.Common.Protection.{Protection}
use emulator_ios_for_android.Common.Align.{page_size, align_up, align_up_page}
use emulator_ios_for_android.Memory.Region.{Region, RegionKind, new_from}
use emulator_ios_for_android.Memory.RegionMap.{RegionMap, insert}
use emulator_ios_for_android.Memory.Guest.{GuestMemory, map_with_data, check_free}
use emulator_ios_for_android.Memory.Spread.{
  span_end, IsSpread, find_covering, covers, find_covering-below,
}
use emulator_ios_for_android.Memory.Update.{found_key, IsApart}
use emulator_ios_for_android.Memory.CheckFree.{check_free_iff, above-IsApart}
use emulator_ios_for_android.Memory.Bytes.{byte_at}
use emulator_ios_for_android.Memory.Mapping.{IsValid}

wrapped_size : (size : ℕ) → u64_mod ≤ size + 0x3fff → size < u64_mod → align_up size page_size ≡ 0
unfolding wrapping_add
wrapped_size size big fits = align_up_page size ∙ omega arith

-- An empty region under the key of another takes its place.
find_covering-insert_empty :
    (lo k : ℕ) (r : Region) (m : RegionMap) (e : ℕ × Region) (a : ℕ)
    → IsSpread lo m
    → find_covering m k ≡ some e
    → e.0 ≡ k
    → length r.bytes ≡ 0
    → covers e a ≡ true
    → find_covering (insert k r m) a ≡ none
unfolding find_covering insert
find_covering-insert_empty lo k r [] e a s found at empty c = cc
find_covering-insert_empty lo k r (f ∷ m) e a s found at empty c = ground (
  arith,
  found_key (span_end f) k m e s.2,
  find_covering-below (span_end f) a m s.2,
  find_covering-insert_empty (span_end f) k r m e a s.2,
)

-- Two regions never overlap a point where one of them starts.
start-IsApart :
    (lo k : ℕ) (m : RegionMap) (e : ℕ × Region)
    → IsSpread lo m
    → find_covering m k ≡ some e
    → e.0 ≡ k
    → All (IsApart k (k + 0)) m
unfolding find_covering
start-IsApart lo k [] e s found at = tt
start-IsApart lo k (f ∷ m) e s found at = ground (
  arith,
  found_key (span_end f) k m e s.2,
  above-IsApart (span_end f) k (k + 0) m s.2,
  start-IsApart (span_end f) k m e s.2,
)

-- Mapping an empty segment of a size within a page of 2^64 at the base of a mapped region
-- succeeds, and unmaps each byte `a` of that region.
pub map_with_data_wraps :
    (mem : GuestMemory) (base size : ℕ) (prot : Protection) (kind : RegionKind) (name : Text)
    (e : ℕ × Region) (a : ℕ)
    → IsValid mem
    → covers e a ≡ true
    → u64_mod ≤ size + 0x3fff
    → size < u64_mod
    → find_covering mem.regions base ≡ some e
    → e.0 ≡ base
    → (mem' : GuestMemory) × (map_with_data mem base size [] prot kind name ≡ ok mem')
      × (byte_at mem'.regions a ≡ none)
unfolding map_with_data new_from byte_at
map_with_data_wraps mem base size prot kind name e a v c big fits found at =
    let whole : max size (length {A = ℕ} []) ≡ size = omega arith in
    let entry = found_key 0 base mem.regions e v.spread found in
    let free : check_free mem.regions base 0 ≡ ok tt =
      (check_free_iff mem.regions base 0 v.spread).1
        (omega arith, start-IsApart 0 base mem.regions e v.spread found at) in
    let r : Region = record { base = base; prot = prot; kind = kind; name = name; bytes = [] } in
    (
      record mem { regions = insert base r mem.regions },
      rw (whole, wrapped_size size big fits, free),
      rw (find_covering-insert_empty 0 base r mem.regions e a v.spread found at refl c),
    )
