-- ===== src/Memory/Protect.antt =====
-- Changing the protection of a region, and the lookup by address.
use emulator_ios_for_android.Base.{
  ℕ, ◌-◌, ◌≡◌, refl, arith, Option, none, some, if◌then◌else◌, inl, inr, get_elem?, sym, ◌∙◌,
}
use mathlib.Core.Path.{subst}
use emulator_ios_for_android.Common.Result.{ok, >>=-eq-ok, ok-injective, memory, ok_or}
use emulator_ios_for_android.Common.Protection.{Protection}
use emulator_ios_for_android.Memory.Region.{Region, has_addr}
use emulator_ios_for_android.Memory.RegionMap.{RegionMap, replace}
use emulator_ios_for_android.Memory.Guest.{GuestMemory, region_base, protect}
use emulator_ios_for_android.Memory.Spread.{IsSpread, find_covering, covers, last_below-find_cases}
use emulator_ios_for_android.Memory.Update.{found_key, find_covering-replace}
use emulator_ios_for_android.Memory.CheckFree.{end_addr-entry}
use emulator_ios_for_android.Memory.Bytes.{byte_at, replace_found}
use emulator_ios_for_android.Memory.ReadWrite.{find_covering-same}
use emulator_ios_for_android.Memory.Mapping.{IsValid}

-- The lookup through the tree finds what a search of every region finds.
pub region_base-find :
    (m : RegionMap) (addr : ℕ)
    → IsSpread 0 m
    → region_base m addr ≡ ok_or (find_covering m addr) (memory addr "unmapped")
unfolding region_base has_addr
region_base-find m addr s = elim (last_below-find_cases addr m s) [
  | inl (e0, f0) ↦ rw (e0, f0, region_base)
  | inr (e, last, le, v, found) ↦ ground (arith, end_addr-entry e v)
]

found_ok :
    (o : Option (ℕ × Region)) (addr : ℕ) (e : ℕ × Region)
    → ok_or o (memory addr "unmapped") ≡ ok e
    → o ≡ some e
found_ok none addr e h = cc
found_ok (some f) addr e h = cc

bytes_kept :
    (m : RegionMap) (addr a : ℕ) (e : ℕ × Region)
    → IsSpread 0 m
    → find_covering m addr ≡ some e
    → (if covers e a then get_elem? e.1.bytes (a - e.0) else byte_at m a) ≡ byte_at m a
unfolding byte_at
bytes_kept m addr a e s found = ground (arith, find_covering-same 0 a addr m e s found)

-- What a change of protection at an address makes of a memory: every byte stays, and the region
-- that covers the address has the new protection.
abbrev pub Protects : GuestMemory → ℕ → Protection → GuestMemory → Type 0
Protects mem addr prot mem' =
    IsValid mem'
    × ((a : ℕ) → byte_at mem'.regions a ≡ byte_at mem.regions a)
    × ((e : ℕ × Region) × (find_covering mem.regions addr ≡ some e)
        × (find_covering mem'.regions addr ≡ some (e.0, record (e.1) { prot = prot })))

-- A change of protection that succeeds keeps the invariant and every byte, and gives the region
-- that covers the address the new protection.
pub protect-Shows :
    (mem mem' : GuestMemory) (addr : ℕ) (prot : Protection)
    → IsValid mem
    → protect mem addr prot ≡ ok mem'
    → Protects mem addr prot mem'
unfolding protect
protect-Shows mem mem' addr prot v h =
    let (e, based, result) =
      >>=-eq-ok (region_base mem.regions addr)
        (λ e. ok (record mem { regions = replace e.0 (record (e.1) { prot = prot }) mem.regions }))
        h in
    let found : find_covering mem.regions addr ≡ some e =
      found_ok (find_covering mem.regions addr) addr e
        (sym (region_base-find mem.regions addr v.spread) ∙ based) in
    let r' : Region = record (e.1) { prot = prot } in
    let (spread, view) = replace_found mem.regions addr e r' v.spread found refl refl in
    let (low, entry, le, lt) = found_key 0 addr mem.regions e v.spread found in
    let here : find_covering (replace e.0 r' mem.regions) addr ≡ some (e.0, r') =
      ground (arith, find_covering-replace 0 addr mem.regions e r' addr v.spread found refl) in
    subst (Protects mem addr prot) (ok-injective result) (
      record { spread = spread; cursor_page = v.cursor_page; cursor_fits = v.cursor_fits },
      (λ a. view a ∙ bytes_kept mem.regions addr a e v.spread found),
      (e, found, here),
    )
