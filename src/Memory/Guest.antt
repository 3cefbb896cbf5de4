-- ===== src/Memory/Guest.antt =====
-- crates/memory/src/lib.rs: `GuestMemory` and its operations, on the host (the code under
-- `cfg(target_os = "android")` is not part of the model). An operation that fails leaves the
-- memory as it was, so each returns the new memory only with success.
use emulator_ios_for_android.Base.{
  ℕ, suc, max, ◌&&◌, not, none, some, List, [], ◌∷◌, length, ltb, if◌then◌else◌,
}
use emulator_ios_for_android.Common.Utf8.{Text}
use emulator_ios_for_android.Common.Result.{memory, EmuResult, ok, err, ◌>>=◌, ◌>>◌, guard, ok_or}
use emulator_ios_for_android.Common.Addr.{GuestAddr, checked_add, checked_sub}
use emulator_ios_for_android.Common.Protection.{Protection, prot_read, prot_write, prot_rw}
use emulator_ios_for_android.Common.Align.{page_size, align_up, align_down}
use emulator_ios_for_android.Memory.Region.{
  Region, RegionKind, heap, anonymous, new_zeroed, new_from, end_addr, has_addr, subslice,
  overwrite,
}
use emulator_ios_for_android.Memory.RegionMap.{RegionMap, last_below, insert, replace}
use emulator_ios_for_android.Memory.Allocator.{BumpAllocator, new_allocator, alloc}

pub record GuestMemory : Type 0 where
  pub regions : RegionMap
  pub mmap_cursor : ℕ
  pub heap_arena : BumpAllocator

abbrev pub mmap_top : ℕ
mmap_top = 0x2_0000_0000

-- "heap" and "mmap".
abbrev pub heap_name : Text
heap_name = b'h' ∷ b'e' ∷ b'a' ∷ b'p' ∷ []

abbrev pub mmap_name : Text
mmap_name = b'm' ∷ b'm' ∷ b'a' ∷ b'p' ∷ []

-- `check_free`: only the last region that starts below the end of the new one is looked at.
unfoldable pub check_free : RegionMap → GuestAddr → ℕ → EmuResult (Unit {0})
unfolding checked_add
check_free regions base size = do
  end ← ok_or (checked_add base size) (memory base "map overflow")
  elim (last_below end regions) [
    | none ↦ ok tt
    | some (k, r) ↦
        guard (not (ltb r.base end && ltb base (end_addr r)))
          (memory base "map overlaps existing region")
  ]

unfoldable pub map_region :
    GuestMemory → GuestAddr → ℕ → Protection → RegionKind → Text → EmuResult GuestMemory
map_region mem base size prot kind name = do
  let size' = align_up (max size 1) page_size
  check_free mem.regions base size'
  ok (record mem { regions = insert base (new_zeroed base size' prot kind name) mem.regions })

unfoldable pub map_with_data :
    GuestMemory → GuestAddr → ℕ → List ℕ → Protection → RegionKind → Text → EmuResult GuestMemory
map_with_data mem base size init prot kind name = do
  let size' = align_up (max size (length init)) page_size
  check_free mem.regions base size'
  region ← new_from base size' init prot kind name
  ok (record mem { regions = insert base region mem.regions })

-- `GuestMemory::new`.
unfoldable pub new_memory : GuestAddr → ℕ → EmuResult GuestMemory
unfolding map_region
new_memory heap_base heap_size =
    map_region
      (record {
        regions = [];
        mmap_cursor = mmap_top;
        heap_arena = new_allocator heap_base heap_size;
      })
      heap_base (align_up heap_size page_size) prot_rw heap heap_name

unfoldable pub mmap_anon : GuestMemory → ℕ → Protection → EmuResult (GuestAddr × GuestMemory)
unfolding checked_sub
mmap_anon mem size prot = do
  let size' = align_up (max size 1) page_size
  top ← ok_or (checked_sub mem.mmap_cursor size') (memory size' "mmap arena exhausted")
  let base = align_down top page_size
  mem' ← map_region mem base size' prot anonymous mmap_name
  ok (base, record mem' { mmap_cursor = base })

-- `region_base`, with the region that it found.
unfoldable pub region_base : RegionMap → GuestAddr → EmuResult (ℕ × Region)
region_base regions addr = elim (last_below (suc addr) regions) [
  | none ↦ err (memory addr "unmapped")
  | some e ↦ if has_addr e.1 addr then ok e else err (memory addr "unmapped")
]

unfoldable pub protect : GuestMemory → GuestAddr → Protection → EmuResult GuestMemory
protect mem addr prot = do
  (base, region) ← region_base mem.regions addr
  ok (record mem { regions = replace base (record region { prot = prot }) mem.regions })

unfoldable pub heap_alloc : GuestMemory → ℕ → ℕ → EmuResult (GuestAddr × GuestMemory)
heap_alloc mem size align = do
  (addr, arena) ← alloc mem.heap_arena size align
  ok (addr, record mem { heap_arena = arena })

-- `slice` and `slice_mut` look the region up alike.
unfoldable pub region_for : RegionMap → GuestAddr → EmuResult (ℕ × Region)
region_for regions addr = ok_or (last_below (suc addr) regions) (memory addr "unmapped")

-- `GuestMemory::read` of `len` bytes.
unfoldable pub read : GuestMemory → GuestAddr → ℕ → EmuResult (List ℕ)
unfolding region_for
read mem addr len = do (_, region) ← region_for mem.regions addr; subslice region addr len prot_read

unfoldable pub write : GuestMemory → GuestAddr → List ℕ → EmuResult GuestMemory
unfolding region_for
write mem addr src = do
  (base, region) ← region_for mem.regions addr
  region' ← overwrite region addr src prot_write
  ok (record mem { regions = replace base region' mem.regions })
