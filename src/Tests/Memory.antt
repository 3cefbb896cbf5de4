-- ===== src/Tests/Memory.antt =====
-- crates/memory and crates/common on a memory with one region of eight bytes.
use emulator_ios_for_android.Base.{
  ℕ, ◌+◌, ◌-◌, ◌%◌, ◌^◌, ◌≤◌, ◌<◌, ◌≡◌, ◌↔◌, refl, arith, List, [], ◌∷◌, length, replicate, ◌++◌,
  All, get_elem?, none, some, max,
}
use emulator_ios_for_android.Common.Utf8.{Text}
use emulator_ios_for_android.Common.Result.{ok, memory, ok_or}
use emulator_ios_for_android.Common.Addr.{
  u64_mod, wrapping_add, wrapping_sub, not_u64, checked_add, checked_sub,
}
use emulator_ios_for_android.Common.Align.{align_up, align_down, page_size}
use emulator_ios_for_android.Common.Endian.{to_le, from_le}
use emulator_ios_for_android.Common.Protection.{prot_rw, prot_read, contains}
use emulator_ios_for_android.Memory.Region.{
  Region, anonymous, segment, new_zeroed, new_from, size, end_addr, has_addr, range, subslice,
  overwrite,
}
use emulator_ios_for_android.Memory.RegionMap.{last_below, insert, replace}
use emulator_ios_for_android.Memory.Allocator.{BumpAllocator, alloc}
use emulator_ios_for_android.Memory.Guest.{
  mmap_name, GuestMemory, mmap_top, check_free, map_region, map_with_data, mmap_anon, region_base,
  protect, read, write, region_for,
}
use emulator_ios_for_android.Memory.Spread.{IsSpread, find_covering}
use emulator_ios_for_android.Memory.Update.{IsApart}
use emulator_ios_for_android.Memory.CheckFree.{check_free_iff}
use emulator_ios_for_android.Memory.Bytes.{byte_at}
use emulator_ios_for_android.Memory.Mapping.{
  IsValid, Maps, Shows, padded, map_with_data-Maps, mmap_anon-Maps,
}
use emulator_ios_for_android.Memory.ReadWrite.{read-byte_at, write-Shows, read-write}
use emulator_ios_for_android.Memory.Typed.{
  read_uint, read_u8, read_u64, write_u64, read_u64-write_u64, cstr_bytes, IsCstr,
  cstr_bytes-IsCstr,
}
use emulator_ios_for_android.Memory.Protect.{Protects, region_base-find, protect-Shows}
use emulator_ios_for_android.Memory.Arena.{IsArena, alloc_block}
use emulator_ios_for_android.Memory.Wrap.{map_with_data_wraps}

abbrev region_name : Text
region_name = b'r' ∷ []

abbrev arena : BumpAllocator
arena = record { base = 0x10000; limit = 0x20000; cursor = 0x10001 }

arena-IsArena : IsArena arena
arena-IsArena = record {
  above_base = omega arith;
  below_limit = omega arith;
  limit_fits = omega arith;
}

abbrev region : Region
region = record {
  base = 0x4000;
  prot = prot_rw;
  kind = anonymous;
  name = region_name;
  bytes = 72 ∷ 105 ∷ 0 ∷ 1 ∷ 2 ∷ 3 ∷ 4 ∷ 5 ∷ [];
}

abbrev mem : GuestMemory
mem = record { regions = (0x4000, region) ∷ []; mmap_cursor = mmap_top; heap_arena = arena }

abbrev patched : GuestMemory
patched = record mem {
  regions = (0x4000, record region { bytes = 7 ∷ 0 ∷ 0 ∷ 0 ∷ 0 ∷ 0 ∷ 0 ∷ 0 ∷ [] }) ∷ [];
}

abbrev locked : GuestMemory
locked = record mem { regions = (0x4000, record region { prot = prot_read }) ∷ [] }

mem-IsSpread : IsSpread 0 mem.regions
mem-IsSpread = (omega arith, (refl, omega arith, omega arith), tt)

mem-IsValid : IsValid mem
mem-IsValid = record { spread = mem-IsSpread; cursor_page = refl; cursor_fits = omega arith }

abbrev bumped : BumpAllocator
bumped = record arena { cursor = 0x10015 }

alloc_run : alloc arena 5 (2 ^ 4) ≡ ok (0x10010, bumped)
unfolding alloc align_up wrapping_add wrapping_sub not_u64 checked_add
alloc_run = refl

alloc_block_example :
    (0x10010 % 2 ^ 4 ≡ 0)
    × (arena.cursor ≤ 0x10010)
    × (0x10010 + max 5 1 ≡ bumped.cursor)
    × IsArena bumped
    × (bumped.base ≡ arena.base)
    × (bumped.limit ≡ arena.limit)
alloc_block_example =
    alloc_block arena bumped 4 60 5 0x10010 refl (omega arith) arena-IsArena alloc_run

check_free_iff_example :
    (check_free mem.regions 0x4008 16 ≡ ok tt)
    ↔ ((0x4008 + 16 < u64_mod) × All (IsApart 0x4008 (0x4008 + 16)) mem.regions)
check_free_iff_example = check_free_iff mem.regions 0x4008 16 mem-IsSpread

abbrev mapped : GuestMemory
mapped = record mem {
  regions = insert 0x8000 (new_zeroed 0x8000 0x4000 prot_rw anonymous region_name) mem.regions;
}

free_page : check_free mem.regions 0x8000 0x4000 ≡ ok tt
unfolding check_free checked_add last_below end_addr wrapping_add size
free_page = refl

one_page : align_up (max 1 1) page_size ≡ 0x4000
unfolding align_up wrapping_add wrapping_sub not_u64
one_page = refl

whole_page : align_up (max 0x4000 2) page_size ≡ 0x4000
unfolding align_up wrapping_add wrapping_sub not_u64
whole_page = refl

map_run : map_region mem 0x8000 1 prot_rw anonymous region_name ≡ ok mapped
unfolding map_region
map_run = rw (one_page, free_page) refl

abbrev init : List ℕ
init = 1 ∷ 2 ∷ []

abbrev loaded : Region
loaded = record {
  base = 0x8000;
  prot = prot_rw;
  kind = segment;
  name = region_name;
  bytes = init ++ replicate (0x4000 - length init) 0;
}

load_run :
    map_with_data mem 0x8000 0x4000 init prot_rw segment region_name
    ≡ ok (record mem { regions = insert 0x8000 loaded mem.regions })
unfolding map_with_data new_from
load_run = rw (whole_page, free_page) refl

map_with_data-Maps_example :
    Maps mem 0x8000
      (align_up (max 0x4000 (length init)) page_size)
      (padded init)
      (record mem { regions = insert 0x8000 loaded mem.regions })
map_with_data-Maps_example =
    map_with_data-Maps mem (record mem { regions = insert 0x8000 loaded mem.regions }) 0x8000 0x4000
      init prot_rw segment region_name mem-IsValid (omega arith) (omega arith) load_run

abbrev at_top : ℕ
at_top = 0x1_FFFF_C000

abbrev anon : GuestMemory
anon = record mem {
  regions = insert at_top (new_zeroed at_top 0x4000 prot_rw anonymous mmap_name) mem.regions;
  mmap_cursor = at_top;
}

anon_run : mmap_anon mem 1 prot_rw ≡ ok (at_top, anon)
unfolding mmap_anon checked_sub align_down map_region align_up wrapping_add wrapping_sub not_u64
    check_free checked_add last_below end_addr size
anon_run = refl

mmap_anon-Maps_example :
    (at_top + align_up (max 1 1) page_size ≡ mmap_top)
    × (at_top ≡ at_top)
    × Maps mem at_top (align_up (max 1 1) page_size) (λ i. some 0) anon
mmap_anon-Maps_example = mmap_anon-Maps mem anon 1 at_top prot_rw mem-IsValid (omega arith) anon_run

abbrev seven : List ℕ
seven = 7 ∷ 0 ∷ 0 ∷ 0 ∷ 0 ∷ 0 ∷ 0 ∷ 0 ∷ []

write_run : write mem 0x4000 seven ≡ ok patched
unfolding write region_for last_below overwrite range wrapping_sub checked_add contains replace
write_run = refl

read_run : read mem 0x4000 8 ≡ ok region.bytes
unfolding read region_for last_below subslice range wrapping_sub checked_add contains
read_run = refl

write-Shows_example :
    IsValid patched × Shows mem.regions patched.regions 0x4000 (length seven) (get_elem? seven)
write-Shows_example = write-Shows mem patched 0x4000 seven mem-IsValid (omega arith) write_run

read-byte_at_example :
    (length region.bytes ≡ 8) × (byte_at mem.regions (0x4000 + 3) ≡ get_elem? region.bytes 3)
read-byte_at_example =
    read-byte_at mem 0x4000 8 region.bytes 3 mem-IsValid (omega arith) read_run (omega arith)

read-write_example : read patched 0x4000 (length seven) ≡ ok seven
read-write_example =
    read-write mem patched 0x4000 seven region.bytes mem-IsValid (omega arith) read_run write_run

abbrev word : ℕ
word = 0x0504_0302_0100_6948

read_word : read_u64 mem 0x4000 ≡ ok word
unfolding read_u64 read_uint read region_for last_below subslice range wrapping_sub checked_add
    contains from_le
read_word = refl

write_word : write_u64 mem 0x4000 7 ≡ ok patched
unfolding write_u64 to_le write region_for last_below overwrite range wrapping_sub checked_add
    contains replace
write_word = refl

read_u64-write_u64_example : read_u64 patched 0x4000 ≡ ok 7
read_u64-write_u64_example =
    read_u64-write_u64 mem patched 0x4000 7 word mem-IsValid (omega arith) (omega arith) read_word
      write_word

scan_run : cstr_bytes 4 mem 0x4000 ≡ ok (72 ∷ 105 ∷ [])
unfolding cstr_bytes read_u8 read_uint read region_for last_below subslice range wrapping_add
    wrapping_sub checked_add contains from_le
scan_run = refl

cstr_bytes-IsCstr_example : IsCstr mem 0x4000 4 (72 ∷ 105 ∷ [])
cstr_bytes-IsCstr_example =
    cstr_bytes-IsCstr 4 mem 0x4000 (72 ∷ 105 ∷ []) mem-IsValid (omega arith) scan_run

region_base-find_example :
    region_base mem.regions 0x4003
    ≡ ok_or (find_covering mem.regions 0x4003) (memory 0x4003 "unmapped")
region_base-find_example = region_base-find mem.regions 0x4003 mem-IsSpread

protect_run : protect mem 0x4003 prot_read ≡ ok locked
unfolding protect region_base last_below has_addr end_addr size wrapping_add replace
protect_run = refl

protect-Shows_example : Protects mem 0x4003 prot_read locked
protect-Shows_example = protect-Shows mem locked 0x4003 prot_read mem-IsValid protect_run

find_run : find_covering mem.regions 0x4000 ≡ some (0x4000, region)
unfolding find_covering
find_run = refl

map_with_data_wraps_example :
    (mem' : GuestMemory) × (map_with_data mem 0x4000 (u64_mod - 1) [] prot_rw segment region_name
      ≡ ok mem')
    × (byte_at mem'.regions 0x4005 ≡ none)
map_with_data_wraps_example =
    map_with_data_wraps mem 0x4000 (u64_mod - 1) prot_rw segment region_name (0x4000, region) 0x4005
      mem-IsValid refl (omega arith) (omega arith) find_run refl
