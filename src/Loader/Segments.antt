-- ===== src/Loader/Segments.antt =====
-- crates/core/src/loader.rs, steps 1, 1.5, 4 and 5 of `build_process`: the segments are mapped,
-- their pointers rebased and their protections set, and the initializers are collected.
use emulator_ios_for_android.Base.{
  ℕ, zero, suc, ◌*◌, ◌/◌, true, false, ◌&&◌, Option, none, some, List, [], ◌∷◌, ◌++◌, length, ltb,
  leb, ◌==◌, if◌then◌else◌,
}
use emulator_ios_for_android.Common.Result.{EmuResult, dyld, ok, err, ok_or, ◌>>=◌}
use emulator_ios_for_android.Common.Addr.{GuestAddr, wrapping_add}
use emulator_ios_for_android.Common.Protection.{Protection, prot_none, prot_read, prot_rw}
use emulator_ios_for_android.Dyld.Linker.{same_name}
use emulator_ios_for_android.Dyld.Rebase.{RebaseLocation, rebase_type_pointer, parse_rebase_info}
use emulator_ios_for_android.Memory.Region.{segment}
use emulator_ios_for_android.Memory.Guest.{GuestMemory, map_with_data, protect}
use emulator_ios_for_android.Memory.Typed.{read_u64, write_u64}
use emulator_ios_for_android.Macho.Image.{Section, Segment, DyldInfo, MachOImage, is_mod_init}
use emulator_ios_for_android.Loader.Layout.{panicked, get_range, u32_add, segment_base, pagezero}

-- The bytes of the file that a segment starts with.
unfoldable pub file_data : Segment → List ℕ → EmuResult (List ℕ)
unfolding wrapping_add get_range
file_data s bytes =
    let file_end = wrapping_add s.fileoff s.filesize in
    if ltb 0 s.filesize && leb file_end (length bytes)
    then ok_or (get_range bytes s.fileoff file_end) panicked
    else ok []

module _ (slide : ℕ) (bytes : List ℕ) where
  -- Step 1. The bases of the segments come with the memory.
  unfoldable pub map_segments :
      List Segment → GuestMemory → EmuResult (List (Option GuestAddr) × GuestMemory)
  unfolding same_name file_data wrapping_add
  map_segments [] mem = ok ([], mem)
  map_segments (s ∷ ss) mem = elim (same_name s.name pagezero) [
    | true ↦ do (bases, mem) ← map_segments ss mem; ok (none ∷ bases, mem)
    | false ↦ do
      let base = wrapping_add s.vmaddr slide
      init ← file_data s bytes
      mem ← map_with_data mem base s.vmsize init prot_rw segment s.name
      (bases, mem) ← map_segments ss mem
      ok (some base ∷ bases, mem)
  ]

  module _ (bases : List (Option GuestAddr)) where
    unfoldable pub rebase_location : RebaseLocation → GuestMemory → EmuResult GuestMemory
    unfolding segment_base wrapping_add read_u64 write_u64
    rebase_location l mem =
        if l.rtype == rebase_type_pointer
        then elim (segment_base bases l.seg_index) [
          | none ↦ ok mem
          | some base ↦ elim (read_u64 mem (wrapping_add base l.seg_offset)) [
            | ok v ↦ write_u64 mem (wrapping_add base l.seg_offset) (wrapping_add v slide)
            | err e ↦ ok mem
          ]
        ]
        else ok mem

    unfoldable pub rebase_all : List RebaseLocation → GuestMemory → EmuResult GuestMemory
    unfolding rebase_location
    rebase_all [] mem = ok mem
    rebase_all (l ∷ ls) mem = do mem ← rebase_location l mem; rebase_all ls mem

    unfoldable pub rebase_stream : DyldInfo → GuestMemory → EmuResult GuestMemory
    unfolding rebase_all get_range u32_add parse_rebase_info
    rebase_stream info mem =
        if info.rebase_size == 0
        then ok mem
        else ok_or (get_range bytes info.rebase_off (u32_add info.rebase_off info.rebase_size))
            (dyld "rebase stream out of range")
          >>= λ stream. parse_rebase_info stream >>= λ locations. rebase_all locations mem

    -- Step 1.5.
    unfoldable pub rebase_image : MachOImage → GuestMemory → EmuResult GuestMemory
    unfolding rebase_stream
    rebase_image img mem =
        if slide == 0
        then ok mem
        else elim img.dyld_info [ none ↦ ok mem | some info ↦ rebase_stream info mem ]

-- Step 4: a segment without any protection becomes readable.
unfoldable pub final_protection : Segment → Protection
final_protection s = if s.initprot == prot_none then prot_read else s.initprot

unfoldable pub restore_protections :
    List Segment → List (Option GuestAddr) → GuestMemory → EmuResult GuestMemory
unfolding final_protection
restore_protections [] bases mem = ok mem
restore_protections (s ∷ ss) [] mem = ok mem
restore_protections (s ∷ ss) (none ∷ bases) mem = restore_protections ss bases mem
restore_protections (s ∷ ss) (some base ∷ bases) mem = do
  mem ← protect mem base (final_protection s)
  restore_protections ss bases mem

module _ (slide : ℕ) (mem : GuestMemory) where
  -- `for i in i..i + count`: the words of a section that can be read.
  unfoldable pub section_pointers : GuestAddr → ℕ → ℕ → List GuestAddr
  unfolding wrapping_add read_u64
  section_pointers addr zero i = []
  section_pointers addr (suc count) i =
      let rest = section_pointers addr count (suc i) in
      elim (read_u64 mem (wrapping_add (wrapping_add addr slide) (i * 8))) [
        | ok fp ↦ fp ∷ rest
        | err e ↦ rest
      ]

  unfoldable pub sections_init_funcs : List Section → List GuestAddr
  unfolding section_pointers is_mod_init
  sections_init_funcs [] = []
  sections_init_funcs (s ∷ ss) =
      (if is_mod_init s then section_pointers s.addr (s.size / 8) 0 else [])
      ++ sections_init_funcs ss

  -- Step 5.
  unfoldable pub init_funcs : List Segment → List GuestAddr
  unfolding sections_init_funcs
  init_funcs [] = []
  init_funcs (s ∷ ss) = sections_init_funcs s.sections ++ init_funcs ss
